-- ===== src/Read.antt =====
-- crates/agents/nerd/src/tools/read_file.rs: `read_file_impl`. The files, the parsing of a number and the
-- extension of a path are the standard library's, a parameter, and so is the decoding of a text into the
-- characters that are shown.
pub mod Numbering
mod Tests
use xoxo.Base.{
  ℕ, ◌+◌, ◌-◌, Bool, true, false, ◌||◌, List, [], ◌∷◌, ◌++◌, map, Option, none, some, Bytes, String,
  codes, Result, ok, err, length, take, drop, ltb, leb, ◌==◌, if◌then◌else◌,
}
use xoxo.Strip.Lines.{Segment, split_inclusive}
use xoxo.Strip.Dispatch.{Std, strip_noise}
use xoxo.Patch.Lines.{cons_first, join}

pub data ReadFileError : Type 0 where
  file_not_found : String → ReadFileError
  invalid_line_range : Bytes → ℕ → ReadFileError
  io_error : String → ReadFileError

-- `Path::exists`, `fs::read_to_string`, `Path::extension` and `str::parse` for `usize`.
pub record Files : Type 0 where
  pub exists : String → Bool
  pub read_to_string : String → Result Bytes String
  pub extension : String → Option String
  pub parse : Bytes → Option ℕ

-- A carriage return before a line end is none of the line.
unfoldable pub strip_cr : Bytes → Bytes
strip_cr [] = []
strip_cr (c ∷ []) = if c == b'\r' then [] else c ∷ []
strip_cr (c ∷ d ∷ cs) = c ∷ strip_cr (d ∷ cs)

abbrev pub line_of_segment : Segment → Bytes
line_of_segment (line, has_newline) = if has_newline then strip_cr line else line

-- `content.lines()`.
unfoldable pub text_lines : Bytes → List Bytes
unfolding split_inclusive
text_lines content = map line_of_segment (split_inclusive content)

-- `range_str.split(':')`.
unfoldable pub split_colon : Bytes → List Bytes
split_colon [] = [] ∷ []
split_colon (c ∷ cs) =
    let rest = split_colon cs in if c == b':' then [] ∷ rest else cons_first c rest

abbrev pub min : ℕ → ℕ → ℕ
min a b = if leb a b then a else b

-- The lines from number `start` to `end`, or to the last.
abbrev pub selected_lines : ℕ → ℕ → ℕ → Bytes → List Bytes
selected_lines start end total_lines processed_content =
    take (min end total_lines - start + 1) (drop (start - 1) (text_lines processed_content))

module _ (files : Files) where
  open files use {exists, read_to_string, extension, parse}

  abbrev pub both : Option ℕ → Option ℕ → Option (ℕ × ℕ)
  both (some start) (some end) = some (start, end)
  both _ _ = none

  -- The two numbers of a range; all the failures on the way have one error.
  abbrev pub parse_parts : List Bytes → Option (ℕ × ℕ)
  parse_parts (start ∷ end ∷ []) = both (parse start) (parse end)
  parse_parts _ = none

  unfoldable pub parse_range : Bytes → Option (ℕ × ℕ)
  unfolding split_colon
  parse_range range_str = parse_parts (split_colon range_str)

  unfoldable pub read_range : Bytes → ℕ → Bytes → Result (Bytes × ℕ) ReadFileError
  unfolding text_lines
  read_range range_str total_lines processed_content = elim (parse_range range_str) [
    | none ↦ err (invalid_line_range range_str total_lines)
    | some (start, end) ↦
        if start == 0 || end == 0 || ltb end start || ltb total_lines start
        then err (invalid_line_range range_str total_lines)
        else ok (
          join (codes "\n") (selected_lines start end total_lines processed_content),
          total_lines,
        )
  ]

  -- Behind the reading of the file.
  unfoldable pub read_content :
      Std → Bool → String → Option Bytes → Bool → Bytes → Result (Bytes × ℕ) ReadFileError
  unfolding text_lines
  read_content std feature file_path line_range with_noise content =
      let processed_content =
        if with_noise
        then std.decode content
        else strip_noise std feature (extension file_path) content in
      elim line_range [
        | some range_str ↦ read_range range_str (length (text_lines content)) processed_content
        | none ↦ ok (processed_content, length (text_lines content))
      ]

  -- The first flag is the feature `extension-language-detection`.
  unfoldable pub read_file_impl :
      Std → Bool → String → Option Bytes → Bool → Result (Bytes × ℕ) ReadFileError
  read_file_impl std feature file_path line_range with_noise =
      if exists file_path
      then elim (read_to_string file_path) [
        | err e ↦ err (io_error e)
        | ok content ↦ read_content std feature file_path line_range with_noise content
      ]
      else err (file_not_found file_path)
