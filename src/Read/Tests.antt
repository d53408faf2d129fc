-- ===== src/Read/Tests.antt =====
-- A file read in part, without its comments.
use xoxo.Base.{
  ℕ, ltb, ◌+◌, ◌-◌, List, Bool, true, false, [], ◌∷◌, Option, none, some, ◌≡◌, refl, arith, Bytes,
  codes, ok, err, length, if◌then◌else◌,
}
use xoxo.Strip.Shape.{IsAscii, IsAscii-is_ascii}
use xoxo.Strip.Scan.{one_of}
use xoxo.Strip.JavaScript.{ascii_chars}
use xoxo.Strip.Dispatch.{Std, detect_language, strip_noise}
use xoxo.Strip.CFamily.{strip_c_family_noise}
use xoxo.Read.{
  Files, strip_cr, text_lines, split_colon, parse_range, read_range, read_content, read_file_impl,
  invalid_line_range,
}
use xoxo.Patch.Lines.{join}
use xoxo.Read.Numbering.{line_numbered, read_file_impl-selected_lines}

-- A number of one digit.
abbrev digit : Bytes → Option ℕ
digit (c ∷ []) = if one_of (codes "0123456789") c then some (c - b'0') else none
digit _ = none

abbrev is_blank : Bytes → Bool
is_blank [] = true
is_blank (b ∷ bs) = if one_of (codes " \t\r\n") b then is_blank bs else false

abbrev ascii_std : Std
ascii_std = record {
  is_utf8 = λ bs. true;
  is_blank = λ bs. is_blank bs;
  decode = λ bs. bs;
  chars = ascii_chars;
}

abbrev content : Bytes
content = codes "int a; // one\n/* two\n   three */ int b;\nint c;\n"

-- One file of C.
abbrev one_file : Files
one_file = record {
  exists = λ path. true;
  read_to_string = λ path. ok content;
  extension = λ path. some "c";
  parse = λ bs. digit bs;
}

count_lines : length (text_lines content) ≡ 4
unfolding text_lines strip_cr
count_lines = refl

range_of_two : parse_range one_file (codes "2:3") ≡ some (2, 3)
unfolding parse_range split_colon one_of
range_of_two = refl

read_two_lines :
    read_file_impl one_file ascii_std true "a.c" (some (codes "2:3")) false
    ≡ ok (codes "/*    \n         */ int b;", 4)
unfolding read_file_impl join strip_cr one_of read_content read_range parse_range strip_noise
    strip_c_family_noise
read_two_lines = refl

read_backwards :
    read_file_impl one_file ascii_std true "a.c" (some (codes "3:2")) false
    ≡ err (invalid_line_range (codes "3:2") 4)
unfolding read_file_impl strip_cr one_of read_content read_range parse_range
read_backwards = refl

abbrev stripped : Bytes
stripped = strip_noise ascii_std true (some "c") content

content-IsAscii : IsAscii content
content-IsAscii = IsAscii-is_ascii content refl

read_file_impl-selected_lines_example :
    (lines : List Bytes) × (read_file_impl one_file ascii_std true "a.c" (some (codes "2:3")) false
      ≡ ok (join (codes "\n") lines, length (text_lines content)))
    × (length lines ≡ 2)
    × ((i : ℕ)
        → line_numbered (i + 1) lines
          ≡ (if ltb i (length lines) then line_numbered (2 + i) (text_lines stripped) else none))
unfolding text_lines strip_cr
read_file_impl-selected_lines_example =
    read_file_impl-selected_lines one_file ascii_std "a.c" (codes "2:3") false content 2 3 refl refl
      (λ bs a. refl) content-IsAscii (unfold detect_language in refl) range_of_two (omega arith)
      (omega arith) (omega (arith, count_lines))
