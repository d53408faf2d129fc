-- ===== src/Strip/Fortran.antt =====
-- crates/agents/nerd/src/coding/noise_stripper/fortran.rs: the stripper of Fortran, line by line.
-- `line.chars()` is the standard library's decoding of UTF-8: a parameter.
use xoxo.Base.{ℕ, Bool, false, ◌||◌, List, [], ◌∷◌, ◌++◌, Bytes, codes, ◌==◌, if◌then◌else◌}
use xoxo.Strip.Scan.{Move, move, next_is, run}
use xoxo.Strip.Lines.{Segment, split_inclusive, line_end}

pub data State : Type 0 where
  code single_quote double_quote line_comment : State

-- Called with `next_state` the state `Code`.
push_quote : State → ℕ → ℕ → Bytes → Move State
push_quote state terminator c cs =
    if c == terminator
    then (if next_is terminator cs
        then move (c ∷ terminator ∷ []) 2 state
        else move (c ∷ []) 1 code)
    else move (c ∷ []) 1 state

unfoldable pub step : State → ℕ → Bytes → Move State
unfolding push_quote
step code c cs =
    if c == b'!'
    then move (codes "!") 1 line_comment
    else if c == b'\''
    then move (codes "'") 1 single_quote
    else if c == b'"'
    then move (codes "\"") 1 double_quote
    else move (c ∷ []) 1 code
step single_quote c cs = push_quote single_quote b'\'' c cs
step double_quote c cs = push_quote double_quote b'"' c cs
step line_comment c cs = move (b' ' ∷ []) 1 line_comment

unfoldable pub is_fixed_form_comment : Bytes → Bool
is_fixed_form_comment [] = false
is_fixed_form_comment (c ∷ cs) = c == b'c' || c == b'C' || c == b'*' || c == b'!'

unfoldable pub blank_chars : Bytes → Bytes
blank_chars [] = []
blank_chars (ch ∷ rest) = (if ch == b'\t' then b'\t' else b' ') ∷ blank_chars rest

-- The first character stays.
unfoldable pub blank_fixed_form : Bytes → Bytes
blank_fixed_form [] = []
blank_fixed_form (first ∷ rest) = first ∷ blank_chars rest

module _ (chars : Bytes → Bytes) where
  unfoldable pub strip_fortran_line : Bytes → Bytes
  unfolding is_fixed_form_comment blank_chars blank_fixed_form
  strip_fortran_line line =
      if is_fixed_form_comment line then blank_fixed_form (chars line) else run step code line

  unfoldable pub strip_fortran_segments : List Segment → Bytes
  strip_fortran_segments [] = []
  strip_fortran_segments ((line, has_newline) ∷ rest) =
      (strip_fortran_line line ++ line_end has_newline) ++ strip_fortran_segments rest

  unfoldable pub strip_fortran_noise : Bytes → Bytes
  unfolding strip_fortran_segments strip_fortran_line
  strip_fortran_noise content = strip_fortran_segments (split_inclusive content)
