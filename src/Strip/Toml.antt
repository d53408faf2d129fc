-- ===== src/Strip/Toml.antt =====
-- crates/agents/nerd/src/coding/noise_stripper/toml.rs: the stripper of TOML.
use xoxo.Base.{ℕ, [], ◌∷◌, arith, Bytes, codes, ◌==◌, if◌then◌else◌}
use xoxo.Strip.Scan.{
  Move, move, starts_with, push_with_escape, blank_line, scan, run, SameShape, Covers,
}
use xoxo.Strip.Shape.{run-SameShape}

pub data State : Type 0 where
  code basic_string literal_string multiline_basic_string multiline_literal_string line_comment :
      State

unfoldable pub step : State → ℕ → Bytes → Move State
unfolding starts_with push_with_escape
step code c cs =
    if starts_with (codes "\"\"\"") (c ∷ cs)
    then move (codes "\"\"\"") 3 multiline_basic_string
    else if starts_with (codes "'''") (c ∷ cs)
    then move (codes "'''") 3 multiline_literal_string
    else if c == b'#'
    then move (codes "#") 1 line_comment
    else if c == b'"'
    then move (codes "\"") 1 basic_string
    else if c == b'\''
    then move (codes "'") 1 literal_string
    else move (c ∷ []) 1 code
step basic_string c cs = push_with_escape code basic_string b'"' c cs
step literal_string c cs = move (c ∷ []) 1 (if c == b'\'' then code else literal_string)
step multiline_basic_string c [] = move (c ∷ []) 1 multiline_basic_string
step multiline_basic_string c (d ∷ cs) =
    if c == b'\\'
    then move (c ∷ d ∷ []) 2 multiline_basic_string
    else if starts_with (codes "\"\"\"") (c ∷ d ∷ cs)
    then move (c ∷ codes "\"\"") 3 code
    else move (c ∷ []) 1 multiline_basic_string
step multiline_literal_string c cs =
    if starts_with (codes "'''") (c ∷ cs)
    then move (c ∷ codes "''") 3 code
    else move (c ∷ []) 1 multiline_literal_string
step line_comment c cs = blank_line code line_comment c

unfoldable pub strip_toml_noise : Bytes → Bytes
unfolding scan step
strip_toml_noise = run step code

pub step-Covers : (s : State) (c : ℕ) (cs : Bytes) → Covers (c ∷ cs) (step s c cs)
unfolding step
step-Covers code c [] = ground arith
step-Covers _ c cs = ground arith

pub strip_toml_noise-SameShape : (content : Bytes) → SameShape content (strip_toml_noise content)
unfolding strip_toml_noise scan
strip_toml_noise-SameShape = run-SameShape step step-Covers code
