-- ===== src/Strip/Dart.antt =====
-- crates/agents/nerd/src/coding/noise_stripper/dart.rs: the stripper of Dart.
pub mod Lexical
use xoxo.Base.{
  ℕ, ◌-◌, Bool, true, false, not, ◌&&◌, ◌||◌, List, [], ◌∷◌, ◌++◌, ◌≡◌, refl, arith, Bytes, codes,
  ◌==◌, if◌then◌else◌, length,
}
use xoxo.Strip.Scan.{
  Move, move, starts_with, next_is, push_with_escape, blank_line, blank_char, scan, run, SameShape,
  Covers,
}
use xoxo.Strip.Shape.{run-SameShape}

pub data State : Type 0 where
  code single_quote double_quote triple_single_quote triple_double_quote raw_single_quote
        raw_double_quote line_comment block_comment :
      State

-- Both are called with `next_state` the state `Code`. After a backslash that ends the file the source
-- moves `i` by two, past the end, where the loop stops as it does at the end.
push_until : Bytes → State → ℕ → Bytes → Move State
push_until terminator state c [] =
    if starts_with terminator (c ∷ [])
    then move terminator (length terminator) code
    else move (c ∷ []) 1 state
push_until terminator state c (d ∷ cs) =
    if starts_with terminator (c ∷ d ∷ cs)
    then move terminator (length terminator) code
    else if c == b'\\'
    then move (c ∷ d ∷ []) 2 state
    else move (c ∷ []) 1 state

push_raw_until : Bytes → State → ℕ → Bytes → Move State
push_raw_until terminator state c cs =
    if starts_with terminator (c ∷ cs)
    then move terminator (length terminator) code
    else move (c ∷ []) 1 state

unfoldable pub step : State → ℕ → Bytes → Move State
unfolding starts_with push_with_escape push_until push_raw_until
step code c cs =
    if starts_with (codes "'''") (c ∷ cs)
    then move (codes "'''") 3 triple_single_quote
    else if starts_with (codes "\"\"\"") (c ∷ cs)
    then move (codes "\"\"\"") 3 triple_double_quote
    else if starts_with (codes "r'") (c ∷ cs)
    then move (codes "r'") 2 raw_single_quote
    else if starts_with (codes "r\"") (c ∷ cs)
    then move (codes "r\"") 2 raw_double_quote
    else if starts_with (codes "//") (c ∷ cs)
    then move (codes "//") 2 line_comment
    else if starts_with (codes "/*") (c ∷ cs)
    then move (codes "/*") 2 block_comment
    else if c == b'\''
    then move (codes "'") 1 single_quote
    else if c == b'"'
    then move (codes "\"") 1 double_quote
    else move (c ∷ []) 1 code
step single_quote c cs = push_with_escape code single_quote b'\'' c cs
step double_quote c cs = push_with_escape code double_quote b'"' c cs
step triple_single_quote c cs = push_until (codes "'''") triple_single_quote c cs
step triple_double_quote c cs = push_until (codes "\"\"\"") triple_double_quote c cs
step raw_single_quote c cs = push_raw_until (codes "'") raw_single_quote c cs
step raw_double_quote c cs = push_raw_until (codes "\"") raw_double_quote c cs
step line_comment c cs = blank_line code line_comment c
step block_comment c cs =
    if starts_with (codes "*/") (c ∷ cs)
    then move (codes "*/") 2 code
    else blank_char block_comment c

unfoldable pub strip_dart_noise : Bytes → Bytes
unfolding scan step
strip_dart_noise = run step code

pub step-Covers : (s : State) (c : ℕ) (cs : Bytes) → Covers (c ∷ cs) (step s c cs)
unfolding step
step-Covers code c [] = ground arith
step-Covers _ c cs = ground arith

pub strip_dart_noise-SameShape : (content : Bytes) → SameShape content (strip_dart_noise content)
unfolding strip_dart_noise scan
strip_dart_noise-SameShape = run-SameShape step step-Covers code
