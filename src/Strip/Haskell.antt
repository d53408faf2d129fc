-- ===== src/Strip/Haskell.antt =====
-- crates/agents/nerd/src/coding/noise_stripper/haskell.rs: the stripper of Haskell.
pub mod Again
pub mod Lexical
use xoxo.Base.{
  ℕ, ◌-◌, Bool, true, false, not, ◌&&◌, ◌||◌, List, [], ◌∷◌, ◌++◌, ◌≡◌, refl, arith, Bytes, codes,
  ◌==◌, if◌then◌else◌,
}
use xoxo.Strip.Scan.{
  Move, move, starts_with, next_is, push_with_escape, blank_line, blank_char, scan, run, SameShape,
  Covers,
}
use xoxo.Strip.Shape.{run-SameShape}

pub data State : Type 0 where
  code single_quote double_quote line_comment block_comment : State

unfoldable pub step : State → ℕ → Bytes → Move State
unfolding starts_with push_with_escape
step code c cs =
    if starts_with (codes "--") (c ∷ cs)
    then move (codes "--") 2 line_comment
    else if starts_with (codes "{-") (c ∷ cs)
    then move (codes "{-") 2 block_comment
    else if c == b'\''
    then move (codes "'") 1 single_quote
    else if c == b'"'
    then move (codes "\"") 1 double_quote
    else move (c ∷ []) 1 code
step single_quote c cs = push_with_escape code single_quote b'\'' c cs
step double_quote c cs = push_with_escape code double_quote b'"' c cs
step line_comment c cs = blank_line code line_comment c
step block_comment c cs =
    if starts_with (codes "-}") (c ∷ cs)
    then move (codes "-}") 2 code
    else blank_char block_comment c

unfoldable pub strip_haskell_noise : Bytes → Bytes
unfolding scan step
strip_haskell_noise = run step code

pub step-Covers : (s : State) (c : ℕ) (cs : Bytes) → Covers (c ∷ cs) (step s c cs)
unfolding step
step-Covers code c [] = ground arith
step-Covers _ c cs = ground arith

pub strip_haskell_noise-SameShape :
    (content : Bytes) → SameShape content (strip_haskell_noise content)
unfolding strip_haskell_noise scan
strip_haskell_noise-SameShape = run-SameShape step step-Covers code
