-- ===== src/Strip/Elixir.antt =====
-- crates/agents/nerd/src/coding/noise_stripper/elixir.rs: the stripper of Elixir.
use xoxo.Base.{ℕ, [], ◌∷◌, arith, Bytes, codes, ◌==◌, if◌then◌else◌}
use xoxo.Strip.Scan.{
  Move, move, starts_with, push_with_escape, blank_line, scan, run, SameShape, Covers,
}
use xoxo.Strip.Shape.{run-SameShape}

pub data State : Type 0 where
  code single_quote double_quote triple_single_quote triple_double_quote line_comment : State

unfoldable pub step : State → ℕ → Bytes → Move State
unfolding starts_with push_with_escape
step code c cs =
    if starts_with (codes "'''") (c ∷ cs)
    then move (codes "'''") 3 triple_single_quote
    else if starts_with (codes "\"\"\"") (c ∷ cs)
    then move (codes "\"\"\"") 3 triple_double_quote
    else if c == b'#'
    then move (codes "#") 1 line_comment
    else if c == b'\''
    then move (codes "'") 1 single_quote
    else if c == b'"'
    then move (codes "\"") 1 double_quote
    else move (c ∷ []) 1 code
step single_quote c cs = push_with_escape code single_quote b'\'' c cs
step double_quote c cs = push_with_escape code double_quote b'"' c cs
step triple_single_quote c cs =
    if starts_with (codes "'''") (c ∷ cs)
    then move (codes "'''") 3 code
    else move (c ∷ []) 1 triple_single_quote
step triple_double_quote c cs =
    if starts_with (codes "\"\"\"") (c ∷ cs)
    then move (codes "\"\"\"") 3 code
    else move (c ∷ []) 1 triple_double_quote
step line_comment c cs = blank_line code line_comment c

unfoldable pub strip_elixir_noise : Bytes → Bytes
unfolding scan step
strip_elixir_noise = run step code

pub step-Covers : (s : State) (c : ℕ) (cs : Bytes) → Covers (c ∷ cs) (step s c cs)
unfolding step
step-Covers code c [] = ground arith
step-Covers _ c cs = ground arith

pub strip_elixir_noise-SameShape :
    (content : Bytes) → SameShape content (strip_elixir_noise content)
unfolding strip_elixir_noise scan
strip_elixir_noise-SameShape = run-SameShape step step-Covers code
