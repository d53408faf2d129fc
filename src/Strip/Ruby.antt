-- ===== src/Strip/Ruby.antt =====
-- crates/agents/nerd/src/coding/noise_stripper/ruby.rs: the stripper of Ruby.
use xoxo.Base.{
  ℕ, Bool, true, false, not, ◌&&◌, ◌||◌, [], ◌∷◌, arith, Bytes, codes, ◌==◌, if◌then◌else◌,
}
use xoxo.Strip.Scan.{
  Move, move, starts_with, next_is, push_with_escape, blank_line, scan, run, SameShape, Covers,
}
use xoxo.Strip.Shape.{run-SameShape}

pub data State : Type 0 where
  code single_quote double_quote line_comment block_comment : State

-- The variables of the loop.
pub record Loop : Type 0 where
  pub state : State
  pub at_line_start : Bool

abbrev at : State → Bool → Loop
at s b = record { state = s; at_line_start = b }

-- On the bytes behind the `#`.
is_shebang : Bytes → Bool → Bool
is_shebang cs at_line_start = at_line_start && next_is b'!' cs

step_in : State → Bool → ℕ → Bytes → Move Loop
unfolding starts_with push_with_escape is_shebang
step_in code start c cs =
    if start && starts_with (codes "=begin") (c ∷ cs)
    then move (codes "=begin") 6 (at block_comment false)
    else if c == b'#' && not (is_shebang cs start)
    then move (codes "#") 1 (at line_comment start)
    else if c == b'\''
    then move (codes "'") 1 (at single_quote false)
    else if c == b'"'
    then move (codes "\"") 1 (at double_quote false)
    else if c == b'\n'
    then move (codes "\n") 1 (at code true)
    else if c == b' ' || c == b'\t' || c == b'\r'
    then move (c ∷ []) 1 (at code start)
    else move (c ∷ []) 1 (at code false)
step_in single_quote start c cs =
    push_with_escape (at code false) (at single_quote false) b'\'' c cs
step_in double_quote start c cs = push_with_escape (at code false) (at double_quote false) b'"' c cs
step_in line_comment start c cs = blank_line (at code true) (at line_comment start) c
step_in block_comment start c cs =
    if c == b'\n'
    then move (codes "\n") 1 (at block_comment true)
    else if start && starts_with (codes "=end") (c ∷ cs)
    then move (codes "=end") 4 (at code false)
    else move (codes " ") 1 (at block_comment false)

unfoldable pub step : Loop → ℕ → Bytes → Move Loop
unfolding step_in
step s = step_in s.state s.at_line_start

unfoldable pub strip_ruby_noise : Bytes → Bytes
unfolding scan step
strip_ruby_noise = run step (at code true)

step_in-Covers :
    (s : State) (start : Bool) (c : ℕ) (cs : Bytes) → Covers (c ∷ cs) (step_in s start c cs)
unfolding step_in
step_in-Covers code start c [] = ground arith
step_in-Covers _ start c cs = ground arith

pub step-Covers : (s : Loop) (c : ℕ) (cs : Bytes) → Covers (c ∷ cs) (step s c cs)
unfolding step
step-Covers s c cs = step_in-Covers s.state s.at_line_start c cs

pub strip_ruby_noise-SameShape : (content : Bytes) → SameShape content (strip_ruby_noise content)
unfolding strip_ruby_noise scan
strip_ruby_noise-SameShape = run-SameShape step step-Covers (at code true)
