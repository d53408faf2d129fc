-- ===== src/Strip/Groovy.antt =====
-- crates/agents/nerd/src/coding/noise_stripper/groovy.rs: the stripper of Groovy, which looks back
-- from a slash. `before` is `bytes[..i]`, the last byte first.
use xoxo.Base.{
  ℕ, Bool, true, false, ◌&&◌, ◌||◌, [], ◌∷◌, ◌++◌, arith, Bytes, codes, take, ◌==◌, if◌then◌else◌,
}
use mathlib.Core.List.{reverse}
use xoxo.Strip.Scan.{
  Move, move, starts_with, one_of, push_with_escape, blank_line, blank_char, scan, run, SameShape,
  Covers,
}
use xoxo.Strip.Shape.{run-SameShape}

pub data State : Type 0 where
  code single_quote double_quote triple_single_quote triple_double_quote : State
  slashy_string line_comment block_comment : State

-- The variables of the loop.
pub record Loop : Type 0 where
  pub state : State
  pub before : Bytes

-- `while cursor > 0` of `can_start_slashy_string`.
slashy_context : Bytes → Bool
unfolding one_of
slashy_context [] = true
slashy_context (b ∷ before) =
    let rest = slashy_context before in
    if one_of (codes " \t\r\n") b then rest else one_of (codes "([{,;:=!?&|^~+-*%<>") b

pub can_start_slashy_string : Bytes → Bytes → Bool
unfolding starts_with slashy_context
can_start_slashy_string before bs =
    if starts_with (codes "//") bs || starts_with (codes "/*") bs
    then false
    else slashy_context before

-- What the body of the loop does, but for `before`.
step_in : State → Bytes → ℕ → Bytes → Move State
unfolding starts_with push_with_escape
step_in code before c cs =
    if starts_with (codes "'''") (c ∷ cs)
    then move (codes "'''") 3 triple_single_quote
    else if starts_with (codes "\"\"\"") (c ∷ cs)
    then move (codes "\"\"\"") 3 triple_double_quote
    else if starts_with (codes "//") (c ∷ cs)
    then move (codes "//") 2 line_comment
    else if starts_with (codes "/*") (c ∷ cs)
    then move (codes "/*") 2 block_comment
    else if c == b'\''
    then move (codes "'") 1 single_quote
    else if c == b'"'
    then move (codes "\"") 1 double_quote
    else if c == b'/' && can_start_slashy_string before (c ∷ cs)
    then move (codes "/") 1 slashy_string
    else move (c ∷ []) 1 code
step_in single_quote before c cs = push_with_escape code single_quote b'\'' c cs
step_in double_quote before c cs = push_with_escape code double_quote b'"' c cs
step_in triple_single_quote before c cs =
    if starts_with (codes "'''") (c ∷ cs)
    then move (codes "'''") 3 code
    else move (c ∷ []) 1 triple_single_quote
step_in triple_double_quote before c cs =
    if starts_with (codes "\"\"\"") (c ∷ cs)
    then move (codes "\"\"\"") 3 code
    else move (c ∷ []) 1 triple_double_quote
step_in slashy_string before c cs = push_with_escape code slashy_string b'/' c cs
step_in line_comment before c cs = blank_line code line_comment c
step_in block_comment before c cs =
    if starts_with (codes "*/") (c ∷ cs)
    then move (codes "*/") 2 code
    else blank_char block_comment c

-- The bytes passed over are what the next turn looks back at.
unfoldable pub step : Loop → ℕ → Bytes → Move Loop
unfolding step_in
step s c cs =
    let m = step_in s.state s.before c cs in
    move m.out m.used
      (record { state = m.next; before = reverse (take m.used (c ∷ cs)) ++ s.before })

unfoldable pub strip_groovy_noise : Bytes → Bytes
unfolding scan step can_start_slashy_string
strip_groovy_noise = run step (record { state = code; before = [] })

step_in-Covers :
    (s : State) (before : Bytes) (c : ℕ) (cs : Bytes) → Covers (c ∷ cs) (step_in s before c cs)
unfolding step_in
step_in-Covers code before c [] = ground arith
step_in-Covers _ before c cs = ground arith

pub step-Covers : (s : Loop) (c : ℕ) (cs : Bytes) → Covers (c ∷ cs) (step s c cs)
unfolding step
step-Covers s c cs = step_in-Covers s.state s.before c cs

pub strip_groovy_noise-SameShape :
    (content : Bytes) → SameShape content (strip_groovy_noise content)
unfolding strip_groovy_noise scan
strip_groovy_noise-SameShape = run-SameShape step step-Covers (record { state = code; before = [] })
