-- ===== src/Strip/Shell.antt =====
-- crates/agents/nerd/src/coding/noise_stripper/shell.rs: the stripper of shell scripts.
use xoxo.Base.{
  ℕ, Bool, true, false, not, ◌&&◌, ◌||◌, [], ◌∷◌, arith, Bytes, codes, ◌==◌, if◌then◌else◌,
}
use xoxo.Strip.Scan.{Move, move, next_is, blank_line, scan, run, SameShape, Covers}
use xoxo.Strip.Shape.{run-SameShape}

pub data State : Type 0 where
  code single_quote double_quote backtick line_comment : State

-- The variables of the loop.
pub record Loop : Type 0 where
  pub state : State
  pub at_line_start : Bool

abbrev at : State → Bool → Loop
at s b = record { state = s; at_line_start = b }

-- On the bytes behind the `#`.
is_shebang : Bytes → Bool → Bool
is_shebang cs at_line_start = at_line_start && next_is b'!' cs

-- The body of the states `DoubleQuote` and `Backtick`, which differ in the terminator. The branch
-- of the backslash leaves `at_line_start` alone.
step_quote : State → ℕ → Bool → ℕ → Bytes → Move Loop
step_quote state terminator start c [] =
    if c == b'\\'
    then move (c ∷ []) 1 (at state start)
    else move (c ∷ []) 1 (at (if c == terminator then code else state) false)
step_quote state terminator start c (d ∷ _) =
    if c == b'\\'
    then move (c ∷ d ∷ []) 2 (at state start)
    else move (c ∷ []) 1 (at (if c == terminator then code else state) false)

step_in : State → Bool → ℕ → Bytes → Move Loop
unfolding is_shebang step_quote
step_in code start c cs =
    if c == b'#' && not (is_shebang cs start)
    then move (codes "#") 1 (at line_comment start)
    else if c == b'\''
    then move (codes "'") 1 (at single_quote false)
    else if c == b'"'
    then move (codes "\"") 1 (at double_quote false)
    else if c == b'`'
    then move (codes "`") 1 (at backtick false)
    else if c == b'\n'
    then move (codes "\n") 1 (at code true)
    else if c == b' ' || c == b'\t' || c == b'\r'
    then move (c ∷ []) 1 (at code start)
    else move (c ∷ []) 1 (at code false)
step_in single_quote start c cs =
    move (c ∷ []) 1 (at (if c == b'\'' then code else single_quote) false)
step_in double_quote start c cs = step_quote double_quote b'"' start c cs
step_in backtick start c cs = step_quote backtick b'`' start c cs
step_in line_comment start c cs = blank_line (at code true) (at line_comment start) c

unfoldable pub step : Loop → ℕ → Bytes → Move Loop
unfolding step_in
step s = step_in s.state s.at_line_start

unfoldable pub strip_shell_noise : Bytes → Bytes
unfolding scan step
strip_shell_noise = run step (at code true)

step_in-Covers :
    (s : State) (start : Bool) (c : ℕ) (cs : Bytes) → Covers (c ∷ cs) (step_in s start c cs)
unfolding step_in
step_in-Covers code start c [] = ground arith
step_in-Covers _ start c cs = ground arith

pub step-Covers : (s : Loop) (c : ℕ) (cs : Bytes) → Covers (c ∷ cs) (step s c cs)
unfolding step
step-Covers s c cs = step_in-Covers s.state s.at_line_start c cs

pub strip_shell_noise-SameShape : (content : Bytes) → SameShape content (strip_shell_noise content)
unfolding strip_shell_noise scan
strip_shell_noise-SameShape = run-SameShape step step-Covers (at code true)
