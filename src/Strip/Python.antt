-- ===== src/Strip/Python.antt =====
-- crates/agents/nerd/src/coding/noise_stripper/python.rs: the stripper of Python. Whether bytes are
-- UTF-8 is decided by the standard library, `std::str::from_utf8`: a parameter.
use xoxo.Base.{
  ℕ, Bool, true, false, not, ◌&&◌, ◌||◌, [], ◌∷◌, arith, Bytes, codes, ◌==◌, if◌then◌else◌,
}
use xoxo.Strip.Scan.{
  Move, move, starts_with, contains, before_newline, next_is, push_with_escape, blank_line, scan,
  run, SameShape, Covers,
}
use xoxo.Strip.Shape.{run-SameShape}

pub data State : Type 0 where
  code single_quote double_quote triple_single_quote triple_double_quote line_comment : State

-- The variables of the loop.
pub record Loop : Type 0 where
  pub state : State
  pub at_line_start : Bool

abbrev at : State → Bool → Loop
at s b = record { state = s; at_line_start = b }

module _ (is_utf8 : Bytes → Bool) where
  line_contains_encoding_marker : Bytes → Bool
  unfolding contains
  line_contains_encoding_marker line =
      if is_utf8 line
      then contains (codes "coding=") line || contains (codes "coding:") line
      else false

  -- On the bytes behind the `#`.
  pub is_shebang_or_encoding_comment : Bytes → Bool → Bool
  unfolding line_contains_encoding_marker before_newline
  is_shebang_or_encoding_comment cs at_line_start =
      if not at_line_start
      then false
      else if next_is b'!' cs
      then true
      else line_contains_encoding_marker (before_newline cs)

  step_in : State → Bool → ℕ → Bytes → Move Loop
  unfolding starts_with push_with_escape
  step_in code start c cs =
      if c == b'#' && not (is_shebang_or_encoding_comment cs start)
      then move (codes "#") 1 (at line_comment start)
      else if starts_with (codes "'''") (c ∷ cs)
      then move (codes "'''") 3 (at triple_single_quote false)
      else if starts_with (codes "\"\"\"") (c ∷ cs)
      then move (codes "\"\"\"") 3 (at triple_double_quote false)
      else if c == b'\''
      then move (codes "'") 1 (at single_quote false)
      else if c == b'"'
      then move (codes "\"") 1 (at double_quote false)
      else if c == b'\n'
      then move (codes "\n") 1 (at code true)
      else if c == b' ' || c == b'\t' || c == b'\r'
      then move (c ∷ []) 1 (at code start)
      else move (c ∷ []) 1 (at code false)
  step_in single_quote start c cs =
      push_with_escape (at code false) (at single_quote false) b'\'' c cs
  step_in double_quote start c cs =
      push_with_escape (at code false) (at double_quote false) b'"' c cs
  -- `bytes[i - 1]` behind the move is the last byte passed over: a quote, or `c`.
  step_in triple_single_quote start c cs =
      if starts_with (codes "'''") (c ∷ cs)
      then move (c ∷ codes "''") 3 (at code false)
      else move (c ∷ []) 1 (at triple_single_quote (c == b'\n'))
  step_in triple_double_quote start c cs =
      if starts_with (codes "\"\"\"") (c ∷ cs)
      then move (c ∷ codes "\"\"") 3 (at code false)
      else move (c ∷ []) 1 (at triple_double_quote (c == b'\n'))
  step_in line_comment start c cs = blank_line (at code true) (at line_comment start) c

  unfoldable pub step : Loop → ℕ → Bytes → Move Loop
  unfolding step_in
  step s = step_in s.state s.at_line_start

  unfoldable pub strip_python_noise : Bytes → Bytes
  unfolding scan step is_shebang_or_encoding_comment
  strip_python_noise = run step (at code true)

  step_in-Covers :
      (s : State) (start : Bool) (c : ℕ) (cs : Bytes) → Covers (c ∷ cs) (step_in s start c cs)
  unfolding step_in
  step_in-Covers code start c [] = ground arith
  step_in-Covers _ start c cs = ground arith

  pub step-Covers : (s : Loop) (c : ℕ) (cs : Bytes) → Covers (c ∷ cs) (step s c cs)
  unfolding step
  step-Covers s c cs = step_in-Covers s.state s.at_line_start c cs

  pub strip_python_noise-SameShape :
      (content : Bytes) → SameShape content (strip_python_noise content)
  unfolding strip_python_noise scan
  strip_python_noise-SameShape = run-SameShape step step-Covers (at code true)
