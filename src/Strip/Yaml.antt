-- ===== src/Strip/Yaml.antt =====
-- crates/agents/nerd/src/coding/noise_stripper/yaml.rs: the stripper of YAML, line by line, with
-- block scalars kept. Whether a line is blank, `line.trim().is_empty()`, is the standard library's
-- answer, and so are the characters of the bytes of a kept line, which `push_str` takes as they are:
-- parameters.
pub mod Keeps
use xoxo.Base.{
  ℕ, suc, ◌+◌, ◌-◌, Bool, true, false, not, ◌&&◌, ◌||◌, List, [], ◌∷◌, ◌++◌, Option, none, some,
  ◌≡◌, ◌≢◌, inl, inr, refl, arith, Bytes, Bool-cases, codes, length, replicate, drop, leb, ◌==◌,
  if◌then◌else◌,
}
use xoxo.Strip.Scan.{Move, move, next_is, one_of, push_with_escape, scan, run, SameShape, Covers}
use xoxo.Strip.Shape.{run-SameShape_where, SameShape-refl}
use xoxo.Strip.Lines.{
  Segment, split_inclusive, line_end, joined, NoLineEnd, AllLines, joined-split_inclusive,
  split_inclusive-AllLines, segment-SameShape,
}

pub data State : Type 0 where
  plain single_quote double_quote : State

unfoldable pub is_yaml_comment_prefix : ℕ → Bool
is_yaml_comment_prefix b = b == b' ' || b == b'\t'

-- `i == 0 || is_yaml_comment_prefix(bytes[i - 1])`: `before` is `bytes[i - 1]`, if there is one.
comment_may_start : Option ℕ → Bool
comment_may_start none = true
comment_may_start (some b) = is_yaml_comment_prefix b

-- The variables of the loop of `strip_yaml_line`, with the byte before `i`.
pub record Loop : Type 0 where
  pub state : State
  pub before : Option ℕ

abbrev pub at : State → ℕ → Loop
at s b = record { state = s; before = some b }

abbrev pub start : Loop
start = record { state = plain; before = none }

-- What the state `Plain` does at `#` takes the rest of the line.
step_in : State → Option ℕ → ℕ → Bytes → Move Loop
unfolding push_with_escape
step_in plain before c cs =
    if c == b'#' && comment_may_start before
    then move (b'#' ∷ replicate (length cs) b' ') (suc (length cs)) (at plain c)
    else if c == b'\''
    then move (codes "'") 1 (at single_quote c)
    else if c == b'"'
    then move (codes "\"") 1 (at double_quote c)
    else move (c ∷ []) 1 (at plain c)
step_in single_quote before c cs =
    if c == b'\''
    then (if next_is b'\'' cs
        then move (c ∷ b'\'' ∷ []) 2 (at single_quote b'\'')
        else move (c ∷ []) 1 (at plain c))
    else move (c ∷ []) 1 (at single_quote c)
step_in double_quote before c [] = push_with_escape (at plain c) (at double_quote c) b'"' c []
step_in double_quote before c (d ∷ cs) =
    push_with_escape (at plain c) (at double_quote (if c == b'\\' then d else c)) b'"' c (d ∷ cs)

unfoldable pub step : Loop → ℕ → Bytes → Move Loop
unfolding step_in comment_may_start is_yaml_comment_prefix
step s = step_in s.state s.before

unfoldable pub strip_yaml_line : Bytes → Bytes
unfolding scan step
strip_yaml_line = run step start

unfoldable pub leading_indent : Bytes → ℕ
leading_indent [] = 0
leading_indent (c ∷ cs) = if c == b' ' || c == b'\t' then suc (leading_indent cs) else 0

-- The inner loop of `detects_block_scalar`, from `j` on; `before` is `bytes[j - 1]`.
indicator_ends : ℕ → Bytes → Bool
unfolding one_of is_yaml_comment_prefix
indicator_ends before [] = true
indicator_ends before (c ∷ cs) =
    let rest = indicator_ends c cs in
    if one_of (codes " \t-+0123456789") c then rest else c == b'#' && is_yaml_comment_prefix before

detects : State → Option ℕ → Bytes → Bool
unfolding comment_may_start indicator_ends
detects s before [] = false
detects plain before (c ∷ cs) =
    let single = detects single_quote (some c) cs in
    let double = detects double_quote (some c) cs in
    let onward = detects plain (some c) cs in
    if c == b'#' && comment_may_start before
    then false
    else if c == b'\''
    then single
    else if c == b'"'
    then double
    else if c == b'|' || c == b'>'
    then indicator_ends c cs
    else onward
detects single_quote before (c ∷ []) = false
detects single_quote before (c ∷ d ∷ cs) =
    let doubled = detects single_quote (some d) cs in
    let closed = detects plain (some c) (d ∷ cs) in
    let onward = detects single_quote (some c) (d ∷ cs) in
    if c == b'\'' then (if d == b'\'' then doubled else closed) else onward
detects double_quote before (c ∷ []) = false
detects double_quote before (c ∷ d ∷ cs) =
    let escaped = detects double_quote (some d) cs in
    let closed = detects plain (some c) (d ∷ cs) in
    let onward = detects double_quote (some c) (d ∷ cs) in
    if c == b'\\' then escaped else if c == b'"' then closed else onward

unfoldable pub detects_block_scalar : Bytes → Bool
unfolding detects
detects_block_scalar = detects plain none

module _ (is_blank : Bytes → Bool) (decode : Bytes → Bytes) where
  -- The line belongs to the block scalar of that indent.
  abbrev pub in_block_scalar : Option ℕ → Bytes → Bool
  in_block_scalar none line = false
  in_block_scalar (some required_indent) line =
      is_blank line || leb required_indent (leading_indent line)

  unfoldable pub strip_segments : Option ℕ → List Segment → Bytes
  strip_segments block_scalar_indent [] = []
  strip_segments block_scalar_indent ((line, has_newline) ∷ rest) =
      let kept = (decode line ++ line_end has_newline) ++ strip_segments block_scalar_indent rest in
      let next = if detects_block_scalar line then some (leading_indent line + 1) else none in
      let stripped = (strip_yaml_line line ++ line_end has_newline) ++ strip_segments next rest in
      if in_block_scalar block_scalar_indent line then kept else stripped

  unfoldable pub strip_yaml_noise : Bytes → Bytes
  unfolding strip_yaml_line detects_block_scalar leading_indent
  strip_yaml_noise content = strip_segments none (split_inclusive content)
