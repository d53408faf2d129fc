-- ===== src/Strip/VbNet.antt =====
-- crates/agents/nerd/src/coding/noise_stripper/vb_net.rs: the stripper of VB.NET, line by line.
use xoxo.Base.{
  ℕ, ◌+◌, Bool, true, false, ◌&&◌, ◌||◌, List, [], ◌∷◌, ◌++◌, Bytes, codes, drop, leb, ◌==◌,
  if◌then◌else◌,
}
use xoxo.Strip.Scan.{Move, move, next_is, scan, run}
use xoxo.Strip.Lines.{Segment, split_inclusive, line_end}

pub data State : Type 0 where
  code double_quote line_comment : State

-- The variables of the loop of `strip_vb_net_line`.
pub record Loop : Type 0 where
  pub state : State
  pub line_start : Bool

abbrev pub at : State → Bool → Loop
at s b = record { state = s; line_start = b }

-- `u8::to_ascii_lowercase`, of which `eq_ignore_ascii_case` is the comparison.
unfoldable pub to_lower : ℕ → ℕ
to_lower c = if leb b'A' c && leb c b'Z' then c + 32 else c

unfoldable pub starts_with_ignore_ascii_case : Bytes → Bytes → Bool
unfolding to_lower
starts_with_ignore_ascii_case [] bs = true
starts_with_ignore_ascii_case (n ∷ ns) [] = false
starts_with_ignore_ascii_case (n ∷ ns) (b ∷ bs) =
    (to_lower b == to_lower n) && starts_with_ignore_ascii_case ns bs

-- `next.is_none_or(|b| matches!(b, b' ' | b'\t'))`.
abbrev pub none_or_blank : Bytes → Bool
none_or_blank [] = true
none_or_blank (c ∷ cs) = c == b' ' || c == b'\t'

pub step_in : State → Bool → ℕ → Bytes → Move Loop
unfolding starts_with_ignore_ascii_case
step_in code start c cs =
    if c == b'\''
    then move (codes "'") 1 (at line_comment start)
    else if start
        && starts_with_ignore_ascii_case (codes "Rem") (c ∷ cs)
        && none_or_blank (drop 2 cs)
    then move (codes "Rem") 3 (at line_comment start)
    else if c == b'"'
    then move (codes "\"") 1 (at double_quote false)
    else if c == b' ' || c == b'\t'
    then move (c ∷ []) 1 (at code start)
    else move (c ∷ []) 1 (at code false)
step_in double_quote start c cs =
    if c == b'"'
    then (if next_is b'"' cs
        then move (c ∷ b'"' ∷ []) 2 (at double_quote start)
        else move (c ∷ []) 1 (at code start))
    else move (c ∷ []) 1 (at double_quote start)
step_in line_comment start c cs = move (b' ' ∷ []) 1 (at line_comment start)

pub step : Loop → ℕ → Bytes → Move Loop
unfolding step_in
step s = step_in s.state s.line_start

unfoldable pub strip_vb_net_line : Bytes → Bytes
unfolding scan step
strip_vb_net_line = run step (at code true)

unfoldable pub strip_vb_net_segments : List Segment → Bytes
strip_vb_net_segments [] = []
strip_vb_net_segments ((line, has_newline) ∷ rest) =
    (strip_vb_net_line line ++ line_end has_newline) ++ strip_vb_net_segments rest

unfoldable pub strip_vb_net_noise : Bytes → Bytes
unfolding strip_vb_net_segments strip_vb_net_line
strip_vb_net_noise content = strip_vb_net_segments (split_inclusive content)
