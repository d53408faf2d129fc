-- ===== src/Strip/Go.antt =====
-- crates/agents/nerd/src/coding/noise_stripper/go.rs: the stripper of Go, which keeps directives.
-- The loop's `line_start` stands here for what the code reads through it: `line_prefix` is
-- `bytes[line_start..i]`.
use xoxo.Base.{
  ℕ, Bool, true, false, not, ◌&&◌, ◌||◌, [], ◌∷◌, ◌++◌, arith, Bytes, codes, length, take, drop,
  ltb, ◌==◌, if◌then◌else◌,
}
use xoxo.Strip.Scan.{
  Move, move, starts_with, before_newline, push_with_escape, scan, run, SameShape, Covers,
}
use xoxo.Strip.Shape.{run-SameShape}

pub data State : Type 0 where
  code double_quote raw_string rune block_comment : State
  line_comment : Bool → State

-- The variables of the loop.
pub record Loop : Type 0 where
  pub state : State
  pub line_prefix : Bytes

abbrev at : State → Bytes → Loop
at s p = record { state = s; line_prefix = p }

is_blank : ℕ → Bool
is_blank c = c == b' ' || c == b'\t' || c == b'\r'

all_blank : Bytes → Bool
unfolding is_blank
all_blank [] = true
all_blank (c ∷ cs) = is_blank c && all_blank cs

trim_ascii_start : Bytes → Bytes
unfolding is_blank
trim_ascii_start [] = []
trim_ascii_start (c ∷ cs) = let rest = trim_ascii_start cs in if is_blank c then rest else c ∷ cs

is_go_directive_comment : Bytes → Bool
unfolding trim_ascii_start starts_with
is_go_directive_comment comment_body =
    let trimmed = trim_ascii_start comment_body in
    starts_with (codes "go:") trimmed
    || starts_with (codes "+build") trimmed
    || starts_with (codes "line ") trimmed

-- On `bytes[comment_start..]` and `bytes[line_start..comment_start]`.
pub should_preserve_go_line_comment : Bytes → Bytes → Bool
unfolding all_blank is_go_directive_comment before_newline
should_preserve_go_line_comment comment line_prefix =
    if ltb (length comment) 2
    then false
    else if not (all_blank line_prefix)
    then false
    else is_go_directive_comment (drop 2 (before_newline comment))

-- The turns that leave `line_start` alone.
abbrev onward : Bytes → Bytes → State → ℕ → Bytes → Move Loop
onward line_prefix out s n bs = move out n (at s (line_prefix ++ take n bs))

-- `push_with_escape` with `next_state` the state `Code`.
push_with_escape_go : State → ℕ → Bytes → ℕ → Bytes → Move Loop
unfolding push_with_escape
push_with_escape_go state terminator line_prefix c cs =
    let m = push_with_escape code state terminator c cs in
    onward line_prefix m.out m.next m.used (c ∷ cs)

step_in : State → Bytes → ℕ → Bytes → Move Loop
unfolding starts_with push_with_escape_go
step_in code line c cs =
    if starts_with (codes "//") (c ∷ cs)
    then onward line (codes "//") (line_comment (should_preserve_go_line_comment (c ∷ cs) line)) 2
        (c ∷ cs)
    else if starts_with (codes "/*") (c ∷ cs)
    then onward line (codes "/*") block_comment 2 (c ∷ cs)
    else if c == b'"'
    then onward line (codes "\"") double_quote 1 (c ∷ cs)
    else if c == b'`'
    then onward line (codes "`") raw_string 1 (c ∷ cs)
    else if c == b'\''
    then onward line (codes "'") rune 1 (c ∷ cs)
    else if c == b'\n'
    then move (codes "\n") 1 (at code [])
    else onward line (c ∷ []) code 1 (c ∷ cs)
step_in double_quote line c cs = push_with_escape_go double_quote b'"' line c cs
step_in raw_string line c cs =
    move (c ∷ []) 1
      (at (if c == b'`' then code else raw_string) (if c == b'\n' then [] else line ++ c ∷ []))
step_in rune line c cs = push_with_escape_go rune b'\'' line c cs
step_in (line_comment preserve) line c cs =
    if c == b'\n'
    then move (codes "\n") 1 (at code [])
    else if preserve
    then onward line (c ∷ []) (line_comment preserve) 1 (c ∷ cs)
    else onward line (codes " ") (line_comment preserve) 1 (c ∷ cs)
step_in block_comment line c cs =
    if starts_with (codes "*/") (c ∷ cs)
    then onward line (codes "*/") code 2 (c ∷ cs)
    else if c == b'\n'
    then move (codes "\n") 1 (at block_comment [])
    else onward line (codes " ") block_comment 1 (c ∷ cs)

unfoldable pub step : Loop → ℕ → Bytes → Move Loop
unfolding step_in
step s = step_in s.state s.line_prefix

unfoldable pub strip_go_noise : Bytes → Bytes
unfolding scan step should_preserve_go_line_comment
strip_go_noise = run step (at code [])

step_in-Covers :
    (s : State) (line : Bytes) (c : ℕ) (cs : Bytes) → Covers (c ∷ cs) (step_in s line c cs)
unfolding step_in
step_in-Covers code line c [] = ground arith
step_in-Covers (line_comment _) line c cs = ground arith
step_in-Covers _ line c cs = ground arith

pub step-Covers : (s : Loop) (c : ℕ) (cs : Bytes) → Covers (c ∷ cs) (step s c cs)
unfolding step
step-Covers s c cs = step_in-Covers s.state s.line_prefix c cs

pub strip_go_noise-SameShape : (content : Bytes) → SameShape content (strip_go_noise content)
unfolding strip_go_noise scan
strip_go_noise-SameShape = run-SameShape step step-Covers (at code [])
