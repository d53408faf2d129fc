-- ===== src/Strip/GraphQl.antt =====
-- crates/agents/nerd/src/coding/noise_stripper/graphql.rs: the stripper of GraphQL.
use xoxo.Base.{ℕ, [], ◌∷◌, arith, Bytes, codes, ◌==◌, if◌then◌else◌}
use xoxo.Strip.Scan.{
  Move, move, starts_with, push_with_escape, blank_line, scan, run, SameShape, Covers,
}
use xoxo.Strip.Shape.{run-SameShape}

pub data State : Type 0 where
  code string block_string line_comment : State

unfoldable pub step : State → ℕ → Bytes → Move State
unfolding starts_with push_with_escape
step code c cs =
    if starts_with (codes "\"\"\"") (c ∷ cs)
    then move (codes "\"\"\"") 3 block_string
    else if c == b'#'
    then move (codes "#") 1 line_comment
    else if c == b'"'
    then move (codes "\"") 1 string
    else move (c ∷ []) 1 code
step string c cs = push_with_escape code string b'"' c cs
step block_string c cs =
    if starts_with (codes "\"\"\"") (c ∷ cs)
    then move (codes "\"\"\"") 3 code
    else move (c ∷ []) 1 block_string
step line_comment c cs = blank_line code line_comment c

unfoldable pub strip_graphql_noise : Bytes → Bytes
unfolding scan step
strip_graphql_noise = run step code

pub step-Covers : (s : State) (c : ℕ) (cs : Bytes) → Covers (c ∷ cs) (step s c cs)
unfolding step
step-Covers code c [] = ground arith
step-Covers _ c cs = ground arith

pub strip_graphql_noise-SameShape :
    (content : Bytes) → SameShape content (strip_graphql_noise content)
unfolding strip_graphql_noise scan
strip_graphql_noise-SameShape = run-SameShape step step-Covers code
