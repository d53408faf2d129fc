-- ===== src/Strip/Rust.antt =====
-- crates/agents/nerd/src/coding/noise_stripper/rust.rs: the stripper of Rust, with raw strings and
-- nested block comments. `block_depth -= 1` stops at 0 here and panics there: that it is never
-- reached at 0 is part of Rust/Depth.
pub mod Covers
pub mod Depth
use xoxo.Base.{
  ℕ, zero, suc, ◌+◌, ◌-◌, Bool, true, false, not, ◌&&◌, ◌||◌, List, [], ◌∷◌, ◌++◌, Option, none,
  some, ◌≡◌, refl, arith, Bytes, codes, take, drop, replicate, ◌==◌, if◌then◌else◌,
}
use xoxo.Strip.Scan.{
  Move, move, starts_with, next_is, push_with_escape, blank_line, blank_char, scan, run,
}

pub data State : Type 0 where
  code string char line_comment block_comment : State
  raw_string : ℕ → State

-- The variables of the loop.
pub record Loop : Type 0 where
  pub state : State
  pub block_depth : ℕ

abbrev pub at : State → ℕ → Loop
at s d = record { state = s; block_depth = d }

-- `while bytes.get(prefix_len + hashes) == Some(&b'#')`.
unfoldable pub count_hashes : Bytes → ℕ
count_hashes [] = 0
count_hashes (c ∷ cs) = if c == b'#' then suc (count_hashes cs) else 0

-- The rest of `raw_string_prefix` behind a prefix of `prefix_len` bytes.
unfoldable pub raw_string_quote : ℕ → Bytes → Option (ℕ × ℕ)
raw_string_quote prefix_len bs =
    let hashes = count_hashes bs in
    if next_is b'"' (drop hashes bs) then some (prefix_len + hashes + 1, hashes) else none

-- The length of the prefix of a raw string, with its quote, and the number of its hashes.
unfoldable pub raw_string_prefix : Bytes → Option (ℕ × ℕ)
raw_string_prefix [] = none
raw_string_prefix (c ∷ cs) =
    if c == b'r'
    then raw_string_quote 1 cs
    else if c == b'b' && next_is b'r' cs
    then raw_string_quote 2 (drop 1 cs)
    else none

-- On the bytes behind the quote.
unfoldable pub has_raw_string_terminator : ℕ → Bytes → Bool
has_raw_string_terminator zero bs = true
has_raw_string_terminator (suc n) [] = false
has_raw_string_terminator (suc n) (c ∷ cs) = (c == b'#') && has_raw_string_terminator n cs

-- On the bytes behind the quote.
pub looks_like_char_literal : Bytes → Bool
looks_like_char_literal [] = false
looks_like_char_literal (next ∷ cs) =
    if next == b'\\'
    then next_is b'\'' (drop 1 cs)
    else not (next == b'\'') && not (next == b'\n') && next_is b'\'' cs

-- The state `Code` where no raw string begins.
pub step_code : ℕ → ℕ → Bytes → Move Loop
unfolding starts_with looks_like_char_literal
step_code depth c cs =
    if starts_with (codes "//") (c ∷ cs)
    then (if next_is b'/' (drop 1 cs)
        then move (codes "///") 3 (at line_comment depth)
        else if next_is b'!' (drop 1 cs)
        then move (codes "//!") 3 (at line_comment depth)
        else move (codes "//") 2 (at line_comment depth))
    else if starts_with (codes "/*") (c ∷ cs)
    then (if next_is b'*' (drop 1 cs)
        then move (codes "/**") 3 (at block_comment 1)
        else if next_is b'!' (drop 1 cs)
        then move (codes "/*!") 3 (at block_comment 1)
        else move (codes "/*") 2 (at block_comment 1))
    else if c == b'"'
    then move (codes "\"") 1 (at string depth)
    else if c == b'\'' && looks_like_char_literal cs
    then move (codes "'") 1 (at char depth)
    else move (c ∷ []) 1 (at code depth)

pub step_raw : Option (ℕ × ℕ) → ℕ → ℕ → Bytes → Move Loop
unfolding step_code
step_raw none depth c cs = step_code depth c cs
step_raw (some (prefix_len, hashes)) depth c cs =
    move (take prefix_len (c ∷ cs)) prefix_len (at (raw_string hashes) depth)

pub step_in : State → ℕ → ℕ → Bytes → Move Loop
unfolding starts_with push_with_escape step_raw
step_in code depth c cs = step_raw (raw_string_prefix (c ∷ cs)) depth c cs
step_in string depth c cs = push_with_escape (at code depth) (at string depth) b'"' c cs
step_in char depth c cs = push_with_escape (at code depth) (at char depth) b'\'' c cs
step_in line_comment depth c cs = blank_line (at code depth) (at line_comment depth) c
step_in block_comment depth c cs =
    if starts_with (codes "/*") (c ∷ cs)
    then move (codes "/*") 2 (at block_comment (depth + 1))
    else if starts_with (codes "*/") (c ∷ cs)
    then move (codes "*/") 2 (at (if depth - 1 == 0 then code else block_comment) (depth - 1))
    else blank_char (at block_comment depth) c
step_in (raw_string hashes) depth c cs =
    if c == b'"' && has_raw_string_terminator hashes cs
    then move (c ∷ replicate hashes b'#') (suc hashes) (at code depth)
    else move (c ∷ []) 1 (at (raw_string hashes) depth)

unfoldable pub step : Loop → ℕ → Bytes → Move Loop
unfolding step_in
step s = step_in s.state s.block_depth

unfoldable pub strip_rust_noise : Bytes → Bytes
unfolding scan step raw_string_prefix raw_string_quote count_hashes has_raw_string_terminator
strip_rust_noise = run step (at code 0)
