-- ===== src/Strip/JavaScript.antt =====
-- crates/agents/nerd/src/coding/noise_stripper/javascript.rs: the stripper of JavaScript, TypeScript,
-- JSX and Vue. It reads whole characters outside comments: `chars().next()` on the rest of the text,
-- and the length of that character, are the standard library's, a parameter.
use mathlib.Core.List.{reverse}
use xoxo.Base.{
  ℕ, zero, suc, ◌+◌, ◌-◌, Bool, true, false, ◌&&◌, ◌||◌, [], ◌∷◌, ◌++◌, Option, none, some, Bytes,
  codes, take, drop, ◌==◌, if◌then◌else◌,
}
use xoxo.Strip.Scan.{Move, move, starts_with, one_of, blank_line, blank_char, scan, run}

pub data JavaScriptFlavor : Type 0 where
  standard jsx vue : JavaScriptFlavor

pub data State : Type 0 where
  code single_quote double_quote template regex line_comment block_comment : State

-- The variables of the loop: `before` is `bytes[..i]`, the last byte first.
pub record Loop : Type 0 where
  pub state : State
  pub before : Bytes

-- The first character of a text, and how many bytes it takes.
pub record Chars : Type 0 where
  pub first : Bytes → ℕ
  pub len_utf8 : Bytes → ℕ

abbrev pub is_jsx : JavaScriptFlavor → Bool
is_jsx jsx = true
is_jsx _ = false

abbrev pub is_vue : JavaScriptFlavor → Bool
is_vue vue = true
is_vue _ = false

-- `while cursor > 0` of `can_start_regex`.
unfoldable pub regex_context : Bytes → Bool
unfolding one_of
regex_context [] = true
regex_context (b ∷ before) =
    let rest = regex_context before in
    if one_of (codes " \t\r\n") b then rest else one_of (codes "([{,;:=!?&|^~+-*%<>") b

unfoldable pub can_start_regex : Bytes → Bytes → Bool
unfolding starts_with regex_context
can_start_regex before bs =
    if starts_with (codes "//") bs || starts_with (codes "/*") bs
    then false
    else regex_context before

abbrev pub plus : ℕ → Option ℕ → Option ℕ
plus k none = none
plus k (some n) = some (n + k)

-- How far behind the first of these bytes the marker begins, if that is on the same line: the loop
-- of `find_single_line_jsx_comment_end` and `find_single_line_block_comment_end`.
unfoldable pub find_on_line : Bytes → Bytes → Option ℕ
find_on_line marker [] = none
find_on_line marker (c ∷ cs) =
    let later = plus 1 (find_on_line marker cs) in
    if c == b'\n' then none else if starts_with marker (c ∷ cs) then some 0 else later

-- One more than the index that `find_single_line_jsx_comment_end` finds, from the start.
unfoldable pub jsx_comment_end : Bytes → Option ℕ
unfolding find_on_line
jsx_comment_end bs = plus 8 (find_on_line (codes "*/}") (drop 5 bs))

-- One more than the index that `find_single_line_block_comment_end` finds, from the start.
unfoldable pub block_comment_end : Bytes → Option ℕ
unfolding find_on_line
block_comment_end bs = plus 5 (find_on_line (codes "*/") (drop 3 bs))

abbrev pub is_some : Option ℕ → Bool
is_some none = false
is_some (some _) = true

abbrev pub or_zero : Option ℕ → ℕ
or_zero none = 0
or_zero (some n) = n

-- `bytes[i - 1]` behind `n` bytes.
abbrev pub last_of : ℕ → Bytes → ℕ
last_of n [] = 0
last_of zero (c ∷ cs) = c
last_of (suc zero) (c ∷ cs) = c
last_of (suc (suc n)) (c ∷ cs) = last_of (suc n) cs

-- What an inner loop pushes, and how far it moves `i`.
abbrev pub Pushed : Type 0
Pushed = Bytes × ℕ

module _ (chars : Chars) where
  open chars use {first, len_utf8}

  -- A backslash of `n` bytes, with the character behind it, if there is one.
  unfoldable pub push_escaped : State → ℕ → ℕ → Bytes → Move State
  push_escaped state ch n [] = move (ch ∷ []) n state
  push_escaped state ch n (d ∷ ds) = move (ch ∷ first (d ∷ ds) ∷ []) (n + len_utf8 (d ∷ ds)) state

  -- `push_with_escape`, at these bytes.
  unfoldable pub push_with_escape_js : State → State → ℕ → Bytes → Move State
  unfolding push_escaped
  push_with_escape_js next_state state terminator bs =
      let n = len_utf8 bs in
      let current = last_of n bs in
      if current == b'\\'
      then push_escaped state (first bs) n (drop n bs)
      else move (first bs ∷ []) n (if current == terminator then next_state else state)

  -- The inner loop of the state `Regex` behind a bracket; `k` bytes are still to be passed over.
  unfoldable pub regex_class : ℕ → Bytes → Pushed
  regex_class k [] = ([], 0)
  regex_class (suc k) (c ∷ cs) = let (out, used) = regex_class k cs in (out, used + 1)
  regex_class zero (c ∷ cs) =
      let bs = c ∷ cs in
      let n = len_utf8 bs in
      let current = last_of n bs in
      let rest = drop n bs in
      let escaped = regex_class (n + len_utf8 rest - 1) cs in
      let onward = regex_class (n - 1) cs in
      if current == b'\\'
      then elim rest [
        | [] ↦ (first bs ∷ [], n)
        | d ∷ ds ↦ (first bs ∷ first (d ∷ ds) ∷ escaped.0, escaped.1 + 1)
      ]
      else if current == b']'
      then (first bs ∷ [], n)
      else (first bs ∷ onward.0, onward.1 + 1)

  -- The inner loop of a documentation comment of Vue, behind its marker.
  unfoldable pub vue_comment : ℕ → Bytes → Pushed
  unfolding starts_with
  vue_comment k [] = ([], 0)
  vue_comment (suc k) (c ∷ cs) = let (out, used) = vue_comment k cs in (out, used + 1)
  vue_comment zero (c ∷ cs) =
      let bs = c ∷ cs in
      let onward = vue_comment (len_utf8 bs - 1) cs in
      if starts_with (codes "*/") bs
      then (codes "*/", 2)
      else if c == b'\n'
      then ([], 0)
      else (first bs ∷ onward.0, onward.1 + 1)

  unfoldable pub step_regex : Bytes → Move State
  unfolding regex_class push_escaped
  step_regex bs =
      let n = len_utf8 bs in
      let current = last_of n bs in
      let class = regex_class 0 (drop n bs) in
      if current == b'\\'
      then push_escaped regex (first bs) n (drop n bs)
      else if current == b'['
      then move (first bs ∷ class.0) (n + class.1) regex
      else move (first bs ∷ []) n (if current == b'/' then code else regex)

  -- What the body of the loop does, but for `before`.
  unfoldable pub step_in : JavaScriptFlavor → State → Bytes → ℕ → Bytes → Move State
  unfolding starts_with push_with_escape_js vue_comment step_regex
  step_in flavor code before c cs =
      let bs = c ∷ cs in
      let doc = vue_comment 0 (drop 3 bs) in
      if is_jsx flavor && starts_with (codes "{/**") bs && is_some (jsx_comment_end bs)
      then move (codes "{//}") (or_zero (jsx_comment_end bs)) code
      else if is_jsx flavor && starts_with (codes "/**") bs && is_some (block_comment_end bs)
      then move (codes "/** . */") (or_zero (block_comment_end bs)) code
      else if starts_with (codes "//") bs
      then move (codes "//") 2 line_comment
      else if starts_with (codes "/*") bs
      then (if is_vue flavor && starts_with (codes "/**") bs && is_some (block_comment_end bs)
          then move (codes "/**" ++ doc.0) (3 + doc.1) code
          else move (codes "/*") 2 block_comment)
      else if c == b'\''
      then move (codes "'") 1 single_quote
      else if c == b'"'
      then move (codes "\"") 1 double_quote
      else if c == b'`'
      then move (codes "`") 1 template
      else if c == b'/' && can_start_regex before bs
      then move (codes "/") 1 regex
      else move (first bs ∷ []) (len_utf8 bs) code
  step_in flavor single_quote before c cs = push_with_escape_js code single_quote b'\'' (c ∷ cs)
  step_in flavor double_quote before c cs = push_with_escape_js code double_quote b'"' (c ∷ cs)
  step_in flavor template before c cs = push_with_escape_js code template b'`' (c ∷ cs)
  step_in flavor regex before c cs = step_regex (c ∷ cs)
  step_in flavor line_comment before c cs = blank_line code line_comment c
  step_in flavor block_comment before c cs =
      if starts_with (codes "*/") (c ∷ cs)
      then move (codes "*/") 2 code
      else blank_char block_comment c

  -- The bytes passed over are what the next turn looks back at.
  unfoldable pub step : JavaScriptFlavor → Loop → ℕ → Bytes → Move Loop
  unfolding step_in
  step flavor s c cs =
      let m = step_in flavor s.state s.before c cs in
      move m.out m.used
        (record { state = m.next; before = reverse (take m.used (c ∷ cs)) ++ s.before })

  unfoldable pub strip_javascript_noise : JavaScriptFlavor → Bytes → Bytes
  unfolding scan step can_start_regex jsx_comment_end block_comment_end
  strip_javascript_noise flavor = run (step flavor) (record { state = code; before = [] })

-- Where every character is one byte.
abbrev pub ascii_chars : Chars
ascii_chars = record { first = λ bs. last_of 1 bs; len_utf8 = λ bs. 1 }
