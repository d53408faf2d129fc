-- ===== src/Strip/Rust/Depth.antt =====
-- The nesting of block comments in the stripper of Rust.
use xoxo.Base.{
  ℕ, suc, ◌<◌, false, [], ◌∷◌, ◌++◌, Option, none, some, ◌≡◌, ◌≢◌, refl, ap, ◌∙◌, arith,
  append_assoc, Bytes, codes,
}
use xoxo.Strip.Scan.{starts_with, next_is, scan, run, Reaches, here, turn}
use xoxo.Strip.Lexical.{blank, blanks}
use xoxo.Strip.Rust.{
  State, code, string, char, block_comment, Loop, at, raw_string_prefix, step_raw, step_in, step,
  strip_rust_noise,
}

abbrev InComment : Loop → Type 0
InComment s = s.state ≡ block_comment → 0 < s.block_depth

step_raw-InComment :
    (o : Option (ℕ × ℕ)) (depth c : ℕ) (cs : Bytes) → InComment (step_raw o depth c cs).next
unfolding step_raw
step_raw-InComment none depth c cs = ground arith
step_raw-InComment (some (n, k)) depth c cs = ground arith

step_in-InComment :
    (s : State) (depth c : ℕ) (cs : Bytes)
    → InComment (at s depth)
    → InComment (step_in s depth c cs).next
step_in-InComment code depth c cs h =
    unfold step_in in step_raw-InComment (raw_string_prefix (c ∷ cs)) depth c cs
step_in-InComment string depth c [] h = unfold step_in in ground arith
step_in-InComment string depth c (d ∷ cs) h = unfold step_in in ground arith
step_in-InComment char depth c [] h = unfold step_in in ground arith
step_in-InComment char depth c (d ∷ cs) h = unfold step_in in ground arith
step_in-InComment _ depth c cs h = unfold step_in in ground arith

step-InComment : (s : Loop) (c : ℕ) (cs : Bytes) → InComment s → InComment (step s c cs).next
unfolding step
step-InComment s c cs h = step_in-InComment s.state s.block_depth c cs h

-- Wherever the loop stands in a block comment its depth is positive: `block_depth -= 1` does not
-- underflow, on any content.
pub block_depth_pos :
    (content : Bytes) {s : Loop} {rest : Bytes}
    → Reaches step (at code 0) content s rest
    → s.state ≡ block_comment
    → 0 < s.block_depth
block_depth_pos content r = go r
  where
    go : {s : Loop} {rest : Bytes} → Reaches step (at code 0) content s rest → InComment s
    go here = λ e. cc
    go (turn {t = s} {c} {cs} t) = step-InComment s c cs (go t)

-- The inside of a block comment before `rest`, and what is left of it: markers of the comments
-- nested in it stay, all else is blanked.
pub data Nested : Bytes → Bytes → Bytes → Type 0 where
  nil : {rest : Bytes} → Nested rest [] []
  text :
      {rest : Bytes} {c : ℕ} {cs out : Bytes}
      → starts_with (codes "/*") (c ∷ (cs ++ rest)) ≡ false
      → starts_with (codes "*/") (c ∷ (cs ++ rest)) ≡ false
      → Nested rest cs out
      → Nested rest (c ∷ cs) (blank c ∷ out)
  nest :
      {rest inner shown cs out : Bytes}
      → Nested (codes "*/" ++ (cs ++ rest)) inner shown
      → Nested rest cs out
      → Nested rest
          (codes "/*" ++ (inner ++ (codes "*/" ++ cs)))
          (codes "/*" ++ (shown ++ (codes "*/" ++ out)))

turn_char :
    (d c : ℕ) (bs : Bytes)
    → starts_with (codes "/*") (c ∷ bs) ≡ false
    → starts_with (codes "*/") (c ∷ bs) ≡ false
    → run step (at block_comment (suc d)) (c ∷ bs)
      ≡ blank c ∷ run step (at block_comment (suc d)) bs
unfolding scan step
turn_char d c bs no_open no_close = ground arith

turn_open :
    (d : ℕ) (bs : Bytes)
    → run step (at block_comment (suc d)) (codes "/*" ++ bs)
      ≡ codes "/*" ++ run step (at block_comment (suc (suc d))) bs
unfolding scan step
turn_open d bs = ground arith

turn_close :
    (d : ℕ) (bs : Bytes)
    → run step (at block_comment (suc (suc d))) (codes "*/" ++ bs)
      ≡ codes "*/" ++ run step (at block_comment (suc d)) bs
unfolding scan step
turn_close d bs = ground arith

turn_leave :
    (bs : Bytes)
    → run step (at block_comment 1) (codes "*/" ++ bs) ≡ codes "*/" ++ run step (at code 0) bs
unfolding scan step
turn_leave bs = ground arith

run-Nested :
    {rest src out : Bytes} (d : ℕ)
    → Nested rest src out
    → run step (at block_comment (suc d)) (src ++ rest)
      ≡ out ++ run step (at block_comment (suc d)) rest
run-Nested d nil = refl
run-Nested d (text {rest} {c} {cs} no_open no_close t) =
    turn_char d c _ no_open no_close ∙ ap (◌∷◌ (blank c)) (run-Nested d t)
run-Nested d (nest {rest} {inner} {shown} {cs} {out} i t) =
    let tail = turn_close d (cs ++ rest) ∙ ap (λ x. codes "*/" ++ x) (run-Nested d t) in
    let inside = run-Nested (suc d) i ∙ ap (λ x. shown ++ x) tail in
    rw (append_assoc inner (codes "*/" ++ cs) rest, append_assoc shown (codes "*/" ++ out))
      (turn_open d _ ∙ ap (λ x. codes "/*" ++ x) inside)

turn_begin :
    (d : ℕ) (bs : Bytes)
    → next_is b'*' bs ≡ false
    → next_is b'!' bs ≡ false
    → run step (at code d) (codes "/*" ++ bs) ≡ codes "/*" ++ run step (at block_comment 1) bs
unfolding scan step raw_string_prefix
turn_begin d bs star bang = ground arith

turn_begin_doc :
    (d : ℕ) (bs : Bytes)
    → run step (at code d) (codes "/**" ++ bs) ≡ codes "/**" ++ run step (at block_comment 1) bs
unfolding scan step raw_string_prefix
turn_begin_doc d bs = ground arith

-- A block comment with comments nested in it to any depth, that is no documentation comment, is
-- closed by its own marker: the text inside is blanked and what is behind it is code again.
pub run_block_comment :
    {rest body out : Bytes} (d : ℕ)
    → Nested (codes "*/" ++ rest) body out
    → next_is b'*' (body ++ (codes "*/" ++ rest)) ≡ false
    → next_is b'!' (body ++ (codes "*/" ++ rest)) ≡ false
    → run step (at code d) (codes "/*" ++ (body ++ (codes "*/" ++ rest)))
      ≡ codes "/*" ++ (out ++ (codes "*/" ++ run step (at code 0) rest))
run_block_comment {rest} {body} {out} d n star bang =
    turn_begin d _ star bang
    ∙ ap (λ x. codes "/*" ++ x) (run-Nested 0 n ∙ ap (λ x. out ++ x) (turn_leave rest))

abbrev pub NoStar : Bytes → Type 0
NoStar [] = Unit {0}
NoStar (c ∷ cs) = (c ≢ b'*') × NoStar cs

run-NoStar : (d : ℕ) (bs : Bytes) → NoStar bs → run step (at block_comment (suc d)) bs ≡ blanks bs
run-NoStar d [] h = unfold scan in refl
run-NoStar d (c ∷ []) h =
    turn_char d c [] (unfold starts_with in ground arith) (unfold starts_with in ground arith)
    ∙ ap (◌∷◌ (blank c)) (run-NoStar d [] tt)
run-NoStar d (c ∷ e ∷ bs) h =
    turn_char d c (e ∷ bs) (unfold starts_with in ground arith) (unfold starts_with in ground arith)
    ∙ ap (◌∷◌ (blank c)) (run-NoStar d (e ∷ bs) h.1)

-- The empty comment `/**/` is taken for the opening of a documentation comment: all code behind it
-- is blanked, if there is no star in it.
pub run_empty_comment :
    (rest : Bytes)
    → NoStar rest
    → strip_rust_noise (codes "/**/" ++ rest) ≡ codes "/** " ++ blanks rest
unfolding strip_rust_noise
run_empty_comment rest h =
    turn_begin_doc 0 (b'/' ∷ rest)
    ∙ ap (λ x. codes "/**" ++ x) (run-NoStar 0 (b'/' ∷ rest) (ground arith))
