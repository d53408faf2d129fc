-- ===== src/Strip/Rust/Covers.antt =====
-- The stripper of Rust keeps the shape of the text.
use xoxo.Base.{
  ℕ, zero, suc, ◌+◌, ◌≤◌, true, ◌&&◌, [], ◌∷◌, Option, none, some, ◌≡◌, inl, inr, refl, arith,
  Bytes, length, take, drop, replicate, Bool-cases, ◌==◌,
}
use xoxo.Strip.Scan.{scan, next_is, SameShape, Covers}
use xoxo.Strip.Shape.{run-SameShape, SameShape-refl}
use xoxo.Strip.Rust.{
  State, code, raw_string, Loop, at, count_hashes, raw_string_quote, raw_string_prefix,
  has_raw_string_terminator, step_code, step_raw, step_in, step, strip_rust_noise,
}

count_hashes-lt-length :
    (bs : Bytes)
    → next_is b'"' (drop (count_hashes bs) bs) ≡ true
    → suc (count_hashes bs) ≤ length bs
unfolding count_hashes
count_hashes-lt-length [] h = cc
count_hashes-lt-length (c ∷ cs) h = ground (arith, count_hashes-lt-length cs)

raw_string_quote_bounds :
    (p : ℕ) (bs : Bytes) (n k : ℕ)
    → raw_string_quote p bs ≡ some (n, k)
    → (1 ≤ n) × (n ≤ p + length bs)
unfolding raw_string_quote
raw_string_quote_bounds p bs n k e = ground (arith, count_hashes-lt-length bs)

raw_string_prefix_bounds :
    (bs : Bytes) (n k : ℕ) → raw_string_prefix bs ≡ some (n, k) → (1 ≤ n) × (n ≤ length bs)
unfolding raw_string_prefix
raw_string_prefix_bounds [] n k e = ground arith
raw_string_prefix_bounds (c ∷ []) n k e = ground (arith, raw_string_quote_bounds 1 [] n k)
raw_string_prefix_bounds (c ∷ d ∷ cs) n k e =
    ground (arith, raw_string_quote_bounds 1 (d ∷ cs) n k, raw_string_quote_bounds 2 cs n k)

has_raw_string_terminator-take :
    (n : ℕ) (bs : Bytes)
    → has_raw_string_terminator n bs ≡ true
    → (n ≤ length bs) × (take n bs ≡ replicate n b'#')
unfolding has_raw_string_terminator
has_raw_string_terminator-take zero bs h = (omega arith, refl)
has_raw_string_terminator-take (suc n) [] h = cc
has_raw_string_terminator-take (suc n) (c ∷ cs) h =
    ground (arith, has_raw_string_terminator-take n cs)

step_code-Covers : (depth c : ℕ) (cs : Bytes) → Covers (c ∷ cs) (step_code depth c cs)
unfolding step_code
step_code-Covers depth c [] = ground arith
step_code-Covers depth c (d ∷ cs) = ground arith

step_raw-Covers :
    (o : Option (ℕ × ℕ)) (depth c : ℕ) (cs : Bytes)
    → raw_string_prefix (c ∷ cs) ≡ o
    → Covers (c ∷ cs) (step_raw o depth c cs)
unfolding step_raw
step_raw-Covers none depth c cs e = step_code-Covers depth c cs
step_raw-Covers (some (n, k)) depth c cs e =
    let (low, high) = raw_string_prefix_bounds (c ∷ cs) n k e in
    (low, high, SameShape-refl (take n (c ∷ cs)))

raw_string-Covers :
    (n depth c : ℕ) (cs : Bytes) → Covers (c ∷ cs) (step_in (raw_string n) depth c cs)
unfolding step_in
raw_string-Covers n depth c cs = elim (Bool-cases (c == b'"' && has_raw_string_terminator n cs)) [
  | inl t ↦ rw t (
      let (fits, hashes) = has_raw_string_terminator-take n cs (ground arith) in
      ((omega arith), (omega arith), (inl refl, rw hashes (SameShape-refl (replicate n b'#')))))
  | inr f ↦ rw f ((omega arith), (omega arith), (inl refl, tt))
]

step_in-Covers : (s : State) (depth c : ℕ) (cs : Bytes) → Covers (c ∷ cs) (step_in s depth c cs)
step_in-Covers code depth c cs = unfold step_in in step_raw-Covers _ depth c cs refl
step_in-Covers (raw_string n) depth c cs = raw_string-Covers n depth c cs
step_in-Covers _ depth c cs = unfold step_in in ground arith

pub step-Covers : (s : Loop) (c : ℕ) (cs : Bytes) → Covers (c ∷ cs) (step s c cs)
unfolding step
step-Covers s c cs = step_in-Covers s.state s.block_depth c cs

pub strip_rust_noise-SameShape : (content : Bytes) → SameShape content (strip_rust_noise content)
unfolding strip_rust_noise scan
strip_rust_noise-SameShape = run-SameShape step step-Covers (at code 0)
