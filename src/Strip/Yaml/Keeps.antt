-- ===== src/Strip/Yaml/Keeps.antt =====
-- The stripper of YAML keeps the shape of an ASCII text.
use mathlib.Core.Path.{subst}
use xoxo.Base.{
  ℕ, ◌+◌, Bool, ◌&&◌, List, [], ◌∷◌, ◌++◌, Option, none, some, ◌≡◌, inl, inr, refl, ap, arith,
  Bytes, Bool-cases, length, replicate, take, ◌==◌, if◌then◌else◌,
}
use xoxo.Strip.Scan.{SameShape, Covers}
use xoxo.Strip.Shape.{run-SameShape_where, SameShape-refl, IsAscii, IsAscii-append, KeepsAscii}
use xoxo.Strip.Lines.{
  Segment, split_inclusive, line_end, joined, NoLineEnd, AllLines, joined-split_inclusive,
  split_inclusive-AllLines, segment-SameShape,
}
use xoxo.Strip.Yaml.{
  State, plain, single_quote, double_quote, comment_may_start, step_in, Loop, start, step,
  strip_yaml_line, detects_block_scalar, leading_indent, in_block_scalar, strip_segments,
  strip_yaml_noise,
}

take-length : (cs : Bytes) → take (length cs) cs ≡ cs
take-length [] = refl
take-length (c ∷ cs) = ap (◌∷◌ c) (take-length cs)

blank-SameShape : (cs : Bytes) → NoLineEnd cs → SameShape cs (replicate (length cs) b' ')
blank-SameShape [] h = tt
blank-SameShape (c ∷ cs) h = (inr (refl, h.0), blank-SameShape cs h.1)

comment-SameShape :
    (cs : Bytes) → NoLineEnd cs → SameShape (take (length cs) cs) (replicate (length cs) b' ')
comment-SameShape cs h = rw take-length (blank-SameShape cs h)

plain-Covers :
    (before : Option ℕ) (c : ℕ) (cs : Bytes)
    → NoLineEnd (c ∷ cs)
    → Covers (c ∷ cs) (step_in plain before c cs)
unfolding step_in
plain-Covers before c cs h = elim (Bool-cases (c == b'#' && comment_may_start before)) [
  | inl t ↦ rw t ((omega arith), (omega arith), (inl (ground arith), comment-SameShape cs h.1))
  | inr f ↦ rw f (ground arith)
]

step_in-Covers :
    (s : State) (before : Option ℕ) (c : ℕ) (cs : Bytes)
    → NoLineEnd (c ∷ cs)
    → Covers (c ∷ cs) (step_in s before c cs)
step_in-Covers plain before c cs h = plain-Covers before c cs h
step_in-Covers single_quote before c cs h = unfold step_in in ground arith
step_in-Covers double_quote before c [] h = unfold step_in in ground arith
step_in-Covers double_quote before c (d ∷ cs) h = unfold step_in in ground arith

step-Covers : (s : Loop) (c : ℕ) (cs : Bytes) → NoLineEnd (c ∷ cs) → Covers (c ∷ cs) (step s c cs)
unfolding step
step-Covers s c cs h = step_in-Covers s.state s.before c cs h

strip_yaml_line-SameShape : (line : Bytes) → NoLineEnd line → SameShape line (strip_yaml_line line)
unfolding strip_yaml_line
strip_yaml_line-SameShape line h =
    run-SameShape_where step NoLineEnd (λ c cs h'. h'.1) step-Covers start line h

module _ (is_blank : Bytes → Bool) (decode : Bytes → Bytes) (keeps : KeepsAscii decode) where
  kept-SameShape : (line : Bytes) → IsAscii line → SameShape line (decode line)
  kept-SameShape line a = rw (keeps line a) (SameShape-refl line)

  strip_segments-SameShape :
      (indent : Option ℕ) (ss : List Segment)
      → AllLines ss
      → IsAscii (joined ss)
      → SameShape (joined ss) (strip_segments is_blank decode indent ss)
  unfolding strip_segments
  strip_segments-SameShape indent [] h a = tt
  strip_segments-SameShape indent ((line, nl) ∷ ss) h a =
      let (first, rest) = IsAscii-append (line ++ line_end nl) (joined ss) a in
      elim (Bool-cases (in_block_scalar is_blank decode indent line)) [
        | inl e ↦ rw e (
            segment-SameShape line (decode line) nl _ _
              (kept-SameShape line (IsAscii-append line (line_end nl) first).0)
              (strip_segments-SameShape indent ss h.1 rest))
        | inr e ↦ rw e (
            segment-SameShape line (strip_yaml_line line) nl _ _
              (strip_yaml_line-SameShape line h.0)
              (strip_segments-SameShape
                (if detects_block_scalar line then some (leading_indent line + 1) else none) ss h.1
                rest))
      ]

  pub strip_yaml_noise-SameShape :
      (content : Bytes)
      → IsAscii content
      → SameShape content (strip_yaml_noise is_blank decode content)
  unfolding strip_yaml_noise
  strip_yaml_noise-SameShape content a =
      subst (λ x. SameShape x (strip_segments is_blank decode none (split_inclusive content)))
        (joined-split_inclusive content)
        (strip_segments-SameShape none (split_inclusive content) (split_inclusive-AllLines content)
          (rw joined-split_inclusive a))
