-- ===== src/Strip/Lines.antt =====
-- `content.split_inclusive('\n')`, for the strippers that go line by line.
use xoxo.Base.{
  ℕ, Bool, true, false, List, [], ◌∷◌, ◌++◌, append_assoc, append-nil, ◌≡◌, ◌≢◌, refl, sym, ◌∙◌, ap,
  arith, Bytes, Bool-cases, ==_iff, inl, inr, ◌==◌, if◌then◌else◌,
}
use xoxo.Strip.Scan.{SameShape}
use xoxo.Strip.Shape.{SameShape-append, SameShape-refl}

-- A line, and whether a line end is behind it: what `strip_suffix('\n')` finds.
abbrev pub Segment : Type 0
Segment = Bytes × Bool

-- The segments of the bytes, behind the bytes of a line that has begun.
unfoldable pub segments_from : Bytes → Bytes → List Segment
segments_from [] [] = []
segments_from (l ∷ ls) [] = (l ∷ ls, false) ∷ []
segments_from line (c ∷ cs) =
    let ended = (line, true) ∷ segments_from [] cs in
    let longer = segments_from (line ++ c ∷ []) cs in if c == b'\n' then ended else longer

unfoldable pub split_inclusive : Bytes → List Segment
unfolding segments_from
split_inclusive = segments_from []

-- `if has_newline { out.push('\n') }`.
abbrev pub line_end : Bool → Bytes
line_end has_newline = if has_newline then b'\n' ∷ [] else []

abbrev pub joined : List Segment → Bytes
joined [] = []
joined ((line, has_newline) ∷ rest) = (line ++ line_end has_newline) ++ joined rest

abbrev pub NoLineEnd : Bytes → Type 0
NoLineEnd [] = Unit {0}
NoLineEnd (c ∷ cs) = (c ≢ b'\n') × NoLineEnd cs

abbrev pub AllLines : List Segment → Type 0
AllLines [] = Unit {0}
AllLines ((line, _) ∷ rest) = NoLineEnd line × AllLines rest

NoLineEnd-concat : (line : Bytes) (c : ℕ) → NoLineEnd line → c ≢ b'\n' → NoLineEnd (line ++ c ∷ [])
NoLineEnd-concat [] c h k = (k, tt)
NoLineEnd-concat (l ∷ ls) c h k = (h.0, NoLineEnd-concat ls c h.1 k)

segments_from_cons :
    (line : Bytes) (c : ℕ) (cs : Bytes)
    → segments_from line (c ∷ cs) ≡ (
        if c == b'\n'
        then (line, true) ∷ segments_from [] cs
        else segments_from (line ++ c ∷ []) cs)
unfolding segments_from
segments_from_cons [] c cs = refl
segments_from_cons (l ∷ ls) c cs = refl

abbrev Parted : List Segment → Bytes → Type 0
Parted ss bs = (joined ss ≡ bs) × AllLines ss

joined-cons :
    (line : Bytes) (c : ℕ) (cs : Bytes)
    → NoLineEnd line
    → Parted (segments_from [] cs) cs
    → (NoLineEnd (line ++ c ∷ [])
        → Parted (segments_from (line ++ c ∷ []) cs) ((line ++ c ∷ []) ++ cs))
    → Parted (segments_from line (c ∷ cs)) (line ++ c ∷ cs)
joined-cons line c cs h ended longer = elim (Bool-cases (c == b'\n')) [
  | inl e ↦ rw segments_from_cons (
      rw e (
        rw (append_assoc line (b'\n' ∷ []) (joined (segments_from [] cs)), ended.0)
            (ap (λ x. line ++ x ∷ cs) (sym ((==_iff c b'\n').0 e))),
        (h, ended.1),
      ))
  | inr f ↦ rw segments_from_cons (
      rw f (
        let (j, a) = longer (NoLineEnd-concat line c h (ground arith)) in
        (j ∙ append_assoc line (c ∷ []) cs, a)))
]

-- The segments are the lines of the text, and joined they are the text.
joined-segments_from :
    (line bs : Bytes)
    → NoLineEnd line
    → (joined (segments_from line bs) ≡ line ++ bs) × AllLines (segments_from line bs)
joined-segments_from [] [] h = unfold segments_from in (refl, tt)
joined-segments_from (l ∷ ls) [] h = unfold segments_from in (append-nil _, (h, tt))
joined-segments_from (l ∷ ls) (c ∷ cs) h =
    joined-cons (l ∷ ls) c cs h (joined-segments_from [] cs tt)
      (joined-segments_from (l ∷ ls ++ c ∷ []) cs)
joined-segments_from [] (c ∷ cs) h =
    joined-cons [] c cs h (joined-segments_from [] cs tt) (joined-segments_from (c ∷ []) cs)

pub joined-split_inclusive : (bs : Bytes) → joined (split_inclusive bs) ≡ bs
unfolding split_inclusive
joined-split_inclusive bs = (joined-segments_from [] bs tt).0

pub split_inclusive-AllLines : (bs : Bytes) → AllLines (split_inclusive bs)
unfolding split_inclusive
split_inclusive-AllLines bs = (joined-segments_from [] bs tt).1

-- A segment whose line is stripped in shape, before the rest.
pub segment-SameShape :
    (line out : Bytes) (has_newline : Bool) (rest outs : Bytes)
    → SameShape line out
    → SameShape rest outs
    → SameShape ((line ++ line_end has_newline) ++ rest) ((out ++ line_end has_newline) ++ outs)
segment-SameShape line out has_newline rest outs h k =
    SameShape-append _ rest _ outs
      (SameShape-append line _ out _ h (SameShape-refl (line_end has_newline))) k
