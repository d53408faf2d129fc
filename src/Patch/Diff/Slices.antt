-- ===== src/Patch/Diff/Slices.antt =====
-- Slices of the rows, and the changes that they show.
use xoxo.Base.{
  ℕ, zero, suc, ◌+◌, ◌-◌, ◌≤◌, List, [], ◌∷◌, ◌++◌, append_assoc, ◌≡◌, refl, sym, ap, ◌∙◌, arith,
  length, take, drop, if◌then◌else◌,
}
use xoxo.Patch.Diff.{PatchFileDiffRow, is_changed, slice}

-- The rows that show a change.
abbrev pub changed : List PatchFileDiffRow → List PatchFileDiffRow
changed [] = []
changed (row ∷ rows) = if is_changed row.change then row ∷ changed rows else changed rows

pub changed-append : (xs ys : List PatchFileDiffRow) → changed (xs ++ ys) ≡ changed xs ++ changed ys
changed-append [] ys = refl
changed-append (x ∷ xs) ys = ground (arith, changed-append xs ys)

take-nil : (n : ℕ) → take {A = PatchFileDiffRow} n [] ≡ []
take-nil zero = refl
take-nil (suc n) = refl

pub take_all : (n : ℕ) (rows : List PatchFileDiffRow) → length rows ≤ n → take n rows ≡ rows
take_all n [] h = take-nil n
take_all zero (x ∷ rows) h = absurd (omega (arith, h))
take_all (suc n) (x ∷ rows) h = ap (λ r. x ∷ r) (take_all n rows (omega (arith, h)))

drop-suc :
    (n : ℕ) (rows : List PatchFileDiffRow) {x : PatchFileDiffRow} {rest : List PatchFileDiffRow}
    → drop n rows ≡ x ∷ rest
    → drop (suc n) rows ≡ rest
drop-suc zero [] h = cc
drop-suc zero (y ∷ rows) h = cc
drop-suc (suc n) [] h = cc
drop-suc (suc n) (y ∷ rows) h = drop-suc n rows h

pub drop_next :
    (n : ℕ) (rows : List PatchFileDiffRow) {x : PatchFileDiffRow} {rest : List PatchFileDiffRow}
    → drop n rows ≡ x ∷ rest
    → drop (n + 1) rows ≡ rest
drop_next n rows h = rw (suc_eq n) (drop-suc n rows h)
  where
    suc_eq : (n : ℕ) → n + 1 ≡ suc n
    suc_eq n = omega arith

append-eq-nil : (xs ys : List PatchFileDiffRow) → xs ++ ys ≡ [] → xs ≡ []
append-eq-nil [] ys h = refl
append-eq-nil (x ∷ xs) ys h = cc

take-split :
    (m b : ℕ) (rows : List PatchFileDiffRow)
    → m ≤ b
    → take b rows ≡ take m rows ++ take (b - m) (drop m rows)
take-split zero b rows h = ground arith
take-split (suc m) zero rows h = absurd (omega arith)
take-split (suc m) (suc b) [] h = ground (arith, take-nil (b - m))
take-split (suc m) (suc b) (x ∷ rows) h = ground (arith, take-split m b rows (omega arith))

slice-split :
    (a m b : ℕ) (rows : List PatchFileDiffRow)
    → a ≤ m
    → m ≤ b
    → slice a b rows ≡ slice a m rows ++ slice m b rows
slice-split zero m b rows h k = ground (arith, take-split m b rows k)
slice-split (suc a) zero b rows h k = absurd (omega arith)
slice-split (suc a) (suc m) zero rows h k = absurd (omega arith)
slice-split (suc a) (suc m) (suc b) [] h k =
    ground (arith, take-nil (b - a), take-nil (m - a), take-nil (b - m))
slice-split (suc a) (suc m) (suc b) (x ∷ rows) h k =
    ground (arith, slice-split a m b rows (omega arith) (omega arith))

pub changed-slice :
    (a m b : ℕ) (rows : List PatchFileDiffRow)
    → a ≤ m
    → m ≤ b
    → changed (slice a b rows) ≡ changed (slice a m rows) ++ changed (slice m b rows)
changed-slice a m b rows h k =
    ap changed (slice-split a m b rows h k) ∙ changed-append (slice a m rows) (slice m b rows)

-- Rows without a change between two ranges are left out.
pub changed-gap :
    (a start end k : ℕ) (rows : List PatchFileDiffRow)
    → changed (slice a k rows) ≡ []
    → a ≤ start
    → start ≤ k
    → start ≤ end
    → changed (slice 0 a rows) ++ changed (slice start end rows) ≡ changed (slice 0 end rows)
changed-gap a start end k rows none h i j =
    let gap =
      append-eq-nil (changed (slice a start rows)) (changed (slice start k rows))
        (sym (changed-slice a start k rows h i) ∙ none) in
    ground (
      arith,
      gap,
      changed-slice 0 a end rows (omega arith) (omega (arith, h, j)),
      changed-slice a start end rows h j,
    )

-- Ranges that meet are one.
pub changed-joined :
    (rows : List PatchFileDiffRow) (before : List PatchFileDiffRow) (s e last : ℕ)
    → before ++ changed (slice s e rows) ≡ changed (slice 0 e rows)
    → s ≤ e
    → e ≤ last
    → before ++ changed (slice s last rows) ≡ changed (slice 0 last rows)
changed-joined rows before s e last h i j = ground (
  arith,
  h,
  changed-slice s e last rows i j,
  changed-slice 0 e last rows (omega arith) j,
  append_assoc before (changed (slice s e rows)) (changed (slice e last rows)),
)
