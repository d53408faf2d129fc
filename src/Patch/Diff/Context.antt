-- ===== src/Patch/Diff/Context.antt =====
-- What `select_context_rows` shows.
use mathlib.Core.List.{reverse, reverse-cons}
use xoxo.Base.{
  ℕ, ◌+◌, ◌-◌, ◌≤◌, ◌<◌, false, List, [], ◌∷◌, ◌++◌, append_assoc, append-nil, ◌≡◌, refl, ap, ◌∙◌,
  arith, length, length-drop, drop, leb, inl, inr, Bool-cases,
}
use xoxo.Patch.Diff.{
  PatchFileDiffRow, is_changed, changed_indexes, min, max, push_range, context_ranges, slice,
  select_rest, select_ranges, select_context_rows,
}
use xoxo.Patch.Diff.Slices.{
  changed, changed-append, take_all, drop_next, changed-slice, changed-gap, changed-joined,
}

-- The rows of the changes in the ranges, in their order.
abbrev changed_in : List PatchFileDiffRow → List (ℕ × ℕ) → List PatchFileDiffRow
changed_in rows [] = []
changed_in rows ((start, end) ∷ ranges) = changed (slice start end rows) ++ changed_in rows ranges

changed_in-append :
    (rows : List PatchFileDiffRow) (xs ys : List (ℕ × ℕ))
    → changed_in rows (xs ++ ys) ≡ changed_in rows xs ++ changed_in rows ys
changed_in-append rows [] ys = refl
changed_in-append rows ((s, e) ∷ xs) ys = ground (
  arith,
  changed_in-append rows xs ys,
  append_assoc (changed (slice s e rows)) (changed_in rows xs) (changed_in rows ys),
)

-- The rows of dots show no change.
changed-select_rest :
    (ranges : List (ℕ × ℕ)) (rows : List PatchFileDiffRow)
    → changed (select_rest ranges rows) ≡ changed_in rows ranges
unfolding select_rest
changed-select_rest [] rows = refl
changed-select_rest ((s, e) ∷ ranges) rows = ground (
  arith,
  changed-append (slice s e rows) (select_rest ranges rows),
  changed-select_rest ranges rows,
)

changed-select_ranges :
    (ranges : List (ℕ × ℕ)) (rows : List PatchFileDiffRow)
    → changed (select_ranges ranges rows) ≡ changed_in rows ranges
unfolding select_ranges
changed-select_ranges [] rows = refl
changed-select_ranges ((s, e) ∷ ranges) rows = ground (
  arith,
  changed-append (slice s e rows) (select_rest ranges rows),
  changed-select_rest ranges rows,
)

-- The same with the last range first.
abbrev shown : List PatchFileDiffRow → List (ℕ × ℕ) → List PatchFileDiffRow
shown rows [] = []
shown rows ((s, e) ∷ ranges) = shown rows ranges ++ changed (slice s e rows)

changed_in-reverse :
    (rows : List PatchFileDiffRow) (ranges : List (ℕ × ℕ))
    → changed_in rows (reverse ranges) ≡ shown rows ranges
changed_in-reverse rows [] = refl
changed_in-reverse rows ((s, e) ∷ ranges) = rw (reverse-cons (s, e) ranges) (
    ground (
      arith,
      changed_in-append rows (reverse ranges) ((s, e) ∷ []),
      changed_in-reverse rows ranges,
      append-nil (changed (slice s e rows)),
    ))

-- Where the last range ends.
abbrev last_end : List (ℕ × ℕ) → ℕ
last_end [] = 0
last_end ((s, e) ∷ ranges) = e

abbrev last_start : List (ℕ × ℕ) → ℕ
last_start [] = 0
last_start ((s, e) ∷ ranges) = s

-- The ranges show each change among the first `k` rows once.
record Shows (rows : List PatchFileDiffRow) (ranges : List (ℕ × ℕ)) (k : ℕ) : Type 0 where
  before_end : shown rows ranges ≡ changed (slice 0 (last_end ranges) rows)
  ordered : last_start ranges ≤ last_end ranges
  behind_end : changed (slice (last_end ranges) k rows) ≡ []

-- A range that begins at or before `k` and ends behind it, pushed.
push_range-Shows :
    (rows : List PatchFileDiffRow) (ranges : List (ℕ × ℕ)) (start end k : ℕ)
    → Shows rows ranges k
    → start ≤ k
    → k < end
    → Shows rows (push_range start end ranges) (k + 1)
unfolding push_range
push_range-Shows rows [] start end k h a b = record {
  before_end = changed-gap 0 start end k rows h.behind_end (omega arith) a (omega (arith, a, b));
  ordered = omega (arith, a, b);
  behind_end = ground (arith, b);
}
push_range-Shows rows ((s, e) ∷ ranges) start end k h a b = elim (Bool-cases (leb start e)) [
  | inl y ↦ rw y (record {
    before_end =
        changed-joined rows (shown rows ranges) s e (max e end) h.before_end h.ordered
          (ground arith);
    ordered = ground (arith, h.ordered);
    behind_end = ground (arith, b);
  })
  | inr n ↦ rw n (record {
    before_end =
        ap (λ x. x ++ changed (slice start end rows)) h.before_end
        ∙ changed-gap e start end k rows h.behind_end (ground (arith, n)) a (omega (arith, a, b));
    ordered = omega (arith, a, b);
    behind_end = ground (arith, b);
  })
]

Shows-unchanged :
    (rows : List PatchFileDiffRow) (ranges : List (ℕ × ℕ)) (k : ℕ) {x : PatchFileDiffRow}
    {rest : List PatchFileDiffRow}
    → drop k rows ≡ x ∷ rest
    → is_changed x.change ≡ false
    → Shows rows ranges k
    → Shows rows ranges (k + 1)
Shows-unchanged rows ranges k {x} {rest} d n h = record {
  before_end = h.before_end;
  ordered = h.ordered;
  behind_end = elim (Bool-cases (leb (last_end ranges) k)) [
    | inl y ↦
        changed-slice (last_end ranges) k (k + 1) rows (ground (arith, y)) (omega arith)
        ∙ ground (arith, h.behind_end, one)
    | inr o ↦ ground (arith, o)
  ];
}
  where
    one : changed (slice k (k + 1) rows) ≡ []
    one = rw d (ground (arith, n))

-- Nothing is shown behind the last change, and nothing is there.
shown_all :
    (rows : List PatchFileDiffRow) (ranges : List (ℕ × ℕ)) (k : ℕ)
    → length rows ≤ k
    → Shows rows ranges k
    → shown rows ranges ≡ changed rows
shown_all rows ranges k l h = elim (Bool-cases (leb (last_end ranges) k)) [
  | inl y ↦ ground (
    arith,
    y,
    l,
    h.before_end,
    h.behind_end,
    take_all k rows l,
    changed-slice 0 (last_end ranges) k rows (omega arith) (ground (arith, y)),
    append-nil (changed (slice 0 (last_end ranges) rows)),
  )
  | inr o ↦ ground (arith, h.before_end, take_all (last_end ranges) rows (ground (arith, o, l)))
]

context_ranges-shown :
    (context_lines : ℕ) (rows : List PatchFileDiffRow) (k : ℕ) (rest : List PatchFileDiffRow)
    (ranges : List (ℕ × ℕ))
    → drop k rows ≡ rest
    → Shows rows ranges k
    → shown rows (context_ranges context_lines (length rows) (changed_indexes k rest) ranges)
      ≡ changed rows
unfolding context_ranges changed_indexes
context_ranges-shown c rows k [] ranges d h =
    shown_all rows ranges k (omega (arith, length-drop k rows, ap length d)) h
context_ranges-shown c rows k (x ∷ rest) ranges d h = elim (Bool-cases (is_changed x.change)) [
  | inl y ↦ rw y (
      context_ranges-shown c rows (k + 1) rest _ (drop_next k rows d) (
        push_range-Shows rows ranges (k - c) (min (k + c + 1) (length rows)) k h (omega arith)
          (ground (arith, length-drop k rows, ap length d))))
  | inr n ↦ rw n (
      context_ranges-shown c rows (k + 1) rest ranges (drop_next k rows d)
        (Shows-unchanged rows ranges k d n h))
]

-- Whatever the number of context lines, the selection shows every changed row once, in order.
pub changed-select_context_rows :
    (rows : List PatchFileDiffRow) (context_lines : ℕ)
    → changed (select_context_rows rows context_lines) ≡ changed rows
unfolding select_context_rows
changed-select_context_rows rows c =
    let ranges = context_ranges c (length rows) (changed_indexes 0 rows) [] in
    changed-select_ranges (reverse ranges) rows
    ∙ changed_in-reverse rows ranges
    ∙ context_ranges-shown c rows 0 rows [] refl
        (record { before_end = refl; ordered = omega arith; behind_end = refl })
