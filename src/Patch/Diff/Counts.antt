-- ===== src/Patch/Diff/Counts.antt =====
-- The numbers of a preview: of added, removed and modified rows.
use xoxo.Base.{
  ℕ, ◌+◌, List, [], ◌∷◌, ◌++◌, ◌≡◌, refl, ap, sym, false, inl, inr, Bool-cases, ◌∙◌, arith, Bytes,
  ok, length, >>=-eq-ok,
}
use xoxo.Patch.{PatchFile, PlannedUpdates}
use xoxo.Patch.Lines.{split_lines}
use xoxo.Patch.Plan.{plan_updates}
use xoxo.Patch.Diff.Slices.{changed}
use xoxo.Patch.Diff.Context.{changed-select_context_rows}
use xoxo.Patch.Plan.{get}
use xoxo.Patch.Apply.{or_else}
use xoxo.Patch.Diff.{
  PatchFileDiffRow, PatchFileDiffChange, added, removed, modified, context, omitted, is_changed,
  Diff, PatchFileDiffPreview, build_diff_preview, select_context_rows, patch_file_context_lines,
  no_rows, added_row, push_inserted, push_original, push_originals, diff_rows,
}

abbrev pub is_added : PatchFileDiffChange → ℕ
is_added added = 1
is_added _ = 0

abbrev pub is_removed : PatchFileDiffChange → ℕ
is_removed removed = 1
is_removed _ = 0

abbrev pub is_modified : PatchFileDiffChange → ℕ
is_modified modified = 1
is_modified _ = 0

abbrev pub count : (PatchFileDiffChange → ℕ) → List PatchFileDiffRow → ℕ
count is [] = 0
count is (row ∷ rows) = is row.change + count is rows

count-append :
    (is : PatchFileDiffChange → ℕ) (xs ys : List PatchFileDiffRow)
    → count is (xs ++ ys) ≡ count is xs + count is ys
count-append is [] ys = omega arith
count-append is (x ∷ xs) ys = omega (arith, count-append is xs ys)

-- Each number is that of the rows of its kind.
record IsCounted (d : Diff) : Type 0 where
  pub of_added : count is_added d.all_rows ≡ d.stats.added_lines
  pub of_removed : count is_removed d.all_rows ≡ d.stats.removed_lines
  pub of_modified : count is_modified d.all_rows ≡ d.stats.modified_lines

push_inserted-IsCounted :
    (lines : List Bytes) (d : Diff) → IsCounted d → IsCounted (push_inserted d lines)
unfolding push_inserted
push_inserted-IsCounted [] d h = h
push_inserted-IsCounted (l ∷ ls) d h = push_inserted-IsCounted ls _ (record {
  of_added =
      omega (arith, h.of_added, count-append is_added d.all_rows (added_row d.next_right l ∷ []));
  of_removed =
      omega
        (arith, h.of_removed, count-append is_removed d.all_rows (added_row d.next_right l ∷ []));
  of_modified =
      omega
        (arith, h.of_modified, count-append is_modified d.all_rows (added_row d.next_right l ∷ []));
})

push_original-IsCounted :
    (p : PlannedUpdates) (n : ℕ) (line : Bytes) (d : Diff)
    → IsCounted d
    → IsCounted (push_original p n line d)
unfolding push_original
push_original-IsCounted p n line d h = record {
  of_added = grind (arith, h.of_added, count-append);
  of_removed = grind (arith, h.of_removed, count-append);
  of_modified = grind (arith, h.of_modified, count-append);
}

push_originals-IsCounted :
    (p : PlannedUpdates) (n : ℕ) (lines : List Bytes) (d : Diff)
    → IsCounted d
    → IsCounted (push_originals p n lines d)
unfolding push_originals
push_originals-IsCounted p n [] d h = h
push_originals-IsCounted p n (l ∷ ls) d h =
    push_originals-IsCounted p (n + 1) ls _
      (push_inserted-IsCounted (or_else (get n p.inserts) []) _ (push_original-IsCounted p n l d h))

diff_rows-IsCounted :
    (p : PlannedUpdates) (original : List Bytes) → IsCounted (diff_rows p original)
unfolding diff_rows
diff_rows-IsCounted p original = push_originals-IsCounted p 1 original _ (
    push_inserted-IsCounted (or_else (get 0 p.inserts) []) no_rows
      (record { of_added = refl; of_removed = refl; of_modified = refl }))

-- Rows that show no change are not counted.
count-changed :
    (is : PatchFileDiffChange → ℕ)
    → is context ≡ 0
    → is omitted ≡ 0
    → (rows : List PatchFileDiffRow) → count is (changed rows) ≡ count is rows
count-changed is c o [] = refl
count-changed is c o (row ∷ rows) = elim (Bool-cases (is_changed row.change)) [
  | inl e ↦ rw e (ap (◌+◌ (is row.change)) (count-changed is c o rows))
  | inr e ↦ rw e (count-changed is c o rows ∙ omega (arith, unchanged row.change e))
]
  where
    unchanged : (k : PatchFileDiffChange) → is_changed k ≡ false → is k ≡ 0
    unchanged added e = cc
    unchanged removed e = cc
    unchanged modified e = cc
    unchanged context e = c
    unchanged omitted e = o

count-select_context_rows :
    (is : PatchFileDiffChange → ℕ)
    → is context ≡ 0
    → is omitted ≡ 0
    → (rows : List PatchFileDiffRow) (context_lines : ℕ)
    → count is (select_context_rows rows context_lines) ≡ count is rows
count-select_context_rows is c o rows n =
    sym (count-changed is c o (select_context_rows rows n))
    ∙ ap (count is) (changed-select_context_rows rows n)
    ∙ count-changed is c o rows

preview_of :
    (content : Bytes) (updates : List PatchFile) (preview : PatchFileDiffPreview)
    → build_diff_preview content updates ≡ ok preview
    → (p : PlannedUpdates) × (preview.rows
        ≡ select_context_rows (diff_rows p (split_lines content)).all_rows patch_file_context_lines)
      × (preview.preview_stats ≡ (diff_rows p (split_lines content)).stats)
unfolding build_diff_preview
preview_of content updates preview h =
    let (p, e, k) = >>=-eq-ok (plan_updates (length (split_lines content)) updates) _ h in
    (p, grind (arith, k), grind (arith, k))

-- The numbers of a preview are those of the rows that it shows: of the rows of added, of removed
-- and of modified lines among them.
pub build_diff_preview_counts :
    (content : Bytes) (updates : List PatchFile) (preview : PatchFileDiffPreview)
    → build_diff_preview content updates ≡ ok preview
    → (count is_added preview.rows ≡ preview.preview_stats.added_lines)
      × (count is_removed preview.rows ≡ preview.preview_stats.removed_lines)
      × (count is_modified preview.rows ≡ preview.preview_stats.modified_lines)
build_diff_preview_counts content updates preview h =
    let (p, rows, stats) = preview_of content updates preview h in
    let d = diff_rows p (split_lines content) in
    let counted = diff_rows-IsCounted p (split_lines content) in
    (
      ap (count is_added) rows
          ∙ count-select_context_rows is_added refl refl d.all_rows 4
          ∙ counted.of_added
          ∙ sym (ap (λ s. s.added_lines) stats),
      ap (count is_removed) rows
          ∙ count-select_context_rows is_removed refl refl d.all_rows 4
          ∙ counted.of_removed
          ∙ sym (ap (λ s. s.removed_lines) stats),
      ap (count is_modified) rows
          ∙ count-select_context_rows is_modified refl refl d.all_rows 4
          ∙ counted.of_modified
          ∙ sym (ap (λ s. s.modified_lines) stats),
    )
