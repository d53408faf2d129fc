-- ===== src/Patch/Diff/Tests.antt =====
-- A preview, and its theorems at that batch.
use xoxo.Base.{◌+◌, List, [], ◌∷◌, ◌≡◌, refl, Bytes, codes, ok, length}
use xoxo.Patch.{remove, replace, insert, PlannedUpdates}
use xoxo.Patch.Lines.{split_lines, replace_crlf, replace_cr, strip_last_newline, split_newline}
use xoxo.Patch.Plan.{
  contains, get, extend, remove_lines, plan_update, plan_from, check_conflicts, plan_updates,
}
use xoxo.Patch.Apply.{output, apply_updates}
use xoxo.Patch.Diff.{
  PatchFileDiffRow, PatchFileDiffPreview, added_row, removed_row, modified_row, context_row,
  omitted_row, push_inserted, push_original, push_originals, diff_rows, changed_indexes, push_range,
  context_ranges, select_rest, select_ranges, select_context_rows, build_diff_preview,
}
use xoxo.Patch.Diff.Rows.{right_side, left_side, numbered, diff_rows-sides}
use xoxo.Patch.Diff.Slices.{changed}
use xoxo.Patch.Diff.Context.{changed-select_context_rows}
use xoxo.Patch.Diff.Counts.{is_added, is_removed, is_modified, count, build_diff_preview_counts}
use xoxo.Patch.Diff.Refusals.{refusal, build_diff_preview-apply_updates}

abbrev plan : PlannedUpdates
plan = record {
  removed = 1 ∷ [];
  replacements = (2, codes "B") ∷ [];
  inserts = (2, codes "c" ∷ codes "d" ∷ []) ∷ [];
}

abbrev original : List Bytes
original = codes "a" ∷ codes "b" ∷ codes "e" ∷ []

abbrev rows : List PatchFileDiffRow
rows =
    removed_row 1 (codes "a")
    ∷ modified_row 2 1 (codes "b") (codes "B")
    ∷ added_row 2 (codes "c")
    ∷ added_row 3 (codes "d")
    ∷ context_row 3 4 (codes "e")
    ∷ []

abbrev preview : PatchFileDiffPreview
preview = record {
  preview_stats = record { added_lines = 2; removed_lines = 1; modified_lines = 1 };
  rows = rows;
}

preview_of_batch :
    build_diff_preview
      (codes "a\nb\ne\n")
      (remove 1 1 ∷ replace 2 (codes "B") ∷ insert 2 (codes "c" ∷ codes "d" ∷ []) ∷ [])
    ≡ ok preview
unfolding build_diff_preview plan_updates plan_from plan_update extend remove_lines check_conflicts
    contains get split_lines replace_crlf replace_cr strip_last_newline split_newline push_inserted
    push_original push_originals diff_rows changed_indexes push_range context_ranges select_rest
    select_ranges select_context_rows
preview_of_batch = refl

-- Two changes far apart, with one row of context.
select_two_ranges :
    select_context_rows
      (added_row 1 (codes "x")
        ∷ context_row 1 2 (codes "1")
        ∷ context_row 2 3 (codes "2")
        ∷ context_row 3 4 (codes "3")
        ∷ removed_row 4 (codes "4")
        ∷ [])
      1
    ≡ added_row 1 (codes "x")
      ∷ context_row 1 2 (codes "1")
      ∷ omitted_row
      ∷ context_row 3 4 (codes "3")
      ∷ removed_row 4 (codes "4")
      ∷ []
unfolding select_context_rows select_ranges select_rest context_ranges push_range changed_indexes
select_two_ranges = refl

diff_rows-sides_example :
    let d = diff_rows plan original in
    (right_side d.all_rows ≡ numbered 1 (output plan original))
    × (left_side d.all_rows ≡ numbered 1 original)
    × (length original + d.stats.added_lines
        ≡ length (output plan original) + d.stats.removed_lines)
diff_rows-sides_example = diff_rows-sides plan original

build_diff_preview_counts_example :
    (count is_added rows ≡ 2) × (count is_removed rows ≡ 1) × (count is_modified rows ≡ 1)
build_diff_preview_counts_example =
    build_diff_preview_counts (codes "a\nb\ne\n")
      (remove 1 1 ∷ replace 2 (codes "B") ∷ insert 2 (codes "c" ∷ codes "d" ∷ []) ∷ []) preview
      preview_of_batch

build_diff_preview-apply_updates_example :
    let updates = remove 1 1 ∷ replace 1 (codes "b") ∷ [] in
    refusal (build_diff_preview (codes "a\n") updates)
    ≡ refusal (apply_updates (codes "a\n") updates)
build_diff_preview-apply_updates_example =
    build_diff_preview-apply_updates (codes "a\n") (remove 1 1 ∷ replace 1 (codes "b") ∷ [])

changed-select_context_rows_example : changed (select_context_rows rows 1) ≡ changed rows
changed-select_context_rows_example = changed-select_context_rows rows 1
