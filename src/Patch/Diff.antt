-- ===== src/Patch/Diff.antt =====
-- crates/agents/nerd/src/tools/patch_file/diff_preview.rs: the rows that show what a batch changes,
-- and the rows near a change that are kept. The texts of the preview's summary and of its kind are left out.
pub mod Rows
pub mod Refusals
pub mod Slices
pub mod Context
mod Tests
pub mod Counts
use mathlib.Core.List.{reverse}
use xoxo.Base.{
  ℕ, ◌+◌, ◌-◌, Bool, true, false, List, [], ◌∷◌, ◌++◌, Option, none, some, Bytes, codes, Result, ok,
  err, ◌>>=◌, length, take, drop, leb, if◌then◌else◌,
}
use xoxo.Patch.{PatchFile, PlannedUpdates, PatchError}
use xoxo.Patch.Lines.{split_lines}
use xoxo.Patch.Plan.{contains, get, plan_updates}
use xoxo.Patch.Apply.{or_else}

pub data PatchFileDiffChange : Type 0 where
  added context omitted removed modified : PatchFileDiffChange

pub record PatchFileDiffRow : Type 0 where
  pub change : PatchFileDiffChange
  pub left_line_number : Option ℕ
  pub right_line_number : Option ℕ
  pub left_content : Bytes
  pub right_content : Bytes

pub record PatchFileDiffStats : Type 0 where
  pub added_lines : ℕ
  pub removed_lines : ℕ
  pub modified_lines : ℕ

-- The variables of `build_diff_preview`.
pub record Diff : Type 0 where
  pub all_rows : List PatchFileDiffRow
  pub next_right : ℕ
  pub stats : PatchFileDiffStats

abbrev pub no_rows : Diff
no_rows = record {
  all_rows = [];
  next_right = 1;
  stats = record { added_lines = 0; removed_lines = 0; modified_lines = 0 };
}

abbrev pub added_row : ℕ → Bytes → PatchFileDiffRow
added_row n line = record {
  change = added;
  left_line_number = none;
  right_line_number = some n;
  left_content = [];
  right_content = line;
}

abbrev pub removed_row : ℕ → Bytes → PatchFileDiffRow
removed_row n line = record {
  change = removed;
  left_line_number = some n;
  right_line_number = none;
  left_content = line;
  right_content = [];
}

abbrev pub modified_row : ℕ → ℕ → Bytes → Bytes → PatchFileDiffRow
modified_row n right line replacement = record {
  change = modified;
  left_line_number = some n;
  right_line_number = some right;
  left_content = line;
  right_content = replacement;
}

abbrev pub context_row : ℕ → ℕ → Bytes → PatchFileDiffRow
context_row n right line = record {
  change = context;
  left_line_number = some n;
  right_line_number = some right;
  left_content = line;
  right_content = line;
}

-- `for line in lines`, over inserted lines.
unfoldable pub push_inserted : Diff → List Bytes → Diff
push_inserted d [] = d
push_inserted d (line ∷ lines) =
    push_inserted
      (record {
        all_rows = d.all_rows ++ added_row d.next_right line ∷ [];
        next_right = d.next_right + 1;
        stats = record d.stats { added_lines = d.stats.added_lines + 1 };
      })
      lines

-- The row of an original line.
unfoldable pub push_original : PlannedUpdates → ℕ → Bytes → Diff → Diff
push_original p n line d =
    if contains n p.removed
    then record {
      all_rows = d.all_rows ++ removed_row n line ∷ [];
      next_right = d.next_right;
      stats = record d.stats { removed_lines = d.stats.removed_lines + 1 };
    }
    else elim (get n p.replacements) [
      | some replacement ↦ record {
        all_rows = d.all_rows ++ modified_row n d.next_right line replacement ∷ [];
        next_right = d.next_right + 1;
        stats = record d.stats { modified_lines = d.stats.modified_lines + 1 };
      }
      | none ↦ record {
        all_rows = d.all_rows ++ context_row n d.next_right line ∷ [];
        next_right = d.next_right + 1;
        stats = d.stats;
      }
    ]

-- The loop over the original lines, from number `n` on.
unfoldable pub push_originals : PlannedUpdates → ℕ → List Bytes → Diff → Diff
push_originals p n [] d = d
push_originals p n (line ∷ lines) d =
    push_originals p (n + 1) lines
      (push_inserted (push_original p n line d) (or_else (get n p.inserts) []))

unfoldable pub diff_rows : PlannedUpdates → List Bytes → Diff
diff_rows p original =
    push_originals p 1 original (push_inserted no_rows (or_else (get 0 p.inserts) []))

abbrev pub is_changed : PatchFileDiffChange → Bool
is_changed added = true
is_changed removed = true
is_changed modified = true
is_changed context = false
is_changed omitted = false

-- The indexes of the changed rows, of which the first is at `index`.
unfoldable pub changed_indexes : ℕ → List PatchFileDiffRow → List ℕ
changed_indexes index [] = []
changed_indexes index (row ∷ rows) =
    let rest = changed_indexes (index + 1) rows in
    if is_changed row.change then index ∷ rest else rest

abbrev pub min : ℕ → ℕ → ℕ
min a b = if leb a b then a else b

abbrev pub max : ℕ → ℕ → ℕ
max a b = if leb a b then b else a

-- A range joins the last one if it begins no later than that ends; the last one is first here.
unfoldable pub push_range : ℕ → ℕ → List (ℕ × ℕ) → List (ℕ × ℕ)
push_range start end [] = (start, end) ∷ []
push_range start end ((s, e) ∷ ranges) =
    if leb start e then (s, max e end) ∷ ranges else (start, end) ∷ (s, e) ∷ ranges

unfoldable pub context_ranges : ℕ → ℕ → List ℕ → List (ℕ × ℕ) → List (ℕ × ℕ)
context_ranges context_lines len [] ranges = ranges
context_ranges context_lines len (index ∷ indexes) ranges =
    context_ranges context_lines len indexes
      (push_range (index - context_lines) (min (index + context_lines + 1) len) ranges)

abbrev pub omitted_row : PatchFileDiffRow
omitted_row = record {
  change = omitted;
  left_line_number = none;
  right_line_number = none;
  left_content = codes "...";
  right_content = codes "...";
}

-- `rows[start..end]`.
abbrev pub slice : ℕ → ℕ → List PatchFileDiffRow → List PatchFileDiffRow
slice start end rows = take (end - start) (drop start rows)

-- The ranges behind the first have a row of dots before them.
unfoldable pub select_rest : List (ℕ × ℕ) → List PatchFileDiffRow → List PatchFileDiffRow
select_rest [] rows = []
select_rest ((start, end) ∷ ranges) rows =
    omitted_row ∷ slice start end rows ++ select_rest ranges rows

unfoldable pub select_ranges : List (ℕ × ℕ) → List PatchFileDiffRow → List PatchFileDiffRow
select_ranges [] rows = []
select_ranges ((start, end) ∷ ranges) rows = slice start end rows ++ select_rest ranges rows

unfoldable pub select_context_rows : List PatchFileDiffRow → ℕ → List PatchFileDiffRow
select_context_rows rows context_lines =
    select_ranges (reverse (context_ranges context_lines (length rows) (changed_indexes 0 rows) []))
      rows

pub record PatchFileDiffPreview : Type 0 where
  pub preview_stats : PatchFileDiffStats
  pub rows : List PatchFileDiffRow

-- `PATCH_FILE_CONTEXT_LINES`.
abbrev pub patch_file_context_lines : ℕ
patch_file_context_lines = 4

unfoldable pub build_diff_preview : Bytes → List PatchFile → Result PatchFileDiffPreview PatchError
build_diff_preview original_content updates =
    let original_lines = split_lines original_content in
    do
      p ← plan_updates (length original_lines) updates
      let d = diff_rows p original_lines
      ok (record {
        preview_stats = d.stats;
        rows = select_context_rows d.all_rows patch_file_context_lines;
      })
