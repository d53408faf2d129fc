-- ===== src/Patch/Diff/Refusals.antt =====
-- The batches that the preview refuses.
use xoxo.Base.{List, Option, none, some, ◌≡◌, arith, Bytes, Result, ok, err}
use xoxo.Patch.{PatchFile, PatchError, removed_and_replaced}
use xoxo.Patch.Apply.{apply_updates}
use xoxo.Patch.Diff.{build_diff_preview}

-- The error without the line of a conflict: that is the first of the keys of a `HashMap`, in an
-- order that differs from map to map.
abbrev pub without_conflict_line : PatchError → PatchError
without_conflict_line (removed_and_replaced n) = removed_and_replaced 0
without_conflict_line e = e

abbrev pub refusal : {A : Type 0} → Result A PatchError → Option PatchError
refusal (ok a) = none
refusal (err e) = some (without_conflict_line e)

-- The preview is refused exactly if applying the batch is, with the same error but for the line
-- that is named as both removed and replaced.
pub build_diff_preview-apply_updates :
    (content : Bytes) (updates : List PatchFile)
    → refusal (build_diff_preview content updates) ≡ refusal (apply_updates content updates)
unfolding build_diff_preview apply_updates
build_diff_preview-apply_updates content updates = ground arith
