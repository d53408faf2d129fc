-- ===== src/Patch/Tests.antt =====
-- Runs of `apply_updates`, and the theorems at concrete batches.
use xoxo.Base.{List, [], ◌∷◌, ◌≡◌, ◌↔◌, refl, Bytes, codes, ok, err}
use xoxo.Patch.{PatchFile, remove, replace, insert, PlannedUpdates, removed_and_replaced}
use xoxo.Patch.Lines.{
  split_lines, detect_line_ending, has_trailing, join, replace_crlf, replace_cr, strip_last_newline,
  split_newline, has, has_crlf,
}
use xoxo.Patch.Plan.{
  contains, get, extend, remove_lines, plan_update, plan_from, check_conflicts, plan_updates,
}
use xoxo.Patch.Apply.{finish, output_from, apply_updates}
use xoxo.Patch.Spec.{patched, apply_updates-patched}
use xoxo.Patch.Valid.{plan_updates_iff, AllInRange, ReplacesOnce, NoConflict}
use xoxo.Patch.RoundTrip.{finish-split_lines}

abbrev three_lines : Bytes
three_lines = codes "one\ntwo\nthree\n"

abbrev two_updates : List PatchFile
two_updates = replace 2 (codes "TWO") ∷ insert 3 (codes "four" ∷ []) ∷ []

abbrev patched_lines : Bytes
patched_lines = codes "one\nTWO\nthree\nfour\n"

-- The example of the documentation.
apply_two_updates : apply_updates three_lines two_updates ≡ ok patched_lines
unfolding apply_updates plan_updates plan_from plan_update extend remove_lines check_conflicts
    contains get output_from split_lines replace_crlf replace_cr strip_last_newline split_newline
    detect_line_ending has has_crlf has_trailing join
apply_two_updates = refl

conflict : plan_updates 3 (replace 2 [] ∷ remove 1 2 ∷ []) ≡ err (removed_and_replaced 2)
unfolding plan_updates plan_from plan_update remove_lines check_conflicts contains get
conflict = refl

apply_updates-patched_example :
    patched_lines
    ≡ finish
        (has_trailing three_lines)
        (detect_line_ending three_lines)
        (patched two_updates (split_lines three_lines))
apply_updates-patched_example = apply_updates-patched three_lines two_updates apply_two_updates

finish-split_lines_example :
    finish (has_trailing three_lines) (detect_line_ending three_lines) (split_lines three_lines)
    ≡ three_lines
finish-split_lines_example = finish-split_lines three_lines (unfold has in refl) (λ e. cc)

plan_updates_iff_example :
    ((p : PlannedUpdates) × (plan_updates 3 two_updates ≡ ok p))
    ↔ (AllInRange 3 two_updates × ReplacesOnce two_updates × NoConflict two_updates)
plan_updates_iff_example = plan_updates_iff 3 two_updates
