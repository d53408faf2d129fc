-- ===== src/Patch/Plan.antt =====
-- `plan_updates`.

use xoxo.Base.{
  ℕ, zero, suc, ◌+◌, ◌-◌, Bool, true, false, ◌||◌, List, [], ◌∷◌, ◌++◌, Option, none, some, Bytes,
  Result, ok, err, ◌≡◌, arith, ◌>>=◌, ltb, ◌==◌, if◌then◌else◌,
}
use xoxo.Patch.{
  PatchFile, remove, replace, insert, PlannedUpdates, PatchError, remove_start, remove_range,
  remove_end, replace_line, replace_duplicate, insert_after, insert_nothing, removed_and_replaced,
}

-- `removed.contains(&line)`.
unfoldable pub contains : ℕ → List ℕ → Bool
contains line [] = false
contains line (x ∷ xs) = x == line || contains line xs

-- `map.get(&line)`.
unfoldable pub get {ℓ} : {V : Type ℓ} → ℕ → List (ℕ × V) → Option V
get line [] = none
get line ((k, v) ∷ m) = if k == line then some v else get line m

abbrev pub contains_key {ℓ} : {V : Type ℓ} → ℕ → List (ℕ × V) → Bool
contains_key line m = elim (get line m) [ none ↦ false | some _ ↦ true ]

-- `inserts.entry(after_line).or_default().extend(new_lines)`.
unfoldable pub extend : ℕ → List Bytes → List (ℕ × List Bytes) → List (ℕ × List Bytes)
extend line new [] = (line, new) ∷ []
extend line new ((k, v) ∷ m) = if k == line then (k, v ++ new) ∷ m else (k, v) ∷ extend line new m

-- `for line in start..=end { removed.insert(line) }`, by the number of lines left.
unfoldable pub remove_lines : ℕ → ℕ → List ℕ → List ℕ
remove_lines zero start removed = removed
remove_lines (suc n) start removed = remove_lines n (start + 1) (start ∷ removed)

-- The body of the loop over the updates.
unfoldable pub plan_update : ℕ → PlannedUpdates → PatchFile → Result PlannedUpdates PatchError
plan_update line_count p (remove start end) =
    if ltb start 1
    then err (remove_start start)
    else if ltb end start
    then err (remove_range start end)
    else if ltb line_count end
    then err (remove_end end line_count)
    else ok (record p { removed = remove_lines (end + 1 - start) start p.removed })
plan_update line_count p (replace line content) =
    if ltb line 1 || ltb line_count line
    then err (replace_line line line_count)
    else if contains_key line p.replacements
    then err (replace_duplicate line)
    else ok (record p { replacements = (line, content) ∷ p.replacements })
plan_update line_count p (insert after_line []) =
    if ltb line_count after_line
    then err (insert_after after_line line_count)
    else err insert_nothing
plan_update line_count p (insert after_line (l ∷ ls)) =
    if ltb line_count after_line
    then err (insert_after after_line line_count)
    else ok (record p { inserts = extend after_line (l ∷ ls) p.inserts })

unfoldable pub plan_from : ℕ → PlannedUpdates → List PatchFile → Result PlannedUpdates PatchError
plan_from line_count p [] = ok p
plan_from line_count p (u ∷ us) = do q ← plan_update line_count p u; plan_from line_count q us

-- `for line in replacements.keys()`. The order of the keys of a `HashMap` is arbitrary: here it is that
-- of the list, so which of several lines is named is one choice of many.
unfoldable pub check_conflicts : List ℕ → List (ℕ × Bytes) → Option PatchError
check_conflicts removed [] = none
check_conflicts removed ((line, _) ∷ m) =
    if contains line removed then some (removed_and_replaced line) else check_conflicts removed m

abbrev pub no_updates : PlannedUpdates
no_updates = record { removed = []; replacements = []; inserts = [] }

unfoldable pub plan_updates : ℕ → List PatchFile → Result PlannedUpdates PatchError
plan_updates line_count updates = do
  p ← plan_from line_count no_updates updates
  elim (check_conflicts p.removed p.replacements) [ none ↦ ok p | some e ↦ err e ]

-- What an accepted batch has passed.
pub plan_updates_inv :
    (line_count : ℕ) (updates : List PatchFile) (p : PlannedUpdates)
    → plan_updates line_count updates ≡ ok p
    → (plan_from line_count no_updates updates ≡ ok p)
      × (check_conflicts p.removed p.replacements ≡ none)
unfolding plan_updates
plan_updates_inv line_count updates p e = ground arith
