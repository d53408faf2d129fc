-- ===== src/Patch/Apply.antt =====
-- `apply_updates`.
use xoxo.Base.{
  ℕ, ◌+◌, Bool, List, [], ◌∷◌, ◌++◌, Option, none, some, Bytes, Result, ok, ◌≡◌, arith, >>=-eq-ok,
  ◌>>=◌, length, if◌then◌else◌,
}
use xoxo.Patch.{PatchFile, PlannedUpdates, PatchError}
use xoxo.Patch.Lines.{split_lines, detect_line_ending, has_trailing, join}
use xoxo.Patch.Plan.{contains, get, plan_updates}

abbrev pub or_else {ℓ} : {A : Type ℓ} → Option A → A → A
or_else none d = d
or_else (some a) d = a

-- `for line_number in 1..=line_count`, over the lines from `line_number` on.
unfoldable pub output_from : PlannedUpdates → ℕ → List Bytes → List Bytes
output_from p line_number [] = []
output_from p line_number (original ∷ rest) =
    (if contains line_number p.removed
      then []
      else or_else (get line_number p.replacements) original ∷ [])
    ++ (or_else (get line_number p.inserts) [] ++ output_from p (line_number + 1) rest)

abbrev pub output : PlannedUpdates → List Bytes → List Bytes
output p original = or_else (get 0 p.inserts) [] ++ output_from p 1 original

-- The text of the lines, with a last line end if there was one.
abbrev pub finish : Bool → Bytes → List Bytes → Bytes
finish trailing ending [] = join ending []
finish trailing ending (l ∷ ls) = join ending (l ∷ ls) ++ (if trailing then ending else [])

unfoldable pub apply_updates : Bytes → List PatchFile → Result Bytes PatchError
apply_updates content updates =
    let original = split_lines content in
    do
      p ← plan_updates (length original) updates
      ok (finish (has_trailing content) (detect_line_ending content) (output p original))

pub apply_updates_inv :
    (content : Bytes) (updates : List PatchFile) {text : Bytes}
    → apply_updates content updates ≡ ok text
    → (p : PlannedUpdates) × (plan_updates (length (split_lines content)) updates ≡ ok p)
      × (text
          ≡ finish
              (has_trailing content)
              (detect_line_ending content)
              (output p (split_lines content)))
unfolding apply_updates
apply_updates_inv content updates e =
    let (p, planned, made) = >>=-eq-ok (plan_updates (length (split_lines content)) updates) _ e in
    (p, planned, ground arith)
