-- ===== src/Patch/Spec.antt =====
-- What a batch of updates asks for, read off the updates themselves by original line number, and
-- that `plan_updates` and `apply_updates` do that.
use xoxo.Base.{
  ℕ, zero, suc, ◌+◌, ◌-◌, Bool, false, ◌&&◌, ◌||◌, List, [], ◌∷◌, ◌++◌, Option, none, some,
  append-nil, append_assoc, ◌≡◌, refl, ap, ◌∙◌, arith, Bytes, ok, >>=-eq-ok, length, leb, ltb, ◌==◌,
  if◌then◌else◌,
}
use xoxo.Patch.{PatchFile, remove, replace, insert, PlannedUpdates}
use xoxo.Patch.Lines.{split_lines, detect_line_ending, has_trailing}
use xoxo.Patch.Plan.{
  contains, get, extend, remove_lines, plan_update, plan_from, no_updates, plan_updates,
  plan_updates_inv,
}
use xoxo.Patch.Apply.{or_else, output_from, finish, apply_updates, apply_updates_inv}

-- Some update removes line `i`.
abbrev pub removed_by : List PatchFile → ℕ → Bool
removed_by [] i = false
removed_by (remove start end ∷ us) i = (leb start i && leb i end) || removed_by us i
removed_by (replace _ _ ∷ us) i = removed_by us i
removed_by (insert _ _ ∷ us) i = removed_by us i

-- What the first update that replaces line `i` puts there.
abbrev pub replaced_by : List PatchFile → ℕ → Option Bytes
replaced_by [] i = none
replaced_by (remove _ _ ∷ us) i = replaced_by us i
replaced_by (replace line content ∷ us) i = if line == i then some content else replaced_by us i
replaced_by (insert _ _ ∷ us) i = replaced_by us i

-- All lines inserted behind line `i`, in the order of the updates.
abbrev pub inserted_by : List PatchFile → ℕ → List Bytes
inserted_by [] i = []
inserted_by (remove _ _ ∷ us) i = inserted_by us i
inserted_by (replace _ _ ∷ us) i = inserted_by us i
inserted_by (insert after_line lines ∷ us) i =
    if after_line == i then lines ++ inserted_by us i else inserted_by us i

-- The lines that replace the original lines from number `i` on.
abbrev pub patched_from : List PatchFile → ℕ → List Bytes → List Bytes
patched_from us i [] = []
patched_from us i (original ∷ rest) =
    (if removed_by us i then [] else or_else (replaced_by us i) original ∷ [])
    ++ (inserted_by us i ++ patched_from us (i + 1) rest)

abbrev pub patched : List PatchFile → List Bytes → List Bytes
patched us original = inserted_by us 0 ++ patched_from us 1 original

-- The planned updates say of each line what `us` does, on top of what `p` says.
record Extends (p q : PlannedUpdates) (us : List PatchFile) (i : ℕ) : Type 0 where
  removes : contains i q.removed ≡ (contains i p.removed || removed_by us i)
  replaces :
      get i q.replacements
      ≡ (elim (get i p.replacements) [ none ↦ replaced_by us i | some v ↦ some v ])
  inserts : or_else (get i q.inserts) [] ≡ or_else (get i p.inserts) [] ++ inserted_by us i

contains-remove_lines :
    (n start : ℕ) (removed : List ℕ) (i : ℕ)
    → contains i (remove_lines n start removed)
      ≡ (contains i removed || (leb start i && ltb i (start + n)))
unfolding remove_lines
contains-remove_lines zero start removed i = ground arith
contains-remove_lines (suc n) start removed i =
    contains-remove_lines n (start + 1) (start ∷ removed) i ∙ (unfold contains in ground arith)

get-extend :
    (line : ℕ) (new : List Bytes) (m : List (ℕ × List Bytes)) (i : ℕ)
    → or_else (get i (extend line new m)) []
      ≡ or_else (get i m) [] ++ (if line == i then new else [])
unfolding get extend
get-extend line new [] i = ground arith
get-extend line new ((k, v) ∷ m) i =
    ground (arith, get-extend line new m i, append-nil v, append-nil (or_else (get i m) []))

plan_update-Extends :
    (n : ℕ) (p : PlannedUpdates) (u : PatchFile) {q : PlannedUpdates} (i : ℕ)
    → plan_update n p u ≡ ok q
    → Extends p q (u ∷ []) i
unfolding plan_update
plan_update-Extends n p (remove start end) i e = ground (
  arith,
  contains-remove_lines (end + 1 - start) start p.removed i,
  append-nil (or_else (get i p.inserts) []),
)
plan_update-Extends n p (replace line content) i e =
    unfold get in ground (arith, append-nil (or_else (get i p.inserts) []))
plan_update-Extends n p (insert line []) i e = ground arith
plan_update-Extends n p (insert line (l ∷ ls)) i e =
    ground (arith, get-extend line (l ∷ ls) p.inserts i, append-nil (l ∷ ls))

Extends-cons :
    (p p' : PlannedUpdates) (u : PatchFile) (us : List PatchFile) {q : PlannedUpdates} (i : ℕ)
    → Extends p p' (u ∷ []) i
    → Extends p' q us i
    → Extends p q (u ∷ us) i
Extends-cons p p' (remove start end) us i x y =
    ground (arith, append-nil (or_else (get i p.inserts) []))
Extends-cons p p' (replace line content) us i x y =
    ground (arith, append-nil (or_else (get i p.inserts) []))
Extends-cons p p' (insert line lines) us i x y = ground (
  arith,
  append-nil (or_else (get i p.inserts) []),
  append-nil lines,
  append_assoc (or_else (get i p.inserts) []) lines (inserted_by us i),
)

plan_from-Extends :
    (n : ℕ) (p : PlannedUpdates) (us : List PatchFile) {q : PlannedUpdates} (i : ℕ)
    → plan_from n p us ≡ ok q
    → Extends p q us i
unfolding plan_from
plan_from-Extends n p [] i e = ground (arith, append-nil (or_else (get i p.inserts) []))
plan_from-Extends n p (u ∷ us) i e =
    let (p', step, rest) = >>=-eq-ok (plan_update n p u) (λ r. plan_from n r us) e in
    Extends-cons p p' u us i (plan_update-Extends n p u i step) (plan_from-Extends n p' us i rest)

pub plan_from_meaning :
    (n : ℕ) (us : List PatchFile) (p : PlannedUpdates) (i : ℕ)
    → plan_from n no_updates us ≡ ok p
    → (contains i p.removed ≡ removed_by us i)
      × (get i p.replacements ≡ replaced_by us i)
      × (or_else (get i p.inserts) [] ≡ inserted_by us i)
unfolding contains get
plan_from_meaning n us p i e =
    let x = plan_from-Extends n no_updates us i e in
    (ground (arith, x.removes), ground (arith, x.replaces), ground (arith, x.inserts))

-- The plan says of every line what the updates ask for.
pub plan_updates_meaning :
    (n : ℕ) (us : List PatchFile) {p : PlannedUpdates} (i : ℕ)
    → plan_updates n us ≡ ok p
    → (contains i p.removed ≡ removed_by us i)
      × (get i p.replacements ≡ replaced_by us i)
      × (or_else (get i p.inserts) [] ≡ inserted_by us i)
plan_updates_meaning n us {p} i e = plan_from_meaning n us p i (plan_updates_inv n us p e).0

output_from-patched_from :
    (n : ℕ) (us : List PatchFile) (p : PlannedUpdates) (i : ℕ) (lines : List Bytes)
    → plan_updates n us ≡ ok p
    → output_from p i lines ≡ patched_from us i lines
unfolding output_from
output_from-patched_from n us p i [] e = refl
output_from-patched_from n us p i (l ∷ ls) e =
    let (r, s, t) = plan_updates_meaning n us i e in
    rw (r, s, t) (rw (output_from-patched_from n us p (i + 1) ls e))

-- A batch that is accepted gives each original line, by its original number, what the updates say
-- of that number, whatever their order, and the lines inserted behind it.
pub apply_updates-patched :
    (content : Bytes) (us : List PatchFile) {text : Bytes}
    → apply_updates content us ≡ ok text
    → text
      ≡ finish
          (has_trailing content)
          (detect_line_ending content)
          (patched us (split_lines content))
apply_updates-patched content us {text} e =
    let lines = split_lines content in
    let n = length lines in
    let (p, planned, made) = apply_updates_inv content us e in
    let (r, s, t) = plan_updates_meaning n us 0 planned in
    made
    ∙ ap (finish (has_trailing content) (detect_line_ending content))
        (rw t (ap (λ x. inserted_by us 0 ++ x) (output_from-patched_from n us p 1 lines planned)))
