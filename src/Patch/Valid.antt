-- ===== src/Patch/Valid.antt =====
-- Which batches `plan_updates` accepts.
use xoxo.Base.{
  ℕ, ◌+◌, ◌-◌, ◌≤◌, true, false, List, [], ◌∷◌, none, some, ◌≡◌, ◌≢◌, ◌↔◌, refl, ◌∙◌, arith, Bytes,
  ok, >>=-eq-ok, inl, Bool-cases, ◌⊎◌,
}
use xoxo.Patch.{PatchFile, remove, replace, insert, PlannedUpdates}
use xoxo.Patch.Plan.{
  contains, get, extend, remove_lines, plan_update, plan_from, check_conflicts, no_updates,
  plan_updates, plan_updates_inv,
}
use xoxo.Patch.Spec.{removed_by, replaced_by, plan_from_meaning, plan_updates_meaning}

-- The update refers to lines of a file of `n` lines.
abbrev pub InRange : ℕ → PatchFile → Type 0
InRange n (remove start end) = (1 ≤ start) × (start ≤ end) × (end ≤ n)
InRange n (replace line _) = (1 ≤ line) × (line ≤ n)
InRange n (insert after_line lines) = (after_line ≤ n) × (lines ≢ [])

abbrev pub AllInRange : ℕ → List PatchFile → Type 0
AllInRange n [] = Unit {0}
AllInRange n (u ∷ us) = InRange n u × AllInRange n us

-- No line is replaced twice.
abbrev pub ReplacesOnce : List PatchFile → Type 0
ReplacesOnce [] = Unit {0}
ReplacesOnce (remove _ _ ∷ us) = ReplacesOnce us
ReplacesOnce (replace line _ ∷ us) = (replaced_by us line ≡ none) × ReplacesOnce us
ReplacesOnce (insert _ _ ∷ us) = ReplacesOnce us

-- No line is both removed and replaced.
abbrev pub NoConflict : List PatchFile → Type 0
NoConflict us = (i : ℕ) → removed_by us i ≡ true → replaced_by us i ≡ none

-- No line that is replaced has a replacement planned.
abbrev Fresh : PlannedUpdates → List PatchFile → Type 0
Fresh p us = (i : ℕ) → (get i p.replacements ≡ none) ⊎ (replaced_by us i ≡ none)

plan_update-InRange :
    (n : ℕ) (p q : PlannedUpdates) (u : PatchFile) → plan_update n p u ≡ ok q → InRange n u
unfolding plan_update
plan_update-InRange n p q (remove start end) e = ground arith
plan_update-InRange n p q (replace line content) e = ground arith
plan_update-InRange n p q (insert line []) e = ground arith
plan_update-InRange n p q (insert line (l ∷ ls)) e = ground arith

plan_from-AllInRange :
    (n : ℕ) (p q : PlannedUpdates) (us : List PatchFile) → plan_from n p us ≡ ok q → AllInRange n us
unfolding plan_from
plan_from-AllInRange n p q [] e = tt
plan_from-AllInRange n p q (u ∷ us) e =
    let (r, step, rest) = >>=-eq-ok (plan_update n p u) (λ r. plan_from n r us) e in
    (plan_update-InRange n p r u step, plan_from-AllInRange n r q us rest)

-- A replacement that is planned stays, and no later update replaces its line.
plan_update-keeps :
    (n : ℕ) (p q : PlannedUpdates) (u : PatchFile) (i : ℕ)
    → plan_update n p u ≡ ok q
    → get i p.replacements ≢ none
    → (replaced_by (u ∷ []) i ≡ none) × (get i q.replacements ≢ none)
unfolding plan_update
plan_update-keeps n p q (remove start end) i e h = ground arith
plan_update-keeps n p q (replace line content) i e h = unfold get in ground arith
plan_update-keeps n p q (insert line []) i e h = ground arith
plan_update-keeps n p q (insert line (l ∷ ls)) i e h = ground arith

replaced_by-cons :
    (u : PatchFile) (us : List PatchFile) (i : ℕ)
    → replaced_by (u ∷ []) i ≡ none
    → replaced_by us i ≡ none
    → replaced_by (u ∷ us) i ≡ none
replaced_by-cons (remove _ _) us i h k = k
replaced_by-cons (replace line content) us i h k = ground arith
replaced_by-cons (insert _ _) us i h k = k

plan_from-keeps :
    (n : ℕ) (p q : PlannedUpdates) (us : List PatchFile) (i : ℕ)
    → plan_from n p us ≡ ok q
    → get i p.replacements ≢ none
    → replaced_by us i ≡ none
unfolding plan_from
plan_from-keeps n p q [] i e h = refl
plan_from-keeps n p q (u ∷ us) i e h =
    let (r, step, rest) = >>=-eq-ok (plan_update n p u) (λ r. plan_from n r us) e in
    let (here, kept) = plan_update-keeps n p r u i step h in
    replaced_by-cons u us i here (plan_from-keeps n r q us i rest kept)

plan_update-replace :
    (n : ℕ) (p q : PlannedUpdates) (line : ℕ) (content : Bytes)
    → plan_update n p (replace line content) ≡ ok q
    → get line q.replacements ≢ none
unfolding plan_update get
plan_update-replace n p q line content e = ground arith

plan_from-ReplacesOnce :
    (n : ℕ) (p q : PlannedUpdates) (us : List PatchFile) → plan_from n p us ≡ ok q → ReplacesOnce us
unfolding plan_from
plan_from-ReplacesOnce n p q [] e = tt
plan_from-ReplacesOnce n p q (remove start end ∷ us) e =
    let (r, step, rest) =
      >>=-eq-ok (plan_update n p (remove start end)) (λ r. plan_from n r us) e in
    plan_from-ReplacesOnce n r q us rest
plan_from-ReplacesOnce n p q (insert line lines ∷ us) e =
    let (r, step, rest) =
      >>=-eq-ok (plan_update n p (insert line lines)) (λ r. plan_from n r us) e in
    plan_from-ReplacesOnce n r q us rest
plan_from-ReplacesOnce n p q (replace line content ∷ us) e =
    let (r, step, rest) =
      >>=-eq-ok (plan_update n p (replace line content)) (λ r. plan_from n r us) e in
    (
      plan_from-keeps n r q us line rest (plan_update-replace n p r line content step),
      plan_from-ReplacesOnce n r q us rest,
    )

check_conflicts-contains :
    (removed : List ℕ) (m : List (ℕ × Bytes)) (i : ℕ)
    → check_conflicts removed m ≡ none
    → contains i removed ≡ true
    → get i m ≡ none
unfolding check_conflicts get
check_conflicts-contains removed [] i e h = refl
check_conflicts-contains removed ((k, v) ∷ m) i e h =
    ground (arith, check_conflicts-contains removed m i)

-- What an accepted update leaves to the others.
record Accepts (n : ℕ) (p : PlannedUpdates) (u : PatchFile) (us : List PatchFile) : Type 0 where
  next : PlannedUpdates
  accepted : plan_update n p u ≡ ok next
  fresh : Fresh next us

plan_update-Accepts :
    (n : ℕ) (p : PlannedUpdates) (u : PatchFile) (us : List PatchFile)
    → InRange n u
    → ReplacesOnce (u ∷ us)
    → Fresh p (u ∷ us)
    → Accepts n p u us
plan_update-Accepts n p (remove start end) us r o f = record {
  next = record p { removed = remove_lines (end + 1 - start) start p.removed };
  accepted = unfold plan_update in ground arith;
  fresh = f;
}
plan_update-Accepts n p (insert line []) us r o f = absurd (r.1 refl)
plan_update-Accepts n p (insert line (l ∷ ls)) us r o f = record {
  next = record p { inserts = extend line (l ∷ ls) p.inserts };
  accepted = unfold plan_update in ground arith;
  fresh = f;
}
plan_update-Accepts n p (replace line content) us r o f = record {
  next = record p { replacements = (line, content) ∷ p.replacements };
  accepted = unfold plan_update in ground (arith, f line);
  fresh = λ i. unfold get in ground (arith, f i, o.0);
}

ReplacesOnce-tail : (u : PatchFile) (us : List PatchFile) → ReplacesOnce (u ∷ us) → ReplacesOnce us
ReplacesOnce-tail (remove _ _) us o = o
ReplacesOnce-tail (replace _ _) us o = o.1
ReplacesOnce-tail (insert _ _) us o = o

plan_from-cons :
    (n : ℕ) (p : PlannedUpdates) (u : PatchFile) (us : List PatchFile) {q : PlannedUpdates}
    → plan_update n p u ≡ ok q
    → plan_from n p (u ∷ us) ≡ plan_from n q us
unfolding plan_from
plan_from-cons n p u us e = rw e

check_conflicts-cons :
    (removed : List ℕ) (k : ℕ) (v : Bytes) (m : List (ℕ × Bytes))
    → contains k removed ≡ false
    → check_conflicts removed m ≡ none
    → check_conflicts removed ((k, v) ∷ m) ≡ none
unfolding check_conflicts
check_conflicts-cons removed k v m h t = ground arith

get-cons :
    (removed : List ℕ) (k : ℕ) (v : Bytes) (m : List (ℕ × Bytes))
    → ((i : ℕ) (w : Bytes) → get i ((k, v) ∷ m) ≡ some w → contains i removed ≡ false)
    → (contains k removed ≡ false)
      × ((i : ℕ) (w : Bytes) → get i m ≡ some w → contains i removed ≡ false)
unfolding get
get-cons removed k v m h =
    let first : contains k removed ≡ false = h k v (ground arith) in
    (first, λ i w e. ground (arith, h i w, first))

plan_updates-ok :
    (n : ℕ) (us : List PatchFile) (p : PlannedUpdates)
    → plan_from n no_updates us ≡ ok p
    → check_conflicts p.removed p.replacements ≡ none
    → plan_updates n us ≡ ok p
unfolding plan_updates
plan_updates-ok n us p e c = ground arith

plan_from-accepts :
    (n : ℕ) (p : PlannedUpdates) (us : List PatchFile)
    → AllInRange n us
    → ReplacesOnce us
    → Fresh p us
    → (q : PlannedUpdates) × (plan_from n p us ≡ ok q)
plan_from-accepts n p [] r o f = (p, unfold plan_from in refl)
plan_from-accepts n p (u ∷ us) r o f =
    let a = plan_update-Accepts n p u us r.0 o f in
    let (q, e) = plan_from-accepts n a.next us r.1 (ReplacesOnce-tail u us o) a.fresh in
    (q, plan_from-cons n p u us a.accepted ∙ e)

check_conflicts-none :
    (removed : List ℕ) (m : List (ℕ × Bytes))
    → ((i : ℕ) (v : Bytes) → get i m ≡ some v → contains i removed ≡ false)
    → check_conflicts removed m ≡ none
check_conflicts-none removed [] h = unfold check_conflicts in refl
check_conflicts-none removed ((k, v) ∷ m) h =
    let (first, rest) = get-cons removed k v m h in
    check_conflicts-cons removed k v m first (check_conflicts-none removed m rest)

-- A batch is accepted exactly if every update is in range, no line is replaced twice, and no line is
-- both removed and replaced.
pub plan_updates_iff :
    (n : ℕ) (us : List PatchFile)
    → ((p : PlannedUpdates) × (plan_updates n us ≡ ok p))
      ↔ (AllInRange n us × ReplacesOnce us × NoConflict us)
plan_updates_iff n us = (rejects, accepts)
  where
    rejects :
        (p : PlannedUpdates) × (plan_updates n us ≡ ok p)
        → AllInRange n us × ReplacesOnce us × NoConflict us
    rejects (p, e) =
        let (planned, checked) = plan_updates_inv n us p e in
        (
          plan_from-AllInRange n no_updates p us planned,
          plan_from-ReplacesOnce n no_updates p us planned,
          λ i r. ground (
            arith,
            plan_updates_meaning n us i e,
            check_conflicts-contains p.removed p.replacements i checked,
          ),
        )

    accepts :
        AllInRange n us × ReplacesOnce us × NoConflict us
        → (p : PlannedUpdates) × (plan_updates n us ≡ ok p)
    accepts (r, o, c) =
        let (p, e) = plan_from-accepts n no_updates us r o (λ i. inl (unfold get in refl)) in
        let apart : check_conflicts p.removed p.replacements ≡ none =
          check_conflicts-none p.removed p.replacements (λ i v g.
            ground (arith, plan_from_meaning n us p i e, c i, Bool-cases (contains i p.removed))) in
        (p, plan_updates-ok n us p e apart)
