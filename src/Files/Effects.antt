-- ===== src/Files/Effects.antt =====
-- What a patch that succeeds has done to the files and the registry.
use xoxo.Base.{
  true, List, [], ◌∷◌, Option, none, some, Bytes, String, Result, ok, err, ◌>>=◌, >>=-eq-ok, ◌≡◌,
  refl, sym, ap, ◌∙◌, arith,
}
use xoxo.Base.Dict.{lookup, insert}
use xoxo.Patch.{PatchFile, PatchError}
use xoxo.Patch.Apply.{apply_updates}
use xoxo.Patch.Diff.{PatchFileDiffPreview}
use xoxo.Files.{FileRegistry}
use xoxo.Files.Tools.{
  World, Environment, read_to_string, or_bad, checked, FileToolError, Effect, changes, reads,
  creates, records, Others, then_in, original_md5, record_read, tracked, updated_in, write,
  write_file, after_read, after_write, after_update, change, change_all, preview_at, at_second_read,
  at_check, at_write, at_update, patch_file_impl, patch_file,
}
use xoxo.Files.Traces.{
  has_registry, has_registry-tracked, read_in, checked-read_in, updated_in-read_in,
  write_file-registry,
}

module _ (env : Environment) where
  open env use {md5}

  -- What a patch that succeeds has done.
  pub record Patched (others : Others) (w : World) (path : String) (updates : List PatchFile)
      (w' : World) : Type 0 where
    pub before : Bytes
    pub edited : Bytes
    pub after : Bytes
    pub found : lookup path w.disk ≡ some before
    pub fresh : read_in (at_check env others w).registry path ≡ some (md5 before)
    pub there : lookup path (at_write env others w).disk ≡ some edited
    pub applied : apply_updates edited updates ≡ ok after
    pub disk_after :
        w'.disk ≡ (at_update env others w (insert path after (at_write env others w).disk)).disk
    pub still : read_in w'.registry path ≡ some (md5 before)

  pub read_to_string-ok :
      (disk : List (String × Bytes)) (path : String) {c : Bytes}
      → read_to_string disk path ≡ ok c
      → lookup path disk ≡ some c
  read_to_string-ok disk path h = grind (arith, h)

  pub record_read-ok :
      (registry : Option FileRegistry) (disk : List (String × Bytes)) (path : String) (c : Bytes)
      → lookup path disk ≡ some c
      → record_read env registry disk path ≡ ok (tracked registry path (md5 c))
  record_read-ok none disk path c e = refl
  record_read-ok (some files) disk path c e = ground (arith, e)

  original_md5-ok :
      (registry : Option FileRegistry) (disk : List (String × Bytes)) (path : String)
      {sum : Option String}
      → has_registry registry ≡ true
      → original_md5 env registry disk path ≡ ok sum
      → (c : Bytes) × (lookup path disk ≡ some c) × (sum ≡ some (md5 c))
  original_md5-ok none disk path r h = cc
  original_md5-ok (some files) disk path r h =
      let (c, p, h1) = >>=-eq-ok (read_to_string disk path) _ h in
      (c, read_to_string-ok disk path p, grind (arith, h1))

  write-ok :
      (disk : List (String × Bytes)) (path : String) (r : Result Bytes PatchError)
      {d : List (String × Bytes)} {u : Bytes}
      → ◌>>=◌ {U = List (String × Bytes) × Bytes}
          (or_bad r)
          (λ updated. do later ← write env disk path updated; ok (later, updated))
        ≡ ok (d, u)
      → (r ≡ ok u) × (d ≡ insert path u disk)
  write-ok disk path (err e) h = grind (arith, h)
  write-ok disk path (ok x) h = grind (arith, h)

  patch_file_impl-ok :
      (disk : List (String × Bytes)) (path : String) (updates : List PatchFile)
      {d : List (String × Bytes)} {u : Bytes}
      → patch_file_impl env disk path updates ≡ ok (d, u)
      → (edited : Bytes) × (lookup path disk ≡ some edited)
        × (apply_updates edited updates ≡ ok u)
        × (d ≡ insert path u disk)
  unfolding patch_file_impl
  patch_file_impl-ok disk path updates h =
      let (c, p, h1) = >>=-eq-ok (read_to_string disk path) _ h in
      let (applied, e) = write-ok disk path (apply_updates c updates) h1 in
      (c, read_to_string-ok disk path p, applied, e)

  -- The effects leave a registry where there is one.
  has_registry-after_read :
      (w : World) (path : String) (found : Option Bytes)
      → has_registry w.registry ≡ true
      → has_registry (after_read env w path found).registry ≡ true
  has_registry-after_read w path none h = h
  has_registry-after_read w path (some c) h = has_registry-tracked w.registry path (md5 c) ∙ h

  has_registry-after_write :
      (w : World) (path : String) (content : Bytes) (r : Result World FileToolError)
      → r ≡ write_file env w path content
      → has_registry w.registry ≡ true
      → has_registry (after_write env w r).registry ≡ true
  has_registry-after_write w path content (err e) r h = h
  has_registry-after_write w path content (ok later) r h =
      ap has_registry (write_file-registry env w later path content (sym r))
      ∙ has_registry-tracked w.registry path (md5 content)
      ∙ h

  has_registry-after_update :
      (w : World) (path old new : String) (r : Result (Option FileRegistry) FileToolError)
      → updated_in w.registry path (some old) new ≡ r
      → has_registry w.registry ≡ true
      → has_registry (after_update env w r).registry ≡ true
  has_registry-after_update w path old new (err e) r h = h
  has_registry-after_update w path old new (ok later) r h =
      (updated_in-read_in w.registry later path old new h r).0

  has_registry-change :
      (e : Effect) (w : World)
      → has_registry w.registry ≡ true
      → has_registry (change env e w).registry ≡ true
  has_registry-change (changes f) w h = h
  has_registry-change (reads path) w h = has_registry-after_read w path (lookup path w.disk) h
  has_registry-change (creates path content) w h =
      has_registry-after_write w path content (write_file env w path content) refl h
  has_registry-change (records path old new) w h =
      has_registry-after_update w path old new (updated_in w.registry path (some old) new) refl h

  pub has_registry-change_all :
      (effects : List Effect) (w : World)
      → has_registry w.registry ≡ true
      → has_registry (change_all env effects w).registry ≡ true
  has_registry-change_all [] w h = h
  has_registry-change_all (e ∷ effects) w h =
      has_registry-change_all effects (change env e w) (has_registry-change e w h)

  then_in-ok :
      {A B : Type 0} (w : World) (r : Result A FileToolError)
      (next : A → World × Result B FileToolError) {w' : World} {b : B}
      → then_in w r next ≡ (w', ok b)
      → (a : A) × (r ≡ ok a) × (next a ≡ (w', ok b))
  then_in-ok w (err e) next {b = b} h = absurd (differ (ap (λ p. p.1) h))
    where
      differ : err e ≡ ok b → ⊥
      differ p = cc
  then_in-ok w (ok a) next h = (a, refl, h)

  pub patch_file-Patched :
      (others : Others) (w w' : World) (path : String) (updates : List PatchFile)
      {preview : PatchFileDiffPreview}
      → has_registry w.registry ≡ true
      → patch_file env others w path updates ≡ (w', ok preview)
      → Patched others w path updates w'
  unfolding patch_file
  patch_file-Patched others w w' path updates h e =
      let w1 = at_second_read env others w in
      let w2 = at_check env others w in
      let w3 = at_write env others w in
      let h1 = has_registry-change_all others.before_second_read w h in
      let h2 = has_registry-change_all others.before_check w1 h1 in
      let h3 = has_registry-change_all others.before_write w2 h2 in
      let (sum, p0, e0) = then_in-ok w (original_md5 env w.registry w.disk path) _ e in
      let (c, found, is_sum) = original_md5-ok w.registry w.disk path h p0 in
      let (shown, p1, e1) = then_in-ok w1 (preview_at env w1.disk path updates) _ e0 in
      let (_, p2, e2) = then_in-ok w2 (checked w2.registry path sum) _ e1 in
      let ((d, u), p3, e3) = then_in-ok w3 (patch_file_impl env w3.disk path updates) _ e2 in
      let (edited, there, applied, same) = patch_file_impl-ok w3.disk path updates p3 in
      let w4 = at_update env others w d in
      let h4 = has_registry-change_all others.before_update (record w3 { disk = d }) h3 in
      let (registry, p4, e4) = then_in-ok w4 (updated_in w4.registry path sum (md5 u)) _ e3 in
      let (_, old, kept) =
        updated_in-read_in w4.registry registry path (md5 c) (md5 u) h4
          (ap (λ x. updated_in w4.registry path x (md5 u)) (sym is_sum) ∙ p4) in
      let last : record w4 { registry = registry } ≡ w' = ap (λ p. p.0) e4 in
      record {
        before = c;
        edited = edited;
        after = u;
        found = found;
        fresh =
            checked-read_in w2.registry path (md5 c) h2
              (ap (checked w2.registry path) (sym is_sum) ∙ p2);
        there = there;
        applied = applied;
        disk_after = sym (ap (λ x. x.disk) last) ∙ ap (λ x. (at_update env others w x).disk) same;
        still = sym (ap (λ x. read_in x.registry path) last) ∙ kept path ∙ old;
      }
