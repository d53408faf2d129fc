-- ===== src/Files/Fresh.antt =====
-- A file can be patched after it is read.
use text.Mathlib.TextEquality.{eq_iff}
use text.Mathlib.Text.{◌==◌ as str_eq}
use xoxo.Base.{
  true, List, [], Option, none, some, Bytes, String, ok, >>=-eq-ok, ◌≡◌, refl, ap, ◌∙◌, arith,
}
use xoxo.Base.Dict.{lookup, insert, lookup-insert}
use xoxo.Patch.{PatchFile}
use xoxo.Patch.Apply.{apply_updates}
use xoxo.Patch.Diff.{PatchFileDiffPreview, build_diff_preview}
use xoxo.Files.{FileRecord, FileRegistry, upsert, ensure_read, update}
use xoxo.Files.Tools.{
  World, Environment, Others, original_md5, record_read, tracked, checked, updated_in,
  read_to_string, read_file, patch_file_impl, patch_file,
}
use xoxo.Files.Traces.{read_sum-upsert, ensure_read-fresh}
use xoxo.Files.Effects.{read_to_string-ok, record_read-ok}

self_eq : (s : String) → str_eq s s ≡ true
self_eq s = (eq_iff s s).1 refl

-- Nobody else does anything.
abbrev pub no_others : Others
no_others = record {
  before_second_read = [];
  before_check = [];
  before_write = [];
  before_update = [];
}

-- The sum that a call checks, if there is a registry.
abbrev sum_in : Option FileRegistry → String → Option String
sum_in none sum = none
sum_in (some files) sum = some sum

checked-tracked :
    (registry : Option FileRegistry) (path sum : String)
    → checked (tracked registry path sum) path (sum_in (tracked registry path sum) sum) ≡ ok tt
checked-tracked none path sum = refl
checked-tracked (some files) path sum =
    rw
      (ensure_read-fresh (upsert files path sum) path sum
        (read_sum-upsert files path path sum ∙ rw (self_eq path) refl))
      refl

updated_in-checked :
    (registry : Option FileRegistry) (path old new : String)
    → checked registry path (sum_in registry old) ≡ ok tt
    → (later : Option FileRegistry) × (updated_in registry path (sum_in registry old) new
        ≡ ok later)
unfolding update ensure_read
updated_in-checked none path old new h = (none, refl)
updated_in-checked (some files) path old new h = updated (lookup path files) refl
  where
    updated :
        (o : Option FileRecord)
        → lookup path files ≡ o
        → (later : Option FileRegistry) × (updated_in (some files) path (some old) new ≡ ok later)
    updated none e = grind (arith, e, h)
    updated (some entry) e = (
      some (
          insert path (record entry { patch = some (record { file_path = path; md5 = new }) })
            files),
      grind (arith, e, h),
    )

module _ (env : Environment) where
  open env use {md5}

  original_md5-sum :
      (registry : Option FileRegistry) (disk : List (String × Bytes)) (path : String) (c : Bytes)
      → lookup path disk ≡ some c
      → original_md5 env registry disk path ≡ ok (sum_in registry (md5 c))
  original_md5-sum none disk path c e = refl
  original_md5-sum (some files) disk path c e = ground (arith, e)

  patch_file-ok :
      (w : World) (path : String) (updates : List PatchFile) (preview : PatchFileDiffPreview)
      (content updated : Bytes) (later : Option FileRegistry)
      → lookup path w.disk ≡ some content
      → build_diff_preview content updates ≡ ok preview
      → apply_updates content updates ≡ ok updated
      → env.writable path ≡ true
      → checked w.registry path (sum_in w.registry (md5 content)) ≡ ok tt
      → updated_in w.registry path (sum_in w.registry (md5 content)) (md5 updated) ≡ ok later
      → patch_file env no_others w path updates
        ≡ (record { disk = insert path updated w.disk; registry = later }, ok preview)
  unfolding patch_file patch_file_impl
  patch_file-ok w path updates preview content updated later l b a y c u =
      ground (arith, original_md5-sum w.registry w.disk path content l, l, b, a, y, c, u)

  read_file-ok :
      (w w' : World) (path : String) (content : Bytes)
      → read_file env [] w path ≡ ok (w', content)
      → (lookup path w.disk ≡ some content)
        × (w'.disk ≡ w.disk)
        × (w'.registry ≡ tracked w.registry path (md5 content))
  unfolding read_file
  read_file-ok w w' path content h =
      let (c, p, h1) = >>=-eq-ok (read_to_string w.disk path) _ h in
      let found = read_to_string-ok env w.disk path p in
      let (registry, q, h2) = >>=-eq-ok (record_read env w.registry w.disk path) _ h1 in
      (
        grind (arith, found, h2),
        grind (arith, h2),
        grind (arith, h2, q, record_read-ok env w.registry w.disk path c found),
      )

  -- If nobody else changes files or the registry, a file that was just read can be patched: if the updates can be previewed and applied to its content
  -- and it can be written, the patch succeeds and the file holds the updated content.
  pub read_file-patch_file :
      (w w' : World) (path : String) (updates : List PatchFile) (preview : PatchFileDiffPreview)
      (content updated : Bytes)
      → read_file env [] w path ≡ ok (w', content)
      → build_diff_preview content updates ≡ ok preview
      → apply_updates content updates ≡ ok updated
      → env.writable path ≡ true
      → (w'' : World) × (patch_file env no_others w' path updates ≡ (w'', ok preview))
        × (lookup path w''.disk ≡ some updated)
  read_file-patch_file w w' path updates preview content updated r b a y =
      let (found, kept, reg) = read_file-ok w w' path content r in
      let free =
        ap (λ x. checked x path (sum_in x (md5 content))) reg
        ∙ checked-tracked w.registry path (md5 content) in
      let (later, l) = updated_in-checked w'.registry path (md5 content) (md5 updated) free in
      (
        record { disk = insert path updated w'.disk; registry = later },
        patch_file-ok w' path updates preview content updated later (ap (lookup path) kept ∙ found)
            b a y free l,
        lookup-insert path path updated w'.disk ∙ rw (self_eq path) refl,
      )
