-- ===== src/Files/Tools.antt =====
-- crates/agents/nerd/src/tools: what read_file, write_file and patch_file do to the files and to the
-- registry of the agent. md5 sums and the extension of a path are the libraries', a parameter; so
-- is whether a write to a path fails. The hooks and callbacks are absent, as in the tools.
use xoxo.Base.{
  Bool, List, [], ◌∷◌, Option, none, some, Bytes, String, Result, ok, err, ◌>>=◌, if◌then◌else◌,
}
use xoxo.Base.Dict.{lookup, insert}
use xoxo.Patch.{PatchFile, PatchError}
use xoxo.Patch.Apply.{apply_updates}
use xoxo.Patch.Diff.{PatchFileDiffPreview, build_diff_preview}
use xoxo.Files.{FileRegistry, FileRegistryError, upsert, ensure_read, update}

-- The files on disk, and the registry of the agent's execution context, if it has one.
pub record World : Type 0 where
  pub disk : List (String × Bytes)
  pub registry : Option FileRegistry

pub record Environment : Type 0 where
  pub md5 : Bytes → String
  pub writable : String → Bool

pub data FileToolError : Type 0 where
  no_such_file : String → FileToolError
  file_exists : String → FileToolError
  write_failed : String → FileToolError
  bad_updates : PatchError → FileToolError
  refused : FileRegistryError → FileToolError

abbrev pub read_to_string : List (String × Bytes) → String → Result Bytes FileToolError
read_to_string disk path = elim (lookup path disk) [
  | none ↦ err (no_such_file path)
  | some c ↦ ok c
]

abbrev pub or_refused : {A : Type 0} → Result A FileRegistryError → Result A FileToolError
or_refused (ok a) = ok a
or_refused (err e) = err (refused e)

abbrev pub or_bad : {A : Type 0} → Result A PatchError → Result A FileToolError
or_bad (ok a) = ok a
or_bad (err e) = err (bad_updates e)

-- With no execution context nothing is checked or recorded.
abbrev pub checked : Option FileRegistry → String → Option String → Result (Unit {0}) FileToolError
checked (some files) path (some md5) = or_refused (ensure_read files path md5)
checked _ path _ = ok tt

abbrev pub tracked : Option FileRegistry → String → String → Option FileRegistry
tracked none path md5 = none
tracked (some files) path md5 = some (upsert files path md5)

abbrev pub updated_in :
    Option FileRegistry
    → String
    → Option String
    → String
    → Result (Option FileRegistry) FileToolError
updated_in (some files) path (some old) new =
    or_refused (do later ← update files path old new; ok (some later))
updated_in registry path _ new = ok registry

-- What others do while a call waits, each at once: any program changes files, or an agent of the tree, which has the same
-- registry, reads a file, creates one, or records the sum of a file that it has patched.
pub data Effect : Type 0 where
  changes : (List (String × Bytes) → List (String × Bytes)) → Effect
  reads : String → Effect
  creates : String → Bytes → Effect
  records : String → String → String → Effect

-- The effects between the steps of a call of patch_file.
pub record Others : Type 0 where
  pub before_second_read : List Effect
  pub before_check : List Effect
  pub before_write : List Effect
  pub before_update : List Effect

-- `?`, with the world as it is there.
abbrev pub then_in :
    {A B : Type 0}
    → World
    → Result A FileToolError
    → (A → World × Result B FileToolError)
    → World × Result B FileToolError
then_in w (err e) next = (w, err e)
then_in w (ok a) next = next a

module _ (env : Environment) where
  open env use {md5, writable}

  -- The file is written, or `fs::write` fails and, as here, leaves it.
  abbrev pub write :
      List (String × Bytes) → String → Bytes → Result (List (String × Bytes)) FileToolError
  write disk path content =
      if writable path then ok (insert path content disk) else err (write_failed path)

  abbrev pub record_read :
      Option FileRegistry
      → List (String × Bytes)
      → String
      → Result (Option FileRegistry) FileToolError
  record_read none disk path = ok none
  record_read (some files) disk path = do
    content ← read_to_string disk path
    ok (some (upsert files path (md5 content)))

  -- The sum that is checked, if there is an execution context.
  abbrev pub original_md5 :
      Option FileRegistry → List (String × Bytes) → String → Result (Option String) FileToolError
  original_md5 none disk path = ok none
  original_md5 (some files) disk path = do
    content ← read_to_string disk path
    ok (some (md5 content))

  unfoldable pub write_file : World → String → Bytes → Result World FileToolError
  write_file w path content = elim (lookup path w.disk) [
    | some _ ↦ err (file_exists path)
    | none ↦ do
      disk ← write w.disk path content
      ok (record { disk = disk; registry = tracked w.registry path (md5 content) })
  ]

  abbrev pub after_read : World → String → Option Bytes → World
  after_read w path none = w
  after_read w path (some content) = record w { registry = tracked w.registry path (md5 content) }

  abbrev pub after_write : World → Result World FileToolError → World
  after_write w (err e) = w
  after_write w (ok later) = later

  abbrev pub after_update : World → Result (Option FileRegistry) FileToolError → World
  after_update w (err e) = w
  after_update w (ok registry) = record w { registry = registry }

  abbrev pub change : Effect → World → World
  change (changes f) w = record w { disk = f w.disk }
  change (reads path) w = after_read w path (lookup path w.disk)
  change (creates path content) w = after_write w (write_file w path content)
  change (records path old new) w = after_update w (updated_in w.registry path (some old) new)

  abbrev pub change_all : List Effect → World → World
  change_all [] w = w
  change_all (e ∷ effects) w = change_all effects (change e w)

  -- `execute` of `ReadFileTool`, on the whole text of the file: the sum is that of a second read.
  unfoldable pub read_file : List Effect → World → String → Result (World × Bytes) FileToolError
  read_file others w path = do
    content ← read_to_string w.disk path
    registry ← record_read (change_all others w).registry (change_all others w).disk path
    ok (record { disk = (change_all others w).disk; registry = registry }, content)

  -- `patch_file_impl`, with no hook and no callback; nothing comes between its read and its write here.
  unfoldable pub patch_file_impl :
      List (String × Bytes)
      → String
      → List PatchFile
      → Result (List (String × Bytes) × Bytes) FileToolError
  patch_file_impl disk path updates = do
    content ← read_to_string disk path
    updated ← or_bad (apply_updates content updates)
    later ← write disk path updated
    ok (later, updated)

  abbrev pub preview_at :
      List (String × Bytes) → String → List PatchFile → Result PatchFileDiffPreview FileToolError
  preview_at disk path updates = do
    original ← read_to_string disk path
    or_bad (build_diff_preview original updates)

  -- The world at the second read, at the check and before the write.
  abbrev pub at_second_read : Others → World → World
  at_second_read others w = change_all others.before_second_read w

  abbrev pub at_check : Others → World → World
  at_check others w = change_all others.before_check (at_second_read others w)

  abbrev pub at_write : Others → World → World
  at_write others w = change_all others.before_write (at_check others w)

  -- Behind the write of the text, when the registry is updated.
  abbrev pub at_update : Others → World → List (String × Bytes) → World
  at_update others w disk =
      change_all others.before_update (record (at_write others w) { disk = disk })

  -- The end of a patch; where the registry refuses the update the file is written.
  abbrev pub record_patch :
      World
      → String
      → Option String
      → Bytes
      → PatchFileDiffPreview
      → World × Result PatchFileDiffPreview FileToolError
  record_patch w path sum updated preview =
      then_in w (updated_in w.registry path sum (md5 updated))
        (λ registry. (record w { registry = registry }, ok preview))

  -- `execute` of `PatchFileTool`: what is left of the world, and the result.
  unfoldable pub patch_file :
      Others → World → String → List PatchFile → World × Result PatchFileDiffPreview FileToolError
  unfolding patch_file_impl
  patch_file others w path updates = then_in w (original_md5 w.registry w.disk path) (λ sum.
      then_in (at_second_read others w) (preview_at (at_second_read others w).disk path updates)
        (λ preview.
          then_in (at_check others w) (checked (at_check others w).registry path sum) (λ passed.
            then_in (at_write others w) (patch_file_impl (at_write others w).disk path updates)
              (λ (disk, updated).
                record_patch (at_update others w disk) path sum updated preview))))
