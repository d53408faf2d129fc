-- ===== src/Files/Patches.antt =====
-- A patch changes what the agents of the tree have seen, and nothing else.
use text.Mathlib.Text.{◌==◌ as str_eq}
use xoxo.Base.{
  Bool, true, not, List, [], ◌∷◌, Option, none, some, Bytes, String, Result, ok, err, ◌≡◌, ◌≢◌,
  refl, ap, ◌∙◌, arith,
}
use xoxo.Base.Dict.{lookup}
use xoxo.Patch.{PatchFile}
use xoxo.Patch.Diff.{PatchFileDiffPreview}
use xoxo.Files.{FileRegistry}
use xoxo.Files.Tools.{
  World, Environment, FileToolError, Effect, changes, reads, creates, records, Others, write_file,
  tracked, updated_in, after_read, after_write, after_update, change, change_all, at_second_read,
  patch_file,
}
use xoxo.Files.Traces.{
  has_registry, read_in, read_in-tracked, updated_in-read_in, write_file-registry, Trace,
  perform_all,
}
use xoxo.Files.Effects.{has_registry-change_all, patch_file-Patched}

-- No agent reads or creates the file.
abbrev pub leaves : String → Effect → Bool
leaves path (changes f) = true
leaves path (reads p) = not (str_eq p path)
leaves path (creates p content) = not (str_eq p path)
leaves path (records p old new) = true

abbrev pub Leaves : String → List Effect → Type 0
Leaves path [] = Unit {0}
Leaves path (e ∷ effects) = (leaves path e ≡ true) × Leaves path effects

module _ (env : Environment) where
  open env use {md5}

  abbrev pub start : List (String × Bytes) → Trace
  start disk = record { world = record { disk = disk; registry = some [] }; seen = [] }

  -- What is seen when a patch checks the registry.
  abbrev pub trace_at_check : Others → Trace → Trace
  trace_at_check others t =
      perform_all env others.before_check (perform_all env others.before_second_read t)

  -- Effects that leave a file leave the sum of its last read.
  read_in-tracked_other :
      (registry : Option FileRegistry) (p path sum : String)
      → not (str_eq p path) ≡ true
      → read_in (tracked registry p sum) path ≡ read_in registry path
  read_in-tracked_other none p path sum h = refl
  read_in-tracked_other (some files) p path sum h =
      read_in-tracked (some files) p path sum refl ∙ ground (arith, h)

  read_in-after_read :
      (w : World) (p path : String) (found : Option Bytes)
      → not (str_eq p path) ≡ true
      → read_in (after_read env w p found).registry path ≡ read_in w.registry path
  read_in-after_read w p path none h = refl
  read_in-after_read w p path (some c) h = read_in-tracked_other w.registry p path (md5 c) h

  read_in-after_write :
      (w : World) (p path : String) (content : Bytes) (r : Result World FileToolError)
      → write_file env w p content ≡ r
      → not (str_eq p path) ≡ true
      → read_in (after_write env w r).registry path ≡ read_in w.registry path
  read_in-after_write w p path content (err e) r h = refl
  read_in-after_write w p path content (ok later) r h =
      ap (λ x. read_in x path) (write_file-registry env w later p content r)
      ∙ read_in-tracked_other w.registry p path (md5 content) h

  read_in-after_update :
      (w : World) (p path old new : String) (r : Result (Option FileRegistry) FileToolError)
      → has_registry w.registry ≡ true
      → updated_in w.registry p (some old) new ≡ r
      → read_in (after_update env w r).registry path ≡ read_in w.registry path
  read_in-after_update w p path old new (err e) h r = refl
  read_in-after_update w p path old new (ok later) h r =
      (updated_in-read_in w.registry later p old new h r).2 path

  read_in-change :
      (e : Effect) (w : World) (path : String)
      → has_registry w.registry ≡ true
      → leaves path e ≡ true
      → read_in (change env e w).registry path ≡ read_in w.registry path
  read_in-change (changes f) w path h l = refl
  read_in-change (reads p) w path h l = read_in-after_read w p path (lookup p w.disk) l
  read_in-change (creates p content) w path h l =
      read_in-after_write w p path content (write_file env w p content) refl l
  read_in-change (records p old new) w path h l =
      read_in-after_update w p path old new (updated_in w.registry p (some old) new) h refl

  read_in-change_all :
      (effects : List Effect) (w : World) (path : String)
      → has_registry w.registry ≡ true
      → Leaves path effects
      → read_in (change_all env effects w).registry path ≡ read_in w.registry path
  read_in-change_all [] w path h l = refl
  read_in-change_all (e ∷ effects) w path h l =
      read_in-change_all effects (change env e w) path (has_registry-change_all env (e ∷ []) w h)
        l.1
      ∙ read_in-change e w path h l.0

  has_registry_of_read :
      (registry : Option FileRegistry) (path : String) {sum : String}
      → read_in registry path ≡ some sum
      → has_registry registry ≡ true
  has_registry_of_read none path h = cc
  has_registry_of_read (some files) path h = refl

  -- A patch that succeeds, with an execution context, leaves the registry with the sum of the content before. So as
  -- long as no agent of the tree reads or creates the file, whatever else happens, the next patch of it fails, whatever
  -- its updates are, if the file then has another sum than that.
  pub patch_file-stale :
      (w w' : World) (others others' : Others) (later : List Effect) (path : String)
      (updates updates' : List PatchFile) (preview : PatchFileDiffPreview) (content current : Bytes)
      → has_registry w.registry ≡ true
      → patch_file env others w path updates ≡ (w', ok preview)
      → lookup path w.disk ≡ some content
      → Leaves path later
      → Leaves path others'.before_second_read
      → Leaves path others'.before_check
      → lookup path (change_all env later w').disk ≡ some current
      → md5 current ≢ md5 content
      → (x : World) × (e : FileToolError) × (patch_file env others'
            (change_all env later w')
            path
            updates'
          ≡ (x, err e))
  patch_file-stale w w' others others' later path updates updates' preview content current r h c l
        l1 l2 now n =
      again (patch_file env others' v path updates').0 (patch_file env others' v path updates').1
        refl
    where
      v : World
      v = change_all env later w'

      again :
          (x : World) (y : Result PatchFileDiffPreview FileToolError)
          → patch_file env others' v path updates' ≡ (x, y)
          → (x' : World) × (e : FileToolError) × (patch_file env others' v path updates'
              ≡ (x', err e))
      again x (err e) p = (x, e, p)
      again x (ok preview') p =
          let first = patch_file-Patched env others w w' path updates r h in
          let h0 = has_registry_of_read w'.registry path first.still in
          let h1 = has_registry-change_all env later w' h0 in
          let h2 = has_registry-change_all env others'.before_second_read v h1 in
          let second = patch_file-Patched env others' v x path updates' h1 p in
          let kept =
            read_in-change_all others'.before_check (at_second_read env others' v) path h2 l2
            ∙ read_in-change_all others'.before_second_read v path h1 l1
            ∙ read_in-change_all later w' path h0 l in
          absurd
            (n (grind (arith, second.fresh, kept, first.still, first.found, second.found, c, now)))
