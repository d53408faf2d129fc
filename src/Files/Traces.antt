-- ===== src/Files/Traces.antt =====
-- What the agents of a tree have seen of the files, over any sequence of effects.
use text.Mathlib.TextEquality.{eq_iff}
use text.Mathlib.Text.{◌==◌ as str_eq}
use xoxo.Base.{
  List, [], ◌∷◌, Option, none, some, Bytes, String, Result, ok, err, if◌then◌else◌, ◌≡◌, arith,
  Bool, true, false, refl, sym, ap, ◌∙◌, >>=-eq-ok,
}
use xoxo.Base.Dict.{lookup, insert, lookup-insert}
use xoxo.Files.{
  FileRecord, FileRegistry, FileRegistryError, or_default, upsert, ensure_read, update,
}
use xoxo.Files.Tools.{
  World, Environment, FileToolError, or_refused, Effect, changes, reads, creates, records, tracked,
  checked, updated_in, write_file, after_read, after_write, after_update, change, change_all,
}

-- The sum that was recorded at the last read.
abbrev pub read_sum : Option FileRecord → Option String
read_sum none = none
read_sum (some entry) = elim entry.read [ none ↦ none | some f ↦ some f.md5 ]

-- The world, and for each file what an agent of the tree last read or created of it.
pub record Trace : Type 0 where
  pub world : World
  pub seen : List (String × Bytes)

pub read_sum-upsert :
    (files : FileRegistry) (p q sum : String)
    → read_sum (lookup q (upsert files p sum))
      ≡ (if str_eq p q then some sum else read_sum (lookup q files))
unfolding upsert
read_sum-upsert files p q sum = ground (
  arith,
  lookup-insert q p
      (record (or_default (lookup p files)) { read = some (record { file_path = p; md5 = sum }) })
      files,
)

pub ensure_read-ok :
    (files : FileRegistry) (p sum : String)
    → ensure_read files p sum ≡ ok tt
    → read_sum (lookup p files) ≡ some sum
unfolding ensure_read
ensure_read-ok files p sum h = grind (arith, h, eq_iff)

pub ensure_read-fresh :
    (files : FileRegistry) (p sum : String)
    → read_sum (lookup p files) ≡ some sum
    → ensure_read files p sum ≡ ok tt
unfolding ensure_read
ensure_read-fresh files p sum h = grind (arith, h, eq_iff)

pub update-read_sum :
    (files later : FileRegistry) (p q old new : String)
    → update files p old new ≡ ok later
    → read_sum (lookup q later) ≡ read_sum (lookup q files)
unfolding update ensure_read
update-read_sum files later p q old new h = grind (arith, h, eq_iff, lookup-insert)

update-found :
    (files later : FileRegistry) (p old new : String)
    → update files p old new ≡ ok later
    → read_sum (lookup p files) ≡ some old
unfolding update
update-found files later p old new h =
    let (_, e, _) = >>=-eq-ok (ensure_read files p old) _ h in ensure_read-ok files p old e

pub or_refused-ok :
    {A : Type 0} {a : A} (r : Result A FileRegistryError) → or_refused r ≡ ok a → r ≡ ok a
or_refused-ok (err e) h = grind (arith, h)
or_refused-ok (ok b) h = grind (arith, h)

abbrev pub has_registry : Option FileRegistry → Bool
has_registry none = false
has_registry (some files) = true

-- The sum that the registry has of the last read of a file.
abbrev pub read_in : Option FileRegistry → String → Option String
read_in none path = none
read_in (some files) path = read_sum (lookup path files)

pub read_in-tracked :
    (registry : Option FileRegistry) (path q sum : String)
    → has_registry registry ≡ true
    → read_in (tracked registry path sum) q
      ≡ (if str_eq path q then some sum else read_in registry q)
read_in-tracked none path q sum h = cc
read_in-tracked (some files) path q sum h = read_sum-upsert files path q sum

pub checked-read_in :
    (registry : Option FileRegistry) (path sum : String)
    → has_registry registry ≡ true
    → checked registry path (some sum) ≡ ok tt
    → read_in registry path ≡ some sum
checked-read_in none path sum h c = cc
checked-read_in (some files) path sum h c = ensure_read-ok files path sum (or_refused-ok _ c)

-- An update finds the old sum, and leaves the sums of the reads.
pub updated_in-read_in :
    (registry later : Option FileRegistry) (path old new : String)
    → has_registry registry ≡ true
    → updated_in registry path (some old) new ≡ ok later
    → (has_registry later ≡ true)
      × (read_in registry path ≡ some old)
      × ((q : String) → read_in later q ≡ read_in registry q)
updated_in-read_in none later path old new h u = cc
updated_in-read_in (some files) later path old new h u =
    let (l, p, e) = >>=-eq-ok (update files path old new) _ (or_refused-ok _ u) in
    let same : some l ≡ later = grind (arith, e) in
    (
      ap has_registry (sym same),
      update-found files l path old new p,
      λ q. ap (λ x. read_in x q) (sym same) ∙ update-read_sum files l path q old new p,
    )

pub has_registry-tracked :
    (registry : Option FileRegistry) (path sum : String)
    → has_registry (tracked registry path sum) ≡ has_registry registry
has_registry-tracked none path sum = refl
has_registry-tracked (some files) path sum = refl

pub write_file-registry :
    (env : Environment) (w later : World) (path : String) (content : Bytes)
    → write_file env w path content ≡ ok later
    → later.registry ≡ tracked w.registry path (env.md5 content)
unfolding write_file
write_file-registry env w later path content e = grind (arith, e)

module _ (env : Environment) where
  open env use {md5}

  abbrev pub seen_at_read : Option Bytes → String → List (String × Bytes) → List (String × Bytes)
  seen_at_read none path seen = seen
  seen_at_read (some content) path seen = insert path content seen

  abbrev pub seen_at_write :
      Result World FileToolError → String → Bytes → List (String × Bytes) → List (String × Bytes)
  seen_at_write (err e) path content seen = seen
  seen_at_write (ok w) path content seen = insert path content seen

  abbrev pub see : Effect → World → List (String × Bytes) → List (String × Bytes)
  see (changes f) w seen = seen
  see (reads path) w seen = seen_at_read (lookup path w.disk) path seen
  see (creates path content) w seen =
      seen_at_write (write_file env w path content) path content seen
  see (records path old new) w seen = seen

  abbrev pub perform : Effect → Trace → Trace
  perform e t = record { world = change env e t.world; seen = see e t.world t.seen }

  abbrev pub perform_all : List Effect → Trace → Trace
  perform_all [] t = t
  perform_all (e ∷ effects) t = perform_all effects (perform e t)

  pub perform_all-change_all :
      (effects : List Effect) (t : Trace)
      → (perform_all effects t).world ≡ change_all env effects t.world
  perform_all-change_all [] t = refl
  perform_all-change_all (e ∷ effects) t = perform_all-change_all effects (perform e t)

  abbrev pub sum_of : Option Bytes → Option String
  sum_of none = none
  sum_of (some content) = some (md5 content)

  -- The registry holds the sum of what the agents have seen of each file.
  abbrev pub IsTracked : Trace → Type 0
  IsTracked t =
      (has_registry t.world.registry ≡ true)
      × ((q : String) → read_in t.world.registry q ≡ sum_of (lookup q t.seen))

  seen-IsTracked :
      (t : Trace) (disk : List (String × Bytes)) (path : String) (content : Bytes)
      → IsTracked t
      → IsTracked (record {
        world = record { disk = disk; registry = tracked t.world.registry path (md5 content) };
        seen = insert path content t.seen;
      })
  seen-IsTracked t disk path content (h, s) = (
    has_registry-tracked t.world.registry path (md5 content) ∙ h,
    λ q. ground (
      arith,
      s q,
      read_in-tracked t.world.registry path q (md5 content) h,
      lookup-insert q path content t.seen,
    ),
  )

  perform_reads-IsTracked :
      (path : String) (t : Trace) (found : Option Bytes)
      → IsTracked t
      → IsTracked (record {
        world = after_read env t.world path found;
        seen = seen_at_read found path t.seen;
      })
  perform_reads-IsTracked path t none i = i
  perform_reads-IsTracked path t (some content) i = seen-IsTracked t t.world.disk path content i

  perform_creates-IsTracked :
      (path : String) (content : Bytes) (t : Trace) (r : Result World FileToolError)
      → r ≡ write_file env t.world path content
      → IsTracked t
      → IsTracked
          (record { world = after_write env t.world r; seen = seen_at_write r path content t.seen })
  unfolding write_file
  perform_creates-IsTracked path content t (err e) h i = i
  perform_creates-IsTracked path content t (ok w) h i =
      let (a, b) = seen-IsTracked t w.disk path content i in
      let same = write_file-registry env t.world w path content (sym h) in
      (ap has_registry same ∙ a, λ q. ap (λ x. read_in x q) same ∙ b q)

  perform_records-IsTracked :
      (path old new : String) (t : Trace) (r : Result (Option FileRegistry) FileToolError)
      → updated_in t.world.registry path (some old) new ≡ r
      → IsTracked t
      → IsTracked (record { world = after_update env t.world r; seen = t.seen })
  perform_records-IsTracked path old new t (err e) h i = i
  perform_records-IsTracked path old new t (ok later) h (i, s) =
      let (a, b, c) = updated_in-read_in t.world.registry later path old new i h in
      (a, λ q. c q ∙ s q)

  perform-IsTracked : (e : Effect) (t : Trace) → IsTracked t → IsTracked (perform e t)
  perform-IsTracked (changes f) t i = i
  perform-IsTracked (reads path) t i = perform_reads-IsTracked path t (lookup path t.world.disk) i
  perform-IsTracked (creates path content) t i =
      perform_creates-IsTracked path content t (write_file env t.world path content) refl i
  perform-IsTracked (records path old new) t i =
      perform_records-IsTracked path old new t (updated_in t.world.registry path (some old) new)
        refl i

  pub perform_all-IsTracked :
      (effects : List Effect) (t : Trace) → IsTracked t → IsTracked (perform_all effects t)
  perform_all-IsTracked [] t i = i
  perform_all-IsTracked (e ∷ effects) t i =
      perform_all-IsTracked effects (perform e t) (perform-IsTracked e t i)
