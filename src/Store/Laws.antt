-- ===== src/Store/Laws.antt =====
-- What the vector store keeps, and its laws as a map from ids to records.
use mathlib.Core.Path.{subst}
use xoxo.Base.{◌⊎◌}
use text.Mathlib.Text.{◌==◌ as str_eq}
use text.Mathlib.TextEquality.{eq_iff}
use xoxo.Base.{
  ℕ, ◌≡◌, refl, arith, List, [], ◌∷◌, Option, none, some, String, ok, inl, inr, length,
  if◌then◌else◌,
}
use xoxo.Store.{
  ChunkRecord, Floats, Entry, BruteForceStore, new, ensure_dimensions, entry_of, put, upsert,
  chunk_of, lookup_by_id, retain_others, invalidate_by_path,
}

module _ (f : Floats) where
  open f use {F32}

  -- Every vector has the dimensions of the store, and no id occurs twice.
  abbrev AllDimensions : Option ℕ → List (Entry f) → Type 0
  AllDimensions d [] = Unit {0}
  AllDimensions d (e ∷ es) = (d ≡ some (length e.vector)) × AllDimensions d es

  abbrev pub DistinctIds : List (Entry f) → Type 0
  DistinctIds [] = Unit {0}
  DistinctIds (e ∷ es) = (entry_of f e.chunk.id es ≡ none) × DistinctIds es

  pub record IsConsistent (s : BruteForceStore f) : Type 0 where
    pub all_dimensions : AllDimensions s.dimensions s.entries
    pub distinct_ids : DistinctIds s.entries

  entry_of-put :
      (n : Entry f) (es : List (Entry f)) (id : String)
      → entry_of f id (put f n es) ≡ (if str_eq n.chunk.id id then some n else entry_of f id es)
  unfolding entry_of put
  entry_of-put n [] id = refl
  entry_of-put n (e ∷ es) id = ground (
    arith,
    eq_iff e.chunk.id n.chunk.id,
    eq_iff e.chunk.id id,
    eq_iff n.chunk.id id,
    entry_of-put n es id,
  )

  -- Behind an upsert an id finds the new record, if it is the record's, and else what it found before.
  pub lookup_by_id-upsert :
      (s t : BruteForceStore f) (chunk : ChunkRecord) (vector : List F32) (id : String)
      → upsert f s chunk vector ≡ ok t
      → lookup_by_id f t id ≡ (if str_eq chunk.id id then some chunk else lookup_by_id f s id)
  unfolding upsert lookup_by_id ensure_dimensions
  lookup_by_id-upsert s t chunk vector id e =
      ground (arith, entry_of-put (record { chunk = chunk; vector = vector }) s.entries id)

  put-AllDimensions :
      (n : Entry f) (es : List (Entry f))
      → AllDimensions (some (length n.vector)) es
      → AllDimensions (some (length n.vector)) (put f n es)
  unfolding put
  put-AllDimensions n [] h = (refl, tt)
  put-AllDimensions n (e ∷ es) h = ground (arith, put-AllDimensions n es h.1)

  put-DistinctIds : (n : Entry f) (es : List (Entry f)) → DistinctIds es → DistinctIds (put f n es)
  unfolding put
  put-DistinctIds n [] h = (unfold entry_of in refl, tt)
  put-DistinctIds n (e ∷ es) h = ground (
    arith,
    eq_iff e.chunk.id n.chunk.id,
    eq_iff n.chunk.id e.chunk.id,
    entry_of-put n es e.chunk.id,
    put-DistinctIds n es h.1,
  )

  pub new-IsConsistent : IsConsistent (new f)
  unfolding new
  new-IsConsistent = record { all_dimensions = tt; distinct_ids = tt }

  upsert_inv :
      (s t : BruteForceStore f) (chunk : ChunkRecord) (vector : List F32)
      → upsert f s chunk vector ≡ ok t
      → (t.entries ≡ put f (record { chunk = chunk; vector = vector }) s.entries)
        × (t.dimensions ≡ some (length vector))
        × ((s.dimensions ≡ none) ⊎ (s.dimensions ≡ some (length vector)))
  unfolding upsert ensure_dimensions
  upsert_inv s t chunk vector e = ground arith

  -- A store with no dimensions has no entry with a vector to disagree with.
  AllDimensions-put :
      (d : Option ℕ) (n : Entry f) (es : List (Entry f))
      → (d ≡ none) ⊎ (d ≡ some (length n.vector))
      → AllDimensions d es
      → AllDimensions (some (length n.vector)) (put f n es)
  AllDimensions-put d n es (inr e) h = put-AllDimensions n es (subst (λ x. AllDimensions x es) e h)
  AllDimensions-put d n [] (inl e) h = unfold put in (refl, tt)
  AllDimensions-put d n (x ∷ es) (inl e) h = absurd (none_ne_some e h.0)
    where
      none_ne_some : {o : Option ℕ} {k : ℕ} → o ≡ none → o ≡ some k → ⊥
      none_ne_some p q = cc

  upsert-IsConsistent :
      (s t : BruteForceStore f) (chunk : ChunkRecord) (vector : List F32)
      → IsConsistent s
      → upsert f s chunk vector ≡ ok t
      → IsConsistent t
  upsert-IsConsistent s t chunk vector c e =
      let (entries, dims, before) = upsert_inv s t chunk vector e in
      let n : Entry f = record { chunk = chunk; vector = vector } in
      record {
        all_dimensions =
            rw (entries, dims) (AllDimensions-put s.dimensions n s.entries before c.all_dimensions);
        distinct_ids = rw entries (put-DistinctIds n s.entries c.distinct_ids);
      }

  retain-AllDimensions :
      (d : Option ℕ) (path : String) (es : List (Entry f))
      → AllDimensions d es
      → AllDimensions d (retain_others f path es)
  unfolding retain_others
  retain-AllDimensions d path [] h = tt
  retain-AllDimensions d path (e ∷ es) h = ground (arith, retain-AllDimensions d path es h.1)

  -- The record, unless it is of that file.
  abbrev pub of_other_file : String → Option ChunkRecord → Option ChunkRecord
  of_other_file path none = none
  of_other_file path (some chunk) = if str_eq chunk.file_path path then none else some chunk

  entry_of-retain :
      (path id : String) (es : List (Entry f))
      → DistinctIds es
      → chunk_of f (entry_of f id (retain_others f path es))
        ≡ of_other_file path (chunk_of f (entry_of f id es))
  unfolding retain_others entry_of
  entry_of-retain path id [] h = refl
  entry_of-retain path id (e ∷ es) h =
      ground (arith, eq_iff e.chunk.id id, entry_of-retain path id es h.1)

  entry_of_none-retain :
      (path id : String) (es : List (Entry f))
      → entry_of f id es ≡ none
      → entry_of f id (retain_others f path es) ≡ none
  unfolding retain_others entry_of
  entry_of_none-retain path id [] h = refl
  entry_of_none-retain path id (e ∷ es) h = ground (arith, entry_of_none-retain path id es)

  retain-DistinctIds :
      (path : String) (es : List (Entry f)) → DistinctIds es → DistinctIds (retain_others f path es)
  unfolding retain_others
  retain-DistinctIds path [] h = tt
  retain-DistinctIds path (e ∷ es) h =
      ground (arith, retain-DistinctIds path es h.1, entry_of_none-retain path e.chunk.id es h.0)

  -- In a consistent store, behind an invalidation of a file its records are gone, and no other.
  pub lookup_by_id-invalidate_by_path :
      (s : BruteForceStore f) (path id : String)
      → IsConsistent s
      → lookup_by_id f (invalidate_by_path f s path) id ≡ of_other_file path (lookup_by_id f s id)
  unfolding lookup_by_id invalidate_by_path
  lookup_by_id-invalidate_by_path s path id c = entry_of-retain path id s.entries c.distinct_ids

  invalidate_by_path-IsConsistent :
      (s : BruteForceStore f) (path : String)
      → IsConsistent s
      → IsConsistent (invalidate_by_path f s path)
  unfolding invalidate_by_path
  invalidate_by_path-IsConsistent s path c = record {
    all_dimensions = retain-AllDimensions s.dimensions path s.entries c.all_dimensions;
    distinct_ids = retain-DistinctIds path s.entries c.distinct_ids;
  }

  -- The calls that change the store.
  pub data Calls : BruteForceStore f → Type 0 where
    made : Calls (new f)
    upserted :
        {s t : BruteForceStore f} (chunk : ChunkRecord) (vector : List F32)
        → Calls s
        → upsert f s chunk vector ≡ ok t
        → Calls t
    invalidated :
        {s : BruteForceStore f} (path : String) → Calls s → Calls (invalidate_by_path f s path)

  -- After any calls every vector has the dimensions of the store, and no id occurs twice.
  pub Calls-IsConsistent : {s : BruteForceStore f} → Calls s → IsConsistent s
  Calls-IsConsistent made = new-IsConsistent
  Calls-IsConsistent (upserted {s} {t} chunk vector c e) =
      upsert-IsConsistent s t chunk vector (Calls-IsConsistent c) e
  Calls-IsConsistent (invalidated {s} path c) =
      invalidate_by_path-IsConsistent s path (Calls-IsConsistent c)
