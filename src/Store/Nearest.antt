-- ===== src/Store/Nearest.antt =====
-- What `nearest` answers.
use mathlib.Core.List.{Memᴰ}
use mathlib.Core.List.Memᴰ
use mathlib.Core.Path.{subst}
use text.Mathlib.TextEquality.{eq_iff}
use xoxo.Base.{
  ℕ, zero, suc, ◌≤◌, ◌≡◌, arith, List, [], ◌∷◌, map, some, ok, sym, ◌⊎◌, inl, inr, length, take,
}
use xoxo.Store.{
  Floats, Entry, BruteForceStore, VectorStoreHit, entry_of, chunk_of, lookup_by_id, score_entry,
  nearest,
}
use xoxo.Store.Laws.{IsConsistent, DistinctIds}

module _ {A : Type 0} where
  length-take : (k : ℕ) (xs : List A) → length (take k xs) ≤ k
  length-take zero xs = omega arith
  length-take (suc k) [] = omega arith
  length-take (suc k) (x ∷ xs) = omega (arith, length-take k xs)

  Memᴰ-take : {x : A} (k : ℕ) (xs : List A) → Memᴰ x (take k xs) → Memᴰ x xs
  Memᴰ-take zero xs m = absurd (Memᴰ.not-nil m)
  Memᴰ-take (suc k) [] m = absurd (Memᴰ.not-nil m)
  Memᴰ-take (suc k) (y ∷ xs) (Memᴰ.head e) = Memᴰ.head e
  Memᴰ-take (suc k) (y ∷ xs) (Memᴰ.tail m) = Memᴰ.tail (Memᴰ-take k xs m)

module _ (f : Floats) where
  open f use {F32, is_zero, sort_by_score}

  found :
      (query : List F32) (es : List (Entry f)) (h : VectorStoreHit f)
      → DistinctIds f es
      → Memᴰ h (map (score_entry f query) es)
      → chunk_of f (entry_of f h.chunk.id es) ≡ some h.chunk
  unfolding entry_of score_entry
  found query [] h d m = absurd (Memᴰ.not-nil m)
  found query (e ∷ es) h d (Memᴰ.head eq) = ground (arith, eq_iff e.chunk.id e.chunk.id)
  found query (e ∷ es) h d (Memᴰ.tail m) =
      ground (arith, eq_iff e.chunk.id h.chunk.id, found query es h d.1 m)

  -- An answer is none or the first of the sorted hits.
  nearest_inv :
      (s : BruteForceStore f) (query : List F32) (k : ℕ) (hits : List (VectorStoreHit f))
      → nearest f s query k ≡ ok hits
      → (hits ≡ [])
        ⊎ (hits
            ≡ take k (
                sort_by_score
                  (λ (h : VectorStoreHit f). h.score)
                  (map (score_entry f query) s.entries)))
  unfolding nearest
  nearest_inv s query k hits e = ground (arith)

  -- In a consistent store, where sorting keeps the elements, an answer has at most `k` hits, and each
  -- is a record that the store has under its id.
  pub nearest-lookup_by_id :
      (s : BruteForceStore f) (query : List F32) (k : ℕ) (hits : List (VectorStoreHit f))
      → ((xs : List (VectorStoreHit f)) (h : VectorStoreHit f)
          → Memᴰ h (sort_by_score (λ (x : VectorStoreHit f). x.score) xs)
          → Memᴰ h xs)
      → IsConsistent f s
      → nearest f s query k ≡ ok hits
      → (length hits ≤ k)
        × ((h : VectorStoreHit f) → Memᴰ h hits → lookup_by_id f s h.chunk.id ≡ some h.chunk)
  unfolding nearest lookup_by_id
  nearest-lookup_by_id s query k hits keeps c e = answer (nearest_inv s query k hits e)
    where
      scored : List (VectorStoreHit f)
      scored = map (score_entry f query) s.entries

      Answers : List (VectorStoreHit f) → Type 0
      Answers hs =
          (length hs ≤ k)
          × ((h : VectorStoreHit f) → Memᴰ h hs → lookup_by_id f s h.chunk.id ≡ some h.chunk)

      sorted : List (VectorStoreHit f)
      sorted = sort_by_score (λ (h : VectorStoreHit f). h.score) scored

      answer : (hits ≡ []) ⊎ (hits ≡ take k sorted) → Answers hits
      answer (inl n) = subst Answers (sym n) (omega arith, λ h m. absurd (Memᴰ.not-nil m))
      answer (inr n) = subst Answers (sym n) (
        length-take k sorted,
        λ h m. found query s.entries h c.distinct_ids (keeps scored h (Memᴰ-take k sorted m)),
      )
