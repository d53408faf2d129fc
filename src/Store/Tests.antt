-- ===== src/Store/Tests.antt =====
-- The vector store at work, on numbers in place of `f32`.
use mathlib.Core.List.{Memᴰ}
use xoxo.Base.{
  ℕ, ◌+◌, ◌*◌, ◌/◌, ◌≤◌, ◌≡◌, refl, Bool, true, false, List, [], ◌∷◌, none, some, ok, length, leb,
  ◌==◌, if◌then◌else◌,
}
use xoxo.Store.{
  code_symbol, ChunkRecord, Floats, BruteForceStore, VectorStoreHit, new, ensure_dimensions, put,
  upsert, lookup_by_id, invalidate_by_path, entry_of, norm, cosine, check_query, score_entry,
  nearest,
}
use xoxo.Store.Laws.{
  IsConsistent, Calls, Calls-IsConsistent, lookup_by_id-upsert, lookup_by_id-invalidate_by_path,
}
use xoxo.Store.Nearest.{nearest-lookup_by_id}

unfoldable insert_by : {A : Type 0} → (A → ℕ) → A → List A → List A
insert_by key x [] = x ∷ []
insert_by key x (y ∷ ys) =
    let rest = insert_by key x ys in if leb (key y) (key x) then x ∷ y ∷ ys else y ∷ rest

unfoldable sort_by : {A : Type 0} → (A → ℕ) → List A → List A
sort_by key [] = []
sort_by key (x ∷ xs) = insert_by key x (sort_by key xs)

insert_by-keeps :
    {A : Type 0} (key : A → ℕ) (x : A) (xs : List A) {y : A}
    → Memᴰ y (insert_by key x xs)
    → Memᴰ y (x ∷ xs)
unfolding insert_by
insert_by-keeps key x [] m = m
insert_by-keeps {A} key x (z ∷ xs) {y} m =
    choose (λ n. insert_by-keeps key x xs n) (leb (key z) (key x)) m
  where
    behind : Memᴰ y (x ∷ xs) → Memᴰ y (x ∷ z ∷ xs)
    behind (Memᴰ.head e) = Memᴰ.head e
    behind (Memᴰ.tail n) = Memᴰ.tail (Memᴰ.tail n)

    choose :
        (Memᴰ y (insert_by key x xs) → Memᴰ y (x ∷ xs))
        → (b : Bool) → Memᴰ y (if b then x ∷ z ∷ xs else z ∷ insert_by key x xs)
        → Memᴰ y (x ∷ z ∷ xs)
    choose keeps true n = n
    choose keeps false (Memᴰ.head e) = Memᴰ.tail (Memᴰ.head e)
    choose keeps false (Memᴰ.tail n) = behind (keeps n)

sort_by-keeps :
    {A : Type 0} (key : A → ℕ) (xs : List A) {y : A} → Memᴰ y (sort_by key xs) → Memᴰ y xs
unfolding sort_by
sort_by-keeps key [] m = m
sort_by-keeps {A} key (x ∷ xs) {y} m =
    cons (λ n. sort_by-keeps key xs n) (insert_by-keeps key x (sort_by key xs) m)
  where
    cons : (Memᴰ y (sort_by key xs) → Memᴰ y xs) → Memᴰ y (x ∷ sort_by key xs) → Memᴰ y (x ∷ xs)
    cons keeps (Memᴰ.head e) = Memᴰ.head e
    cons keeps (Memᴰ.tail n) = Memᴰ.tail (keeps n)

abbrev numbers : Floats
numbers = record {
  F32 = ℕ;
  zero = 0;
  add = λ a b. a + b;
  mul = λ a b. a * b;
  div = λ a b. (100 * a) / b;
  sqrt = λ a. a;
  is_zero = λ a. a == 0;
  sort_by_score = λ key xs. sort_by key xs;
}

abbrev chunk_a : ChunkRecord
chunk_a = record {
  id = "a";
  kind = code_symbol;
  file_path = "a.rs";
  symbol_path = "facade::sym";
  language = some "rust";
  byte_range = (0, 1);
  line_range = (1, 1);
  content_hash = "h";
  embedding_backend_id = "test";
}

abbrev chunk_b : ChunkRecord
chunk_b = record chunk_a { id = "b"; file_path = "b.rs" }

abbrev store_a : BruteForceStore numbers
store_a = record {
  dimensions = some 2;
  entries = record { chunk = chunk_a; vector = 1 ∷ 0 ∷ [] } ∷ [];
}

abbrev store_ab : BruteForceStore numbers
store_ab = record {
  dimensions = some 2;
  entries =
      record { chunk = chunk_a; vector = 1 ∷ 0 ∷ [] }
      ∷ record { chunk = chunk_b; vector = 0 ∷ 1 ∷ [] }
      ∷ [];
}

upsert_a : upsert numbers (new numbers) chunk_a (1 ∷ 0 ∷ []) ≡ ok store_a
unfolding new upsert ensure_dimensions put
upsert_a = refl

upsert_b : upsert numbers store_a chunk_b (0 ∷ 1 ∷ []) ≡ ok store_ab
unfolding upsert ensure_dimensions put
upsert_b = refl

abbrev calls_ab : Calls numbers store_ab
calls_ab =
    Calls.upserted chunk_b (0 ∷ 1 ∷ []) (Calls.upserted chunk_a (1 ∷ 0 ∷ []) Calls.made upsert_a)
      upsert_b

abbrev hits_ab : List (VectorStoreHit numbers)
hits_ab = record { chunk = chunk_b; score = 19 } ∷ []

nearest_b : nearest numbers store_ab (1 ∷ 5 ∷ []) 1 ≡ ok hits_ab
unfolding nearest check_query norm score_entry cosine sort_by insert_by
nearest_b = refl

lookup_by_id-upsert_example : lookup_by_id numbers store_ab "a" ≡ some chunk_a
unfolding lookup_by_id entry_of
lookup_by_id-upsert_example =
    lookup_by_id-upsert numbers store_a store_ab chunk_b (0 ∷ 1 ∷ []) "a" upsert_b

Calls-IsConsistent_example : IsConsistent numbers store_ab
Calls-IsConsistent_example = Calls-IsConsistent numbers calls_ab

lookup_by_id-invalidate_by_path_example :
    lookup_by_id numbers (invalidate_by_path numbers store_ab "a.rs") "a" ≡ none
unfolding lookup_by_id entry_of
lookup_by_id-invalidate_by_path_example =
    lookup_by_id-invalidate_by_path numbers store_ab "a.rs" "a"
      (Calls-IsConsistent numbers calls_ab)

nearest-lookup_by_id_example :
    (length hits_ab ≤ 1)
    × ((h : VectorStoreHit numbers)
        → Memᴰ h hits_ab
        → lookup_by_id numbers store_ab h.chunk.id ≡ some h.chunk)
nearest-lookup_by_id_example =
    nearest-lookup_by_id numbers store_ab (1 ∷ 5 ∷ []) 1 hits_ab
      (λ xs h m. sort_by-keeps (λ (x : VectorStoreHit numbers). x.score) xs m)
      (Calls-IsConsistent numbers calls_ab) nearest_b
