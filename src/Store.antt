-- ===== src/Store.antt =====
-- crates/agents/agentix/src/indexing: the vector store that scans its records, of
-- stores/brute_force.rs. Floats and `sort_by` are not of this repository: a parameter.
pub mod Laws
pub mod Nearest
mod Tests
use text.Mathlib.Text.{◌==◌ as str_eq}
use xoxo.Base.{
  ℕ, ◌+◌, Bool, true, false, not, ◌||◌, List, [], ◌∷◌, map, Option, none, some, String, Result, ok,
  err, ◌>>=◌, length, take, ◌==◌, if◌then◌else◌,
}

pub data ChunkKind : Type 0 where
  code_symbol : ChunkKind

-- chunk.rs; `ChunkId` and `ContentHash` are texts.
pub record ChunkRecord : Type 0 where
  pub id : String
  pub kind : ChunkKind
  pub file_path : String
  pub symbol_path : String
  pub language : Option String
  pub byte_range : ℕ × ℕ
  pub line_range : ℕ × ℕ
  pub content_hash : String
  pub embedding_backend_id : String

-- `Backend`, the wrapper of another library's error, is never made by this store.
pub data VectorStoreError : Type 0 where
  dimension_mismatch : ℕ → ℕ → VectorStoreError
  not_found : String → VectorStoreError

-- `f32`, its operations, and the order of `sort_by` with `partial_cmp`.
pub record Floats : Type 1 where
  pub F32 : Type 0
  pub zero : F32
  pub add : F32 → F32 → F32
  pub mul : F32 → F32 → F32
  pub div : F32 → F32 → F32
  pub sqrt : F32 → F32
  pub is_zero : F32 → Bool
  -- The list sorted by falling score; equal or incomparable scores keep their order.
  pub sort_by_score : {A : Type 0} → (A → F32) → List A → List A

module _ (f : Floats) where
  open f use {F32, add, mul, div, sqrt, is_zero, sort_by_score}

  pub record Entry : Type 0 where
    pub chunk : ChunkRecord
    pub vector : List F32

  pub record BruteForceStore : Type 0 where
    pub dimensions : Option ℕ
    pub entries : List Entry

  pub record VectorStoreHit : Type 0 where
    pub chunk : ChunkRecord
    pub score : F32

  unfoldable pub new : BruteForceStore
  new = record { dimensions = none; entries = [] }

  -- The dimensions behind the call.
  unfoldable pub ensure_dimensions : Option ℕ → ℕ → Result ℕ VectorStoreError
  ensure_dimensions (some expected) actual =
      if expected == actual then ok expected else err (dimension_mismatch expected actual)
  ensure_dimensions none actual = ok actual

  -- The entry at `position_of`, or none: the first with that id.
  unfoldable pub entry_of : String → List Entry → Option Entry
  entry_of id [] = none
  entry_of id (e ∷ es) = if str_eq e.chunk.id id then some e else entry_of id es

  -- `self.entries[idx] = …` at `position_of`, or `push`.
  unfoldable pub put : Entry → List Entry → List Entry
  put new [] = new ∷ []
  put new (e ∷ es) = if str_eq e.chunk.id new.chunk.id then new ∷ es else e ∷ put new es

  unfoldable pub upsert :
      BruteForceStore → ChunkRecord → List F32 → Result BruteForceStore VectorStoreError
  upsert s chunk vector = do
    d ← ensure_dimensions s.dimensions (length vector)
    ok (record {
      dimensions = some d;
      entries = put (record { chunk = chunk; vector = vector }) s.entries;
    })

  abbrev pub chunk_of : Option Entry → Option ChunkRecord
  chunk_of none = none
  chunk_of (some e) = some e.chunk

  unfoldable pub lookup_by_id : BruteForceStore → String → Option ChunkRecord
  lookup_by_id s id = chunk_of (entry_of id s.entries)

  unfoldable pub retain_others : String → List Entry → List Entry
  retain_others path [] = []
  retain_others path (e ∷ es) =
      if str_eq e.chunk.file_path path then retain_others path es else e ∷ retain_others path es

  unfoldable pub invalidate_by_path : BruteForceStore → String → BruteForceStore
  invalidate_by_path s path = record s { entries = retain_others path s.entries }

  -- `v.iter().map(|x| x * x).sum()`, from the left.
  sum_of_squares : F32 → List F32 → F32
  sum_of_squares acc [] = acc
  sum_of_squares acc (x ∷ xs) = sum_of_squares (add acc (mul x x)) xs

  unfoldable pub norm : List F32 → F32
  unfolding sum_of_squares
  norm v = sqrt (sum_of_squares f.zero v)

  sum_of_products : F32 → List F32 → List F32 → F32
  sum_of_products acc (x ∷ xs) (y ∷ ys) = sum_of_products (add acc (mul x y)) xs ys
  sum_of_products acc _ _ = acc

  unfoldable pub cosine : List F32 → List F32 → F32 → F32
  unfolding sum_of_products
  cosine query other query_norm =
      if not (length query == length other)
      then f.zero
      else if is_zero (norm other)
      then f.zero
      else div (sum_of_products f.zero query other) (mul query_norm (norm other))

  -- The check that `nearest` begins with.
  unfoldable pub check_query : Option ℕ → ℕ → Option VectorStoreError
  check_query none actual = none
  check_query (some expected) actual =
      if expected == actual then none else some (dimension_mismatch expected actual)

  unfoldable pub score_entry : List F32 → Entry → VectorStoreHit
  score_entry query e = record { chunk = e.chunk; score = cosine query e.vector (norm query) }

  unfoldable pub nearest :
      BruteForceStore → List F32 → ℕ → Result (List VectorStoreHit) VectorStoreError
  nearest s query k = elim (check_query s.dimensions (length query)) [
    | some e ↦ err e
    | none ↦
        if is_zero (norm query) || k == 0
        then ok []
        else ok (
            take k
              (sort_by_score (λ (h : VectorStoreHit). h.score) (map (score_entry query) s.entries)))
  ]
