-- ===== src/Base/Dict.antt =====
-- A map with texts for keys, as an association list.
use Prim.Native.String.{String}
use mathlib.Core.Path.{◌≡◌, refl, sym, ap, ◌∙◌}
use mathlib.Core.Logic.{◌≢◌, ◌⊎◌, inl, inr}
use mathlib.Core.Bool.{true, false}
use mathlib.Core.Option.{Option, none, some}
use mathlib.Core.List.{List, [], ◌∷◌}
use native.Mathlib.Omega.{arith}
use text.Mathlib.Text.{◌==◌}
use text.Mathlib.TextEquality.{eq_iff}
use xoxo.Base.Tests.{Bool-cases, if◌then◌else◌}

module _ {ℓ} {V : Type ℓ} where
  unfoldable pub lookup : String → List (String × V) → Option V
  lookup k [] = none
  lookup k ((j, v) ∷ m) = if j == k then some v else lookup k m

  unfoldable pub insert : String → V → List (String × V) → List (String × V)
  insert k v [] = (k, v) ∷ []
  insert k v ((j, w) ∷ m) = if j == k then (k, v) ∷ m else (j, w) ∷ insert k v m

  unfoldable pub remove : String → List (String × V) → List (String × V)
  remove k [] = []
  remove k ((j, w) ∷ m) = let rest = remove k m in if j == k then rest else (j, w) ∷ rest

  pub lookup-insert :
      (j k : String) (v : V) (m : List (String × V))
      → lookup j (insert k v m) ≡ (if k == j then some v else lookup j m)
  unfolding lookup insert
  lookup-insert j k v [] = refl
  lookup-insert j k v ((i, w) ∷ m) =
      ground (arith, eq_iff i k, eq_iff i j, eq_iff k j, lookup-insert j k v m)

  pub lookup-remove :
      (j k : String) (m : List (String × V))
      → lookup j (remove k m) ≡ (if k == j then none else lookup j m)
  unfolding lookup remove
  lookup-remove j k [] = ground arith
  lookup-remove j k ((i, w) ∷ m) =
      ground (arith, eq_iff i k, eq_iff i j, eq_iff k j, lookup-remove j k m)

-- No key stands twice.
abbrev pub HasDistinctKeys {ℓ} : {V : Type ℓ} → List (String × V) → Type ℓ
HasDistinctKeys [] = Unit
HasDistinctKeys ((k, v) ∷ m) = (lookup k m ≡ none) × HasDistinctKeys m

pub insert-HasDistinctKeys {ℓ} :
    {V : Type ℓ} (k : String) (v : V) (m : List (String × V))
    → HasDistinctKeys m
    → HasDistinctKeys (insert k v m)
unfolding insert
insert-HasDistinctKeys k v [] d = (unfold lookup in refl, tt)
insert-HasDistinctKeys k v ((j, w) ∷ m) d = elim (Bool-cases (j == k)) [
  | inl y ↦ rw y (ap (λ x. lookup x m) (sym ((eq_iff j k).0 y)) ∙ d.0, d.1)
  | inr n ↦ rw n (
    lookup-insert j k v m ∙ ground (arith, n, d.0, eq_iff j k, eq_iff k j),
    insert-HasDistinctKeys k v m d.1,
  )
]

pub remove-HasDistinctKeys {ℓ} :
    {V : Type ℓ} (k : String) (m : List (String × V))
    → HasDistinctKeys m
    → HasDistinctKeys (remove k m)
unfolding remove
remove-HasDistinctKeys k [] d = tt
remove-HasDistinctKeys k ((j, w) ∷ m) d = elim (Bool-cases (j == k)) [
  | inl y ↦ rw y (remove-HasDistinctKeys k m d.1)
  | inr n ↦ rw n (lookup-remove j k m ∙ ground (arith, d.0), remove-HasDistinctKeys k m d.1)
]

-- What is found after an insertion or a removal was there before, or is the value inserted.
pub lookup-insert_cases {ℓ} :
    {V : Type ℓ} (j k : String) (v : V) (m : List (String × V)) {w : V}
    → lookup j (insert k v m) ≡ some w
    → ((k ≡ j) × (v ≡ w)) ⊎ (lookup j m ≡ some w)
lookup-insert_cases j k v m h =
    let found = sym (lookup-insert j k v m) ∙ h in
    elim (Bool-cases (k == j)) [
      | inl y ↦ inl ((eq_iff k j).0 y, ground (arith, found, y))
      | inr n ↦ inr (ground (arith, found, n))
    ]

pub lookup-remove-some {ℓ} :
    {V : Type ℓ} (j k : String) (m : List (String × V)) {w : V}
    → lookup j (remove k m) ≡ some w
    → (k ≢ j) × (lookup j m ≡ some w)
lookup-remove-some {V = W} j k m {w = x} h =
    let found = sym (lookup-remove j k m) ∙ h in
    elim (Bool-cases (k == j)) [
      | inl y ↦ absurd (none_some x (ground (arith, found, y)))
      | inr n ↦ (λ e. false_true (sym n ∙ (eq_iff k j).1 e), ground (arith, found, n))
    ]
  where
    none_some : (v : W) → none ≡ some v → ⊥
    none_some v p = cc

    false_true : false ≢ true
    false_true p = cc
