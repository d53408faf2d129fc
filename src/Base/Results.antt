-- ===== src/Base/Results.antt =====
-- Rust's `Result<T, E>`. A do block is a chain of calls with `?` behind them.
use mathlib.Core.Path.{◌≡◌, refl}

pub data Result {ℓ} (T E : Type ℓ) : Type ℓ where
  err : E → Result T E
  ok : T → Result T E

module _ {ℓ} {T U E : Type ℓ} where
  infixl 5 ◌>>=◌
  -- `and_then`.
  abbrev pub ◌>>=◌ : Result T E → (T → Result U E) → Result U E
  r >>= next = elim r [ ok t ↦ next t | err e ↦ err e ]

  -- A chain that succeeds has succeeded at its first call and from there on.
  pub >>=-eq-ok :
      (r : Result T E) (next : T → Result U E) {u : U}
      → (r >>= next) ≡ ok u
      → (t : T) × (r ≡ ok t) × (next t ≡ ok u)
  >>=-eq-ok (err e) next p = absurd (err_ne_ok p)
    where
      err_ne_ok : {u : U} → err e ≡ ok u → ⊥
      err_ne_ok q = cc
  >>=-eq-ok (ok t) next p = (t, refl, p)
