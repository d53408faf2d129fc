-- ===== src/Strip/Again.antt =====
-- Stripping a stripped text. Each language says which states write the byte that they read, and
-- that a turn can be made again on what it wrote.
use xoxo.Base.{
  ℕ, zero, suc, ◌-◌, ◌≤◌, Bool, true, [], ◌∷◌, ◌++◌, Option, none, some, ◌≡◌, refl, ap, ◌∙◌, arith,
  Bytes, length, drop, length-drop,
}
use xoxo.Strip.Scan.{Move, scan, run, Covers}
use xoxo.Strip.Shape.{run-cons}

abbrev pub head : Bytes → Option ℕ
head [] = none
head (c ∷ _) = some c

head-append : (bs cs : Bytes) {c : ℕ} → head bs ≡ some c → head (bs ++ cs) ≡ some c
head-append [] cs h = cc
head-append (b ∷ bs) cs h = h

-- The laws of one turn. A state that `keeps` begins its output with the byte that it reads, so
-- whoever looked at that byte sees it again.
pub record Settles {S : Type 0} (step : S → ℕ → Bytes → Move S) : Type 0 where
  pub covers : (s : S) (c : ℕ) (cs : Bytes) → Covers (c ∷ cs) (step s c cs)
  pub keeps : S → Bool
  pub begins : (s : S) (c : ℕ) (cs : Bytes) → keeps s ≡ true → head (step s c cs).out ≡ some c
  pub again :
      (s : S) (c : ℕ) (cs rest : Bytes)
      → (keeps (step s c cs).next ≡ true → head rest ≡ head (drop ((step s c cs).used - 1) cs))
      → run step s ((step s c cs).out ++ rest)
        ≡ (step s c cs).out ++ run step (step s c cs).next rest

module _ {S : Type 0} {step : S → ℕ → Bytes → Move S} (l : Settles step) where
  head-run : (s : S) (bs : Bytes) → l.keeps s ≡ true → head (run step s bs) ≡ head bs
  head-run s [] k = unfold scan in refl
  head-run s (c ∷ cs) k = rw (run-cons step s c cs) (head-append _ _ (l.begins s c cs k))

  run-run_below :
      (n : ℕ) (s : S) (bs : Bytes) → length bs ≤ n → run step s (run step s bs) ≡ run step s bs
  run-run_below n s [] h = unfold scan in refl
  run-run_below zero s (c ∷ cs) h = absurd (omega arith)
  run-run_below (suc n) s (c ∷ cs) h =
      let m = step s c cs in
      let shorter : length (drop (m.used - 1) cs) ≤ n =
        omega (arith, length-drop {0} (m.used - 1) cs) in
      rw (run-cons step s c cs) (
        l.again s c cs _ (head-run m.next (drop (m.used - 1) cs))
        ∙ ap (λ r. m.out ++ r) (run-run_below n m.next (drop (m.used - 1) cs) shorter))

  pub run-run : (s : S) (bs : Bytes) → run step s (run step s bs) ≡ run step s bs
  run-run s bs = run-run_below (length bs) s bs (omega arith)
