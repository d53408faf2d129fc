-- ===== src/Strip/Shape.antt =====
-- What the loop of a stripper keeps when each of its turns does.
use xoxo.Base.{
  ℕ, Bool, true, ◌&&◌, ltb, zero, suc, ◌-◌, ◌+◌, ◌≤◌, ◌<◌, inr, [], ◌∷◌, ◌++◌, ◌≡◌, inl, refl,
  arith, Bytes, length, take, drop, take-append-drop, ◌==◌, if◌then◌else◌,
}
use xoxo.Strip.Scan.{Move, scan, run, Blanked, SameShape, Covers}

pub SameShape-append :
    (xs bs cs ds : Bytes) → SameShape xs cs → SameShape bs ds → SameShape (xs ++ bs) (cs ++ ds)
SameShape-append [] bs [] ds h k = k
SameShape-append (a ∷ xs) bs (c ∷ cs) ds h k = (h.0, SameShape-append xs bs cs ds h.1 k)
SameShape-append [] bs (_ ∷ _) ds h k = absurd h
SameShape-append (_ ∷ _) bs [] ds h k = absurd h

pub SameShape-refl : (bs : Bytes) → SameShape bs bs
SameShape-refl [] = tt
SameShape-refl (b ∷ bs) = (inl refl, SameShape-refl bs)

-- Each byte is a character of its own.
abbrev pub IsAscii : Bytes → Type 0
IsAscii [] = Unit {0}
IsAscii (b ∷ bs) = (b < 128) × IsAscii bs

abbrev pub is_ascii : Bytes → Bool
is_ascii [] = true
is_ascii (b ∷ bs) = ltb b 128 && is_ascii bs

pub IsAscii-is_ascii : (bs : Bytes) → is_ascii bs ≡ true → IsAscii bs
IsAscii-is_ascii [] h = tt
IsAscii-is_ascii (b ∷ bs) h = (ground (arith, h), IsAscii-is_ascii bs (ground (arith, h)))

pub IsAscii-append : (xs ys : Bytes) → IsAscii (xs ++ ys) → IsAscii xs × IsAscii ys
IsAscii-append [] ys h = (tt, h)
IsAscii-append (x ∷ xs) ys h = let (a, b) = IsAscii-append xs ys h.1 in ((h.0, a), b)

-- What has the shape of an ASCII text is one.
pub IsAscii-SameShape : (bs cs : Bytes) → SameShape bs cs → IsAscii bs → IsAscii cs
IsAscii-SameShape [] [] h a = tt
IsAscii-SameShape (b ∷ bs) (c ∷ cs) h a = (kept h.0, IsAscii-SameShape bs cs h.1 a.1)
  where
    kept : Blanked b c → c < 128
    kept (inl e) = omega (arith, e, a.0)
    kept (inr (e, n)) = omega (arith, e)
IsAscii-SameShape [] (_ ∷ _) h a = absurd h
IsAscii-SameShape (_ ∷ _) [] h a = absurd h

-- Decoding, or encoding, leaves an ASCII text as it is.
abbrev pub KeepsAscii : (Bytes → Bytes) → Type 0
KeepsAscii f = (bs : Bytes) → IsAscii bs → f bs ≡ bs

pub length-SameShape : (bs cs : Bytes) → SameShape bs cs → length cs ≡ length bs
length-SameShape [] [] h = refl
length-SameShape (b ∷ bs) (c ∷ cs) h = omega (arith, length-SameShape bs cs h.1)
length-SameShape [] (_ ∷ _) h = absurd h
length-SameShape (_ ∷ _) [] h = absurd h

-- The lines of a text, counted by their ends.
abbrev pub newlines : Bytes → ℕ
newlines [] = 0
newlines (c ∷ cs) = (if c == b'\n' then 1 else 0) + newlines cs

pub newlines-SameShape : (bs cs : Bytes) → SameShape bs cs → newlines cs ≡ newlines bs
newlines-SameShape [] [] h = refl
newlines-SameShape (b ∷ bs) (c ∷ cs) h = ground (arith, newlines-SameShape bs cs h.1)
newlines-SameShape [] (_ ∷ _) h = absurd h
newlines-SameShape (_ ∷ _) [] h = absurd h

module _ {S : Type 0} (step : S → ℕ → Bytes → Move S) where
  scan-drop : (s : S) (k : ℕ) (bs : Bytes) → scan step s k bs ≡ run step s (drop k bs)
  unfolding scan
  scan-drop s zero bs = refl
  scan-drop s (suc k) [] = refl
  scan-drop s (suc k) (c ∷ cs) = scan-drop s k cs

  -- One turn of the loop.
  pub run-cons :
      (s : S) (c : ℕ) (cs : Bytes)
      → run step s (c ∷ cs)
        ≡ (step s c cs).out ++ run step (step s c cs).next (drop ((step s c cs).used - 1) cs)
  unfolding scan
  run-cons s c cs = rw (scan-drop _ _ cs)

  Covers-append :
      (m : Move S) (c : ℕ) (cs rest : Bytes)
      → Covers (c ∷ cs) m
      → SameShape (drop (m.used - 1) cs) rest
      → SameShape (c ∷ cs) (m.out ++ rest)
  Covers-append m c cs rest h k = go m.used m.out refl h.0 h.2 k
    where
      go :
          (u : ℕ) (out : Bytes)
          → m.used ≡ u
          → 1 ≤ u
          → SameShape (take u (c ∷ cs)) out
          → SameShape (drop (u - 1) cs) rest
          → SameShape (c ∷ cs) (out ++ rest)
      go zero out e p q r = absurd (omega arith)
      go (suc u) out e p q r =
          let e' : suc u - 1 ≡ u = omega arith in
          rw (← take-append-drop u cs)
            (SameShape-append (c ∷ take u cs) (drop u cs) out rest q (rw e' at r))

  -- Over texts with a property that the rest of a text shares.
  module _ (P : Bytes → Type 0) (tail : (c : ℕ) (cs : Bytes) → P (c ∷ cs) → P cs)
      (covers : (s : S) (c : ℕ) (cs : Bytes) → P (c ∷ cs) → Covers (c ∷ cs) (step s c cs)) where
    scan-SameShape : (s : S) (k : ℕ) (bs : Bytes) → P bs → SameShape (drop k bs) (scan step s k bs)
    unfolding scan
    scan-SameShape s zero [] h = tt
    scan-SameShape s (suc k) [] h = tt
    scan-SameShape s (suc k) (c ∷ cs) h = scan-SameShape s k cs (tail c cs h)
    scan-SameShape s zero (c ∷ cs) h =
        Covers-append (step s c cs) c cs _ (covers s c cs h)
          (scan-SameShape (step s c cs).next ((step s c cs).used - 1) cs (tail c cs h))

    pub run-SameShape_where : (s : S) (bs : Bytes) → P bs → SameShape bs (run step s bs)
    run-SameShape_where s bs h = scan-SameShape s 0 bs h

  -- The loop reaches the end of the file, and keeps its shape.
  pub run-SameShape :
      ((s : S) (c : ℕ) (cs : Bytes) → Covers (c ∷ cs) (step s c cs))
      → (s : S) (bs : Bytes) → SameShape bs (run step s bs)
  run-SameShape covers s bs =
      run-SameShape_where (λ _. Unit {0}) (λ c cs h. tt) (λ s' c cs h. covers s' c cs) s bs tt
