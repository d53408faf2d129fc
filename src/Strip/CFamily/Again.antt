-- ===== src/Strip/CFamily/Again.antt =====
-- Stripping the C family twice.
use xoxo.Base.{ℕ, ◌-◌, Bool, true, false, some, ◌≡◌, ◌++◌, arith, Bytes, [], ◌∷◌, drop}
use xoxo.Strip.Scan.{scan, run}
use xoxo.Strip.Again.{head, Settles, run-run}
use xoxo.Strip.CFamily.{
  State, code, raw_string, line_comment, block_comment, step, step-Covers, strip_c_family_noise,
}

abbrev keeps : State → Bool
keeps line_comment = false
keeps block_comment = false
keeps _ = true

begins : (s : State) (c : ℕ) (cs : Bytes) → keeps s ≡ true → head (step s c cs).out ≡ some c
unfolding step
begins raw_string c [] k = ground arith
begins _ c cs k = ground arith

again :
    (s : State) (c : ℕ) (cs rest : Bytes)
    → (keeps (step s c cs).next ≡ true → head rest ≡ head (drop ((step s c cs).used - 1) cs))
    → run step s ((step s c cs).out ++ rest) ≡ (step s c cs).out ++ run step (step s c cs).next rest
unfolding step scan
again code c [] rest h = ground arith
again code c (d ∷ cs) [] h = ground arith
again code c (d ∷ cs) (e ∷ rest) h = ground arith
again _ c cs rest h = ground arith

Settles-step : Settles step
Settles-step = record { covers = step-Covers; keeps = keeps; begins = begins; again = again }

-- A second stripping changes nothing.
pub strip_c_family_noise_idem :
    (content : Bytes)
    → strip_c_family_noise (strip_c_family_noise content) ≡ strip_c_family_noise content
unfolding strip_c_family_noise
strip_c_family_noise_idem = run-run Settles-step code
