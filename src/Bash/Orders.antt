-- ===== src/Bash/Orders.antt =====
-- The result of a command does not depend on the order in which its pipes are read, where nothing is lost.
use xoxo.Base.{
  ℕ, suc, Bool, true, false, ◌||◌, List, [], ◌∷◌, ◌++◌, Option, ◌≡◌, refl, inl, inr, Bool-cases,
  Bytes, ℤ, if◌then◌else◌,
}
use xoxo.Bash.{
  CommandOutput, Reading, is_stdout_sentinel, is_stderr_sentinel, Turn, stdout_ready, stderr_ready,
  lose_stdout, lose_stderr, exit_code_of,
}

-- The lines before the first sentinel, joined; whether there is one; how many lines it takes to it.
abbrev pub before_sentinel : (Bytes → Bool) → List Bytes → Bytes
before_sentinel is [] = []
before_sentinel is (l ∷ ls) = if is l then [] else l ++ before_sentinel is ls

abbrev pub has_sentinel : (Bytes → Bool) → List Bytes → Bool
has_sentinel is [] = false
has_sentinel is (l ∷ ls) = is l || has_sentinel is ls

abbrev pub to_sentinel : (Bytes → Bool) → List Bytes → ℕ
to_sentinel is [] = 0
to_sentinel is (l ∷ ls) = if is l then 1 else suc (to_sentinel is ls)

abbrev pub stdout_turns : List Turn → ℕ
stdout_turns [] = 0
stdout_turns (stdout_ready _ ∷ ts) = suc (stdout_turns ts)
stdout_turns (stderr_ready _ ∷ ts) = stdout_turns ts

abbrev pub stderr_turns : List Turn → ℕ
stderr_turns [] = 0
stderr_turns (stdout_ready _ ∷ ts) = stderr_turns ts
stderr_turns (stderr_ready _ ∷ ts) = suc (stderr_turns ts)

-- No read is dropped that has taken a part of its line.
abbrev pub LosesNothing : List Turn → Type 0
LosesNothing [] = Unit {0}
LosesNothing (stdout_ready lost ∷ ts) = (lost ≡ 0) × LosesNothing ts
LosesNothing (stderr_ready lost ∷ ts) = (lost ≡ 0) × LosesNothing ts

pub lose_stderr-zero : (lost : ℕ) (r : Reading) → lost ≡ 0 → lose_stderr lost r ≡ r
unfolding lose_stderr
lose_stderr-zero lost r e =
    rw e
      (elim (Bool-cases (r.stdout_done || r.stderr_done)) [ inl y ↦ rw y refl | inr n ↦ rw n refl ])

pub lose_stdout-zero : (lost : ℕ) (r : Reading) → lost ≡ 0 → lose_stdout lost r ≡ r
unfolding lose_stdout
lose_stdout-zero lost r e =
    rw e
      (elim (Bool-cases (r.stdout_done || r.stderr_done)) [ inl y ↦ rw y refl | inr n ↦ rw n refl ])

module _ (parse : Bytes → Option ℤ) where
  -- The exit code that the first sentinel gives.
  abbrev pub code_at : ℤ → List Bytes → ℤ
  code_at before [] = before
  code_at before (l ∷ ls) =
      if is_stdout_sentinel l then exit_code_of parse l before else code_at before ls

  -- What a reading is to end with.
  record Promise (r : Reading) (out err : Bytes) (code : ℤ) : Type 0 where
    out_text :
        (if r.stdout_done
          then r.stdout_buf
          else r.stdout_buf ++ before_sentinel is_stdout_sentinel r.out_pipe)
        ≡ out
    err_text :
        (if r.stderr_done
          then r.stderr_buf
          else r.stderr_buf ++ before_sentinel is_stderr_sentinel r.err_pipe)
        ≡ err
    code_text : (if r.stdout_done then r.exit_code else code_at r.exit_code r.out_pipe) ≡ code
    out_ends : (r.stdout_done || has_sentinel is_stdout_sentinel r.out_pipe) ≡ true
    err_ends : (r.stderr_done || has_sentinel is_stderr_sentinel r.err_pipe) ≡ true

  abbrev left_out : Reading → ℕ
  left_out r = if r.stdout_done then 0 else to_sentinel is_stdout_sentinel r.out_pipe

  abbrev left_err : Reading → ℕ
  left_err r = if r.stderr_done then 0 else to_sentinel is_stderr_sentinel r.err_pipe

  abbrev finished : Bytes → Bytes → ℤ → CommandOutput
  finished out err code = record { stdout = out; stderr = err; exit_code = code; timed_out = false }
