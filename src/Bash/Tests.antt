-- ===== src/Bash/Tests.antt =====
-- Runs of a command, and the theorems at them.
use xoxo.Base.{
  ◌-◌, false, List, [], ◌∷◌, Option, none, some, ◌≡◌, refl, Bytes, codes, ℤ, pos, leb, ◌&&◌, trim,
  strip_prefix, strip_suffix, has_prefix, same_text, if◌then◌else◌,
}
use xoxo.Bash.{
  is_stdout_sentinel, is_stderr_sentinel, Turn, stdout_ready, stderr_ready, exit_code_of, turn,
  run_command,
}

-- A code of one digit.
abbrev digit : Bytes → Option ℤ
digit (c ∷ []) = if leb b'0' c && leb c b'9' then some (pos (c - b'0')) else none
digit _ = none

abbrev some_outs : List Bytes
some_outs = codes "hello\n" ∷ codes "--DONE--3--\n" ∷ []

abbrev some_errs : List Bytes
some_errs = codes "--DONE--\n" ∷ []

abbrev some_turns : List Turn
some_turns = stdout_ready 0 ∷ stderr_ready 0 ∷ stdout_ready 0 ∷ []

ends_with_code :
    run_command digit some_turns some_outs some_errs
    ≡ record { stdout = codes "hello\n"; stderr = []; exit_code = pos 3; timed_out = false }
unfolding run_command turn is_stdout_sentinel is_stderr_sentinel exit_code_of trim strip_prefix
    strip_suffix has_prefix same_text
ends_with_code = refl

-- A part of the line of stdout is taken when stderr has a line: it is lost.
lost_part :
    run_command digit
      (stderr_ready 3 ∷ stdout_ready 0 ∷ stdout_ready 0 ∷ stderr_ready 0 ∷ [])
      some_outs
      (codes "x\n" ∷ codes "--DONE--\n" ∷ [])
    ≡ record { stdout = codes "lo\n"; stderr = codes "x\n"; exit_code = pos 3; timed_out = false }
unfolding run_command turn is_stdout_sentinel is_stderr_sentinel exit_code_of trim strip_prefix
    strip_suffix has_prefix same_text
lost_part = refl
