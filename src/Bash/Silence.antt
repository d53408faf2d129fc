-- ===== src/Bash/Silence.antt =====
-- A command whose output hides the sentinel runs into the timeout.
use xoxo.Base.{false, Option, ◌≡◌, Bytes, ℤ}
use xoxo.Bash.{Reading, is_stdout_sentinel}
use xoxo.Bash.Orders.{has_sentinel}

module _ (parse : Bytes → Option ℤ) where
  abbrev IsWaiting : Reading → Type 0
  IsWaiting r = (r.stdout_done ≡ false) × (has_sentinel is_stdout_sentinel r.out_pipe ≡ false)
