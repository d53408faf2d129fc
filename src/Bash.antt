-- ===== src/Bash.antt =====
-- crates/lib/xoxo-core/src/tooling/execution_context/bash_session.rs: `run_command`, from the lines
-- that bash has written to its two pipes. `tokio::select!` takes them in any order: the order is a
-- list of turns, and the timeout falls behind its last one. `str::parse` for `i32` is a parameter.
pub mod Orders
pub mod Silence
mod Tests
use xoxo.Base.{
  ℕ, zero, suc, ◌+◌, ◌-◌, leb, length, drop, Bool, true, false, not, ◌&&◌, ◌||◌, List, [], ◌∷◌,
  ◌++◌, Option, none, some, Bytes, codes, ℤ, pos, negsuc, trim, strip_prefix, strip_suffix,
  has_prefix, same_text, if◌then◌else◌,
}

pub record CommandOutput : Type 0 where
  pub stdout : Bytes
  pub stderr : Bytes
  pub exit_code : ℤ
  pub timed_out : Bool

abbrev pub stdout_sentinel_prefix : Bytes
stdout_sentinel_prefix = codes "--DONE--"

abbrev pub stderr_sentinel : Bytes
stderr_sentinel = codes "--DONE--"

-- The lines in the pipes that are still to be read, and the variables of the loop.
pub record Reading : Type 0 where
  pub out_pipe : List Bytes
  pub err_pipe : List Bytes
  pub stdout_buf : Bytes
  pub stderr_buf : Bytes
  pub exit_code : ℤ
  pub stdout_done : Bool
  pub stderr_done : Bool

abbrev pub start_reading : List Bytes → List Bytes → Reading
start_reading outs errs = record {
  out_pipe = outs;
  err_pipe = errs;
  stdout_buf = [];
  stderr_buf = [];
  exit_code = pos 0;
  stdout_done = false;
  stderr_done = false;
}

-- `stdout_line.starts_with(STDOUT_SENTINEL_PREFIX)`.
unfoldable pub is_stdout_sentinel : Bytes → Bool
is_stdout_sentinel line = has_prefix stdout_sentinel_prefix line

unfoldable pub is_stderr_sentinel : Bytes → Bool
is_stderr_sentinel line = same_text (trim line) stderr_sentinel

-- Which pipe has a line ready for `select!`. `read_line` of the other pipe is dropped then, and what it has
-- taken of an unfinished line is lost, `lost` bytes of the front of that line.
pub data Turn : Type 0 where
  stdout_ready stderr_ready : (lost : ℕ) → Turn

-- The front of the next line; it is not the whole line, which would be ready.
abbrev pub lose : ℕ → List Bytes → List Bytes
lose zero pipe = pipe
lose (suc lost) [] = []
lose (suc lost) (line ∷ rest) =
    drop (if leb (suc lost) (length line - 1) then suc lost else length line - 1) line ∷ rest

-- While both branches are open.
unfoldable pub lose_stderr : ℕ → Reading → Reading
lose_stderr lost r =
    if r.stdout_done || r.stderr_done then r else record r { err_pipe = lose lost r.err_pipe }

unfoldable pub lose_stdout : ℕ → Reading → Reading
lose_stdout lost r =
    if r.stdout_done || r.stderr_done then r else record r { out_pipe = lose lost r.out_pipe }

module _ (parse : Bytes → Option ℤ) where
  abbrev pub parse_or_zero : Bytes → ℤ
  parse_or_zero inner = elim (parse inner) [ none ↦ pos 0 | some code ↦ code ]

  -- `trimmed.strip_prefix(…).and_then(|s| s.strip_suffix("--"))`.
  abbrev pub inner_of : Option Bytes → Option Bytes
  inner_of none = none
  inner_of (some s) = strip_suffix (codes "--") s

  -- The exit code behind a sentinel; `before` is the one so far.
  unfoldable pub exit_code_of : Bytes → ℤ → ℤ
  exit_code_of line before = elim (inner_of (strip_prefix stdout_sentinel_prefix (trim line))) [
    | none ↦ before
    | some inner ↦ parse_or_zero inner
  ]

  -- The branch of `select!` that reads a line of stdout.
  unfoldable pub read_stdout : Bytes → Reading → Reading
  read_stdout line r =
      if is_stdout_sentinel line
      then record r { exit_code = exit_code_of line r.exit_code; stdout_done = true }
      else record r { stdout_buf = r.stdout_buf ++ line }

  unfoldable pub read_stderr : Bytes → Reading → Reading
  read_stderr line r =
      if is_stderr_sentinel line
      then record r { stderr_done = true }
      else record r { stderr_buf = r.stderr_buf ++ line }

  -- A turn for stdout, if the branch is open and a line is there; at the end of the stream
  -- `read_line` gives the empty line, which changes nothing.
  unfoldable pub turn_stdout : Reading → List Bytes → Reading
  unfolding read_stdout
  turn_stdout r [] = r
  turn_stdout r (line ∷ rest) =
      if r.stdout_done then r else read_stdout line (record r { out_pipe = rest })

  unfoldable pub turn_stderr : Reading → List Bytes → Reading
  unfolding read_stderr
  turn_stderr r [] = r
  turn_stderr r (line ∷ rest) =
      if r.stderr_done then r else read_stderr line (record r { err_pipe = rest })

  unfoldable pub turn : Turn → Reading → Reading
  unfolding turn_stdout turn_stderr lose_stdout lose_stderr
  turn (stdout_ready lost) r = turn_stdout (lose_stderr lost r) r.out_pipe
  turn (stderr_ready lost) r = turn_stderr (lose_stdout lost r) r.err_pipe

  -- `while !stdout_done || !stderr_done`: a turn behind the last does nothing.
  unfoldable pub read_loop : List Turn → Reading → Reading
  read_loop [] r = r
  read_loop (t ∷ turns) r =
      let next = read_loop turns (turn t r) in if r.stdout_done && r.stderr_done then r else next

  -- What the caller gets, and what stays in the pipes for the next command.
  unfoldable pub output_of : Reading → CommandOutput
  output_of r =
      let done = r.stdout_done && r.stderr_done in
      record {
        stdout = r.stdout_buf;
        stderr = r.stderr_buf;
        exit_code = if done then r.exit_code else negsuc 0;
        timed_out = not done;
      }

  unfoldable pub run_command : List Turn → List Bytes → List Bytes → CommandOutput
  unfolding read_loop output_of
  run_command turns outs errs = output_of (read_loop turns (start_reading outs errs))
