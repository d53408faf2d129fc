-- ===== src/Todo.antt =====
-- The todo list of a session: crates/lib/xoxo-core/src/tooling/execution_context/todo_list.rs, and the tool that
-- writes it, crates/agents/agentix/src/tools/write_todo_list.rs. The id `task_n` is its number.
pub mod Lists
mod Tests
use xoxo.Base.{
  ℕ, suc, ◌+◌, ◌≤◌, Bool, true, false, List, [], ◌∷◌, Option, none, some, Bytes, Result, ok, err,
  ◌>>=◌, is_empty, leb, trim, if◌then◌else◌, Bool-cases, inl, inr, ◌↔◌, ◌≡◌, ◌≢◌, refl, sym, ap,
  ◌∙◌, arith,
}

pub data ToolExecutionTodoState : Type 0 where
  pending in_progress completed cancelled : ToolExecutionTodoState

pub data ToolExecutionTodoPriority : Type 0 where
  high medium low : ToolExecutionTodoPriority

pub record ToolExecutionTodoTask : Type 0 where
  pub id : ℕ
  pub content : Bytes
  pub priority : ToolExecutionTodoPriority
  pub state : ToolExecutionTodoState

pub data ToolExecutionTodoListError : Type 0 where
  empty_list : ToolExecutionTodoListError
  blank_task_content : ℕ → ToolExecutionTodoListError
  multiple_in_progress_tasks : ℕ → ToolExecutionTodoListError

pub data ToolExecutionTodoListWriteAction : Type 0 where
  created updated : ToolExecutionTodoListWriteAction

abbrev pub is_in_progress : ToolExecutionTodoState → Bool
is_in_progress in_progress = true
is_in_progress pending = false
is_in_progress completed = false
is_in_progress cancelled = false

unfoldable pub in_progress_count : List ToolExecutionTodoTask → ℕ
in_progress_count [] = 0
in_progress_count (t ∷ tasks) =
    if is_in_progress t.state then suc (in_progress_count tasks) else in_progress_count tasks

-- The loop over the tasks.
unfoldable pub check_contents :
    List ToolExecutionTodoTask → Result (Unit {0}) ToolExecutionTodoListError
check_contents [] = ok tt
check_contents (t ∷ tasks) =
    if is_empty (trim t.content) then err (blank_task_content t.id) else check_contents tasks

unfoldable pub validate : List ToolExecutionTodoTask → Result (Unit {0}) ToolExecutionTodoListError
unfolding in_progress_count check_contents
validate tasks =
    if is_empty tasks
    then err empty_list
    else if leb 2 (in_progress_count tasks)
    then err (multiple_in_progress_tasks (in_progress_count tasks))
    else check_contents tasks

abbrev pub action_on : Option (List ToolExecutionTodoTask) → ToolExecutionTodoListWriteAction
action_on none = created
action_on (some _) = updated

abbrev pub write_validated :
    Result (Unit {0}) ToolExecutionTodoListError
    → Option (List ToolExecutionTodoTask)
    → List ToolExecutionTodoTask
    → Option (List ToolExecutionTodoTask)
      × Result ToolExecutionTodoListWriteAction ToolExecutionTodoListError
write_validated (err e) stored tasks = (stored, err e)
write_validated (ok _) stored tasks = (some tasks, ok (action_on stored))

-- The state afterwards, and the answer.
unfoldable pub write :
    Option (List ToolExecutionTodoTask)
    → List ToolExecutionTodoTask
    → Option (List ToolExecutionTodoTask)
      × Result ToolExecutionTodoListWriteAction ToolExecutionTodoListError
unfolding validate
write stored tasks = write_validated (validate tasks) stored tasks

pub record WriteTodoTaskInput : Type 0 where
  pub content : Bytes
  pub priority : ToolExecutionTodoPriority
  -- Absent in the input, it is `pending`.
  pub state : Option ToolExecutionTodoState

abbrev pub state_or_default : Option ToolExecutionTodoState → ToolExecutionTodoState
state_or_default none = pending
state_or_default (some s) = s

unfoldable pub tasks_from : ℕ → List WriteTodoTaskInput → List ToolExecutionTodoTask
tasks_from n [] = []
tasks_from n (t ∷ input) =
    record {
      id = n + 1;
      content = trim t.content;
      priority = t.priority;
      state = state_or_default t.state;
    }
    ∷ tasks_from (n + 1) input

-- `execute` of the tool, in an execution context.
unfoldable pub execute :
    Option (List ToolExecutionTodoTask)
    → List WriteTodoTaskInput
    → Option (List ToolExecutionTodoTask)
      × Result ToolExecutionTodoListWriteAction ToolExecutionTodoListError
unfolding tasks_from write
execute stored input = write stored (tasks_from 0 input)
