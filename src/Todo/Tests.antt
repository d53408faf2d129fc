-- ===== src/Todo/Tests.antt =====
-- Calls of write_todo_list, and the theorems at them.
use xoxo.Base.{◌≤◌, false, [], ◌∷◌, none, some, codes, ok, err, trim, ◌↔◌, ◌≡◌, refl}
use xoxo.Todo.{
  ToolExecutionTodoTask, high, in_progress, created, multiple_in_progress_tasks, in_progress_count,
  check_contents, validate, write, WriteTodoTaskInput, tasks_from, execute,
}
use xoxo.Todo.Lists.{HasNoBlank, IsTodoState, execute_all, validate_iff, execute_all-IsTodoState}

abbrev look_input : WriteTodoTaskInput
look_input = record { content = codes " look "; priority = high; state = some in_progress }

abbrev look_task : ToolExecutionTodoTask
look_task = record { id = 1; content = codes "look"; priority = high; state = in_progress }

writes_one : execute none (look_input ∷ []) ≡ (some (look_task ∷ []), ok created)
unfolding execute write validate tasks_from in_progress_count check_contents trim
writes_one = refl

refuses_two :
    (execute (some (look_task ∷ [])) (look_input ∷ look_input ∷ []))
    ≡ (some (look_task ∷ []), err (multiple_in_progress_tasks 2))
unfolding execute write validate tasks_from in_progress_count check_contents trim
refuses_two = refl

validate_iff_example :
    (validate (look_task ∷ []) ≡ ok tt)
    ↔ ((false ≡ false) × (in_progress_count (look_task ∷ []) ≤ 1) × HasNoBlank (look_task ∷ []))
validate_iff_example = validate_iff (look_task ∷ [])

execute_all-IsTodoState_example :
    IsTodoState (execute_all none ((look_input ∷ []) ∷ (look_input ∷ look_input ∷ []) ∷ []))
execute_all-IsTodoState_example =
    execute_all-IsTodoState ((look_input ∷ []) ∷ (look_input ∷ look_input ∷ []) ∷ [])
