-- ===== src/Todo/Lists.antt =====
-- What a stored todo list is like.
use xoxo.Base.{
  ℕ, ◌+◌, ◌≤◌, true, false, List, [], ◌∷◌, Option, none, some, Result, ok, err, is_empty, trim,
  Bool-cases, inl, inr, ◌↔◌, ◌≡◌, refl, arith,
}
use xoxo.Todo.{
  ToolExecutionTodoTask, ToolExecutionTodoListError, in_progress_count, check_contents, validate,
  write_validated, write, WriteTodoTaskInput, tasks_from, execute,
}

abbrev pub HasNoBlank : List ToolExecutionTodoTask → Type 0
HasNoBlank [] = Unit
HasNoBlank (t ∷ tasks) = (is_empty (trim t.content) ≡ false) × HasNoBlank tasks

-- The ids count up from behind a number.
abbrev pub IsNumbered : ℕ → List ToolExecutionTodoTask → Type 0
IsNumbered n [] = Unit
IsNumbered n (t ∷ tasks) = (t.id ≡ n + 1) × IsNumbered (n + 1) tasks

-- Some task, at most one in progress, none blank, and the ids are 1, 2 and so on.
abbrev pub IsTodoList : List ToolExecutionTodoTask → Type 0
IsTodoList tasks =
    (is_empty tasks ≡ false) × (in_progress_count tasks ≤ 1) × HasNoBlank tasks × IsNumbered 0 tasks

check_contents-HasNoBlank :
    (tasks : List ToolExecutionTodoTask) → check_contents tasks ≡ ok tt → HasNoBlank tasks
unfolding check_contents
check_contents-HasNoBlank [] h = tt
check_contents-HasNoBlank (t ∷ tasks) h = elim (Bool-cases (is_empty (trim t.content))) [
  | inl y ↦ absurd (not_ok (grind (arith, h, y)))
  | inr n ↦ (n, check_contents-HasNoBlank tasks (grind (arith, h, n)))
]
  where
    not_ok : true ≡ false → ⊥
    not_ok p = cc

HasNoBlank-check_contents :
    (tasks : List ToolExecutionTodoTask) → HasNoBlank tasks → check_contents tasks ≡ ok tt
unfolding check_contents
HasNoBlank-check_contents [] h = refl
HasNoBlank-check_contents (t ∷ tasks) h = rw h.0 (HasNoBlank-check_contents tasks h.1)

-- A list is accepted exactly if it has a task, at most one in progress, and none that is blank.
pub validate_iff :
    (tasks : List ToolExecutionTodoTask)
    → (validate tasks ≡ ok tt)
      ↔ ((is_empty tasks ≡ false) × (in_progress_count tasks ≤ 1) × HasNoBlank tasks)
unfolding validate
validate_iff tasks = (
  λ h. (grind (arith, h), grind (arith, h), check_contents-HasNoBlank tasks (grind (arith, h))),
  λ (a, b, c). ground (arith, a, b, HasNoBlank-check_contents tasks c),
)

tasks_from-IsNumbered :
    (n : ℕ) (input : List WriteTodoTaskInput) → IsNumbered n (tasks_from n input)
unfolding tasks_from
tasks_from-IsNumbered n [] = tt
tasks_from-IsNumbered n (t ∷ input) = (refl, tasks_from-IsNumbered (n + 1) input)

-- Some list may be stored, and is a todo list.
abbrev pub IsTodoState : Option (List ToolExecutionTodoTask) → Type 0
IsTodoState none = Unit
IsTodoState (some tasks) = IsTodoList tasks

-- The calls of the tool in a session.
abbrev pub execute_all :
    Option (List ToolExecutionTodoTask)
    → List (List WriteTodoTaskInput)
    → Option (List ToolExecutionTodoTask)
execute_all stored [] = stored
execute_all stored (input ∷ inputs) = execute_all (execute stored input).0 inputs

write_validated-IsTodoState :
    (stored : Option (List ToolExecutionTodoTask)) (input : List WriteTodoTaskInput)
    (r : Result (Unit {0}) ToolExecutionTodoListError)
    → validate (tasks_from 0 input) ≡ r
    → IsTodoState stored
    → IsTodoState (write_validated r stored (tasks_from 0 input)).0
write_validated-IsTodoState stored input (err e) v s = s
write_validated-IsTodoState stored input (ok _) v s =
    let (a, b, c) = (validate_iff (tasks_from 0 input)).0 v in
    (a, b, c, tasks_from-IsNumbered 0 input)

execute-IsTodoState :
    (stored : Option (List ToolExecutionTodoTask)) (input : List WriteTodoTaskInput)
    → IsTodoState stored
    → IsTodoState (execute stored input).0
unfolding execute write
execute-IsTodoState stored input s =
    write_validated-IsTodoState stored input (validate (tasks_from 0 input)) refl s

-- After any calls of the tool in a new session, also refused ones, the list that is stored, if there is one,
-- has a task, at most one in progress, none that is blank, and the ids 1, 2 and so on.
pub execute_all-IsTodoState :
    (inputs : List (List WriteTodoTaskInput)) → IsTodoState (execute_all none inputs)
execute_all-IsTodoState inputs = from none inputs tt
  where
    from :
        (stored : Option (List ToolExecutionTodoTask)) (inputs : List (List WriteTodoTaskInput))
        → IsTodoState stored
        → IsTodoState (execute_all stored inputs)
    from stored [] s = s
    from stored (input ∷ inputs) s =
        from (execute stored input).0 inputs (execute-IsTodoState stored input s)
