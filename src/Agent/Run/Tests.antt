-- ===== src/Agent/Run/Tests.antt =====
-- A turn with a tool call, and the theorems at it.
use xoxo.Base.{some, codes, ◌≡◌, ◌≢◌, refl, ◌+◌}
use xoxo.Agent.{
  read_stream, complete_with, complete, dispatch_tool_call, dispatch_tool_calls, send,
  persist_history_snapshot, push_event,
}
use xoxo.Agent.Run.{
  ended, in_turn, handoff_summary, after_completion, completion_step, completions, start_turn, run,
}
use xoxo.Agent.Run.Samples.{tally, some_services, some_runner, some_commands, some-stops}
use xoxo.Agent.Run.Chains.{IsKept, run-IsKept}
use xoxo.Agent.Run.Turns.{run-ends}
use xoxo.Base.Dict.{lookup}

-- The tool is called, its result goes to the model, and the agent is shut down.
some_end :
    ((run some_services 2 some_commands some_runner).1 ≡ ended)
    × (handoff_summary (run some_services 2 some_commands some_runner).0.history
        ≡ some (codes "One."))
unfolding run completions completion_step after_completion start_turn handoff_summary complete
    complete_with read_stream dispatch_tool_call dispatch_tool_calls send persist_history_snapshot
    push_event tally lookup
some_end = (refl, refl)

run-IsKept_example : IsKept (run some_services 2 some_commands some_runner).0
run-IsKept_example =
    run-IsKept some_services (λ now chat. refl) 2 some_commands some_runner
      (run some_services 2 some_commands some_runner).0
      (run some_services 2 some_commands some_runner).1
      (record { linked = record { chain = tt; head = refl }; saved = refl }) refl

run-ends_example :
    ((run some_services 4 some_commands some_runner).1 ≢ in_turn)
    × (run some_services (4 + 6) some_commands some_runner
        ≡ run some_services 4 some_commands some_runner)
run-ends_example = run-ends some_services 3 6 some_commands some_runner some-stops
