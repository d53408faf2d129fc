-- ===== src/Tui/Tests.antt =====
-- A terminal that follows an agent with a tool.
use xoxo.Base.{◌≡◌, refl, length, ok, some}
use xoxo.Agent.{
  read_stream, complete_with, complete, dispatch_tool_call, dispatch_tool_calls, send,
  persist_history_snapshot, push_event,
}
use xoxo.Agent.Run.{after_completion, completion_step, completions, start_turn, run}
use xoxo.Agent.Run.Samples.{
  tally, tally-distinct, new_chat, some_services, some_runner, some_commands, some-asks,
}
use xoxo.Base.Dict.{lookup}
use xoxo.Tui.{
  has_id, tool_event_ids, history_of, history_from_chat, new_app, show_chat, Storage,
  load_chat_session,
}
use xoxo.Tui.Follow.{conversation, follow}
use xoxo.Tui.Session.{run-conversation}

-- The user's message, the agent's, the two events of the tool call and the agent's answer.
five_shown :
    length (history_from_chat (run some_services 2 some_commands some_runner).0.history) ≡ 5
unfolding run completions completion_step after_completion start_turn complete complete_with
    read_stream dispatch_tool_call dispatch_tool_calls send persist_history_snapshot push_event
    tally lookup history_from_chat history_of tool_event_ids has_id
five_shown = refl

-- Storage with what the run has left.
abbrev run_storage : Storage
run_storage = record {
  load_chat = λ id. ok (run some_services 2 some_commands some_runner).0.stored;
  set_last_used_chat_id = λ id. ok tt;
}

run-conversation_example :
    let end = run some_services 2 some_commands some_runner in
    conversation (follow end.0.sent (show_chat new_chat new_app)).history
    ≡ (load_chat_session (some run_storage) new_chat.id new_app).0.history
unfolding tool_event_ids has_id
run-conversation_example =
    let end = run some_services 2 some_commands some_runner in
    run-conversation some_services 2 some_commands some_runner end.0 end.1 new_app new_app
      end.0.sent run_storage tally-distinct some-asks (λ now chat. refl)
      (λ j h. record { no_tool_call = refl; no_parent = refl; not_last = refl }) refl refl refl refl
      refl refl refl
