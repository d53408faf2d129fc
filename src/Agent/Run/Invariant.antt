-- ===== src/Agent/Run/Invariant.antt =====
-- What a push, a send and a new id keep, the whole run of an agent keeps.
use xoxo.Base.{
  ℕ, zero, suc, Bool, true, false, List, [], ◌∷◌, Option, none, some, Bytes, Result, ok, err, ◌≡◌,
  refl,
}
use xoxo.Chat.{
  CostObservability, ChatTextMessage, ChatEventBody, LlmFinishReason, stop, tool_calls_wanted,
  LlmToolCall, LlmCompletionResponse, LlmStreamEvent, streamed_text, streamed_thinking, final,
  BusPayload, Command, submit_user_message, send_user_message, shutdown,
}
use xoxo.Agent.{
  Services, AgentRunner, send, push_event, read_stream, complete_with, complete, dispatch_tool_call,
  dispatch_tool_calls,
}
use xoxo.Agent.Run.{
  Stage, after_completion, completion_step, continue_turn, completions, start_turn, next_command,
  run,
}

module _ (s : Services) (P : AgentRunner → Type 0)
    (on_send : (p : BusPayload) (r : AgentRunner) → P r → P (send p r))
    (on_push : (body : ChatEventBody) (o : Option CostObservability) (r : AgentRunner)
      → P r
      → P (push_event s body o r))
    (on_id : (r : AgentRunner) → P r → P (record r { ids_made = suc r.ids_made })) where
  read_stream-keeps :
      (events : List (Result LlmStreamEvent Bytes)) (response : Option LlmCompletionResponse)
      (r : AgentRunner)
      → P r
      → P (read_stream events response r).0
  unfolding read_stream
  read_stream-keeps [] response r p = p
  read_stream-keeps (ok (streamed_text delta) ∷ rest) response r p =
      read_stream-keeps rest response _ (on_send _ r p)
  read_stream-keeps (ok (streamed_thinking delta) ∷ rest) response r p =
      read_stream-keeps rest response _ (on_send _ r p)
  read_stream-keeps (ok (final found) ∷ rest) response r p = read_stream-keeps rest (some found) r p
  read_stream-keeps (err text ∷ rest) response r p = p

  complete_with-keeps :
      (o : Option (ℕ → List ChatTextMessage → List (Result LlmStreamEvent Bytes))) (r : AgentRunner)
      → P r
      → P (complete_with o r).0
  unfolding complete_with
  complete_with-keeps none r p = p
  complete_with-keeps (some stream) r p = read_stream-keeps _ none r p

  pub complete-keeps : (r : AgentRunner) → P r → P (complete s r).0
  unfolding complete
  complete-keeps r p = complete_with-keeps s.complete_streaming r p

  dispatch_tool_call-keeps :
      (call : LlmToolCall) (r : AgentRunner) → P r → P (dispatch_tool_call s call r).0
  unfolding dispatch_tool_call
  dispatch_tool_call-keeps call r p =
      on_send _ _ (on_push _ _ _ (on_send _ _ (on_push _ _ _ (on_id r p))))

  pub dispatch_tool_calls-keeps :
      (calls : List LlmToolCall) (rendered : Bytes) (r : AgentRunner)
      → P r
      → P (dispatch_tool_calls s calls rendered r).0
  unfolding dispatch_tool_calls
  dispatch_tool_calls-keeps [] rendered r p = p
  dispatch_tool_calls-keeps (call ∷ calls) rendered r p =
      dispatch_tool_calls-keeps calls _ _ (dispatch_tool_call-keeps call r p)

  after_completion-keeps :
      (completion : LlmCompletionResponse) (r : AgentRunner) {wanted : LlmFinishReason}
      → completion.finish_reason ≡ wanted
      → P r
      → P (after_completion s completion r).0
  unfolding after_completion
  after_completion-keeps completion r {wanted = stop} e p =
      rw e (on_send _ _ (on_send _ _ (on_push _ _ _ p)))
  after_completion-keeps completion r {wanted = tool_calls_wanted} e p = rw e (
      on_push _ _ _
        (dispatch_tool_calls-keeps completion.tool_calls [] _ (on_send _ _ (on_push _ _ _ p))))

  pub completion_step-keeps : (r : AgentRunner) → P r → P (completion_step s r).0
  unfolding completion_step
  completion_step-keeps r p =
      after_completion-keeps (complete s r).1 (complete s r).0 refl (complete-keeps r p)

  continue_turn-keeps :
      (rest : AgentRunner → AgentRunner × Bool) (step : AgentRunner × Bool)
      → ((r : AgentRunner) → P r → P (rest r).0)
      → P step.0
      → P (continue_turn s rest step).0
  continue_turn-keeps rest (r, true) next p = p
  continue_turn-keeps rest (r, false) next p = next r p

  completions-keeps : (fuel : ℕ) (r : AgentRunner) → P r → P (completions s fuel r).0
  unfolding completions
  completions-keeps zero r p = p
  completions-keeps (suc fuel) r p =
      continue_turn-keeps (completions s fuel) (completion_step s r) (completions-keeps fuel)
        (completion_step-keeps r p)

  next_command-keeps :
      (rest : AgentRunner → AgentRunner × Stage) (turn : AgentRunner × Bool)
      → ((r : AgentRunner) → P r → P (rest r).0)
      → P turn.0
      → P (next_command s rest turn).0
  next_command-keeps rest (r, true) next p = next r p
  next_command-keeps rest (r, false) next p = p

  start_turn-keeps : (m : ChatTextMessage) (r : AgentRunner) → P r → P (start_turn s m r)
  unfolding start_turn
  start_turn-keeps m r p = on_send _ _ (on_send _ _ (on_push _ _ _ p))

  pub run-keeps :
      (fuel : ℕ) (commands : List Command) (r : AgentRunner) → P r → P (run s fuel commands r).0
  unfolding run
  run-keeps fuel [] r p = p
  run-keeps fuel (submit_user_message _ _ ∷ commands) r p = run-keeps fuel commands r p
  run-keeps fuel (send_user_message _ m ∷ commands) r p =
      next_command-keeps (run s fuel commands) (completions s fuel (start_turn s m r))
        (run-keeps fuel commands)
        (completions-keeps fuel (start_turn s m r) (start_turn-keeps m r p))
  run-keeps fuel (shutdown _ ∷ commands) r p = on_send _ _ p
