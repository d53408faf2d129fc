-- ===== src/Agent/Run.antt =====
-- `run` of crates/lib/xoxo-core/src/agents/runner.rs: the loop over commands and, in a turn, over
-- completions. The model decides how many a turn has; the fuel bounds those of each turn, and a turn
-- that needs more is left where it is.
pub mod Invariant
pub mod Turns
pub mod Chains
pub mod Samples
mod Tests
use xoxo.Base.{ℕ, zero, suc, Bool, true, false, List, [], ◌∷◌, ◌++◌, Option, none, some, Bytes}
use xoxo.Chat.{
  ChatTextMessage, system, agent, user, ChatEventBody, message_body, tool_call_body, app_event_body,
  ChatLogEntry, LlmFinishReason, stop, tool_calls_wanted, LlmCompletionResponse, Chat, message,
  turn, turn_started, turn_finished, agent_shutdown, Command, submit_user_message,
  send_user_message, shutdown,
}
use xoxo.Agent.{Services, AgentRunner, send, push_message_event, complete, dispatch_tool_calls}

-- Where the loop is: at `recv`, in a turn, or behind the loop.
pub data Stage : Type 0 where
  receiving in_turn ended : Stage

-- The summary of a handoff: the content of the last message of the agent.
abbrev pub summary_from : List ChatLogEntry → Option Bytes → Option Bytes
summary_from [] found = found
summary_from (e ∷ entries) found = summary_from entries (elim e.event.body [
  | message_body m ↦ elim m.role [ agent ↦ some m.content | user ↦ found | system ↦ found ]
  | tool_call_body _ ↦ found
  | app_event_body _ ↦ found
])

unfoldable pub handoff_summary : Chat → Option Bytes
handoff_summary chat = summary_from chat.events none

module _ (s : Services) where
  -- What follows a completion in the loop of a turn; whether it ends the turn.
  unfoldable pub after_completion : LlmCompletionResponse → AgentRunner → AgentRunner × Bool
  after_completion completion r =
      let said =
        send (message completion.message)
          (push_message_event s completion.message completion.observability r) in
      elim completion.finish_reason [
        | stop ↦ (send (turn (turn_finished stop)) said, true)
        | tool_calls_wanted ↦
            let (r', content) = dispatch_tool_calls s completion.tool_calls [] said in
            (push_message_event s (record { role = user; content = content }) none r', false)
      ]

  unfoldable pub completion_step : AgentRunner → AgentRunner × Bool
  unfolding after_completion
  completion_step r = let (r', completion) = complete s r in after_completion completion r'

  abbrev pub continue_turn :
      (AgentRunner → AgentRunner × Bool) → AgentRunner × Bool → AgentRunner × Bool
  continue_turn rest (r, true) = (r, true)
  continue_turn rest (r, false) = rest r

  -- At most as many completions as the fuel; whether the turn has ended.
  unfoldable pub completions : ℕ → AgentRunner → AgentRunner × Bool
  unfolding completion_step
  completions zero r = (r, false)
  completions (suc fuel) r = continue_turn (completions fuel) (completion_step r)

  -- The start of a turn: the user's message is pushed and sent.
  unfoldable pub start_turn : ChatTextMessage → AgentRunner → AgentRunner
  start_turn m r = send (turn turn_started) (send (message m) (push_message_event s m none r))

  abbrev pub next_command :
      (AgentRunner → AgentRunner × Stage) → AgentRunner × Bool → AgentRunner × Stage
  next_command rest (r, true) = rest r
  next_command rest (r, false) = (r, in_turn)

  unfoldable pub run : ℕ → List Command → AgentRunner → AgentRunner × Stage
  unfolding start_turn completions
  run fuel [] r = (r, receiving)
  run fuel (submit_user_message _ _ ∷ commands) r = run fuel commands r
  run fuel (send_user_message _ m ∷ commands) r =
      next_command (run fuel commands) (completions fuel (start_turn m r))
  run fuel (shutdown _ ∷ commands) r = (send agent_shutdown r, ended)
