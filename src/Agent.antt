-- ===== src/Agent.antt =====
-- crates/lib/xoxo-core/src/agents/runner.rs: one agent. What it asks of others is a parameter: the ids of
-- `Uuid::new_v4`, the tools, the stream of a completion, whether a save fails. Their answers may
-- differ from call to call: the number of ids made so far, which grows with every event, tells the calls apart.
pub mod Run
pub mod Tree
use text.Mathlib.Text.{◌==◌ as str_eq}
use xoxo.Base.{
  ℕ, suc, Bool, true, false, List, [], ◌∷◌, ◌++◌, Option, none, some, Bytes, String, codes, Result,
  ok, err, if◌then◌else◌, is_empty, ◌||◌,
}
use xoxo.Base.Dict.{lookup}
use xoxo.Chat.{
  Value, ChatAgent, CostObservability, ChatTextRole, system, agent, user, ChatTextMessage, generic,
  ToolCallEvent, started, completed, failed, ChatEventBody, message_body, tool_call_body,
  app_event_body, active, ChatLogEntry, ChatBranch, Chat, stop, LlmToolCall, LlmCompletionResponse,
  LlmStreamEvent, streamed_text, streamed_thinking, final, BusPayload, message, text_delta,
  thinking_delta, tool_call, error, BusEvent,
}
use xoxo.Chat.Path.{ChatPath, root_id}

pub data ToolError : Type 0 where
  invalid_input execution_failed : Bytes → ToolError

pub record ToolExecutionResult : Type 0 where
  pub output : Value
  pub observability : Option CostObservability

pub record Tool : Type 0 where
  pub execute : ℕ → Value → Result ToolExecutionResult ToolError
  pub map_to_preview : Value → Bytes

pub record Services : Type 0 where
  pub new_v4 : ℕ → String
  pub tool_set : List (String × Tool)
  -- The stream of a completion, for the configured provider, if there is one.
  pub complete_streaming : Option (ℕ → List ChatTextMessage → List (Result LlmStreamEvent Bytes))
  pub save_chat : ℕ → Chat → Result (Unit {0}) Bytes
  pub set_last_used_chat_id : ℕ → String → Result (Unit {0}) Bytes

-- The runner, with the events it has sent, what storage holds of its chat and how many ids it has made.
pub record AgentRunner : Type 0 where
  pub history : Chat
  pub blueprint : ChatAgent
  pub path : ChatPath
  pub sent : List BusEvent
  pub stored : Option Chat
  pub last_used : Option String
  pub ids_made : ℕ

unfoldable pub send : BusPayload → AgentRunner → AgentRunner
send payload r = record r { sent = r.sent ++ record { path = r.path; payload = payload } ∷ [] }

-- `find(…)` of the active branch, and the assignment to its head.
abbrev pub set_head : String → String → List ChatBranch → List ChatBranch
set_head active_id head [] = []
set_head active_id head (b ∷ branches) =
    if str_eq b.id active_id
    then record b { head_message_id = some head } ∷ branches
    else b ∷ set_head active_id head branches

abbrev pub last_id : List ChatLogEntry → Option String
last_id [] = none
last_id (e ∷ []) = some e.event.id
last_id (e ∷ e' ∷ entries) = last_id (e' ∷ entries)

abbrev pub is_spoken : ChatTextRole → Bool
is_spoken system = false
is_spoken agent = true
is_spoken user = true

abbrev pub spoken_body : ChatEventBody → List ChatTextMessage
spoken_body (message_body m) = if is_spoken m.role then m ∷ [] else []
spoken_body (tool_call_body e) = []
spoken_body (app_event_body e) = []

abbrev pub spoken_messages : List ChatLogEntry → List ChatTextMessage
spoken_messages [] = []
spoken_messages (e ∷ entries) = spoken_body e.event.body ++ spoken_messages entries

unfoldable pub completion_messages : AgentRunner → List ChatTextMessage
completion_messages r =
    record { role = system; content = r.blueprint.base_prompt } ∷ spoken_messages r.history.events

abbrev pub stop_with : Bytes → LlmCompletionResponse
stop_with text = record {
  message = record { role = agent; content = text };
  tool_calls = [];
  finish_reason = stop;
  observability = none;
}

-- `rev().find(…)`: the content of the last message of the user.
abbrev pub last_user_message : List ChatTextMessage → Bytes → Bytes
last_user_message [] otherwise = otherwise
last_user_message (m ∷ messages) otherwise =
    last_user_message messages
      (elim m.role [ user ↦ m.content | agent ↦ otherwise | system ↦ otherwise ])

unfoldable pub stub_complete : List ChatTextMessage → LlmCompletionResponse
stub_complete messages =
    stop_with (codes "stub completion: " ++ last_user_message messages (codes "ready"))

-- `match (final_response, stream_error)`.
abbrev pub response_of : Option LlmCompletionResponse → Option Bytes → LlmCompletionResponse
response_of (some response) none = response
response_of _ (some text) = stop_with text
response_of none none =
    stop_with (codes "completion stream ended without emitting a final response")

-- The loop over the stream: an error ends it.
unfoldable pub read_stream :
    List (Result LlmStreamEvent Bytes)
    → Option LlmCompletionResponse
    → AgentRunner
    → AgentRunner × LlmCompletionResponse
read_stream [] response r = (r, response_of response none)
read_stream (ok (streamed_text delta) ∷ rest) response r =
    read_stream rest response (send (text_delta delta) r)
read_stream (ok (streamed_thinking delta) ∷ rest) response r =
    read_stream rest response (send (thinking_delta delta) r)
read_stream (ok (final found) ∷ rest) response r = read_stream rest (some found) r
read_stream (err text ∷ rest) response r = (r, response_of response (some text))

unfoldable pub complete_with :
    Option (ℕ → List ChatTextMessage → List (Result LlmStreamEvent Bytes))
    → AgentRunner
    → AgentRunner × LlmCompletionResponse
unfolding completion_messages
complete_with none r = (r, stub_complete (completion_messages r))
complete_with (some stream) r = read_stream (stream r.ids_made (completion_messages r)) none r

abbrev pub render_error : ToolError → Bytes
render_error (invalid_input text) = codes "invalid input: " ++ text
render_error (execution_failed text) = text

abbrev pub arguments_of : Option Value → Value
arguments_of none = codes "null"
arguments_of (some value) = value

abbrev pub save_failed : Result (Unit {0}) Bytes → Bytes → AgentRunner → AgentRunner
save_failed (ok _) what r = r
save_failed (err text) what r = send (error (record { message = what ++ text })) r

module _ (s : Services) where
  open s use {new_v4, tool_set, complete_streaming, save_chat, set_last_used_chat_id}

  abbrev pub on_save : Result (Unit {0}) Bytes → AgentRunner → AgentRunner
  on_save (ok _) r = record r { stored = some r.history }
  on_save (err text) r = save_failed (err text) (codes "failed to persist chat snapshot: ") r

  abbrev pub on_last_used : Result (Unit {0}) Bytes → AgentRunner → AgentRunner
  on_last_used (ok _) r = record r { last_used = some (root_id r.path) }
  on_last_used (err text) r =
      save_failed (err text) (codes "failed to persist last used chat id: ") r

  unfoldable pub persist_history_snapshot : AgentRunner → AgentRunner
  persist_history_snapshot r =
      on_last_used (set_last_used_chat_id r.ids_made (root_id r.path))
        (on_save (save_chat r.ids_made r.history) r)

  -- The entry that a push appends.
  abbrev pub event_entry : ChatEventBody → Option CostObservability → AgentRunner → ChatLogEntry
  event_entry body observability r = record {
    event = record {
      id = new_v4 r.ids_made;
      parent_id = last_id r.history.events;
      branch_id = r.history.active_branch_id;
      body = body;
      observability = observability;
    };
    context_state = active;
  }

  -- What `push_message_event` and `push_tool_call_event` do with a body.
  unfoldable pub push_event : ChatEventBody → Option CostObservability → AgentRunner → AgentRunner
  push_event body observability r = persist_history_snapshot (record r {
    history = record r.history {
      events = r.history.events ++ event_entry body observability r ∷ [];
      branches = set_head r.history.active_branch_id (new_v4 r.ids_made) r.history.branches;
    };
    ids_made = suc r.ids_made;
  })

  abbrev pub push_message_event :
      ChatTextMessage → Option CostObservability → AgentRunner → AgentRunner
  push_message_event m observability r = push_event (message_body m) observability r

  abbrev pub push_tool_call_event :
      ToolCallEvent → Option CostObservability → AgentRunner → AgentRunner
  push_tool_call_event e observability r = push_event (tool_call_body e) observability r

  -- With a configured provider the completion is streamed, else it is a stub.
  unfoldable pub complete : AgentRunner → AgentRunner × LlmCompletionResponse
  unfolding complete_with
  complete r = complete_with complete_streaming r

  -- The event, the line for the model and the observability of an outcome.
  abbrev pub outcome_of :
      String
      → String
      → Option Tool
      → Result ToolExecutionResult ToolError
      → ToolCallEvent × Bytes × Option CostObservability
  outcome_of id name tool (ok result) = (
    completed (record {
      tool_call_id = id;
      tool_name = name;
      result_preview = elim tool [ none ↦ result.output | some t ↦ t.map_to_preview result.output ];
    }),
    codes name ++ codes ": " ++ result.output,
    result.observability,
  )
  outcome_of id name tool (err e) = (
    failed (record { tool_call_id = id; tool_name = name; message = render_error e }),
    codes name ++ codes " failed: " ++ render_error e,
    none,
  )

  abbrev pub execute_or_unknown :
      ℕ → String → Option Tool → Value → Result ToolExecutionResult ToolError
  execute_or_unknown now name none arguments =
      err (execution_failed (codes "unknown tool: " ++ codes name))
  execute_or_unknown now name (some tool) arguments = tool.execute now arguments

  -- An event of a tool call is pushed, and then sent.
  abbrev pub announce : ToolCallEvent → Option CostObservability → AgentRunner → AgentRunner
  announce e observability r = send (tool_call e) (push_tool_call_event e observability r)

  -- The body of the loop of `dispatch_tool_calls`: the runner, and the rendered line.
  unfoldable pub dispatch_tool_call : LlmToolCall → AgentRunner → AgentRunner × Bytes
  dispatch_tool_call call r =
      let id = new_v4 r.ids_made in
      let arguments = arguments_of call.arguments in
      let r1 =
        announce
          (started (record {
            tool_call_id = id;
            tool_name = call.name;
            arguments = arguments;
            tool_call_kind = generic;
          }))
          none (record r { ids_made = suc r.ids_made }) in
      let tool = lookup call.name tool_set in
      let (event, line, observability) =
        outcome_of id call.name tool (execute_or_unknown r1.ids_made call.name tool arguments) in
      (announce event observability r1, line)

  -- The lines so far, and the next.
  abbrev pub render : Bytes → Bytes → Bytes
  render rendered line = if is_empty rendered then line else rendered ++ codes "\n" ++ line

  unfoldable pub dispatch_tool_calls : List LlmToolCall → Bytes → AgentRunner → AgentRunner × Bytes
  dispatch_tool_calls [] rendered r = (r, rendered)
  dispatch_tool_calls (call ∷ calls) rendered r =
      let (r', line) = dispatch_tool_call call r in
      dispatch_tool_calls calls (render rendered line) r'
