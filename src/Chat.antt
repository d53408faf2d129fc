-- ===== src/Chat.antt =====
-- crates/lib/xoxo-core/src: the data of chat/structs.rs and bus.rs, the completions of llm/facade/types.rs.
-- Ids and names are texts of the native kind, other texts lists of characters; a JSON value is its
-- text; a time is the text that it is stored as.
pub mod Path
use xoxo.Base.{ℕ, Bytes, String, List, Option}
use Path.{ChatPath}

abbrev pub Value : Type 0
Value = Bytes

pub data ApiCompatibility : Type 0 where
  open_ai_like anthropic_like open_ai_and_anthropic open_ai anthropic gemini cohere x_ai
        azure_open_ai deep_seek ollama open_router groq hyperbolic together galadriel mira
        perplexity moonshot :
      ApiCompatibility
  custom : String → ApiCompatibility

pub record ApiProvider : Type 0 where
  pub name : String
  pub compatibility : ApiCompatibility

pub record ModelConfig : Type 0 where
  pub model_name : String
  pub provider : ApiProvider

pub record ChatAgent : Type 0 where
  pub id : Option String
  pub name : Option String
  pub model : ModelConfig
  pub base_prompt : Bytes
  pub allowed_tools : List String
  pub allowed_skills : List String

pub record TokenUsage : Type 0 where
  pub input_tokens : ℕ
  pub output_tokens : ℕ
  pub cached_input_tokens : ℕ
  pub reasoning_tokens : ℕ
  pub total_tokens : ℕ

pub record MoneyAmount : Type 0 where
  pub amount : ℕ
  pub currency : String

pub record CostBreakdown : Type 0 where
  pub input_cost_micros : MoneyAmount
  pub output_cost_micros : MoneyAmount
  pub cached_input_cost_micros : MoneyAmount
  pub reasoning_cost_micros : MoneyAmount
  pub total_cost_micros : MoneyAmount

pub record CostObservability : Type 0 where
  pub model_name : Option String
  pub provider_name : Option String
  pub usage : TokenUsage
  pub cost : CostBreakdown

pub data ChatTextRole : Type 0 where
  system agent user : ChatTextRole

pub record ChatTextMessage : Type 0 where
  pub role : ChatTextRole
  pub content : Bytes

pub data ToolCallKind : Type 0 where
  generic : ToolCallKind
  spawn_subagent : String → ChatPath → Bytes → ToolCallKind

pub record ToolCallStarted : Type 0 where
  pub tool_call_id : String
  pub tool_name : String
  pub arguments : Value
  pub tool_call_kind : ToolCallKind

pub record ToolCallCompleted : Type 0 where
  pub tool_call_id : String
  pub tool_name : String
  pub result_preview : Bytes

pub record ToolCallFailed : Type 0 where
  pub tool_call_id : String
  pub tool_name : String
  pub message : Bytes

pub data ToolCallEvent : Type 0 where
  started : ToolCallStarted → ToolCallEvent
  completed : ToolCallCompleted → ToolCallEvent
  failed : ToolCallFailed → ToolCallEvent

pub data AppEvent : Type 0 where
  model_changed : ModelConfig → ModelConfig → AppEvent

pub data ChatEventBody : Type 0 where
  message_body : ChatTextMessage → ChatEventBody
  tool_call_body : ToolCallEvent → ChatEventBody
  app_event_body : AppEvent → ChatEventBody

pub record ChatEvent : Type 0 where
  pub id : String
  pub parent_id : Option String
  pub branch_id : String
  pub body : ChatEventBody
  pub observability : Option CostObservability

pub data MessageContextState : Type 0 where
  active compacted_away : MessageContextState

pub record ChatLogEntry : Type 0 where
  pub event : ChatEvent
  pub context_state : MessageContextState

pub record ChatSnapshot : Type 0 where
  pub id : String
  pub branch_id : String
  pub summary : Bytes
  pub replaces_messages_through_id : String
  pub observability : Option CostObservability

pub record ChatBranch : Type 0 where
  pub id : String
  pub name : String
  pub parent_branch_id : Option String
  pub forked_from_message_id : Option String
  pub head_message_id : Option String
  pub active_snapshot_id : Option String

pub record Chat : Type 0 where
  pub title : Option String
  pub id : String
  pub created_at : Option String
  pub updated_at : Option String
  pub parent_chat_id : Option String
  pub spawned_by_tool_call_id : Option String
  pub path : String
  pub chat_agent : ChatAgent
  pub observability : Option CostObservability
  pub active_branch_id : String
  pub branches : List ChatBranch
  pub snapshots : List ChatSnapshot
  pub events : List ChatLogEntry

pub data LlmFinishReason : Type 0 where
  stop tool_calls_wanted : LlmFinishReason

pub record LlmToolCall : Type 0 where
  pub name : String
  pub arguments : Option Value

pub record LlmCompletionResponse : Type 0 where
  pub message : ChatTextMessage
  pub tool_calls : List LlmToolCall
  pub finish_reason : LlmFinishReason
  pub observability : Option CostObservability

pub data LlmStreamEvent : Type 0 where
  streamed_text streamed_thinking : Bytes → LlmStreamEvent
  final : LlmCompletionResponse → LlmStreamEvent

pub data TurnEvent : Type 0 where
  turn_started : TurnEvent
  turn_finished : LlmFinishReason → TurnEvent

pub record ErrorPayload : Type 0 where
  pub message : Bytes

pub data BusPayload : Type 0 where
  message : ChatTextMessage → BusPayload
  text_delta thinking_delta : Bytes → BusPayload
  tool_call : ToolCallEvent → BusPayload
  turn : TurnEvent → BusPayload
  agent_shutdown : BusPayload
  error : ErrorPayload → BusPayload

pub record BusEvent : Type 0 where
  pub path : ChatPath
  pub payload : BusPayload

pub data Command : Type 0 where
  submit_user_message : Option String → ChatTextMessage → Command
  send_user_message : ChatPath → ChatTextMessage → Command
  shutdown : ChatPath → Command
