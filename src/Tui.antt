-- ===== src/Tui.antt =====
-- crates/lib/xoxo-tui/src/app: the conversation that the terminal shows. history.rs restores it from a stored
-- chat, sync.rs follows the events of the bus. The figures of the header and the cache of the lines are left out.
pub mod Restore
pub mod Follow
pub mod Live
pub mod Session
mod Tests
use text.Mathlib.Text.{◌==◌ as str_eq}
use xoxo.Base.{
  ℕ, Bool, true, false, ◌&&◌, List, [], ◌∷◌, ◌++◌, Option, none, some, Bytes, String, codes, Result,
  ok, err, if◌then◌else◌, is_empty,
}
use xoxo.Base.Dict.{lookup, insert, remove}
use xoxo.Chat.{
  ChatTextRole, ChatTextMessage, system, agent, user, ToolCallEvent, ChatEventBody, message_body,
  tool_call_body, app_event_body, ChatEvent, active, compacted_away, MessageContextState,
  ChatLogEntry, Chat, LlmFinishReason, BusPayload, message, text_delta, thinking_delta, tool_call,
  turn, turn_started, turn_finished, agent_shutdown, error, BusEvent,
}
use xoxo.Chat.Path.{root_id, current}

pub data HistoryPayload : Type 0 where
  bus : BusPayload → HistoryPayload
  thinking : Bytes → HistoryPayload

pub record HistoryEntry : Type 0 where
  pub chat_id : String
  pub payload : HistoryPayload

abbrev pub is_active : MessageContextState → Bool
is_active active = true
is_active compacted_away = false

-- The filter of both passes: the entry is active, and of the active branch.
abbrev pub is_current : String → ChatLogEntry → Bool
is_current branch e = is_active e.context_state && str_eq e.event.branch_id branch

abbrev pub is_tool_call : ChatEventBody → Bool
is_tool_call (message_body _) = false
is_tool_call (tool_call_body _) = true
is_tool_call (app_event_body _) = false

-- The set is the list of its elements.
unfoldable pub tool_event_ids : String → List ChatLogEntry → List String
tool_event_ids branch [] = []
tool_event_ids branch (e ∷ entries) =
    let rest = tool_event_ids branch entries in
    if is_current branch e && is_tool_call e.event.body then e.event.id ∷ rest else rest

unfoldable pub has_id : List String → String → Bool
has_id [] id = false
has_id (x ∷ ids) id = if str_eq x id then true else has_id ids id

-- `is_some_and`.
abbrev pub parent_in : List String → Option String → Bool
parent_in ids none = false
parent_in ids (some parent) = has_id ids parent

abbrev pub entry_with : String → BusPayload → List HistoryEntry
entry_with chat_id payload = record { chat_id = chat_id; payload = bus payload } ∷ []

-- The closure of `filter_map`.
abbrev pub shown : List String → String → ChatEvent → List HistoryEntry
shown ids chat_id e = elim e.body [
  | message_body m ↦ elim m.role [
    | user ↦ if parent_in ids e.parent_id then [] else entry_with chat_id (message m)
    | agent ↦ entry_with chat_id (message m)
    | system ↦ []
  ]
  | tool_call_body t ↦ entry_with chat_id (tool_call t)
  | app_event_body _ ↦ []
]

unfoldable pub history_of : List String → String → String → List ChatLogEntry → List HistoryEntry
history_of ids branch chat_id [] = []
history_of ids branch chat_id (e ∷ entries) =
    (if is_current branch e then shown ids chat_id e.event else [])
    ++ history_of ids branch chat_id entries

unfoldable pub history_from_chat : Chat → List HistoryEntry
unfolding history_of tool_event_ids
history_from_chat chat =
    history_of (tool_event_ids chat.active_branch_id chat.events) chat.active_branch_id chat.id
      chat.events

pub record App : Type 0 where
  pub active_chat_id : Option String
  pub pending_submission : Option Bytes
  pub history : List HistoryEntry
  pub in_flight_text : List (String × Bytes)
  pub in_flight_thinking : List (String × Bytes)
  pub conversation_scroll_from_bottom : ℕ
  pub turn_in_progress : Bool
  pub last_turn_finish_reason : Option LlmFinishReason

abbrev pub push_history : List HistoryEntry → App → App
push_history entries app = record app { history = app.history ++ entries }

-- The entry of the thinking that was streamed, if there was any.
abbrev pub thinking_entry : String → Option Bytes → List HistoryEntry
thinking_entry chat_id none = []
thinking_entry chat_id (some text) =
    if is_empty text then [] else record { chat_id = chat_id; payload = thinking text } ∷ []

-- `entry(chat_id).or_default().push_str(delta)`.
abbrev pub push_delta : String → Bytes → List (String × Bytes) → List (String × Bytes)
push_delta chat_id delta buffers =
    insert chat_id (elim (lookup chat_id buffers) [ none ↦ delta | some text ↦ text ++ delta ])
      buffers

-- What a message of the agent does before it is shown.
abbrev pub settle : String → App → App
settle chat_id app =
    push_history (thinking_entry chat_id (lookup chat_id app.in_flight_thinking)) (record app {
      in_flight_text = remove chat_id app.in_flight_text;
      in_flight_thinking = remove chat_id app.in_flight_thinking;
    })

unfoldable pub handle_payload : String → BusPayload → App → App
handle_payload id (turn turn_started) app = record app {
  turn_in_progress = true;
  last_turn_finish_reason = none;
  in_flight_text = remove id app.in_flight_text;
  in_flight_thinking = remove id app.in_flight_thinking;
}
handle_payload id (turn (turn_finished reason)) app = record app {
  turn_in_progress = false;
  last_turn_finish_reason = some reason;
}
handle_payload id (message m) app = elim m.role [
  | system ↦ app
  | agent ↦ push_history (entry_with id (message m)) (settle id app)
  | user ↦ push_history (entry_with id (message m)) app
]
handle_payload id (text_delta delta) app = record app {
  in_flight_text = push_delta id delta app.in_flight_text;
}
handle_payload id (thinking_delta delta) app = record app {
  in_flight_thinking = push_delta id delta app.in_flight_thinking;
}
handle_payload id (tool_call e) app = push_history (entry_with id (tool_call e)) app
handle_payload id agent_shutdown app = push_history (entry_with id agent_shutdown) app
handle_payload id (error e) app = push_history (entry_with id (error e)) app

unfoldable pub handle_bus_event : BusEvent → App → App
unfolding handle_payload
handle_bus_event event app =
    handle_payload (current event.path) event.payload
      (record app { active_chat_id = some (root_id event.path) })

-- `load_chat_session`, once the chat is found.
unfoldable pub show_chat : Chat → App → App
show_chat chat app = record {
  active_chat_id = some chat.id;
  pending_submission = none;
  history = history_from_chat chat;
  in_flight_text = [];
  in_flight_thinking = [];
  conversation_scroll_from_bottom = 0;
  turn_in_progress = false;
  last_turn_finish_reason = none;
}

abbrev pub new_app : App
new_app = record {
  active_chat_id = none;
  pending_submission = none;
  history = [];
  in_flight_text = [];
  in_flight_thinking = [];
  conversation_scroll_from_bottom = 0;
  turn_in_progress = false;
  last_turn_finish_reason = none;
}

unfoldable pub reset_for_new_chat : App → App
reset_for_new_chat app = new_app

-- What storage gives for an id, and whether the last used chat can be noted.
pub record Storage : Type 0 where
  pub load_chat : String → Result (Option Chat) Bytes
  pub set_last_used_chat_id : String → Result (Unit {0}) Bytes

-- The app afterwards, and the error that is returned.
abbrev pub load_found :
    Storage → String → Result (Option Chat) Bytes → App → App × Result (Unit {0}) Bytes
load_found storage id (err text) app = (app, err text)
load_found storage id (ok none) app =
    (app, err (codes "stored chat " ++ codes id ++ codes " was not found"))
load_found storage id (ok (some chat)) app =
    (show_chat chat app, storage.set_last_used_chat_id chat.id)

unfoldable pub load_chat_session : Option Storage → String → App → App × Result (Unit {0}) Bytes
load_chat_session none id app = (app, err (codes "session loading requires storage"))
load_chat_session (some storage) id app = load_found storage id (storage.load_chat id) app
