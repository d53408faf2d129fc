-- ===== src/Tui/Follow.antt =====
-- What following the bus adds to the history that is shown.
use xoxo.Base.{
  Bool, true, false, List, [], ◌∷◌, ◌++◌, append_assoc, append-nil, Option, none, some, Bytes,
  String, if◌then◌else◌, ◌≡◌, refl, sym, ap, ◌∙◌, arith,
}
use xoxo.Base.Dict.{lookup}
use xoxo.Chat.{
  BusPayload, message, text_delta, thinking_delta, tool_call, turn, turn_started, turn_finished,
  agent_shutdown, error, BusEvent,
}
use xoxo.Chat.Path.{root_id, current}
use xoxo.Tui.{
  HistoryPayload, bus, thinking, HistoryEntry, App, entry_with, thinking_entry, handle_payload,
  handle_bus_event,
}
use xoxo.Tui.Restore.{shown_message}

abbrev pub follow : List BusEvent → App → App
follow [] app = app
follow (e ∷ events) app = follow events (handle_bus_event e app)

-- A message or a tool call, which is what a stored chat can hold.
abbrev pub is_conversation : HistoryPayload → Bool
is_conversation (bus (message _)) = true
is_conversation (bus (tool_call _)) = true
is_conversation (bus (text_delta _)) = false
is_conversation (bus (thinking_delta _)) = false
is_conversation (bus (turn _)) = false
is_conversation (bus agent_shutdown) = false
is_conversation (bus (error _)) = false
is_conversation (thinking _) = false

-- The messages and the tool calls of a history.
abbrev pub conversation : List HistoryEntry → List HistoryEntry
conversation [] = []
conversation (e ∷ entries) =
    if is_conversation e.payload then e ∷ conversation entries else conversation entries

-- What an event adds to the conversation.
abbrev pub heard_payload : String → BusPayload → List HistoryEntry
heard_payload id (message m) = shown_message false id m
heard_payload id (tool_call e) = entry_with id (tool_call e)
heard_payload id (text_delta _) = []
heard_payload id (thinking_delta _) = []
heard_payload id (turn _) = []
heard_payload id agent_shutdown = []
heard_payload id (error _) = []

abbrev pub heard : List BusEvent → List HistoryEntry
heard [] = []
heard (e ∷ events) = heard_payload (current e.path) e.payload ++ heard events

pub conversation-append :
    (xs ys : List HistoryEntry) → conversation (xs ++ ys) ≡ conversation xs ++ conversation ys
conversation-append [] ys = refl
conversation-append (x ∷ xs) ys = ground (arith, conversation-append xs ys)

conversation-thinking_entry :
    (id : String) (text : Option Bytes) → conversation (thinking_entry id text) ≡ []
conversation-thinking_entry id none = refl
conversation-thinking_entry id (some text) = ground arith

-- Appending what is no conversation, and then what is.
settled :
    (history quiet spoken : List HistoryEntry)
    → conversation quiet ≡ []
    → conversation spoken ≡ spoken
    → conversation ((history ++ quiet) ++ spoken) ≡ conversation history ++ spoken
settled history quiet spoken q s = grind (
  arith,
  conversation-append (history ++ quiet) spoken,
  conversation-append history quiet,
  q,
  s,
  append-nil (conversation history),
)

quiet_end :
    (history quiet : List HistoryEntry)
    → conversation quiet ≡ []
    → conversation (history ++ quiet) ≡ conversation history ++ []
quiet_end history quiet q =
    conversation-append history quiet ∙ ap (λ l. conversation history ++ l) q

spoken_end :
    (history spoken : List HistoryEntry)
    → conversation spoken ≡ spoken
    → conversation (history ++ spoken) ≡ conversation history ++ spoken
spoken_end history spoken s =
    conversation-append history spoken ∙ ap (λ l. conversation history ++ l) s

pub conversation-handle_payload :
    (id : String) (p : BusPayload) (app : App)
    → conversation (handle_payload id p app).history
      ≡ conversation app.history ++ heard_payload id p
unfolding handle_payload
conversation-handle_payload id (turn turn_started) app = sym (append-nil (conversation app.history))
conversation-handle_payload id (turn (turn_finished reason)) app =
    sym (append-nil (conversation app.history))
conversation-handle_payload id (text_delta delta) app = sym (append-nil (conversation app.history))
conversation-handle_payload id (thinking_delta delta) app =
    sym (append-nil (conversation app.history))
conversation-handle_payload id (tool_call e) app =
    spoken_end app.history (entry_with id (tool_call e)) refl
conversation-handle_payload id agent_shutdown app =
    quiet_end app.history (entry_with id agent_shutdown) refl
conversation-handle_payload id (error e) app = quiet_end app.history (entry_with id (error e)) refl
conversation-handle_payload id (message m) app = ground (
  arith,
  append-nil (conversation app.history),
  spoken_end app.history (entry_with id (message m)) refl,
  settled app.history (thinking_entry id (lookup id app.in_flight_thinking))
      (entry_with id (message m))
      (conversation-thinking_entry id (lookup id app.in_flight_thinking)) refl,
)

-- Following any events adds what they say to the conversation, whatever is in flight.
pub conversation-follow :
    (events : List BusEvent) (app : App)
    → conversation (follow events app).history ≡ conversation app.history ++ heard events
unfolding handle_bus_event
conversation-follow [] app = sym (append-nil (conversation app.history))
conversation-follow (e ∷ events) app =
    conversation-follow events (handle_bus_event e app)
    ∙ ap (λ l. l ++ heard events)
        (conversation-handle_payload (current e.path) e.payload
          (record app { active_chat_id = some (root_id e.path) }))
    ∙ append_assoc (conversation app.history) (heard_payload (current e.path) e.payload)
        (heard events)

pub heard-append : (xs ys : List BusEvent) → heard (xs ++ ys) ≡ heard xs ++ heard ys
heard-append [] ys = refl
heard-append (e ∷ xs) ys =
    rw (heard-append xs ys)
      (sym (append_assoc (heard_payload (current e.path) e.payload) (heard xs) (heard ys)))
