-- ===== src/Tui/Restore.antt =====
-- What restoring shows of a chat that has got one more entry.
use text.Mathlib.Text.{◌==◌ as str_eq}
use text.Mathlib.TextEquality.{eq_iff}
use xoxo.Base.{
  Bool, true, false, ◌||◌, List, [], ◌∷◌, ◌++◌, append_assoc, append-nil, Option, none, some,
  String, if◌then◌else◌, ◌≡◌, refl, sym, ap, ◌∙◌, arith,
}
use xoxo.Chat.{
  CostObservability, ChatTextMessage, system, agent, user, ToolCallEvent, ChatEventBody,
  message_body, tool_call_body, ChatEvent, active, ChatLogEntry, message, tool_call,
}
use xoxo.Agent.{last_id}
use xoxo.Tui.{
  HistoryEntry, is_current, tool_event_ids, has_id, parent_in, entry_with, shown, history_of,
}

abbrev pub is_text : String → Option String → Bool
is_text id none = false
is_text id (some x) = str_eq x id

-- Some entry has this id for its parent.
abbrev pub has_parent : String → List ChatLogEntry → Bool
has_parent id [] = false
has_parent id (e ∷ entries) = is_text id e.event.parent_id || has_parent id entries

pub has_id-append :
    (xs ys : List String) (id : String) → has_id (xs ++ ys) id ≡ (has_id xs id || has_id ys id)
unfolding has_id
has_id-append [] ys id = refl
has_id-append (x ∷ xs) ys id = ground (arith, has_id-append xs ys id)

tool_event_ids-append :
    (branch : String) (es fs : List ChatLogEntry)
    → tool_event_ids branch (es ++ fs) ≡ tool_event_ids branch es ++ tool_event_ids branch fs
unfolding tool_event_ids
tool_event_ids-append branch [] fs = refl
tool_event_ids-append branch (e ∷ es) fs = ground (arith, tool_event_ids-append branch es fs)

history_of-append :
    (ids : List String) (branch chat_id : String) (es fs : List ChatLogEntry)
    → history_of ids branch chat_id (es ++ fs)
      ≡ history_of ids branch chat_id es ++ history_of ids branch chat_id fs
unfolding history_of
history_of-append ids branch chat_id [] fs = refl
history_of-append ids branch chat_id (e ∷ es) fs = rw (history_of-append ids branch chat_id es fs) (
    sym (
      append_assoc (if is_current branch e then shown ids chat_id e.event else [])
        (history_of ids branch chat_id es) (history_of ids branch chat_id fs)))

parent_in-more :
    (ids : List String) (id : String) (parent : Option String)
    → is_text id parent ≡ false
    → parent_in (ids ++ id ∷ []) parent ≡ parent_in ids parent
unfolding has_id
parent_in-more ids id none h = refl
parent_in-more ids id (some p) h =
    ground (arith, has_id-append ids (id ∷ []) p, h, eq_iff id p, eq_iff p id)

shown-more :
    (ids : List String) (id chat_id : String) (e : ChatEvent)
    → is_text id e.parent_id ≡ false
    → shown (ids ++ id ∷ []) chat_id e ≡ shown ids chat_id e
shown-more ids id chat_id e h = ground (arith, parent_in-more ids id e.parent_id h)

-- An id that is no entry's parent does not change what is shown of them.
history_of-more :
    (ids : List String) (id branch chat_id : String) (es : List ChatLogEntry)
    → has_parent id es ≡ false
    → history_of (ids ++ id ∷ []) branch chat_id es ≡ history_of ids branch chat_id es
unfolding history_of
history_of-more ids id branch chat_id [] h = refl
history_of-more ids id branch chat_id (e ∷ es) h =
    rw
      (
        history_of-more ids id branch chat_id es (ground (arith, h)),
        shown-more ids id chat_id e.event (ground (arith, h)),
      )
      refl

abbrev pub restored : String → String → List ChatLogEntry → List HistoryEntry
restored branch chat_id entries = history_of (tool_event_ids branch entries) branch chat_id entries

-- An entry of the runner: active, and of the active branch.
abbrev pub new_entry :
    String → String → Option String → ChatEventBody → Option CostObservability → ChatLogEntry
new_entry branch id parent body observability = record {
  event = record {
    id = id;
    parent_id = parent;
    branch_id = branch;
    body = body;
    observability = observability;
  };
  context_state = active;
}

abbrev pub shown_message : Bool → String → ChatTextMessage → List HistoryEntry
shown_message hiding chat_id m = elim m.role [
  | user ↦ if hiding then [] else entry_with chat_id (message m)
  | agent ↦ entry_with chat_id (message m)
  | system ↦ []
]

self_eq : (s : String) → str_eq s s ≡ true
self_eq s = (eq_iff s s).1 refl

pub tool_event_ids-message :
    (branch id : String) (es : List ChatLogEntry) (parent : Option String) (m : ChatTextMessage)
    (o : Option CostObservability)
    → tool_event_ids branch (es ++ new_entry branch id parent (message_body m) o ∷ [])
      ≡ tool_event_ids branch es
unfolding tool_event_ids
tool_event_ids-message branch id es parent m o =
    tool_event_ids-append branch es (new_entry branch id parent (message_body m) o ∷ [])
    ∙ ground (arith, self_eq branch, append-nil (tool_event_ids branch es))

pub tool_event_ids-tool_call :
    (branch id : String) (es : List ChatLogEntry) (parent : Option String) (t : ToolCallEvent)
    (o : Option CostObservability)
    → tool_event_ids branch (es ++ new_entry branch id parent (tool_call_body t) o ∷ [])
      ≡ tool_event_ids branch es ++ id ∷ []
unfolding tool_event_ids
tool_event_ids-tool_call branch id es parent t o =
    tool_event_ids-append branch es (new_entry branch id parent (tool_call_body t) o ∷ [])
    ∙ ground (arith, self_eq branch)

pub restored-message :
    (branch chat_id id : String) (es : List ChatLogEntry) (parent : Option String)
    (m : ChatTextMessage) (o : Option CostObservability)
    → restored branch chat_id (es ++ new_entry branch id parent (message_body m) o ∷ [])
      ≡ restored branch chat_id es
        ++ shown_message (parent_in (tool_event_ids branch es) parent) chat_id m
unfolding history_of
restored-message branch chat_id id es parent m o =
    rw
      (
        tool_event_ids-message branch id es parent m o,
        history_of-append (tool_event_ids branch es) branch chat_id es
            (new_entry branch id parent (message_body m) o ∷ []),
        self_eq branch,
      )
      (ap (λ l. restored branch chat_id es ++ l)
        (append-nil (shown_message (parent_in (tool_event_ids branch es) parent) chat_id m)))

pub restored-tool_call :
    (branch chat_id id : String) (es : List ChatLogEntry) (parent : Option String)
    (t : ToolCallEvent) (o : Option CostObservability)
    → has_parent id es ≡ false
    → restored branch chat_id (es ++ new_entry branch id parent (tool_call_body t) o ∷ [])
      ≡ restored branch chat_id es ++ entry_with chat_id (tool_call t)
unfolding history_of
restored-tool_call branch chat_id id es parent t o h =
    rw
      (
        tool_event_ids-tool_call branch id es parent t o,
        history_of-append (tool_event_ids branch es ++ id ∷ []) branch chat_id es
            (new_entry branch id parent (tool_call_body t) o ∷ []),
        history_of-more (tool_event_ids branch es) id branch chat_id es h,
        self_eq branch,
      )
      refl

pub last_id-append :
    (es : List ChatLogEntry) (e : ChatLogEntry) → last_id (es ++ e ∷ []) ≡ some e.event.id
last_id-append [] e = refl
last_id-append (x ∷ []) e = refl
last_id-append (x ∷ y ∷ es) e = last_id-append (y ∷ es) e

has_parent-append :
    (id : String) (es : List ChatLogEntry) (e : ChatLogEntry)
    → has_parent id (es ++ e ∷ []) ≡ (has_parent id es || is_text id e.event.parent_id)
has_parent-append id [] e = ground arith
has_parent-append id (x ∷ es) e = ground (arith, has_parent-append id es e)

-- The id is neither that of a tool call's entry nor the parent of an entry nor the last.
pub record IsNew (id branch : String) (es : List ChatLogEntry) : Type 0 where
  pub no_tool_call : has_id (tool_event_ids branch es) id ≡ false
  pub no_parent : has_parent id es ≡ false
  pub not_last : is_text id (last_id es) ≡ false

pub IsNew-message :
    (j id branch : String) (es : List ChatLogEntry) (m : ChatTextMessage)
    (o : Option CostObservability)
    → str_eq id j ≡ false
    → IsNew j branch es
    → IsNew j branch (es ++ new_entry branch id (last_id es) (message_body m) o ∷ [])
IsNew-message j id branch es m o d n =
    let e = new_entry branch id (last_id es) (message_body m) o in
    record {
      no_tool_call = rw (tool_event_ids-message branch id es (last_id es) m o) n.no_tool_call;
      no_parent = ground (arith, has_parent-append j es e, n.no_parent, n.not_last);
      not_last = rw (last_id-append es e) d;
    }

pub IsNew-tool_call :
    (j id branch : String) (es : List ChatLogEntry) (t : ToolCallEvent)
    (o : Option CostObservability)
    → str_eq id j ≡ false
    → IsNew j branch es
    → IsNew j branch (es ++ new_entry branch id (last_id es) (tool_call_body t) o ∷ [])
unfolding has_id
IsNew-tool_call j id branch es t o d n =
    let e = new_entry branch id (last_id es) (tool_call_body t) o in
    record {
      no_tool_call =
          rw (tool_event_ids-tool_call branch id es (last_id es) t o) (
            ground
              (arith, has_id-append (tool_event_ids branch es) (id ∷ []) j, n.no_tool_call, d));
      no_parent = ground (arith, has_parent-append j es e, n.no_parent, n.not_last);
      not_last = rw (last_id-append es e) d;
    }
