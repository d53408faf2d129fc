-- ===== src/Tui/Live.antt =====
-- A runner and the terminal that follows it: the invariant that ties the chat to the events sent.
use text.Mathlib.Text.{◌==◌ as str_eq}
use text.Mathlib.TextEquality.{eq_iff}
use mathlib.Core.Path.{subst}
use xoxo.Base.{
  ℕ, suc, ◌≤◌, Bool, true, false, List, [], ◌∷◌, ◌++◌, append_assoc, append-nil, Option, none,
  Bytes, String, Result, ok, err, ◌≡◌, refl, sym, ap, ◌∙◌, arith,
}
use xoxo.Chat.{
  CostObservability, ChatTextMessage, user, ToolCallEvent, ChatEventBody, message_body,
  tool_call_body, BusPayload, message, tool_call,
}
use xoxo.Chat.Path.{current}
use xoxo.Agent.{
  Services, AgentRunner, send, last_id, on_save, on_last_used, persist_history_snapshot,
  event_entry, push_event, push_message_event, push_tool_call_event, announce,
}
use xoxo.Tui.{HistoryEntry, tool_event_ids, has_id, parent_in, entry_with}
use xoxo.Tui.Restore.{
  restored, shown_message, has_id-append, tool_event_ids-message, tool_event_ids-tool_call,
  restored-message, restored-tool_call, last_id-append, IsNew, IsNew-message, IsNew-tool_call,
}
use xoxo.Tui.Follow.{heard_payload, heard, heard-append}

has_id-last : (ids : List String) (id : String) → has_id (ids ++ id ∷ []) id ≡ true
unfolding has_id
has_id-last ids id = has_id-append ids (id ∷ []) id ∙ ground (arith, (eq_iff id id).1 refl)

module _ (s : Services) (distinct : (i j : ℕ) → s.new_v4 i ≡ s.new_v4 j → i ≡ j)
    (base : List HistoryEntry) where
  open s use {new_v4}

  -- What is restored of the chat is the base, what was heard of the events sent, and what is still to be sent;
  -- `hiding` says whether a message of the user would be hidden now.
  pub record IsLive (r : AgentRunner) (pending : List HistoryEntry) (hiding : Bool) : Type 0 where
    pub live :
        restored r.history.active_branch_id r.history.id r.history.events
        ≡ (base ++ heard r.sent) ++ pending
    pub unused :
        (j : ℕ) → r.ids_made ≤ j → IsNew (new_v4 j) r.history.active_branch_id r.history.events
    pub hides :
        parent_in
          (tool_event_ids r.history.active_branch_id r.history.events)
          (last_id r.history.events)
        ≡ hiding
    pub here : current r.path ≡ r.history.id

  heard-send :
      (p : BusPayload) (r : AgentRunner)
      → base ++ heard (send p r).sent ≡ (base ++ heard r.sent) ++ heard_payload (current r.path) p
  unfolding send
  heard-send p r = grind (
    arith,
    heard-append r.sent (record { path = r.path; payload = p } ∷ []),
    append-nil (heard_payload (current r.path) p),
    append_assoc base (heard r.sent) (heard_payload (current r.path) p),
  )

  pub send-quiet :
      {r : AgentRunner} {pending : List HistoryEntry} {hiding : Bool} (p : BusPayload)
      → heard_payload (current r.path) p ≡ []
      → IsLive r pending hiding
      → IsLive (send p r) pending hiding
  unfolding send
  send-quiet {r = r} {pending = pending} p q l = record {
    live =
        l.live
        ∙ ap (λ h. h ++ pending)
            (sym (
              heard-send p r
              ∙ ap (λ h. (base ++ heard r.sent) ++ h) q
              ∙ append-nil (base ++ heard r.sent)));
    unused = l.unused;
    hides = l.hides;
    here = l.here;
  }

  pub send-said :
      {r : AgentRunner} {hiding : Bool} (p : BusPayload)
      → IsLive r (heard_payload (current r.path) p) hiding
      → IsLive (send p r) [] hiding
  unfolding send
  send-said {r = r} p l = record {
    live = l.live ∙ sym (heard-send p r) ∙ sym (append-nil (base ++ heard (send p r).sent));
    unused = l.unused;
    hides = l.hides;
    here = l.here;
  }

  on_save-IsLive :
      {r : AgentRunner} {pending : List HistoryEntry} {hiding : Bool} (a : Result (Unit {0}) Bytes)
      → IsLive r pending hiding
      → IsLive (on_save s a r) pending hiding
  on_save-IsLive (ok _) l = record {
    live = l.live;
    unused = l.unused;
    hides = l.hides;
    here = l.here;
  }
  on_save-IsLive (err text) l = send-quiet _ refl l

  on_last_used-IsLive :
      {r : AgentRunner} {pending : List HistoryEntry} {hiding : Bool} (a : Result (Unit {0}) Bytes)
      → IsLive r pending hiding
      → IsLive (on_last_used s a r) pending hiding
  on_last_used-IsLive (ok _) l = record {
    live = l.live;
    unused = l.unused;
    hides = l.hides;
    here = l.here;
  }
  on_last_used-IsLive (err text) l = send-quiet _ refl l

  persist-IsLive :
      (r : AgentRunner) {pending : List HistoryEntry} {hiding : Bool}
      → IsLive r pending hiding
      → IsLive (persist_history_snapshot s r) pending hiding
  unfolding persist_history_snapshot
  persist-IsLive r l = on_last_used-IsLive _ (on_save-IsLive _ l)

  new_id : (i j : ℕ) → suc i ≤ j → str_eq (new_v4 i) (new_v4 j) ≡ false
  new_id i j h = grind (arith, h, eq_iff (new_v4 i) (new_v4 j), distinct i j)

  push_message-IsLive :
      {r : AgentRunner} {hiding : Bool} (m : ChatTextMessage) (o : Option CostObservability)
      → IsLive r [] hiding
      → IsLive (push_message_event s m o r) (shown_message hiding r.history.id m) false
  unfolding push_event
  push_message-IsLive {r = r} {hiding = hiding} m o l =
      let h = r.history in
      persist-IsLive _ (record {
        live =
            restored-message h.active_branch_id h.id (new_v4 r.ids_made) h.events (last_id h.events)
              m o
            ∙ rw (l.live, l.hides, append-nil (base ++ heard r.sent)) refl;
        unused = λ j le.
            IsNew-message (new_v4 j) (new_v4 r.ids_made) h.active_branch_id h.events m o
              (new_id r.ids_made j le) (l.unused j (omega (arith, le)));
        hides =
            rw
              (
                tool_event_ids-message h.active_branch_id (new_v4 r.ids_made) h.events
                    (last_id h.events) m o,
                last_id-append h.events (event_entry s (message_body m) o r),
              )
              (l.unused r.ids_made (omega arith)).no_tool_call;
        here = l.here;
      })

  push_tool_call-IsLive :
      {r : AgentRunner} {hiding : Bool} (t : ToolCallEvent) (o : Option CostObservability)
      → IsLive r [] hiding
      → IsLive (push_tool_call_event s t o r) (entry_with r.history.id (tool_call t)) true
  unfolding push_event
  push_tool_call-IsLive {r = r} t o l =
      let h = r.history in
      persist-IsLive _ (record {
        live =
            restored-tool_call h.active_branch_id h.id (new_v4 r.ids_made) h.events
              (last_id h.events) t o (l.unused r.ids_made (omega arith)).no_parent
            ∙ rw (l.live, append-nil (base ++ heard r.sent)) refl;
        unused = λ j le.
            IsNew-tool_call (new_v4 j) (new_v4 r.ids_made) h.active_branch_id h.events t o
              (new_id r.ids_made j le) (l.unused j (omega (arith, le)));
        hides =
            rw
              (
                tool_event_ids-tool_call h.active_branch_id (new_v4 r.ids_made) h.events
                    (last_id h.events) t o,
                last_id-append h.events (event_entry s (tool_call_body t) o r),
              )
              (has_id-last (tool_event_ids h.active_branch_id h.events) (new_v4 r.ids_made));
        here = l.here;
      })

  on_save-history :
      (a : Result (Unit {0}) Bytes) (r : AgentRunner) → (on_save s a r).history ≡ r.history
  unfolding send
  on_save-history (ok _) r = refl
  on_save-history (err _) r = refl

  on_last_used-history :
      (a : Result (Unit {0}) Bytes) (r : AgentRunner) → (on_last_used s a r).history ≡ r.history
  unfolding send
  on_last_used-history (ok _) r = refl
  on_last_used-history (err _) r = refl

  pub persist-history : (r : AgentRunner) → (persist_history_snapshot s r).history ≡ r.history
  unfolding persist_history_snapshot
  persist-history r = on_last_used-history _ (on_save s _ r) ∙ on_save-history _ r

  push_event-id :
      (body : ChatEventBody) (o : Option CostObservability) (r : AgentRunner)
      → (push_event s body o r).history.id ≡ r.history.id
  unfolding push_event
  push_event-id body o r = ap (λ h. h.id) (persist-history _)

  -- A message that is pushed and then sent, where none would be hidden.
  pub said-IsLive :
      {r : AgentRunner} (m : ChatTextMessage) (o : Option CostObservability)
      → IsLive r [] false
      → IsLive (send (message m) (push_message_event s m o r)) [] false
  said-IsLive {r = r} m o l =
      let p = push_message-IsLive m o l in
      let r' = push_message_event s m o r in
      send-said (message m) (
        subst (λ id. IsLive r' (shown_message false id m) false)
          (sym (p.here ∙ push_event-id (message_body m) o r)) p)

  -- An event of a tool call that is pushed and then sent.
  pub announce-IsLive :
      {r : AgentRunner} {hiding : Bool} (t : ToolCallEvent) (o : Option CostObservability)
      → IsLive r [] hiding
      → IsLive (announce s t o r) [] true
  announce-IsLive {r = r} t o l =
      let p = push_tool_call-IsLive t o l in
      let r' = push_tool_call_event s t o r in
      send-said (tool_call t) (
        subst (λ id. IsLive r' (entry_with id (tool_call t)) true)
          (sym (p.here ∙ push_event-id (tool_call_body t) o r)) p)

  -- The results of tool calls, as a message of the user that is pushed and not sent.
  pub hidden-IsLive :
      {r : AgentRunner} (content : Bytes)
      → IsLive r [] true
      → IsLive (push_message_event s (record { role = user; content = content }) none r) [] false
  hidden-IsLive content l = push_message-IsLive (record { role = user; content = content }) none l
