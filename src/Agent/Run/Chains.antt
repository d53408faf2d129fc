-- ===== src/Agent/Run/Chains.antt =====
-- The log of a chat is one chain with the active branch's head at its end, and storage holds all of it.
use text.Mathlib.Text.{◌==◌ as str_eq}
use mathlib.Core.Path.{subst}
use xoxo.Base.{
  ℕ, List, [], ◌∷◌, ◌++◌, Option, none, some, Bytes, String, Result, ok, err, if◌then◌else◌, ◌≡◌,
  refl, sym, ap, ◌∙◌, arith,
}
use xoxo.Chat.{
  CostObservability, ChatEventBody, ChatLogEntry, ChatBranch, Chat, BusPayload, Command,
}
use xoxo.Agent.{
  Services, AgentRunner, send, set_head, last_id, on_save, on_last_used, persist_history_snapshot,
  event_entry, push_event,
}
use xoxo.Agent.Run.{Stage, run}
use xoxo.Agent.Run.Invariant.{run-keeps}

-- The id at the end of the entries, behind the one before them.
abbrev pub end_of : Option String → List ChatLogEntry → Option String
end_of before [] = before
end_of before (e ∷ entries) = end_of (some e.event.id) entries

-- Each entry has the one before it for its parent.
abbrev pub IsChain : Option String → List ChatLogEntry → Type 0
IsChain before [] = Unit
IsChain before (e ∷ entries) = (e.event.parent_id ≡ before) × IsChain (some e.event.id) entries

-- The head of the first branch with the id, if there is one.
abbrev pub head_of : String → List ChatBranch → Option (Option String)
head_of id [] = none
head_of id (b ∷ branches) = if str_eq b.id id then some b.head_message_id else head_of id branches

abbrev pub set_in : Option (Option String) → String → Option (Option String)
set_in none head = none
set_in (some _) head = some (some head)

head_of-set_head :
    (id head : String) (branches : List ChatBranch)
    → head_of id (set_head id head branches) ≡ set_in (head_of id branches) head
head_of-set_head id head [] = refl
head_of-set_head id head (b ∷ branches) = ground (arith, head_of-set_head id head branches)

IsChain-append :
    (before : Option String) (entries : List ChatLogEntry) (e : ChatLogEntry)
    → IsChain before entries
    → e.event.parent_id ≡ end_of before entries
    → IsChain before (entries ++ e ∷ [])
IsChain-append before [] e c p = (p, tt)
IsChain-append before (x ∷ entries) e c p = (c.0, IsChain-append (some x.event.id) entries e c.1 p)

end_of-append :
    (before : Option String) (entries : List ChatLogEntry) (e : ChatLogEntry)
    → end_of before (entries ++ e ∷ []) ≡ some e.event.id
end_of-append before [] e = refl
end_of-append before (x ∷ entries) e = end_of-append (some x.event.id) entries e

end_of-last_id :
    (x : ChatLogEntry) (entries : List ChatLogEntry)
    → end_of (some x.event.id) entries ≡ last_id (x ∷ entries)
end_of-last_id x [] = refl
end_of-last_id x (y ∷ entries) = end_of-last_id y entries

last_id-end_of : (entries : List ChatLogEntry) → last_id entries ≡ end_of none entries
last_id-end_of [] = refl
last_id-end_of (x ∷ entries) = sym (end_of-last_id x entries)

-- The chat's log is a chain, and its active branch exists and ends with it.
pub record IsLinked (chat : Chat) : Type 0 where
  pub chain : IsChain none chat.events
  pub head : head_of chat.active_branch_id chat.branches ≡ some (end_of none chat.events)

-- Linked, and stored as it is.
pub record IsKept (r : AgentRunner) : Type 0 where
  pub linked : IsLinked r.history
  pub saved : r.stored ≡ some r.history

module _ (s : Services) (saves : (now : ℕ) (chat : Chat) → s.save_chat now chat ≡ ok tt) where
  open s use {save_chat, set_last_used_chat_id}

  on_save-saved :
      (a : Result (Unit {0}) Bytes) (r : AgentRunner)
      → a ≡ ok tt
      → ((on_save s a r).stored ≡ some r.history) × ((on_save s a r).history ≡ r.history)
  on_save-saved (ok _) r h = (refl, refl)
  on_save-saved (err text) r h = grind (arith, h)

  on_last_used-same :
      (a : Result (Unit {0}) Bytes) (r : AgentRunner)
      → ((on_last_used s a r).stored ≡ r.stored) × ((on_last_used s a r).history ≡ r.history)
  unfolding send
  on_last_used-same (ok _) r = (refl, refl)
  on_last_used-same (err text) r = (refl, refl)

  persist-saved :
      (r : AgentRunner)
      → ((persist_history_snapshot s r).stored ≡ some r.history)
        × ((persist_history_snapshot s r).history ≡ r.history)
  unfolding persist_history_snapshot
  persist-saved r =
      let (a, b) =
        on_last_used-same (set_last_used_chat_id r.ids_made r.path.first)
          (on_save s (save_chat r.ids_made r.history) r) in
      let (c, d) = on_save-saved (save_chat r.ids_made r.history) r (saves r.ids_made r.history) in
      (a ∙ c, b ∙ d)

  persist-IsKept : (r : AgentRunner) → IsLinked r.history → IsKept (persist_history_snapshot s r)
  persist-IsKept r l =
      let (a, b) = persist-saved r in
      record { linked = subst IsLinked (sym b) l; saved = a ∙ ap some (sym b) }

  push_event-IsKept :
      (body : ChatEventBody) (o : Option CostObservability) (r : AgentRunner)
      → IsKept r
      → IsKept (push_event s body o r)
  unfolding push_event
  push_event-IsKept body o r k =
      let h = r.history in
      let e = event_entry s body o r in
      persist-IsKept _ (record {
        chain = IsChain-append none h.events e k.linked.chain (last_id-end_of h.events);
        head =
            head_of-set_head h.active_branch_id e.event.id h.branches
            ∙ rw (k.linked.head, end_of-append none h.events e) refl;
      })

  send-IsKept : (p : BusPayload) (r : AgentRunner) → IsKept r → IsKept (send p r)
  unfolding send
  send-IsKept p r k = record { linked = k.linked; saved = k.saved }

  -- Storage keeps holding the chat as it is.
  pub run-stored :
      (fuel : ℕ) (commands : List Command) (r r' : AgentRunner) (stage : Stage)
      → r.stored ≡ some r.history
      → run s fuel commands r ≡ (r', stage)
      → r'.stored ≡ some r'.history
  run-stored fuel commands r r' stage k e =
      subst (λ end. end.0.stored ≡ some end.0.history) e
        (run-keeps s (λ q. q.stored ≡ some q.history) send-stored push_event-stored (λ q kept. kept)
          fuel commands r k)
    where
      send-stored :
          (p : BusPayload) (q : AgentRunner)
          → q.stored ≡ some q.history
          → (send p q).stored ≡ some (send p q).history
      send-stored p q k = unfold send in k

      push_event-stored :
          (body : ChatEventBody) (o : Option CostObservability) (q : AgentRunner)
          → q.stored ≡ some q.history
          → (push_event s body o q).stored ≡ some (push_event s body o q).history
      push_event-stored body o q k =
          unfold push_event in (let (a, b) = persist-saved _ in a ∙ ap some (sym b))

  -- If no save fails, an agent that starts with a stored chat whose log is a chain keeps it so through any
  -- commands, with any fuel: each entry has the one before it for its parent, the active branch has the last
  -- for its head, and storage holds the chat with all its entries.
  pub run-IsKept :
      (fuel : ℕ) (commands : List Command) (r r' : AgentRunner) (stage : Stage)
      → IsKept r
      → run s fuel commands r ≡ (r', stage)
      → IsKept r'
  run-IsKept fuel commands r r' stage k e =
      subst (λ end. IsKept end.0) e
        (run-keeps s IsKept send-IsKept push_event-IsKept
          (λ q kept. record { linked = kept.linked; saved = kept.saved }) fuel commands r k)
