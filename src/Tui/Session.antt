-- ===== src/Tui/Session.antt =====
-- A terminal that follows an agent shows what it would show if the chat was loaded again.
use mathlib.Core.Path.{subst}
use xoxo.Base.{
  ℕ, zero, suc, ◌≤◌, Bool, true, false, ◌||◌, not, List, [], ◌∷◌, ◌++◌, append-nil, Option, none,
  some, Bytes, String, Result, ok, err, is_empty, if◌then◌else◌, ◌≡◌, ◌≢◌, refl, sym, ap, ◌∙◌,
  arith,
}
use xoxo.Chat.{
  Chat, BusEvent, ChatTextMessage, ChatEvent, ChatLogEntry, LlmFinishReason, stop,
  tool_calls_wanted, LlmToolCall, LlmCompletionResponse, LlmStreamEvent, streamed_text,
  streamed_thinking, final, Command, submit_user_message, send_user_message, shutdown,
}
use xoxo.Chat.Path.{current}
use xoxo.Agent.{
  Services, AgentRunner, read_stream, complete_with, complete, dispatch_tool_call,
  dispatch_tool_calls,
}
use xoxo.Agent.Run.{
  Stage, after_completion, completion_step, continue_turn, completions, start_turn, next_command,
  run,
}
use xoxo.Tui.{
  Storage, load_found, load_chat_session, HistoryEntry, is_current, shown, history_of,
  history_from_chat, App, show_chat, tool_event_ids, parent_in,
}
use xoxo.Tui.Restore.{IsNew}
use xoxo.Agent.{last_id}
use xoxo.Agent.Run.Chains.{run-stored}
use xoxo.Tui.Follow.{conversation, conversation-append, follow, heard, conversation-follow}
use xoxo.Tui.Live.{IsLive, send-quiet, said-IsLive, announce-IsLive, hidden-IsLive}

conversation-shown :
    (ids : List String) (chat_id : String) (e : ChatEvent)
    → conversation (shown ids chat_id e) ≡ shown ids chat_id e
conversation-shown ids chat_id e = ground arith

conversation-history_of :
    (ids : List String) (branch chat_id : String) (entries : List ChatLogEntry)
    → conversation (history_of ids branch chat_id entries) ≡ history_of ids branch chat_id entries
unfolding history_of
conversation-history_of ids branch chat_id [] = refl
conversation-history_of ids branch chat_id (e ∷ entries) =
    conversation-append (if is_current branch e then shown ids chat_id e.event else [])
      (history_of ids branch chat_id entries)
    ∙ ground (
      arith,
      conversation-history_of ids branch chat_id entries,
      conversation-shown ids chat_id e.event,
    )

module _ (s : Services) (distinct : (i j : ℕ) → s.new_v4 i ≡ s.new_v4 j → i ≡ j)
    (asks : (r : AgentRunner)
      → (complete s r).1.finish_reason ≡ tool_calls_wanted
      → (complete s r).1.tool_calls ≢ [])
    (base : List HistoryEntry) where
  abbrev Live : AgentRunner → Bool → Type 0
  Live r hiding = IsLive s distinct base r [] hiding

  read_stream-Live :
      (events : List (Result LlmStreamEvent Bytes)) (response : Option LlmCompletionResponse)
      (r : AgentRunner) {hiding : Bool}
      → Live r hiding
      → Live (read_stream events response r).0 hiding
  unfolding read_stream
  read_stream-Live [] response r l = l
  read_stream-Live (ok (streamed_text delta) ∷ rest) response r l =
      read_stream-Live rest response _ (send-quiet s distinct base _ refl l)
  read_stream-Live (ok (streamed_thinking delta) ∷ rest) response r l =
      read_stream-Live rest response _ (send-quiet s distinct base _ refl l)
  read_stream-Live (ok (final found) ∷ rest) response r l = read_stream-Live rest (some found) r l
  read_stream-Live (err text ∷ rest) response r l = l

  complete_with-Live :
      (o : Option (ℕ → List ChatTextMessage → List (Result LlmStreamEvent Bytes))) (r : AgentRunner)
      {hiding : Bool}
      → Live r hiding
      → Live (complete_with o r).0 hiding
  unfolding complete_with
  complete_with-Live none r l = l
  complete_with-Live (some stream) r l = read_stream-Live _ none r l

  complete-Live : (r : AgentRunner) {hiding : Bool} → Live r hiding → Live (complete s r).0 hiding
  unfolding complete
  complete-Live r l = complete_with-Live s.complete_streaming r l

  dispatch_tool_call-Live :
      (call : LlmToolCall) (r : AgentRunner) {hiding : Bool}
      → Live r hiding
      → Live (dispatch_tool_call s call r).0 true
  unfolding dispatch_tool_call
  dispatch_tool_call-Live call r l = announce-IsLive s distinct base _ _ (
      announce-IsLive s distinct base _ _ (record {
        live = l.live;
        unused = λ j le. l.unused j (omega (arith, le));
        hides = l.hides;
        here = l.here;
      }))

  dispatch_tool_calls-Live :
      (calls : List LlmToolCall) (rendered : Bytes) (r : AgentRunner) {hiding : Bool}
      → Live r hiding
      → Live (dispatch_tool_calls s calls rendered r).0 (hiding || not (is_empty calls))
  unfolding dispatch_tool_calls
  dispatch_tool_calls-Live [] rendered r {hiding = hiding} l = rw (or_false hiding) l
    where
      or_false : (b : Bool) → (b || false) ≡ b
      or_false b = ground arith
  dispatch_tool_calls-Live (call ∷ calls) rendered r {hiding = hiding} l =
      let rest = dispatch_tool_calls-Live calls _ _ (dispatch_tool_call-Live call r l) in
      rw (or_true hiding) rest
    where
      or_true : (b : Bool) → (b || true) ≡ true
      or_true b = ground arith

  is_empty-false : {A : Type 0} (l : List A) → l ≢ [] → not (is_empty l) ≡ true
  is_empty-false [] n = absurd (n refl)
  is_empty-false (x ∷ l) n = refl

  after_completion-Live :
      (completion : LlmCompletionResponse) (r : AgentRunner) {wanted : LlmFinishReason}
      → (wanted ≡ tool_calls_wanted → completion.tool_calls ≢ [])
      → completion.finish_reason ≡ wanted
      → Live r false
      → Live (after_completion s completion r).0 false
  unfolding after_completion
  after_completion-Live completion r {wanted = stop} n e l = rw e (
      send-quiet s distinct base _ refl
        (said-IsLive s distinct base completion.message completion.observability l))
  after_completion-Live completion r {wanted = tool_calls_wanted} n e l =
      let said = said-IsLive s distinct base completion.message completion.observability l in
      let done = dispatch_tool_calls-Live completion.tool_calls [] _ said in
      rw e (
        hidden-IsLive s distinct base _
          (rw (sym (is_empty-false completion.tool_calls (n refl))) done))

  completion_step-Live : (r : AgentRunner) → Live r false → Live (completion_step s r).0 false
  unfolding completion_step
  completion_step-Live r l =
      after_completion-Live (complete s r).1 (complete s r).0 (asks r) refl (complete-Live r l)

  continue_turn-Live :
      (rest : AgentRunner → AgentRunner × Bool) (step : AgentRunner × Bool)
      → ((r : AgentRunner) → Live r false → Live (rest r).0 false)
      → Live step.0 false
      → Live (continue_turn s rest step).0 false
  continue_turn-Live rest (r, true) next l = l
  continue_turn-Live rest (r, false) next l = next r l

  completions-Live :
      (fuel : ℕ) (r : AgentRunner) → Live r false → Live (completions s fuel r).0 false
  unfolding completions
  completions-Live zero r l = l
  completions-Live (suc fuel) r l =
      continue_turn-Live (completions s fuel) (completion_step s r) (completions-Live fuel)
        (completion_step-Live r l)

  start_turn-Live :
      (m : ChatTextMessage) (r : AgentRunner) → Live r false → Live (start_turn s m r) false
  unfolding start_turn
  start_turn-Live m r l = send-quiet s distinct base _ refl (said-IsLive s distinct base m none l)

  next_command-Live :
      (rest : AgentRunner → AgentRunner × Stage) (turn : AgentRunner × Bool)
      → ((r : AgentRunner) → Live r false → Live (rest r).0 false)
      → Live turn.0 false
      → Live (next_command s rest turn).0 false
  next_command-Live rest (r, true) next l = next r l
  next_command-Live rest (r, false) next l = l

  run-Live :
      (fuel : ℕ) (commands : List Command) (r : AgentRunner)
      → Live r false
      → Live (run s fuel commands r).0 false
  unfolding run
  run-Live fuel [] r l = l
  run-Live fuel (submit_user_message _ _ ∷ commands) r l = run-Live fuel commands r l
  run-Live fuel (send_user_message _ m ∷ commands) r l =
      next_command-Live (run s fuel commands) (completions s fuel (start_turn s m r))
        (run-Live fuel commands) (completions-Live fuel (start_turn s m r) (start_turn-Live m r l))
  run-Live fuel (shutdown _ ∷ commands) r l = send-quiet s distinct base _ refl l

-- A chat that is stored is loaded, and the terminal follows its agent through any commands, with any fuel. If no save
-- fails and the terminal has received every event that the agent sent, the messages and tool calls that it shows at the
-- end are those that loading the chat again shows, where loading finds what was stored last. The ids are all
-- different and new to the chat, a completion that does not stop calls a tool, the runner's path is the chat's and
-- nothing was sent yet, and the chat does not end with a tool call.
pub run-conversation :
    (s : Services) (fuel : ℕ) (commands : List Command) (r r' : AgentRunner) (stage : Stage)
    (app later : App) (received : List BusEvent) (storage : Storage)
    → ((i j : ℕ) → s.new_v4 i ≡ s.new_v4 j → i ≡ j)
    → ((q : AgentRunner)
        → (complete s q).1.finish_reason ≡ tool_calls_wanted
        → (complete s q).1.tool_calls ≢ [])
    → ((now : ℕ) (chat : Chat) → s.save_chat now chat ≡ ok tt)
    → ((j : ℕ) → r.ids_made ≤ j → IsNew (s.new_v4 j) r.history.active_branch_id r.history.events)
    → parent_in
        (tool_event_ids r.history.active_branch_id r.history.events)
        (last_id r.history.events)
      ≡ false
    → current r.path ≡ r.history.id
    → r.sent ≡ []
    → r.stored ≡ some r.history
    → run s fuel commands r ≡ (r', stage)
    → received ≡ r'.sent
    → storage.load_chat r.history.id ≡ ok r'.stored
    → conversation (follow received (show_chat r.history app)).history
      ≡ (load_chat_session (some storage) r.history.id later).0.history
unfolding show_chat load_chat_session history_from_chat
run-conversation s fuel commands r r' stage app later received storage distinct asks saves new hides
      here quiet kept e all found =
    let base = history_from_chat r.history in
    let stored = run-stored s saves fuel commands r r' stage kept e in
    let l =
      subst (λ end. IsLive s distinct base end.0 [] false) e
        (run-Live s distinct asks base fuel commands r (record {
          live = grind (arith, quiet, append-nil base);
          unused = new;
          hides = hides;
          here = here;
        })) in
    ap (λ events. conversation (follow events (show_chat r.history app)).history) all
    ∙ conversation-follow r'.sent (show_chat r.history app)
    ∙ ap (λ h. h ++ heard r'.sent)
        (conversation-history_of (tool_event_ids r.history.active_branch_id r.history.events)
          r.history.active_branch_id r.history.id r.history.events)
    ∙ sym (l.live ∙ append-nil (base ++ heard r'.sent))
    ∙ sym (
        ap (λ x. (load_found storage r.history.id x later).0.history)
          (found ∙ ap (λ x. ok x) stored))
