-- ===== src/Agent/Run/Turns.antt =====
-- The fuel of a turn: how much is enough, and that more changes nothing.
use xoxo.Base.{
  ℕ, zero, suc, ◌+◌, ◌≤◌, Bool, true, false, List, [], ◌∷◌, Option, Bytes, Result, ok, err, ◌≡◌,
  ◌≢◌, refl, ◌⊎◌, inl, inr, sym, ap, ◌∙◌, arith,
}
use xoxo.Chat.{
  CostObservability, ChatEventBody, LlmFinishReason, stop, tool_calls_wanted, LlmCompletionResponse,
  BusPayload, Command, submit_user_message, send_user_message, shutdown,
}
use xoxo.Agent.{
  Services, AgentRunner, send, on_save, on_last_used, persist_history_snapshot, push_event,
  complete,
}
use xoxo.Agent.Run.{
  Stage, in_turn, after_completion, completion_step, continue_turn, completions, start_turn,
  next_command, run,
}
use xoxo.Agent.Run.Invariant.{complete-keeps, dispatch_tool_calls-keeps}

module _ (s : Services) where
  on_save-ids :
      (a : Result (Unit {0}) Bytes) (r : AgentRunner) → (on_save s a r).ids_made ≡ r.ids_made
  unfolding send
  on_save-ids (ok _) r = refl
  on_save-ids (err text) r = refl

  on_last_used-ids :
      (a : Result (Unit {0}) Bytes) (r : AgentRunner) → (on_last_used s a r).ids_made ≡ r.ids_made
  unfolding send
  on_last_used-ids (ok _) r = refl
  on_last_used-ids (err text) r = refl

  persist-ids : (r : AgentRunner) → (persist_history_snapshot s r).ids_made ≡ r.ids_made
  unfolding persist_history_snapshot
  persist-ids r = on_last_used-ids _ (on_save s _ r) ∙ on_save-ids _ r

  push_event-ids :
      (body : ChatEventBody) (o : Option CostObservability) (r : AgentRunner)
      → (push_event s body o r).ids_made ≡ suc r.ids_made
  unfolding push_event
  push_event-ids body o r = persist-ids _

  -- At least so many ids were made.
  abbrev Made : ℕ → AgentRunner → Type 0
  Made k r = k ≤ r.ids_made

  send-Made : (k : ℕ) (p : BusPayload) (r : AgentRunner) → Made k r → Made k (send p r)
  unfolding send
  send-Made k p r m = m

  push_event-Made :
      (k : ℕ) (body : ChatEventBody) (o : Option CostObservability) (r : AgentRunner)
      → Made k r
      → Made (suc k) (push_event s body o r)
  push_event-Made k body o r m = omega (arith, push_event-ids body o r, m)

  push_event-still :
      (k : ℕ) (body : ChatEventBody) (o : Option CostObservability) (r : AgentRunner)
      → Made k r
      → Made k (push_event s body o r)
  push_event-still k body o r m = omega (arith, push_event-ids body o r, m)

  id-Made : (k : ℕ) (r : AgentRunner) → Made k r → Made k (record r { ids_made = suc r.ids_made })
  id-Made k r m = omega (arith, m)

  -- A completion that does not end the turn makes at least one id.
  after_completion-Made :
      (k : ℕ) (completion : LlmCompletionResponse) (r : AgentRunner)
      → completion.finish_reason ≡ tool_calls_wanted
      → Made k r
      → Made (suc k) (after_completion s completion r).0
  unfolding after_completion
  after_completion-Made k completion r e m = rw e (
      push_event-Made k _ _ _ (
        dispatch_tool_calls-keeps s (Made k) (send-Made k) (push_event-still k) (id-Made k)
          completion.tool_calls [] _ (send-Made k _ _ (push_event-still k _ _ r m))))

  after_completion-wanted :
      (completion : LlmCompletionResponse) (r : AgentRunner)
      → completion.finish_reason ≡ tool_calls_wanted
      → (after_completion s completion r).1 ≡ false
  unfolding after_completion
  after_completion-wanted completion r e = rw e refl

  after_completion-stop :
      (completion : LlmCompletionResponse) (r : AgentRunner)
      → completion.finish_reason ≡ stop
      → (after_completion s completion r).1 ≡ true
  unfolding after_completion
  after_completion-stop completion r e = rw e refl

  reason_cases : (f : LlmFinishReason) → (f ≡ stop) ⊎ (f ≡ tool_calls_wanted)
  reason_cases stop = inl refl
  reason_cases tool_calls_wanted = inr refl

  pub continue_turn-done :
      (rest : AgentRunner → AgentRunner × Bool) (step : AgentRunner × Bool)
      → step.1 ≡ true
      → continue_turn s rest step ≡ step
  continue_turn-done rest (r, true) e = refl
  continue_turn-done rest (r, false) e = grind (arith, e)

  pub continue_turn-more :
      (rest : AgentRunner → AgentRunner × Bool) (step : AgentRunner × Bool)
      → step.1 ≡ false
      → continue_turn s rest step ≡ rest step.0
  continue_turn-more rest (r, true) e = grind (arith, e)
  continue_turn-more rest (r, false) e = refl

  completions-stop :
      (fuel : ℕ) (r : AgentRunner)
      → (complete s r).1.finish_reason ≡ stop
      → completions s (suc fuel) r ≡ completion_step s r
  unfolding completions completion_step
  completions-stop fuel r e =
      continue_turn-done (completions s fuel) (completion_step s r)
        (after_completion-stop (complete s r).1 (complete s r).0 e)

  completions-wanted :
      (fuel : ℕ) (r : AgentRunner)
      → (complete s r).1.finish_reason ≡ tool_calls_wanted
      → completions s (suc fuel) r ≡ completions s fuel (completion_step s r).0
  unfolding completions completion_step
  completions-wanted fuel r e =
      continue_turn-more (completions s fuel) (completion_step s r)
        (after_completion-wanted (complete s r).1 (complete s r).0 e)

  completion_step-stop :
      (r : AgentRunner) → (complete s r).1.finish_reason ≡ stop → (completion_step s r).1 ≡ true
  unfolding completion_step
  completion_step-stop r e = after_completion-stop (complete s r).1 (complete s r).0 e

  completion_step-Made :
      (r : AgentRunner)
      → (complete s r).1.finish_reason ≡ tool_calls_wanted
      → Made (suc r.ids_made) (completion_step s r).0
  unfolding completion_step
  completion_step-Made r e = after_completion-Made r.ids_made (complete s r).1 (complete s r).0 e (
      complete-keeps s (Made r.ids_made) (send-Made r.ids_made) (push_event-still r.ids_made)
        (id-Made r.ids_made) r (omega arith))

  next_command-done :
      (rest : AgentRunner → AgentRunner × Stage) (turn : AgentRunner × Bool)
      → turn.1 ≡ true
      → next_command s rest turn ≡ rest turn.0
  next_command-done rest (r, true) e = refl
  next_command-done rest (r, false) e = grind (arith, e)

  module _ (k : ℕ)
      (stops : (q : AgentRunner) → k ≤ q.ids_made → (complete s q).1.finish_reason ≡ stop) where
    completions-end :
        (fuel : ℕ) (r : AgentRunner) → k ≤ r.ids_made + fuel → (completions s (suc fuel) r).1 ≡ true
    completions-end zero r h =
        ap (λ t. t.1) (completions-stop 0 r (stops r (omega (arith, h))))
        ∙ completion_step-stop r (stops r (omega (arith, h)))
    completions-end (suc fuel) r h = elim (reason_cases (complete s r).1.finish_reason) [
      | inl e ↦ ap (λ t. t.1) (completions-stop (suc fuel) r e) ∙ completion_step-stop r e
      | inr e ↦
          ap (λ t. t.1) (completions-wanted (suc fuel) r e)
          ∙ completions-end fuel (completion_step s r).0
              (omega (arith, completion_step-Made r e, h))
    ]

    not_in_turn :
        (commands : List Command) (r : AgentRunner) → (run s (suc k) commands r).1 ≢ in_turn
    unfolding run
    not_in_turn [] r e = grind (arith, e)
    not_in_turn (submit_user_message _ _ ∷ commands) r e = not_in_turn commands r e
    not_in_turn (send_user_message _ m ∷ commands) r e =
        not_in_turn commands (completions s (suc k) (start_turn s m r)).0 (
          ap (λ t. t.1)
            (sym (
              next_command-done (run s (suc k) commands) (completions s (suc k) (start_turn s m r))
                (completions-end k (start_turn s m r) (omega arith))))
          ∙ e)
    not_in_turn (shutdown _ ∷ commands) r e = grind (arith, e)

  no_fuel : (r : AgentRunner) → (completions s 0 r).1 ≡ false
  unfolding completions
  no_fuel r = refl

  completions-more :
      (fuel more : ℕ) (r : AgentRunner)
      → (completions s fuel r).1 ≡ true
      → completions s (fuel + more) r ≡ completions s fuel r
  completions-more zero more r e = absurd (false_true (sym (no_fuel r) ∙ e))
    where
      false_true : false ≢ true
      false_true p = cc
  completions-more (suc fuel) more r e = elim (reason_cases (complete s r).1.finish_reason) [
    | inl f ↦
        ap (λ n. completions s n r) (omega arith)
        ∙ completions-stop (fuel + more) r f
        ∙ sym (completions-stop fuel r f)
    | inr f ↦
        let w = completions-wanted fuel r f in
        ap (λ n. completions s n r) (omega arith)
        ∙ completions-wanted (fuel + more) r f
        ∙ completions-more fuel more (completion_step s r).0 (ap (λ t. t.1) (sym w) ∙ e)
        ∙ sym w
  ]

  next_command-in_turn :
      (rest : AgentRunner → AgentRunner × Stage) (turn : AgentRunner × Bool)
      → (next_command s rest turn).1 ≢ in_turn
      → turn.1 ≡ true
  next_command-in_turn rest (r, true) n = refl
  next_command-in_turn rest (r, false) n = absurd (n refl)

  run-more_fuel :
      (fuel more : ℕ) (commands : List Command) (r : AgentRunner)
      → (run s fuel commands r).1 ≢ in_turn
      → run s (fuel + more) commands r ≡ run s fuel commands r
  unfolding run
  run-more_fuel fuel more [] r n = refl
  run-more_fuel fuel more (submit_user_message _ _ ∷ commands) r n =
      run-more_fuel fuel more commands r n
  run-more_fuel fuel more (send_user_message _ m ∷ commands) r n =
      let turn = completions s fuel (start_turn s m r) in
      let e = next_command-in_turn (run s fuel commands) turn n in
      let d = next_command-done (run s fuel commands) turn e in
      ap (next_command s (run s (fuel + more) commands))
        (completions-more fuel more (start_turn s m r) e)
      ∙ next_command-done (run s (fuel + more) commands) turn e
      ∙ run-more_fuel fuel more commands turn.0 (λ x. n (ap (λ t. t.1) d ∙ x))
      ∙ sym d
  run-more_fuel fuel more (shutdown _ ∷ commands) r n = refl

-- If the model asks for no tool any more once `k` ids are made, fuel for `k + 1` completions a turn is enough for an agent
-- in any state to work off any commands: it is never left in a turn, and more fuel leads to the same end.
pub run-ends :
    (s : Services) (k more : ℕ) (commands : List Command) (r : AgentRunner)
    → ((q : AgentRunner) → k ≤ q.ids_made → (complete s q).1.finish_reason ≡ stop)
    → ((run s (suc k) commands r).1 ≢ in_turn)
      × (run s (suc k + more) commands r ≡ run s (suc k) commands r)
run-ends s k more commands r stops =
    let n = not_in_turn s k stops commands r in (n, run-more_fuel s (suc k) more commands r n)
