-- ===== src/Runtime/Agent/Bounds.antt =====
-- The bounds that hold for every run of agent.rs, by the invariant of its loop.
use graphnight.Base.{
  ℕ, zero, suc, ◌+◌, ◌≤◌, ◌<◌, String, true, some, List, [], ◌∷◌, ◌++◌, ◌≡◌, refl, ◌∙◌, ap, eq_refl,
  inl, inr, leb, ltb, arith, ltb-true, ltb-false, leb-true, leb-false, subst, sym, false,
}
use graphnight.Runtime.Agent.{
  AgentBudget, AgentStopReason, total, merge, ToolCall, ChatMessage, LlmResponse, Completion, Host,
  AgentRun,
}
use graphnight.Runtime.Agent.Loop.{
  Loop, count_of, add_count, begin, fingerprint, invoke, call_step, call_all, take_turn,
  is_max_tokens, is_empty, respond, ask, round, rounds, run_agent,
}
use graphnight.Runtime.Agent.Steps.{same, occurrences, count_of-add_count, Covers, Covers-suc}
use graphnight.Runtime.Agent.Flow.{
  Meets, goes_on, Meets-if, Meets-and_then, Meets-weaken, Meets-cases,
}
use graphnight.Runtime.Agent.Reasons.{Came}
use graphnight.Runtime.Agent.Invariant.{
  InRound, Stepped, Final, loosen, finish-Meets, completed-Meets, truncated-Meets,
  record_step-Meets,
}

module _ {W : Type 0} (h : Host W) (b : AgentBudget) where
  count-same : (fp : String) → same fp fp ≡ 1
  count-same fp = rw (eq_refl fp) refl

  call_step-Meets :
      (i : ℕ) (call : ToolCall) (l : Loop) (w : W)
      → i < b.max_steps
      → InRound h b i l
      → Meets (Final h b) (Stepped h b i) (call_step h b call l w)
  unfolding call_step invoke
  call_step-Meets i call l w lt (inv, x, before) =
      let ((s, r, k), c, f) = inv in
      let fp = fingerprint h call.name call.arguments in
      let counts = add_count fp l.call_counts in
      let counted : (j : String) → count_of j counts ≡ occurrences h j l.steps + same fp j =
        λ j. count_of-add_count fp j l.call_counts ∙ ap (λ n. n + same fp j) (c j) in
      let full : ltb b.max_repeat_calls (count_of fp counts) ≡ true
          → occurrences h fp l.steps ≡ b.max_repeat_calls =
        λ e. omega (arith, r fp, ltb-true _ _ e, counted fp, count-same fp) in
      let (elapsed, w') = h.elapsed w in
      Meets-if (Final h b) (Stepped h b i) (leb b.max_duration elapsed) _ _
        (λ e.
          finish-Meets h b (Stepped h b i) AgentStopReason.timeout l w' (loosen h b l inv)
            (λ run a s' u. (a, inl (w, leb-true _ _ e))))
        (λ e.
          Meets-if (Final h b) (Stepped h b i) (ltb b.max_repeat_calls (count_of fp counts)) _ _
            (λ e'.
              finish-Meets h b (Stepped h b i) AgentStopReason.repeated_calls l w'
                (loosen h b l inv) (λ run a s' u. (a, (fp, rw s' (full e')))))
            (λ e'.
              record_step-Meets h b i call (record l { call_counts = counts }) _ _ _ lt
                ((s, r, k), counted, ltb-false _ _ e', f, x, before)))

  call_all-Stepped :
      (i : ℕ) (calls : List ToolCall) (l : Loop) (w : W)
      → i < b.max_steps
      → Stepped h b i l
      → Meets (Final h b) (Stepped h b i) (call_all h b calls l w)
  unfolding call_all
  call_all-Stepped i [] l w lt p = goes_on p
  call_all-Stepped i (call ∷ calls) l w lt p =
      Meets-and_then (Final h b) (Stepped h b i) (Stepped h b i) (call_step h b call l w)
        (call_all h b calls) (call_step-Meets i call l w lt p.0)
        (λ l' w' p'. call_all-Stepped i calls l' w' lt p')

  -- A response with calls takes a step.
  call_all-Meets :
      (i : ℕ) (calls : List ToolCall) (l : Loop) (w : W)
      → i < b.max_steps
      → is_empty h b calls ≡ false
      → InRound h b i l
      → Meets (Final h b) (Stepped h b i) (call_all h b calls l w)
  unfolding call_all
  call_all-Meets i [] l w lt some_left p = absurd (cc)
  call_all-Meets i (call ∷ calls) l w lt some_left p =
      Meets-and_then (Final h b) (Stepped h b i) (Stepped h b i) (call_step h b call l w)
        (call_all h b calls) (call_step-Meets i call l w lt p)
        (λ l' w' p'. call_all-Stepped i calls l' w' lt p')

  take_turn-Meets :
      (i : ℕ) (r : LlmResponse) (l : Loop) (w : W)
      → i < b.max_steps
      → is_empty h b r.tool_calls ≡ false
      → InRound h b i l
      → Meets (Final h b) (InRound h b (suc i)) (take_turn h b r l w)
  unfolding take_turn
  take_turn-Meets i r l w lt some_left p =
      Meets-and_then (Final h b) (Stepped h b i) (InRound h b (suc i)) _ _
        (call_all-Meets i r.tool_calls
          (record l {
            messages = l.messages ++ (ChatMessage.assistant r.content r.tool_calls ∷ []);
          })
          w lt some_left p)
        (λ l' w' ((inv, x, before), now). goes_on (inv, ap suc x, Covers-suc i l'.steps before now))

  is_empty-eq : (calls : List ToolCall) → is_empty h b calls ≡ true → calls ≡ []
  is_empty-eq [] e = refl
  is_empty-eq (call ∷ calls) e = cc

  respond-Meets :
      (i : ℕ) (c : Completion) (l : Loop) (w : W)
      → i < b.max_steps
      → Came h b c
      → InRound h b i l
      → Meets (Final h b) (InRound h b (suc i)) (respond h b c l w)
  unfolding respond
  respond-Meets i Completion.timed_out l w lt came (inv, x, before) =
      finish-Meets h b (InRound h b (suc i)) AgentStopReason.timeout l w (loosen h b l inv)
        (λ run a s' u. (a, inr came))
  respond-Meets i (Completion.failed e) l w lt came (inv, x, before) =
      finish-Meets h b (InRound h b (suc i)) (AgentStopReason.provider_error e) l w
        (loosen h b l inv) (λ run a s' u. (a, came))
  respond-Meets i (Completion.answered r) l w lt came (inv, x, before) =
      let l' : Loop = record l { usage = merge l.usage r.usage } in
      Meets-if (Final h b) (InRound h b (suc i)) (is_max_tokens r.stop_reason) _ _
        (λ e. truncated-Meets h b (InRound h b (suc i)) r l' w came e (loosen h b l inv))
        (λ e.
          Meets-if (Final h b) (InRound h b (suc i)) (is_empty h b r.tool_calls) _ _
            (λ e'.
              completed-Meets h b (InRound h b (suc i)) r l' w came (is_empty-eq r.tool_calls e') e
                (loosen h b l inv))
            (λ e'. take_turn-Meets i r l' w lt e' (inv, x, before)))

  round-Meets :
      (i : ℕ) (l : Loop) (w : W)
      → InRound h b i l
      → Meets (Final h b) (λ l'. (i < b.max_steps) × InRound h b (suc i) l') (round h b l w)
  unfolding round ask
  round-Meets i l w (inv, x, before) =
      let P : Loop → Type 0 = λ l'. (i < b.max_steps) × InRound h b (suc i) l' in
      let (elapsed, w') = h.elapsed w in
      Meets-if (Final h b) P (leb b.max_steps l.step_index) _ _
        (λ e.
          let all_rounds : b.max_steps ≤ i = omega (arith, leb-true _ _ e, x) in
          finish-Meets h b P AgentStopReason.max_steps l w (loosen h b l inv) (λ run a s' u. (
            a,
            subst (Covers b.max_steps) (sym s') (λ j k. before j (omega (arith, all_rounds, k))),
          )))
        (λ e.
          Meets-if (Final h b) P (leb b.max_tokens (total l.usage)) _ _
            (λ e'.
              finish-Meets h b P AgentStopReason.token_budget l w (loosen h b l inv)
                (λ run a s' u. (a, rw u (leb-true _ _ e'))))
            (λ e'.
              Meets-if (Final h b) P (leb b.max_duration elapsed) _ _
                (λ e''.
                  finish-Meets h b P AgentStopReason.timeout l w' (loosen h b l inv)
                    (λ run a s' u. (a, inl (w, leb-true _ _ e''))))
                (λ e''.
                  let lt : i < b.max_steps = rw (← x) (leb-false _ _ e) in
                  Meets-weaken (Final h b) (InRound h b (suc i)) P (λ l' p. (lt, p)) _
                    (respond-Meets i _ l _ lt (_, _, _, refl) (inv, x, before)))))

  -- The rounds that are left are as many as the fuel, so one of them returns.
  rounds-Final :
      (fuel i : ℕ) (l : Loop) (w : W)
      → b.max_steps < fuel + i
      → InRound h b i l
      → i ≤ b.max_steps
      → (run : AgentRun) × (w' : W) × (rounds h b fuel l w ≡ some (run, w')) × Final h b run
  unfolding rounds
  rounds-Final zero i l w lt p le = absurd (omega arith)
  rounds-Final (suc fuel) i l w lt p le = elim (Meets-cases _ _ _ (round-Meets i l w p)) [
    | inl (run, w', e, q) ↦ (run, w', rw (rounds, e) refl, q)
    | inr (l', w', e, (lt', p')) ↦
        rw (rounds, e) (rounds-Final fuel (suc i) l' w' (omega arith) p' (omega arith))
  ]

  -- A run always returns, and within its budget: each step was taken in one of the rounds allowed, no
  -- call with the same name and arguments was made more often than allowed, there were never more
  -- failures in a row than one above the number tolerated. The reason to stop is the true one. A run that
  -- completed has as its answer the content of a response of the provider that has no calls and was not
  -- cut off by its limit of tokens; a truncated one has the content, if any, of a response that was, with a
  -- notice behind it. Any other run has no answer: for the steps, one was taken in every round allowed; for
  -- the tokens, the usage has reached the budget; for the time, a reading of the clock has reached the
  -- duration or the provider took too long; for the repeated calls, one was made as often as allowed; for
  -- the errors, the last calls failed, one more than tolerated; for the provider, it failed with that error.
  pub run-Final :
      (question : String) (w : W)
      → (run : AgentRun) × (w' : W) × (run_agent h b question w ≡ some (run, w')) × Final h b run
  unfolding run_agent count_of
  run-Final question w =
      rounds-Final (suc b.max_steps) 0 (begin question) w (omega arith)
        (((tt, (λ fp. omega arith), tt), (λ fp. refl), refl), refl, (λ j k. absurd (omega arith)))
        (omega arith)
