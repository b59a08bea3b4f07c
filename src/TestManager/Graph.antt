-- ===== src/TestManager/Graph.antt =====
-- The state diagram of TestStateMachine.cpp.
use evse_test_system.Base.{
  ℕ, ◌≡◌, refl, sym, ◌∙◌, ◌⊎◌, inl, inr, List, [], ◌∷◌, true, Bool-cases, arith, if◌then◌else◌,
}
use mathlib.Core.Path.{subst}
use Prim.Native.String.{String}
use evse_test_system.Types.{TestState, V2gTestResult}
use evse_test_system.TestManager.Machine.{
  TestingState, disabled, idle, setup_test, running_test, cancel_test, cleanup_test, same_state,
  Signal, state_signal, Machine, Reading, LoopReadings, round, run_state_machine,
}
use evse_test_system.TestManager.Handlers.{
  schedule_test, unschedule_test, set_enabled, process_heartbeat, main_thread_start, status_case,
  process_test_status, result_case, process_test_result,
}
use evse_test_system.TestManager.Loop.{is_stable, run_state_machine_inv, run_state_machine_ends}
use evse_test_system.TestManager.Invariant.{
  Call, start, tick, schedule, unschedule, enable, heartbeat, status, result, step, run_calls,
}
use evse_test_system.TestManager.Queue.{IsReady, step-IsReady}

infix 40 ◌⟶◌
pub data ◌⟶◌ : TestingState → TestingState → Type 0 where
  allow : disabled ⟶ idle
  suspend : idle ⟶ disabled
  dequeue : idle ⟶ setup_test
  begin : setup_test ⟶ running_test
  hang : running_test ⟶ cancel_test
  finish : running_test ⟶ cleanup_test
  give_up : cancel_test ⟶ cleanup_test
  reset : cleanup_test ⟶ idle

abbrev pub Edge : TestingState → TestingState → Type 0
Edge s t = (s ≡ t) ⊎ (s ⟶ t)

-- The states that were signalled, the newest first, from the state `s` on: each is the one before or
-- follows on it in the diagram, and the last is `t`.
pub data Trail (s : TestingState) : List TestingState → TestingState → Type 0 where
  begun : Trail s [] s
  visit :
      {log : List TestingState} {t u : TestingState}
      → Trail s log t
      → Edge t u
      → Trail s (u ∷ log) u

Trail-along :
    {s t u : TestingState} {log newer : List TestingState}
    → newer ≡ log
    → u ≡ t
    → Trail s log t
    → Trail s newer u
Trail-along {s} {t} {u} {log} {newer} e f p =
    subst (λ l. Trail s l u) (sym e) (subst (λ v. Trail s log v) (sym f) p)

ruleset edges = (allow, suspend, dequeue, begin, hang, finish, give_up, reset)

same_state-eq : (s t : TestingState) → same_state s t ≡ true → s ≡ t
same_state-eq s t e = ground arith

module _ {Report : Type 0} where
  abbrev pub signalled : List (Signal Report) → List TestingState
  signalled [] = []
  signalled (state_signal s ∷ log) = s ∷ signalled log
  signalled (_ ∷ log) = signalled log

  round-Edge :
      (r : Reading) (s : TestingState) (m : Machine Report)
      → m.current_state ≡ s
      → Edge s (round r m).current_state
  unfolding round
  round-Edge r disabled m e = grind (arith, edges)
  round-Edge r idle m e = grind (arith, edges)
  round-Edge r s m e = grind (arith, edges)

  -- A round signals the state that it begins in, where that is new.
  round-signalled :
      (r : Reading) (s : TestingState) (m : Machine Report)
      → m.current_state ≡ s
      → (signalled (round r m).emitted
          ≡ (if is_stable m then signalled m.emitted else m.current_state ∷ signalled m.emitted))
        × ((round r m).last_state_detect_state_change ≡ m.current_state)
  unfolding round
  round-signalled r disabled m e = ground arith
  round-signalled r idle m e = ground arith
  round-signalled r s m e = ground arith

  -- Between two rounds at most the newest state is not signalled yet.
  abbrev IsTraced : TestingState → Machine Report → Type 0
  IsTraced s m =
      Trail s (signalled m.emitted) m.last_state_detect_state_change
      × Edge m.last_state_detect_state_change m.current_state

  round-IsTraced :
      (r : Reading) (s : TestingState) (m : Machine Report) → IsTraced s m → IsTraced s (round r m)
  round-IsTraced r s m p =
      let q = round-signalled r m.current_state m refl in
      let edge = round-Edge r m.current_state m refl in
      elim (Bool-cases (is_stable m)) [
        | inl old ↦
            let log : signalled (round r m).emitted ≡ signalled m.emitted = ground arith in
            let same = same_state-eq m.last_state_detect_state_change m.current_state old in
            (
              Trail-along log (q.1 ∙ sym same) p.0,
              subst (λ t. Edge t (round r m).current_state) (sym q.1) edge,
            )
        | inr new ↦
            let log : signalled (round r m).emitted ≡ m.current_state ∷ signalled m.emitted =
              ground arith in
            (
              Trail-along log q.1 (visit p.0 p.1),
              subst (λ t. Edge t (round r m).current_state) (sym q.1) edge,
            )
      ]

  -- Where the machine rests, its state is signalled.
  abbrev IsTracedTo : TestingState → Machine Report → Type 0
  IsTracedTo s m = Trail s (signalled m.emitted) m.current_state

  settled :
      (s : TestingState) (m : Machine Report) → is_stable m ≡ true → IsTraced s m → IsTracedTo s m
  settled s m e p =
      subst (Trail s (signalled m.emitted))
        (same_state-eq m.last_state_detect_state_change m.current_state e) p.0

  moved :
      (s : TestingState) (m n : Machine Report)
      → is_stable m ≡ true
      → IsTracedTo s m
      → signalled n.emitted ≡ signalled m.emitted
      → n.last_state_detect_state_change ≡ m.last_state_detect_state_change
      → Edge m.current_state n.current_state
      → IsTraced s n
  moved s m n e p log last edge =
      let same = same_state-eq m.last_state_detect_state_change m.current_state e in
      (
        Trail-along log (last ∙ same) p,
        subst (λ t. Edge t n.current_state) (sym (last ∙ same)) edge,
      )

  run_state_machine-IsTracedTo :
      (readings : LoopReadings) (s : TestingState) (m : Machine Report)
      → IsTraced s m
      → IsTracedTo s (run_state_machine readings m)
  run_state_machine-IsTracedTo readings s m p =
      settled s (run_state_machine readings m) (run_state_machine_ends readings m).2 (
        run_state_machine_inv (IsTraced s) (λ r m' q. round-IsTraced r s m' q) (λ b m' q. q)
          readings m p)

  status_case-Edge :
      (s : TestingState) (st : TestState) (m : Machine Report)
      → m.current_state ≡ s
      → Edge s (status_case s st m).current_state
        × (signalled (status_case s st m).emitted ≡ signalled m.emitted)
        × ((status_case s st m).last_state_detect_state_change ≡ m.last_state_detect_state_change)
  unfolding status_case
  status_case-Edge setup_test st m e = grind (arith, edges)
  status_case-Edge s st m e = grind (arith, edges)

  result_case-same :
      (format_time : ℕ → String) (now : ℕ) (r : V2gTestResult Report) (s : TestingState)
      (m : Machine Report)
      → ((result_case format_time s now r m).current_state ≡ m.current_state)
        × (signalled (result_case format_time s now r m).emitted ≡ signalled m.emitted)
        × ((result_case format_time s now r m).last_state_detect_state_change
            ≡ m.last_state_detect_state_change)
  unfolding result_case
  result_case-same format_time now r running_test m = ground arith
  result_case-same format_time now r s m = ground arith

  rest-IsTraced :
      (s : TestingState) (m : Machine Report) → is_stable m ≡ true → IsTracedTo s m → IsTraced s m
  rest-IsTraced s m e p = moved s m m e p refl refl (inl refl)

module _ {Report : Type 0} (format_time : ℕ → String) where
  step-IsTracedTo :
      (s : TestingState) (m : Machine Report) (c : Call Report)
      → is_stable m ≡ true
      → IsTracedTo s m
      → IsTracedTo s (step format_time m c)
  unfolding step main_thread_start set_enabled process_heartbeat schedule_test unschedule_test
      process_test_status process_test_result
  step-IsTracedTo s m start e p = visit p (inl refl)
  step-IsTracedTo s m (tick readings) e p =
      run_state_machine-IsTracedTo readings s m (rest-IsTraced s m e p)
  step-IsTracedTo s m (schedule uuid test_id c) e p = Trail-along (ground arith) (ground arith) p
  step-IsTracedTo s m (unschedule i) e p = Trail-along (ground arith) (ground arith) p
  step-IsTracedTo s m (enable b) e p = p
  step-IsTracedTo s m (heartbeat now) e p = p
  step-IsTracedTo s m (status before after st) e p =
      let m' = run_state_machine before m in
      let p' = run_state_machine-IsTracedTo before s m (rest-IsTraced s m e p) in
      let c = status_case-Edge m'.current_state st m' refl in
      run_state_machine-IsTracedTo after s _ (
        moved s m' (status_case m'.current_state st m') (run_state_machine_ends before m).2 p' c.1
          c.2 c.0)
  step-IsTracedTo s m (result before after now r) e p =
      let m' = run_state_machine before m in
      let p' = run_state_machine-IsTracedTo before s m (rest-IsTraced s m e p) in
      let c = result_case-same format_time now r m'.current_state m' in
      run_state_machine-IsTracedTo after s _ (
        moved s m' (result_case format_time m'.current_state now r m')
          (run_state_machine_ends before m).2 p' c.1 c.2 (inl (sym c.0)))

  -- From a machine between two calls, whose signals tell how it came from the state `s` to the one
  -- that it is in, along the edges of the diagram: after any sequence of calls they still do. So every
  -- change of the state is along an edge and is signalled, in order, also where a call passes
  -- through several states.
  pub run_calls-IsTracedTo :
      (s : TestingState) (m : Machine Report) (cs : List (Call Report))
      → IsReady m
      → Trail s (signalled m.emitted) m.current_state
      → let n = run_calls format_time m cs in Trail s (signalled n.emitted) n.current_state
  unfolding run_calls
  run_calls-IsTracedTo s m [] v p = p
  run_calls-IsTracedTo s m (c ∷ cs) v p =
      run_calls-IsTracedTo s (step format_time m c) cs (step-IsReady format_time m c v)
        (step-IsTracedTo s m c v.stable p)
