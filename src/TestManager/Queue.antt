-- ===== src/TestManager/Queue.antt =====
-- The queue of TestStateMachine.cpp: tests are set up in the order in which they were scheduled.
use evse_test_system.Base.{
  ℕ, ◌≡◌, refl, sym, ap, ◌∙◌, Bool, true, false, List, [], ◌∷◌, ◌++◌, Option, some, arith, inl, inr,
  Option-cases,
}
use mathlib.Core.List.{append_assoc, append-nil}
use Prim.Native.String.{String}
use evse_test_system.Types.{TestId, TestConstraints, TestState, V2gTestResult}
use evse_test_system.TestManager.Machine.{
  TestInstance, TestingState, disabled, idle, setup_test, running_test, Signal, setup_signal,
  Machine, Reading, LoopReadings, round, run_state_machine,
}
use evse_test_system.TestManager.Handlers.{
  erase_instance, schedule_test, unschedule_test, set_enabled, process_heartbeat, main_thread_start,
  status_case, process_test_status, result_case, process_test_result,
}
use evse_test_system.TestManager.Loop.{is_stable, run_state_machine_inv, run_state_machine_ends}
use evse_test_system.TestManager.Invariant.{
  IsValid, round-IsValid, run_state_machine-IsValid, step-IsValid, status_case-IsValid,
  result_case-IsValid, Call, start, tick, schedule, unschedule, enable, heartbeat, status, result,
  step, run_calls,
}

-- The test that was taken from the queue and whose setup the next round signals.
abbrev pub pending : TestingState → Bool → Option TestInstance → List TestInstance
pending setup_test false (some t) = t ∷ []
pending _ _ _ = []

module _ {Report : Type 0} where
  -- The tests whose setup was signalled, oldest first.
  abbrev pub started : List (Signal Report) → List TestInstance
  started [] = []
  started (setup_signal t ∷ log) = started log ++ (t ∷ [])
  started (_ ∷ log) = started log

  abbrev pub waiting : Machine Report → List TestInstance
  waiting m = pending m.current_state (is_stable m) m.current_test ++ m.scheduled_tests

  round-account :
      (r : Reading) (s : TestingState) (m : Machine Report)
      → m.current_state ≡ s
      → IsValid m
      → started (round r m).emitted ++ waiting (round r m) ≡ started m.emitted ++ waiting m
  unfolding round
  round-account r disabled m e v = ground arith
  round-account r idle m e v = ground arith
  round-account r setup_test m e v = elim (Option-cases m.current_test) [
    | inl missing ↦ ground arith
    | inr (t, found) ↦ ground (arith, append_assoc (started m.emitted) (t ∷ []) m.scheduled_tests)
  ]
  round-account r s m e v = ground arith

  -- All tests that were set up or wait, in order.
  abbrev pub account : Machine Report → List TestInstance
  account m = started m.emitted ++ waiting m

  run_state_machine-account :
      (readings : LoopReadings) (m : Machine Report)
      → IsValid m
      → account (run_state_machine readings m) ≡ account m
  run_state_machine-account readings m v =
      (run_state_machine_inv (λ m'. IsValid m' × (account m' ≡ account m))
        (λ r m' p. (round-IsValid r m' p.0, round-account r m'.current_state m' refl p.0 ∙ p.1))
        (λ b m' p. (ground arith, ground arith)) readings m (v, refl)).1

  -- Between two calls the machine is valid and has no change of state left to handle.
  pub record IsReady (m : Machine Report) : Type 0 where
    pub valid : IsValid m
    pub stable : is_stable m ≡ true

  run_state_machine-IsReady :
      (readings : LoopReadings) (m : Machine Report)
      → IsValid m
      → IsReady (run_state_machine readings m)
  run_state_machine-IsReady readings m v = record {
    valid = run_state_machine-IsValid readings m v;
    stable = (run_state_machine_ends readings m).2;
  }

  status_case-account :
      (s : TestingState) (st : TestState) (m : Machine Report)
      → m.current_state ≡ s
      → IsReady m
      → account (status_case s st m) ≡ account m
  unfolding status_case
  status_case-account setup_test st m e v = ground arith
  status_case-account s st m e v = ground arith

  result_case-account :
      (format_time : ℕ → String) (now : ℕ) (r : V2gTestResult Report) (s : TestingState)
      (m : Machine Report)
      → IsReady m
      → account (result_case format_time s now r m) ≡ account m
  unfolding result_case
  result_case-account format_time now r running_test m v = ground arith
  result_case-account format_time now r s m v = ground arith

  abbrev pub arrivals : List (Call Report) → List TestInstance
  arrivals [] = []
  arrivals (schedule uuid test_id constraints ∷ cs) =
      record { instance_id = uuid; test_id = test_id; constraints = constraints } ∷ arrivals cs
  arrivals (_ ∷ cs) = arrivals cs

  abbrev pub no_unschedule : List (Call Report) → Bool
  no_unschedule [] = true
  no_unschedule (unschedule i ∷ cs) = false
  no_unschedule (_ ∷ cs) = no_unschedule cs

module _ {Report : Type 0} where
  schedule_test-queue :
      (uuid : String) (test_id : TestId) (c : TestConstraints) (m : Machine Report)
      → (is_stable (schedule_test uuid test_id c m) ≡ is_stable m)
        × (account (schedule_test uuid test_id c m)
            ≡ account m ++ (record { instance_id = uuid; test_id = test_id; constraints = c } ∷ []))
  unfolding schedule_test
  schedule_test-queue uuid test_id c m = (
    ground arith,
    ground (
      arith,
      append_assoc (started m.emitted) (waiting m)
          (record { instance_id = uuid; test_id = test_id; constraints = c } ∷ []),
      append_assoc (pending m.current_state (is_stable m) m.current_test) m.scheduled_tests
          (record { instance_id = uuid; test_id = test_id; constraints = c } ∷ []),
    ),
  )

  -- Withdrawing a test takes its first instance out of the queue, and touches nothing that was
  -- started.
  unschedule_test-queue :
      (i : String) (m : Machine Report)
      → (started (unschedule_test i m).emitted ≡ started m.emitted)
        × ((unschedule_test i m).scheduled_tests ≡ erase_instance i m.scheduled_tests)
        × (is_stable (unschedule_test i m) ≡ is_stable m)
  unfolding unschedule_test
  unschedule_test-queue i m = (ground arith, ground arith, ground arith)

  process_test_status-account :
      (before after : LoopReadings) (s : TestState) (m : Machine Report)
      → IsValid m
      → IsReady (process_test_status before after s m)
        × (account (process_test_status before after s m) ≡ account m)
  unfolding process_test_status
  process_test_status-account before after s m v =
      let m' = run_state_machine before m in
      let v' : IsReady m' = run_state_machine-IsReady before m v in
      let w = status_case-IsValid m'.current_state s m' refl v'.valid in
      (
        run_state_machine-IsReady after _ w,
        run_state_machine-account after _ w
            ∙ (status_case-account m'.current_state s m' refl v'
                ∙ run_state_machine-account before m v),
      )

  process_test_result-account :
      (format_time : ℕ → String) (before after : LoopReadings) (now : ℕ) (r : V2gTestResult Report)
      (m : Machine Report)
      → IsValid m
      → IsReady (process_test_result format_time before after now r m)
        × (account (process_test_result format_time before after now r m) ≡ account m)
  unfolding process_test_result
  process_test_result-account format_time before after now r m v =
      let m' = run_state_machine before m in
      let v' : IsReady m' = run_state_machine-IsReady before m v in
      let w = result_case-IsValid format_time now r m'.current_state m' refl v'.valid in
      (
        run_state_machine-IsReady after _ w,
        run_state_machine-account after _ w
            ∙ (result_case-account format_time now r m'.current_state m' v'
                ∙ run_state_machine-account before m v),
      )

module _ {Report : Type 0} (format_time : ℕ → String) where
  pub step-IsReady :
      (m : Machine Report) (c : Call Report) → IsReady m → IsReady (step format_time m c)
  unfolding step main_thread_start set_enabled process_heartbeat
  step-IsReady m start v = ground arith
  step-IsReady m (tick readings) v = run_state_machine-IsReady readings m v.valid
  step-IsReady m (schedule uuid test_id c) v = record {
    valid = step-IsValid format_time m (schedule uuid test_id c) v.valid;
    stable = (schedule_test-queue uuid test_id c m).0 ∙ v.stable;
  }
  step-IsReady m (unschedule i) v = record {
    valid = step-IsValid format_time m (unschedule i) v.valid;
    stable = (unschedule_test-queue i m).2 ∙ v.stable;
  }
  step-IsReady m (enable b) v = ground arith
  step-IsReady m (heartbeat now) v = ground arith
  step-IsReady m (status before after s) v =
      (process_test_status-account before after s m v.valid).0
  step-IsReady m (result before after now r) v =
      (process_test_result-account format_time before after now r m v.valid).0

  step-account :
      (m : Machine Report) (c : Call Report) (cs : List (Call Report))
      → IsReady m
      → no_unschedule (c ∷ cs) ≡ true
      → (account (step format_time m c) ++ arrivals cs ≡ account m ++ arrivals (c ∷ cs))
        × (no_unschedule cs ≡ true)
  unfolding step main_thread_start set_enabled process_heartbeat
  step-account m start cs v h = (refl, h)
  step-account m (tick readings) cs v h = (rw (run_state_machine-account readings m v.valid), h)
  step-account m (schedule uuid test_id c) cs v h =
      (rw ((schedule_test-queue uuid test_id c m).1) (append_assoc (account m) _ (arrivals cs)), h)
  step-account m (unschedule i) cs v h = absurd (cc)
  step-account m (enable b) cs v h = (refl, h)
  step-account m (heartbeat now) cs v h = (refl, h)
  step-account m (status before after s) cs v h =
      (rw ((process_test_status-account before after s m v.valid).1), h)
  step-account m (result before after now r) cs v h =
      (rw ((process_test_result-account format_time before after now r m v.valid).1), h)

  run_calls-account :
      (m : Machine Report) (cs : List (Call Report))
      → IsReady m
      → no_unschedule cs ≡ true
      → IsReady (run_calls format_time m cs)
        × (account (run_calls format_time m cs) ≡ account m ++ arrivals cs)
  unfolding run_calls
  run_calls-account m [] v h = (v, sym (append-nil (account m)))
  run_calls-account m (c ∷ cs) v h =
      let (e, h') = step-account m c cs v h in
      let (v', e') = run_calls-account (step format_time m c) cs (step-IsReady m c v) h' in
      (v', e' ∙ e)

  ready-waiting : (m : Machine Report) → IsReady m → waiting m ≡ m.scheduled_tests
  ready-waiting m v = ground arith

  -- From a machine between two calls, over every sequence of calls that withdraws no test: the
  -- tests whose setup was signalled, followed by those still queued, are the same list as before,
  -- followed by the tests scheduled meanwhile. So tests are set up first in, first out, none is
  -- lost, and none is set up twice.
  pub run_calls_fifo :
      (m : Machine Report) (cs : List (Call Report))
      → IsReady m
      → no_unschedule cs ≡ true
      → started (run_calls format_time m cs).emitted ++ (run_calls format_time m cs).scheduled_tests
        ≡ (started m.emitted ++ m.scheduled_tests) ++ arrivals cs
  run_calls_fifo m cs v h =
      let (v', e) = run_calls-account m cs v h in
      sym (ap (◌++◌ (started (run_calls format_time m cs).emitted)) (ready-waiting _ v'))
      ∙ (e ∙ ap (λ q. (started m.emitted ++ q) ++ arrivals cs) (ready-waiting m v))
