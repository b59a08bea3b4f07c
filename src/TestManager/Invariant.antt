-- ===== src/TestManager/Invariant.antt =====
-- The machine of TestStateMachine.cpp under any sequence of calls: `*current_test` is read only
-- where there is a test.
use evse_test_system.Base.{
  ℕ, ◌≡◌, refl, Bool, true, false, List, [], ◌∷◌, ◌++◌, is_some, inl, inr, Bool-cases, arith,
}
use Prim.Native.String.{String}
use text.Mathlib.Text.{◌==◌ as str_eq}
use text.Mathlib.TextPositions.{eq_refl}
use evse_test_system.Types.{TestId, TestConstraints, TestState, V2gTestResult}
use evse_test_system.TestManager.Machine.{
  TestInstance, TestingState, disabled, idle, setup_test, running_test, Machine, Reading,
  LoopReadings, round, run_state_machine,
}
use evse_test_system.TestManager.Handlers.{
  find_instance, schedule_test, unschedule_test, set_enabled, process_heartbeat, main_thread_start,
  status_case, process_test_status, result_case, process_test_result,
}
use evse_test_system.TestManager.Loop.{run_state_machine_inv}

-- The calls of the machine's users. A call that runs the loop brings the readings of its rounds.
pub data Call (Report : Type 0) : Type 0 where
  start : Call Report
  tick : LoopReadings → Call Report
  schedule : String → TestId → TestConstraints → Call Report
  unschedule : String → Call Report
  enable : Bool → Call Report
  heartbeat : ℕ → Call Report
  status : LoopReadings → LoopReadings → TestState → Call Report
  result : LoopReadings → LoopReadings → ℕ → V2gTestResult Report → Call Report

abbrev pub needs_test : TestingState → Bool
needs_test disabled = false
needs_test idle = false
needs_test _ = true

find_instance_appended :
    (t : TestInstance) (ts : List TestInstance)
    → is_some (find_instance t.instance_id (ts ++ (t ∷ []))) ≡ true
find_instance_appended t [] = rw (eq_refl t.instance_id)
find_instance_appended t (x ∷ ts) = elim (Bool-cases (str_eq x.instance_id t.instance_id)) [
  | inl hit ↦ rw hit
  | inr miss ↦ rw miss (find_instance_appended t ts)
]

module _ {Report : Type 0} where
  pub record IsValid (m : Machine Report) : Type 0 where
    pub has_test : needs_test m.current_state ≡ true → is_some m.current_test ≡ true
    pub defined : m.undefined ≡ false

  round-IsValid_at :
      (r : Reading) (s : TestingState) (m : Machine Report)
      → m.current_state ≡ s
      → IsValid m
      → IsValid (round r m)
  unfolding round
  round-IsValid_at r disabled m e v = ground arith
  round-IsValid_at r idle m e v = ground arith
  round-IsValid_at r s m e v = ground arith

  pub round-IsValid : (r : Reading) (m : Machine Report) → IsValid m → IsValid (round r m)
  round-IsValid r m v = round-IsValid_at r m.current_state m refl v

  pub run_state_machine-IsValid :
      (readings : LoopReadings) (m : Machine Report)
      → IsValid m
      → IsValid (run_state_machine readings m)
  run_state_machine-IsValid readings m v =
      run_state_machine_inv IsValid round-IsValid (λ b m' k. ground arith) readings m v

  schedule_test-IsValid :
      (uuid : String) (test_id : TestId) (c : TestConstraints) (m : Machine Report)
      → IsValid m
      → IsValid (schedule_test uuid test_id c m)
  unfolding schedule_test
  schedule_test-IsValid uuid test_id c m v = ground (
    arith,
    find_instance_appended (record { instance_id = uuid; test_id = test_id; constraints = c })
        m.scheduled_tests,
  )

  pub status_case-IsValid :
      (s : TestingState) (st : TestState) (m : Machine Report)
      → m.current_state ≡ s
      → IsValid m
      → IsValid (status_case s st m)
  unfolding status_case
  status_case-IsValid setup_test st m e v = ground arith
  status_case-IsValid s st m e v = ground arith

  pub result_case-IsValid :
      (format_time : ℕ → String) (now : ℕ) (r : V2gTestResult Report) (s : TestingState)
      (m : Machine Report)
      → m.current_state ≡ s
      → IsValid m
      → IsValid (result_case format_time s now r m)
  unfolding result_case
  result_case-IsValid format_time now r running_test m e v = ground arith
  result_case-IsValid format_time now r s m e v = ground arith

  unschedule_test-IsValid :
      (i : String) (m : Machine Report) → IsValid m → IsValid (unschedule_test i m)
  unfolding unschedule_test
  unschedule_test-IsValid i m v = ground arith

  process_test_status-IsValid :
      (before after : LoopReadings) (s : TestState) (m : Machine Report)
      → IsValid m
      → IsValid (process_test_status before after s m)
  unfolding process_test_status
  process_test_status-IsValid before after s m v =
      let v' = run_state_machine-IsValid before m v in
      run_state_machine-IsValid after _ (status_case-IsValid _ s _ refl v')

  process_test_result-IsValid :
      (format_time : ℕ → String) (before after : LoopReadings) (now : ℕ) (r : V2gTestResult Report)
      (m : Machine Report)
      → IsValid m
      → IsValid (process_test_result format_time before after now r m)
  unfolding process_test_result
  process_test_result-IsValid format_time before after now r m v =
      let v' = run_state_machine-IsValid before m v in
      run_state_machine-IsValid after _ (result_case-IsValid format_time now r _ _ refl v')

module _ {Report : Type 0} (format_time : ℕ → String) where
  unfoldable pub step : Machine Report → Call Report → Machine Report
  step m start = main_thread_start m
  step m (tick readings) = run_state_machine readings m
  step m (schedule uuid test_id constraints) = schedule_test uuid test_id constraints m
  step m (unschedule i) = unschedule_test i m
  step m (enable b) = set_enabled b m
  step m (heartbeat now) = process_heartbeat now m
  step m (status before after s) = process_test_status before after s m
  step m (result before after now r) = process_test_result format_time before after now r m

  unfoldable pub run_calls : Machine Report → List (Call Report) → Machine Report
  run_calls m [] = m
  run_calls m (c ∷ cs) = run_calls (step m c) cs

  pub step-IsValid : (m : Machine Report) (c : Call Report) → IsValid m → IsValid (step m c)
  unfolding step main_thread_start set_enabled process_heartbeat
  step-IsValid m start v = ground arith
  step-IsValid m (tick readings) v = run_state_machine-IsValid readings m v
  step-IsValid m (schedule uuid test_id c) v = schedule_test-IsValid uuid test_id c m v
  step-IsValid m (unschedule i) v = unschedule_test-IsValid i m v
  step-IsValid m (enable b) v = ground arith
  step-IsValid m (heartbeat now) v = ground arith
  step-IsValid m (status before after s) v = process_test_status-IsValid before after s m v
  step-IsValid m (result before after now r) v =
      process_test_result-IsValid format_time before after now r m v

  -- From a machine that has a current test wherever its state needs one, every sequence of calls
  -- leads to such a machine, and `*current_test` is never read where there is no test. Each call
  -- runs to its end before the next one starts.
  pub run_calls-IsValid :
      (m : Machine Report) (cs : List (Call Report)) → IsValid m → IsValid (run_calls m cs)
  unfolding run_calls
  run_calls-IsValid m [] v = v
  run_calls-IsValid m (c ∷ cs) v = run_calls-IsValid (step m c) cs (step-IsValid m c v)
