-- ===== src/TestManager/Handlers.antt =====
-- The operations of TestStateMachine.cpp that other threads call: scheduling, the heartbeat, and
-- the status and result messages of the V2G module. Each holds `state_machine_mutex`, but for the
-- publishing at the end of `schedule_test` and `unschedule_test`, which are steps of their own here.
use evse_test_system.Base.{ℕ, Bool, List, [], ◌∷◌, ◌++◌, Option, none, some, if◌then◌else◌}
use Prim.Native.String.{String}
use text.Mathlib.Text.{◌==◌ as str_eq}
use evse_test_system.Types.{
  TestId, TestConstraints, TestState, queued, running, canceled, finished, V2gTestResult,
}
use evse_test_system.TestManager.Machine.{
  TestInstance, TestingState, setup_test, running_test, cancel_test, cleanup_test, Machine,
  LoopReadings, scheduled_signal, unscheduled_signal, result_signal, state_signal, emit, with_test,
  publish_test_status, run_state_machine,
}

-- The lookups of `std::find_if` by instance id, and the `erase` of what is found.
abbrev pub find_instance : String → List TestInstance → Option TestInstance
find_instance i [] = none
find_instance i (t ∷ ts) = if str_eq t.instance_id i then some t else find_instance i ts

abbrev pub erase_instance : String → List TestInstance → List TestInstance
erase_instance i [] = []
erase_instance i (t ∷ ts) = if str_eq t.instance_id i then ts else t ∷ erase_instance i ts

module _ {Report : Type 0} where
  -- The part of `schedule_test` under the mutex; `id` is the new UUID.
  unfoldable pub schedule_enqueue : TestInstance → Machine Report → Machine Report
  schedule_enqueue t m = record m { scheduled_tests = m.scheduled_tests ++ (t ∷ []) }

  -- What follows with the mutex released: the reference that `emplace_back` returned is read twice.
  -- It dangles once the instance has left the deque.
  unfoldable pub schedule_publish : String → Machine Report → Machine Report
  schedule_publish i m =
      with_test (find_instance i m.scheduled_tests)
        (λ t m'. publish_test_status queued t (emit (scheduled_signal t) m')) m

  unfoldable pub schedule_test : String → TestId → TestConstraints → Machine Report → Machine Report
  unfolding schedule_enqueue schedule_publish
  schedule_test uuid test_id constraints m = schedule_publish uuid (
      schedule_enqueue (record { instance_id = uuid; test_id = test_id; constraints = constraints })
        m)

  abbrev publish_unscheduled : Option TestInstance → Machine Report → Machine Report
  publish_unscheduled none m = m
  publish_unscheduled (some t) m = publish_test_status canceled t (emit (unscheduled_signal t) m)

  -- A copy is published here, so the two parts need not be kept apart.
  unfoldable pub unschedule_test : String → Machine Report → Machine Report
  unschedule_test i m =
      publish_unscheduled (find_instance i m.scheduled_tests)
        (record m { scheduled_tests = erase_instance i m.scheduled_tests })

  unfoldable pub set_enabled : Bool → Machine Report → Machine Report
  set_enabled b m = record m { enabled = b }

  unfoldable pub process_heartbeat : ℕ → Machine Report → Machine Report
  process_heartbeat now m = record m { last_v2g_heartbeat = now }

  -- The first thing that `main_thread` does; its ticks are calls of `run_state_machine`.
  unfoldable pub main_thread_start : Machine Report → Machine Report
  main_thread_start m = emit (state_signal m.current_state) m

  -- The `switch` of `process_test_status`.
  unfoldable pub status_case : TestingState → TestState → Machine Report → Machine Report
  status_case setup_test running m =
      with_test m.current_test (publish_test_status running)
        (record m { current_state = running_test })
  status_case running_test finished m =
      with_test m.current_test (publish_test_status finished)
        (record m { current_state = cleanup_test })
  status_case running_test canceled m =
      with_test m.current_test (publish_test_status canceled)
        (record m { current_state = cleanup_test })
  status_case cancel_test finished m =
      with_test m.current_test (publish_test_status finished)
        (record m { current_state = cleanup_test })
  status_case cancel_test canceled m =
      with_test m.current_test (publish_test_status canceled)
        (record m { current_state = cleanup_test })
  status_case _ _ m = m

  unfoldable pub process_test_status :
      LoopReadings → LoopReadings → TestState → Machine Report → Machine Report
  process_test_status before after status m =
      let m' = run_state_machine before m in
      run_state_machine after (status_case m'.current_state status m')

  module _ (format_time : ℕ → String) where
    -- `now` is the clock's reading for the end timestamp.
    abbrev publish_test_result :
        ℕ → V2gTestResult Report → TestInstance → Machine Report → Machine Report
    publish_test_result now result t m =
        emit
          (result_signal (record {
            run_id = t.instance_id;
            test_id = t.test_id;
            outcome = result.outcome;
            context = record {
              start_timestamp = some (format_time m.current_test_started);
              end_timestamp = some (format_time now);
              protocol = result.context.protocol;
              charge_mode = result.context.charge_mode;
              ident_mode = result.context.ident_mode;
            };
            evidence = result.evidence;
            reports = result.reports;
            errors = result.errors;
            pcap_file_path = m.traffic_filepath;
          }))
          m

    -- The `switch` of `process_test_result`.
    unfoldable pub result_case :
        TestingState → ℕ → V2gTestResult Report → Machine Report → Machine Report
    result_case running_test now result m =
        with_test m.current_test (publish_test_result now result) m
    result_case cancel_test now result m =
        with_test m.current_test (publish_test_result now result) m
    result_case _ now result m = m

    unfoldable pub process_test_result :
        LoopReadings → LoopReadings → ℕ → V2gTestResult Report → Machine Report → Machine Report
    process_test_result before after now result m =
        let m' = run_state_machine before m in
        run_state_machine after (result_case m'.current_state now result m')
