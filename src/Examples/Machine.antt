-- ===== src/Examples/Machine.antt =====
-- Runs of the model of modules/EvseTestManager/TestStateMachine.cpp on concrete machines.
use evse_test_system.Base.{
  ℕ, ◌+◌, ◌≤◌, ◌≡◌, refl, length, ◌↔◌, true, false, Option, none, some, List, [], ◌∷◌, ◌++◌, arith,
}
use Prim.Native.String.{String}
use evse_test_system.Types.{
  session_setup_004, authorization_004, TestConstraints, running, finished, pass_criteria_met,
  V2gTestResult,
}
use evse_test_system.TestManager.Machine.{
  TestInstance, TestingState, idle, running_test, Machine, Reading, LoopReadings, rounds_for,
  store_enabled, loop, run_state_machine,
}
use evse_test_system.TestManager.Handlers.{schedule_enqueue, schedule_publish}
use evse_test_system.TestManager.Invariant.{
  Call, tick, schedule, heartbeat, status, result, IsValid, run_calls, run_calls-IsValid,
}
use evse_test_system.TestManager.Queue.{IsReady, started, arrivals, run_calls_fifo}
use evse_test_system.TestManager.Graph.{Trail, begun, signalled, run_calls-IsTracedTo}
use evse_test_system.TestManager.Loop.{is_stable, run_state_machine_ends}
use evse_test_system.TestManager.Timing.{
  Pulse, heard, checked, calls_of, KeepsUp, run_calls-KeepsUp, schedule_race,
}

abbrev no_constraints : TestConstraints
no_constraints = record { protocols = none; charge_modes = none; ident_modes = none }

abbrev first_test : TestInstance
first_test = record { instance_id = "a"; test_id = session_setup_004; constraints = no_constraints }

abbrev machine : TestingState → Option TestInstance → List TestInstance → Machine ℕ
machine s t q = record {
  enabled = true;
  scheduled_tests = q;
  current_test = t;
  current_state_started = 1000;
  current_test_started = 1000;
  last_v2g_heartbeat = 2000;
  current_state = s;
  last_state = s;
  last_state_detect_state_change = s;
  traffic_filepath = none;
  emitted = [];
  undefined = false;
}

abbrev reading_at : ℕ → ℕ → Reading
reading_at t _ = record { now = t; capture_path = none }

abbrev at : ℕ → LoopReadings
at t = record { reading = reading_at t; writes = [] }

abbrev idle_machine : Machine ℕ
idle_machine = machine idle none []

abbrev busy_machine : Machine ℕ
busy_machine = machine running_test (some first_test) []

abbrev verdict : V2gTestResult ℕ
verdict = record {
  outcome = pass_criteria_met;
  context = record {
    start_timestamp = none;
    end_timestamp = none;
    protocol = none;
    charge_mode = none;
    ident_mode = none;
  };
  evidence = [];
  reports = 7 ∷ [];
  errors = [];
}

-- Two tests are scheduled; the first is set up, runs and finishes, and the second is set up.
abbrev two_tests : List (Call ℕ)
two_tests =
    schedule "a" session_setup_004 no_constraints
    ∷ schedule "b" authorization_004 no_constraints
    ∷ tick (at 3000)
    ∷ status (at 4000) (at 4000) running
    ∷ heartbeat 5000
    ∷ result (at 6000) (at 6000) 6000 verdict
    ∷ status (at 7000) (at 7000) finished
    ∷ tick (at 9000000000)
    ∷ tick (at 9500000000)
    ∷ []

idle-IsValid : IsValid idle_machine
idle-IsValid = record { has_test = λ h. ground arith; defined = refl }

busy-IsValid : IsValid busy_machine
busy-IsValid = record { has_test = λ h. refl; defined = refl }

idle-IsReady : IsReady idle_machine
idle-IsReady = record { valid = idle-IsValid; stable = refl }

busy-IsReady : IsReady busy_machine
busy-IsReady = record { valid = busy-IsValid; stable = refl }

-- One minute after the last heartbeat.
abbrev late_reading : ℕ → Reading
late_reading = reading_at 60000002000

abbrev late : LoopReadings
late = at 60000002000

abbrev format : ℕ → String
format _ = "2024-01-01"

run_calls-IsValid_example : IsValid (run_calls format idle_machine two_tests)
run_calls-IsValid_example = run_calls-IsValid format idle_machine two_tests idle-IsValid

run_calls_fifo_example :
    started (run_calls format idle_machine two_tests).emitted
      ++ (run_calls format idle_machine two_tests).scheduled_tests
    ≡ (started idle_machine.emitted ++ idle_machine.scheduled_tests) ++ arrivals two_tests
run_calls_fifo_example = run_calls_fifo format idle_machine two_tests idle-IsReady refl

run_calls-IsTracedTo_example :
    Trail idle
      (signalled (run_calls format idle_machine two_tests).emitted)
      (run_calls format idle_machine two_tests).current_state
run_calls-IsTracedTo_example =
    run_calls-IsTracedTo format idle idle_machine two_tests idle-IsReady begun

-- In the first round the machine finds itself disabled by another thread.
abbrev interrupted : LoopReadings
interrupted = record { reading = late_reading; writes = some false ∷ none ∷ [] }

run_state_machine_ends_example :
    (k : ℕ) × (loop
        (rounds_for interrupted.writes)
        interrupted.reading
        interrupted.writes
        0
        busy_machine
      ≡ some (k, run_state_machine interrupted busy_machine))
    × (is_stable (run_state_machine interrupted busy_machine) ≡ true)
    × (k ≤ length interrupted.writes + 3)
run_state_machine_ends_example = run_state_machine_ends interrupted busy_machine

-- A heartbeat, a run of the loop in time, and one a minute later.
abbrev pulses : List Pulse
pulses = heard 3000 ∷ checked (reading_at 4000) ∷ checked late_reading ∷ []

run_calls-KeepsUp_example :
    ((run_calls format busy_machine (calls_of pulses)).current_state ≡ running_test)
    ↔ KeepsUp busy_machine.last_v2g_heartbeat pulses
run_calls-KeepsUp_example = run_calls-KeepsUp format busy_machine pulses busy-IsReady refl refl

schedule_race_example :
    (schedule_publish first_test.instance_id
      (run_state_machine late (schedule_enqueue first_test idle_machine))).undefined
    ≡ true
unfolding store_enabled
schedule_race_example = schedule_race late first_test idle_machine idle-IsReady refl refl refl
