-- ===== src/TestManager/Machine.antt =====
-- modules/EvseTestManager/TestStateMachine.cpp and .hpp. A method returns the new machine; the
-- signals that it emits are added to the front of `emitted`. Time points are nanoseconds since the
-- epoch. A comparison of a difference of times with a positive bound is exact under truncated `-`,
-- since a negative difference is never above the bound.
use evse_test_system.Base.{
  ℕ, suc, ◌-◌, ◌*◌, ◌/◌, Bool, true, false, not, List, [], ◌∷◌, Option, none, some, ltb,
  if◌then◌else◌,
}
use Prim.Native.String.{String}
use evse_test_system.Types.{TestId, TestConstraints, TestState, canceled, TestOutcome, RunContext}

pub record TestInstance : Type 0 where
  pub instance_id : String
  pub test_id : TestId
  pub constraints : TestConstraints

pub data TestingState : Type 0 where
  disabled idle setup_test running_test cancel_test cleanup_test : TestingState

pub TestingState-discrete : Discrete TestingState
TestingState-discrete = hlevel

-- `==` on the enumeration.
abbrev pub same_state : TestingState → TestingState → Bool
same_state disabled disabled = true
same_state idle idle = true
same_state setup_test setup_test = true
same_state running_test running_test = true
same_state cancel_test cancel_test = true
same_state cleanup_test cleanup_test = true
same_state _ _ = false

-- The types of types/evse_test_manager.yaml.
pub record TestStatus : Type 0 where
  pub run_id : String
  pub test_id : TestId
  pub status : TestState

pub record TestResult (Report : Type 0) : Type 0 where
  pub run_id : String
  pub test_id : TestId
  pub outcome : TestOutcome
  pub context : RunContext
  pub evidence : List String
  pub reports : List Report
  pub errors : List String
  pub pcap_file_path : Option String

-- What the machine tells its listeners, and its calls of the packet sniffer.
pub data Signal (Report : Type 0) : Type 0 where
  state_signal : TestingState → Signal Report
  scheduled_signal unscheduled_signal : TestInstance → Signal Report
  setup_signal cancel_signal cleanup_signal : TestInstance → Signal Report
  status_signal : TestStatus → Signal Report
  result_signal : TestResult Report → Signal Report
  start_capture : String → Signal Report
  stop_capture : Signal Report

pub record Machine (Report : Type 0) : Type 0 where
  pub enabled : Bool
  pub scheduled_tests : List TestInstance
  pub current_test : Option TestInstance
  pub current_state_started : ℕ
  pub current_test_started : ℕ
  pub last_v2g_heartbeat : ℕ
  pub current_state : TestingState
  pub last_state : TestingState
  pub last_state_detect_state_change : TestingState
  pub traffic_filepath : Option String
  pub emitted : List (Signal Report)
  -- Set when an empty `current_test` or a dangling reference is read, which is undefined behaviour.
  pub undefined : Bool

-- What one round of the loop reads from outside: the clock, and the path that the sniffer returns.
pub record Reading : Type 0 where
  pub now : ℕ
  pub capture_path : Option String

-- What a run of the loop meets. `state_machine_enabled` is an atomic that `set_enabled` writes without
-- the mutex; a round reads it at most once. `writes` holds, for each round from the first on, the
-- value that was stored since the last reading, if one was; after its end nothing is stored.
pub record LoopReadings : Type 0 where
  pub reading : ℕ → Reading
  pub writes : List (Option Bool)

abbrev pub next_write : List (Option Bool) → Option Bool
next_write [] = none
next_write (w ∷ _) = w

abbrev pub later_writes : List (Option Bool) → List (Option Bool)
later_writes [] = []
later_writes (_ ∷ ws) = ws

-- The rounds that `Loop` shows to be enough: three after the last write.
unfoldable pub rounds_for : List (Option Bool) → ℕ
rounds_for [] = 3
rounds_for (_ ∷ ws) = suc (rounds_for ws)

abbrev pub heartbeat_timeout : ℕ
heartbeat_timeout = 20 * 1000000000

abbrev pub cancellation_timeout : ℕ
cancellation_timeout = 10 * 1000

abbrev pub cleanup_wait : ℕ
cleanup_wait = 10000

module _ {Report : Type 0} where
  abbrev pub emit : Signal Report → Machine Report → Machine Report
  emit s m = record m { emitted = s ∷ m.emitted }

  -- `*current_test`: undefined behaviour where there is none.
  abbrev pub with_test :
      Option TestInstance
      → (TestInstance → Machine Report → Machine Report)
      → Machine Report
      → Machine Report
  with_test none f m = record m { undefined = true }
  with_test (some t) f m = f t m

  abbrev pub publish_test_status : TestState → TestInstance → Machine Report → Machine Report
  publish_test_status s t =
      emit (status_signal (record { run_id = t.instance_id; test_id = t.test_id; status = s }))

  -- The dequeue of `case Idle`.
  idle_case : List TestInstance → Machine Report → Machine Report
  idle_case [] m = if not m.enabled then record m { current_state = disabled } else m
  idle_case (t ∷ rest) m =
      if not m.enabled
      then record m { current_state = disabled }
      else record m { current_test = some t; scheduled_tests = rest; current_state = setup_test }

  setup_case : Reading → Bool → Machine Report → Machine Report
  setup_case r init m =
      if init
      then with_test m.current_test
          (λ t m'. record (emit (start_capture t.instance_id) (emit (setup_signal t) m')) {
            traffic_filepath = r.capture_path;
          })
          m
      else m

  running_case : Reading → Bool → Machine Report → Machine Report
  running_case r init m =
      let m' =
        if init then record m { current_test_started = r.now; last_v2g_heartbeat = r.now } else m in
      if not m'.enabled
      then m'
      else if ltb heartbeat_timeout (r.now - m'.last_v2g_heartbeat)
      then record m' { current_state = cancel_test }
      else m'

  cancel_case : ℕ → Bool → Machine Report → Machine Report
  cancel_case time init m =
      let m' = if init then with_test m.current_test (λ t. emit (cancel_signal t)) m else m in
      if ltb cancellation_timeout time
      then record (with_test m'.current_test (publish_test_status canceled) m') {
        current_state = cleanup_test;
      }
      else m'

  cleanup_case : ℕ → Bool → Machine Report → Machine Report
  cleanup_case time init m =
      let m' =
        if init
        then emit stop_capture (with_test m.current_test (λ t. emit (cleanup_signal t)) m)
        else m in
      if ltb cleanup_wait time then record m' { current_state = idle } else m'

  -- The `switch` of the loop; `time` is the time in the current state, in milliseconds.
  state_case : TestingState → Reading → ℕ → Bool → Machine Report → Machine Report
  state_case disabled r time init m = if m.enabled then record m { current_state = idle } else m
  state_case idle r time init m = idle_case m.scheduled_tests m
  state_case setup_test r time init m = setup_case r init m
  state_case running_test r time init m = running_case r init m
  state_case cancel_test r time init m = cancel_case time init m
  state_case cleanup_test r time init m = cleanup_case time init m

  -- What a round does before the `switch`: detect a change, and restart the state's clock.
  enter_round : Reading → Bool → Machine Report → Machine Report
  enter_round r init m =
      let m' = record m {
        last_state = m.last_state_detect_state_change;
        last_state_detect_state_change = m.current_state;
      } in
      if init
      then emit (state_signal m'.current_state) (record m' { current_state_started = r.now })
      else m'

  -- One round of the do-while loop of `run_state_machine`.
  unfoldable pub round : Reading → Machine Report → Machine Report
  unfolding enter_round state_case idle_case setup_case running_case cancel_case cleanup_case
  round r m =
      let init = not (same_state m.last_state_detect_state_change m.current_state) in
      let m' = enter_round r init m in
      let time = (r.now - m'.current_state_started) / 1000000 in
      state_case m.current_state r time init m'

  -- What another thread stores in `state_machine_enabled`.
  unfoldable pub store_enabled : Option Bool → Machine Report → Machine Report
  store_enabled none m = m
  store_enabled (some b) m = record m { enabled = b }

  -- The loop with fuel: the number of rounds made, and the machine after them. `none` means that
  -- the fuel ran out. The clock of the round after this one is read from the rest of the readings.
  unfoldable pub loop :
      ℕ → (ℕ → Reading) → List (Option Bool) → ℕ → Machine Report → Option (ℕ × Machine Report)
  unfolding store_enabled
  loop ℕ.zero reading writes runs m = none
  loop (suc fuel) reading writes runs m =
      let m' = round (reading runs) (store_enabled (next_write writes) m) in
      let rest = loop fuel reading (later_writes writes) (suc runs) m' in
      if same_state m'.last_state_detect_state_change m'.current_state
      then some (suc runs, m')
      else rest

  abbrev pub after : Machine Report → Option (ℕ × Machine Report) → Machine Report
  after m none = m
  after m (some (runs, m')) = m'

  -- `run_state_machine`, with the fuel that `Loop` shows to be enough.
  unfoldable pub run_state_machine : LoopReadings → Machine Report → Machine Report
  unfolding rounds_for
  run_state_machine readings m =
      after m (loop (rounds_for readings.writes) readings.reading readings.writes 0 m)
