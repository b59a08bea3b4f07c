-- ===== src/TestManager/Evse.antt =====
-- modules/EvseTestManager/evse/evse_test_managerImpl.cpp: the module that answers the machine's
-- signals by calls of the charger, the V2G module and the simulated EV.
use evse_test_system.Base.{
  ℕ, ◌≡◌, ◌⊎◌, refl, Bool, true, false, not, ◌&&◌, List, ◌∷◌, Option, none, some, is_some, ◌==◌,
  if◌then◌else◌, arith,
}
use Prim.Native.String.{String}
use text.Mathlib.Text.{find?}
use evse_test_system.Types.{TestId, TestConstraints}
use evse_test_system.TestManager.Machine.{
  TestInstance, Signal, setup_signal, cancel_signal, cleanup_signal,
}

-- `Enable_source` of the charger's interface; only LocalAPI is told apart.
pub data EnableSource : Type 0 where
  local_api : EnableSource
  other_source : ℕ → EnableSource

pub record EnableDisableSource : Type 0 where
  pub enable_source : EnableSource
  pub enable_state : Bool
  pub enable_priority : ℕ

abbrev pub evse_enable_disable_priority : ℕ
evse_enable_disable_priority = 1234

-- The topics of the simulation's macros, by the connector that they name.
pub data Topic : Type 0 where
  execute_charging_session modify_charging_session : ℕ → Topic

-- The calls that the module makes.
pub data Action : Type 0 where
  set_test_context : TestId → TestConstraints → Action
  call_cancel_test : Action
  enable_disable : ℕ → EnableDisableSource → Action
  publish : Topic → String → Action
  set_machine_enabled : Bool → Action

pub record Manager : Type 0 where
  pub connector_id : ℕ
  pub simulated_ev_connection_payload : Option String
  pub ignore_next_simulated_ev_unplug : Bool
  -- The calls made, newest first.
  pub actions : List Action

abbrev call : Action → Manager → Manager
call a m = record m { actions = a ∷ m.actions }

pub is_own_enable_source : EnableDisableSource → Bool
is_own_enable_source s =
    elim s.enable_source [ local_api ↦ true | other_source n ↦ false ]
    && s.enable_priority == evse_enable_disable_priority

abbrev pub own_source : Bool → EnableDisableSource
own_source b = record {
  enable_source = local_api;
  enable_state = b;
  enable_priority = evse_enable_disable_priority;
}

enable_evse : Manager → Manager
enable_evse m = call (enable_disable m.connector_id (own_source true)) m

disable_evse : Manager → Manager
disable_evse m = call (enable_disable m.connector_id (own_source false)) m

abbrev pub unplug_payload : String
unplug_payload = "iso_stop_charging;iso_wait_v2g_session_stopped;unplug"

simulate_ev_plugin : Manager → Manager
simulate_ev_plugin m = elim m.simulated_ev_connection_payload [
  | none ↦ m
  | some payload ↦ call (publish (execute_charging_session m.connector_id) payload) m
]

simulate_ev_unplug : Manager → Manager
simulate_ev_unplug m = elim m.simulated_ev_connection_payload [
  | none ↦ m
  | some payload ↦
      call (publish (modify_charging_session m.connector_id) unplug_payload)
        (record m { ignore_next_simulated_ev_unplug = true })
]

pub setup_test : TestInstance → Manager → Manager
unfolding enable_evse simulate_ev_plugin
setup_test t m =
    simulate_ev_plugin (enable_evse (call (set_test_context t.test_id t.constraints) m))

pub cancel_test : TestInstance → Manager → Manager
cancel_test t m = call call_cancel_test m

pub cleanup_test : TestInstance → Manager → Manager
unfolding disable_evse simulate_ev_unplug
cleanup_test t m = disable_evse (simulate_ev_unplug m)

-- The listeners that `ready` connects to the machine's signals; the others publish what they get.
pub on_signal : {Report : Type 0} → Signal Report → Manager → Manager
unfolding setup_test cancel_test cleanup_test
on_signal (setup_signal t) m = setup_test t m
on_signal (cancel_signal t) m = cancel_test t m
on_signal (cleanup_signal t) m = cleanup_test t m
on_signal _ m = m

-- The listener of the topic on which a plug-in is commanded.
pub on_execute_charge : String → Manager → Manager
on_execute_charge payload m =
    if is_some (find? payload "iso_wait_slac_matched")
    then record m { simulated_ev_connection_payload = some payload }
    else m

-- The listener of the topic on which an unplug is commanded.
pub on_modify_charge : String → Manager → Manager
on_modify_charge payload m =
    if is_some (find? payload "unplug")
    then if not m.ignore_next_simulated_ev_unplug
      then record m { simulated_ev_connection_payload = none }
      else record m { ignore_next_simulated_ev_unplug = false }
    else m

-- The session events of the charger that carry a source; the others change nothing.
pub data SessionEvent : Type 0 where
  enabled_event disabled_event : EnableDisableSource → SessionEvent
  other_event : SessionEvent

unfoldable pub on_session_event : SessionEvent → Manager → Manager
unfolding is_own_enable_source disable_evse
on_session_event (enabled_event s) m =
    if not (is_own_enable_source s) then call (set_machine_enabled true) (disable_evse m) else m
on_session_event (disabled_event s) m =
    if not (is_own_enable_source s) then call (set_machine_enabled false) m else m
on_session_event other_event m = m

own_unplug : is_some (find? unplug_payload "unplug") ≡ true
own_unplug = refl

-- With a simulated EV plugged in, the unplug that a cleanup publishes comes back on the same topic
-- and is ignored: the plug-in payload is kept for the next test. The next unplug command, which is
-- the user's, forgets it.
cleanup_loopback :
    (t : TestInstance) (m : Manager) (p q : String)
    → m.simulated_ev_connection_payload ≡ some p
    → is_some (find? q "unplug") ≡ true
    → ((on_modify_charge unplug_payload (cleanup_test t m)).simulated_ev_connection_payload
        ≡ some p)
      × ((on_modify_charge q
            (on_modify_charge unplug_payload (cleanup_test t m))).simulated_ev_connection_payload
          ≡ none)
unfolding on_modify_charge cleanup_test
cleanup_loopback t m p q h u = (ground (arith, own_unplug), ground (arith, own_unplug))

-- The events that the module's own calls of the charger cause change nothing. An enabling from
-- outside disables the charger first and then lets the tests run; a disabling from outside stops
-- them, and the charger is left alone.
on_session_event_cases :
    (m : Manager) (s : EnableDisableSource)
    → ((is_own_enable_source s ≡ true)
        × (on_session_event (enabled_event s) m ≡ m)
        × (on_session_event (disabled_event s) m ≡ m))
      ⊎ ((is_own_enable_source s ≡ false)
          × ((on_session_event (enabled_event s) m).actions
              ≡ set_machine_enabled true
                ∷ enable_disable m.connector_id (own_source false)
                ∷ m.actions)
          × ((on_session_event (disabled_event s) m).actions
              ≡ set_machine_enabled false ∷ m.actions))
unfolding on_session_event
on_session_event_cases m s = ground arith

own_source_is_own : (b : Bool) → is_own_enable_source (own_source b) ≡ true
unfolding is_own_enable_source
own_source_is_own b = refl
