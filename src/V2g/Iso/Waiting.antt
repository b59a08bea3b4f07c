-- ===== src/V2g/Iso/Waiting.antt =====
-- modules/EvseTestV2G/server/iso_server.cpp: the loops of `handle_iso_power_delivery` and
-- `handle_iso_certificate_installation` that wait on `mqtt_cond`. A wake-up is what pthread_cond_timedwait
-- returned, with the values that the other threads have given to the shared fields by then.
use evse_test_system.Base.{ℕ, Bool, true, false, not, ◌&&◌, ◌||◌, List, [], ◌∷◌, if◌then◌else◌}
use evse_test_system.V2g.Iso.States.{IsoContext}
use evse_test_system.V2g.Iso.Server.{Outcome, returned, unfinished, Server}

-- The result of the wait: 0, EINTR, ETIMEDOUT or another error.
pub data WaitResult : Type 0 where
  woken interrupted timed_out wait_error : WaitResult

pub record WakeUp : Type 0 where
  pub result : WaitResult
  pub is_closed : Bool
  pub is_stopped : Bool
  pub is_emergency : Bool
  pub is_terminated : Bool
  pub installation_res : List ℕ
  pub installation_status : Bool

-- `rv` stays 0 after the wait.
abbrev goes_on : WaitResult → Bool
goes_on woken = true
goes_on interrupted = true
goes_on _ = false

abbrev is_timeout : WaitResult → Bool
is_timeout timed_out = true
is_timeout _ = false

-- The shared fields at a wake-up.
abbrev pub wake : WakeUp → Server → Server
wake w s = record s {
  stop = record s.stop {
    iso = record s.stop.iso {
      stop_hlc = w.is_stopped;
      intl_emergency_shutdown = w.is_emergency;
      is_connection_terminated = w.is_terminated;
    };
  };
  contactor_is_closed = w.is_closed;
  cert_install_res = w.installation_res;
  cert_install_status = w.installation_status;
}

abbrev pub may_wait : IsoContext → Bool
may_wait c = not c.intl_emergency_shutdown && not c.stop_hlc && not c.is_connection_terminated

-- The context after the loop, and whether the wait timed out.
unfoldable pub wait_for_contactor : List WakeUp → Server → Outcome (Server × Bool)
wait_for_contactor [] s =
    if not s.contactor_is_closed && may_wait s.stop.iso then unfinished else returned (s, false)
wait_for_contactor (w ∷ ws) s =
    let rest = wait_for_contactor ws (wake w s) in
    if not (not s.contactor_is_closed && may_wait s.stop.iso)
    then returned (s, false)
    else if goes_on w.result
    then rest
    else returned (wake w s, is_timeout w.result)

abbrev is_empty : List ℕ → Bool
is_empty [] = true
is_empty (b ∷ bs) = false

-- A timeout sets the emergency shutdown.
abbrev shut_down_at : WaitResult → Server → Server
shut_down_at result s = record s {
  stop = record s.stop {
    iso = record s.stop.iso {
      intl_emergency_shutdown = is_timeout result || s.stop.iso.intl_emergency_shutdown;
    };
  };
}

unfoldable pub wait_for_certificate : List WakeUp → Server → Outcome Server
wait_for_certificate [] s =
    if is_empty s.cert_install_res && may_wait s.stop.iso then unfinished else returned s
wait_for_certificate (w ∷ ws) s =
    let rest = wait_for_certificate ws (wake w s) in
    if not (is_empty s.cert_install_res && may_wait s.stop.iso)
    then returned s
    else if goes_on w.result
    then rest
    else returned (shut_down_at w.result (wake w s))
