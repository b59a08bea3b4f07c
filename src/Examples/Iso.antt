-- ===== src/Examples/Iso.antt =====
-- Runs of the model of modules/EvseTestV2G/server/iso_server.cpp on concrete inputs.
use evse_test_system.Base.{
  ℕ, ◌≡◌, ◌≢◌, ◌≤◌, ◌⊎◌, refl, true, false, none, some, List, [], ◌∷◌, if◌then◌else◌, arith,
}
use evse_test_system.V2g.Types.{
  no_event, send_and_terminate, V2gMsgTypeId, authorization_msg, session_stop_msg,
  power_delivery_msg,
}
use evse_test_system.V2g.Iso.States.{
  ok, failed, iso_validate_state, IsoContext, iso_validate_response_code,
}
use evse_test_system.V2g.Iso.Validation.{IsAccepted, iso_validate_response_code-cases}
use evse_test_system.V2g.Iso.SessionStop.{
  terminate, pause, dlink_error, dlink_terminate, dlink_pause, StopState,
  wait_for_terminated_session, may_pause, handle_iso_session_stop, handle_iso_session_stop-cases,
}

-- An AC charger that waits for the authorization, and gets a request with another session's id.
abbrev context : IsoContext
context = record {
  is_connection_terminated = false;
  stop_hlc = false;
  intl_emergency_shutdown = false;
  terminate_connection_on_failed_response = true;
  state = 5;
  current_v2g_msg = authorization_msg;
  is_dc_charger = false;
  session_id = 77;
  received_session_id = 78;
}

abbrev allowed : List V2gMsgTypeId
allowed = authorization_msg ∷ session_stop_msg ∷ []

iso_validate_response_code-cases_example :
    (IsAccepted context allowed × (iso_validate_response_code context ok ≡ some (ok, no_event)))
    ⊎ (¬ IsAccepted context allowed
        × ((n : ℕ) × (failed ≤ n)
            × (iso_validate_response_code context ok
                ≡ some (
                  n,
                  if context.terminate_connection_on_failed_response
                      then send_and_terminate
                      else no_event,
                ))))
iso_validate_response_code-cases_example =
    iso_validate_response_code-cases context ok allowed refl (omega arith) refl

abbrev charging : StopState
charging = record {
  iso = record context { state = 11; current_v2g_msg = session_stop_msg; received_session_id = 77 };
  last_v2g_msg = power_delivery_msg;
  dlink_action = dlink_error;
  hlc_pause_active = false;
}

abbrev closed : StopState
closed = record charging {
  iso = record charging.iso { state = 14 };
  dlink_action = dlink_terminate;
}

handle_iso_session_stop-cases_example :
    (send_and_terminate ≡ send_and_terminate)
    × (((terminate ≡ pause)
          × (may_pause charging.last_v2g_msg ≡ true)
          × (closed.dlink_action ≡ dlink_pause)
          × (closed.hlc_pause_active ≡ true)
          × (closed.iso.state ≡ 0))
        ⊎ (((terminate ≢ pause) ⊎ (may_pause charging.last_v2g_msg ≡ false))
            × (closed.dlink_action ≡ dlink_terminate)
            × (closed.iso.state ≡ wait_for_terminated_session)
            × ((m : V2gMsgTypeId) → iso_validate_state closed.iso.state m false ≡ none)))
unfolding handle_iso_session_stop iso_validate_response_code iso_validate_state
handle_iso_session_stop-cases_example =
    handle_iso_session_stop-cases terminate charging closed ok send_and_terminate refl
