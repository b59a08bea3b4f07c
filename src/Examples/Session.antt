-- ===== src/Examples/Session.antt =====
-- Runs of the models of a session of modules/EvseTestV2G/v2g_server.cpp on concrete inputs.
use evse_test_system.Base.{ℕ, ◌≤◌, ◌≡◌, refl, ◌↔◌, ◌⊎◌, true, false, some, List, [], ◌∷◌}
use Prim.Native.String.{String}
use evse_test_system.Types.{authorization_004, pass_criteria_met}
use evse_test_system.V2g.Types.{no_event, send_and_terminate, proto_iso15118_2013, unknown_protocol}
use evse_test_system.V2g.Handshake.{
  contract, external_payment, AppProtocol, successful_negotiation, failed_no_negotiation, Context,
  start_choice, consider_all,
}
use evse_test_system.V2g.Handshake.Best.{AllAtLeast, IsChosen, consider_all-best}
use evse_test_system.V2g.Session.Env.{request_received, Document, Exchange, Env}
use evse_test_system.V2g.Session.Stages.{message_loop}
use evse_test_system.V2g.Session.Connection.{v2g_handle_connection}
use evse_test_system.V2g.Session.Totals.{total}
use evse_test_system.V2g.Session.Accounts.{
  count_alloc, count_free, count_malloc, count_free_buffer, count_started, count_closed,
  count_finished, count_results, count_ends, v2g_handle_connection-accounts,
}
use evse_test_system.V2g.Session.Verdict.{IsEnded, message_loop-succeeds_iff}

abbrev context : Context
context = record {
  supported_protocols = 5;
  test_supported_protocols = 5;
  payment_option_0 = external_payment;
  payment_option_1 = contract;
  auth_eim_supported = true;
  auth_pnc_supported = false;
  is_tls_connection = false;
  debug_mode = false;
  is_connection_terminated = false;
  intl_emergency_shutdown = false;
  stop_hlc = false;
  terminate_connection_on_failed_response = true;
}

abbrev offer : String → ℕ → ℕ → AppProtocol
offer namespace schema_id priority = record {
  namespace = namespace;
  version_major = 2;
  version_minor = 0;
  schema_id = schema_id;
  priority = priority;
}

abbrev offers : List AppProtocol
offers = offer "urn:din:70121:2012:MsgDef" 1 2 ∷ offer "urn:iso:15118:2:2013:MsgDef" 2 1 ∷ []

consider_all-best_example :
    let x = consider_all context offers (start_choice unknown_protocol []) in
    (IsChosen context offers x
      × (x.response_code ≡ successful_negotiation)
      × (x.ev_app_priority ≤ 20)
      × AllAtLeast context x.ev_app_priority offers)
    ⊎ ((x.response_code ≡ failed_no_negotiation)
        × (x.selected_protocol ≡ unknown_protocol)
        × AllAtLeast context 21 offers)
consider_all-best_example = consider_all-best context offers unknown_protocol []

abbrev exchange : Exchange
exchange = record {
  now = 5000;
  received = request_received;
  decoded = true;
  event = no_event;
  encoded = true;
  written = true;
}

-- An answered request, one that cannot be decoded, and one with which the server ends the session.
abbrev exchanges : List Exchange
exchanges =
    exchange
    ∷ record exchange { decoded = false }
    ∷ record exchange { event = send_and_terminate }
    ∷ []

message_loop-succeeds_iff_example :
    (message_loop false 4000 exchanges).failed ≡ false ↔ IsEnded exchanges
message_loop-succeeds_iff_example = message_loop-succeeds_iff false 4000 exchanges

abbrev env : Env
env = record {
  test_id = authorization_004;
  now = 1000;
  last_heartbeat_time = 0;
  buffer_ok = true;
  in_ok = true;
  out_ok = true;
  test_outcome = pass_criteria_met;
  test_errors = [];
  opening = record {
    now = 2000;
    received = request_received;
    is_connection_terminated = false;
    context = context;
    request = some offers;
    encoded = true;
    written = true;
    now_after = 3000;
  };
  exchanges = exchanges;
  closing = record {
    now = 6000;
    selected_protocol = proto_iso15118_2013;
    is_dc_charger = true;
    iso_selected_payment_option = external_payment;
    outcome = pass_criteria_met;
    errors = [];
  };
}

v2g_handle_connection-accounts_example :
    let done = (v2g_handle_connection env).0 in
    ((d : Document)
      → (total (count_alloc d) done ≡ total (count_free d) done) × (total (count_alloc d) done ≤ 1))
    × (total count_malloc done ≡ 1)
    × (total count_free_buffer done ≡ 1)
    × (total count_started done ≡ total count_closed done)
    × (total count_started done ≡ total count_finished done)
    × (total count_started done ≤ 1)
    × (total count_results done ≡ 1)
    × (total count_ends done ≡ 1)
v2g_handle_connection-accounts_example = v2g_handle_connection-accounts env refl
