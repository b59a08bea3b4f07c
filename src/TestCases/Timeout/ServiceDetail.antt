-- ===== src/TestCases/Timeout/ServiceDetail.antt =====
-- modules/EvseTestV2G/testcases/chn_service_detail_011.cpp: `Iso2TestServer`. The name, the category and the price
-- of the added service are left out, as those of the others are.
use evse_test_system.Base.{
  ℕ, ltb, ◌==◌, ◌&&◌, ◌||◌, Bool, if◌then◌else◌, Option, none, some, List, [], ◌∷◌, ◌++◌, length,
}
use evse_test_system.V2g.Types.{V2gMsgTypeId, service_detail_msg, terminate_connection}
use evse_test_system.V2g.Iso.States.{ok, failed, iso_validate_response_code}
use evse_test_system.V2g.Iso.StateIds.{wait_for_payment_service_selection}
use evse_test_system.V2g.Iso.Server.{
  Outcome, returned, ◌>>=◌, Service, Server, Response, Reply, answer_at,
}
use evse_test_system.V2g.Iso.Discovery.{
  failed_service_id_invalid, is_empty, find_parameters, has_service, handle_iso_service_discovery,
}
use evse_test_system.V2g.Iso.Request.{
  Request, service_discovery_req, service_detail_req, session_stop_req, Outside, stop_session,
  dispatch, receive, conclude,
}
use evse_test_system.TestCases.Common.{
  TestRun, Tested, add_report, request_report, is_no_event, is_let_through, conclude_tested,
  untouched,
}
use evse_test_system.TestCases.PreCharge.Server.{Readings}
use evse_test_system.TestCases.Timeout.Close.{service_detail_011, Timed}
use evse_test_system.TestCases.Timeout.Handlers.{handle_timed, handle_timed_stop, refuse_timed}

-- SERVICE_DETAIL_011_SERVICE_ID
abbrev pub custom_service_id : ℕ
custom_service_id = 62001

abbrev custom_service : Option (List ℕ) → Service
custom_service scope = record {
  service_id = custom_service_id;
  service_scope = scope;
  parameter_sets = [];
}

-- `capacity`: the length of the array of the services in a response.
abbrev add_service : ℕ → Service → List Service → List Service
add_service capacity custom services =
    if is_empty services
    then custom ∷ []
    else if ltb (length services) capacity
    then services ++ (custom ∷ [])
    else services

-- `include_custom`: the option of the test that adds the service.
unfoldable pub offer_custom_service : Bool → ℕ → Option (List ℕ) → Reply → Reply
offer_custom_service include_custom capacity scope reply =
    if include_custom && is_no_event reply.event && ltb reply.response.response_code failed
    then record reply {
      response = record reply.response {
        services = add_service capacity (custom_service scope) reply.response.services;
      };
    }
    else reply

-- The part of the handler that stands for that of the server: it knows the added service, too.
unfoldable pub answer_service_detail : ℕ → Server → Response → Outcome Reply
unfolding iso_validate_response_code
answer_service_detail id s r =
    let parameters : List ℕ = elim (find_parameters id s.evse_service_list) [
      | none ↦ r.service_parameters
      | some found ↦ found
    ] in
    let found = id == 1 || has_service id s.evse_service_list || id == custom_service_id in
    answer_at wait_for_payment_service_selection s (record r {
      response_code = if found then ok else failed_service_id_invalid;
      service_parameters = parameters;
    })

unfoldable pub iso_dispatch_011 :
    Readings → Outside → Bool → ℕ → Request → Timed → TestRun → Server → Outcome (Tested Timed)
unfolding offer_custom_service answer_service_detail handle_timed handle_timed_stop
    handle_iso_service_discovery stop_session dispatch
iso_dispatch_011 clock o include_custom capacity (service_discovery_req scope) t run s =
    untouched t run (
      handle_iso_service_discovery scope s o.initial >>= λ reply.
      returned (offer_custom_service include_custom capacity scope reply))
iso_dispatch_011 clock o include_custom capacity (service_detail_req id) t run s =
    handle_timed clock service_detail_011 service_detail_msg (answer_service_detail id s o.initial)
      t run
iso_dispatch_011 clock o include_custom capacity (session_stop_req request) t run s =
    handle_timed_stop clock (stop_session request s o.initial) t run
iso_dispatch_011 clock o include_custom capacity req t run s = untouched t run (dispatch o req s)

-- The vehicle may skip the service detail: then the request is only reported.
unfoldable pub refuse_request_011 : V2gMsgTypeId → Timed → TestRun → Reply → Outcome (Tested Timed)
unfolding refuse_timed
refuse_request_011 m t run reply =
    if t.request_received
    then refuse_timed m t run reply
    else returned (record {
      test = t;
      run = add_report (request_report m) run;
      reply = record reply { event = terminate_connection };
    })

unfoldable pub handle_iso_request_011 :
    Readings
    → Outside
    → Bool
    → ℕ
    → ℕ
    → V2gMsgTypeId
    → Request
    → Timed
    → TestRun
    → Server
    → Outcome (Tested Timed)
unfolding iso_dispatch_011 receive conclude refuse_request_011
handle_iso_request_011 clock o include_custom capacity id m req t run s =
    if is_let_through service_detail_msg m
    then conclude_tested conclude
        (iso_dispatch_011 clock o include_custom capacity req t run (receive id m s))
    else refuse_request_011 m t run
        (record { server = s; response = o.initial; event = terminate_connection })
