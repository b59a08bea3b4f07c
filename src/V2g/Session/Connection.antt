-- ===== src/V2g/Session/Connection.antt =====
-- modules/EvseTestV2G/v2g_server.cpp: `v2g_handle_connection`, one charging session from the accepted
-- connection to the published result.
use evse_test_system.Base.{
  ℕ, Bool, true, false, not, Option, none, some, List, [], ◌∷◌, ◌++◌, if◌then◌else◌,
}
use evse_test_system.Base.Int.{ℤ, pos, negsuc}
use Prim.Native.String.{String}
use evse_test_system.Types.{running, finished, TestOutcome, preconditions_not_met}
use evse_test_system.V2g.Types.{
  Protocol, proto_din70121, proto_iso15118_2010, proto_iso15118_2013, proto_iso15118_2015,
  unknown_protocol,
}
use evse_test_system.V2g.Handshake.{v2g_handle_apphandshake}
use evse_test_system.V2g.Create.{v2g_create_din_server, v2g_create_iso_server, TestServer}
use evse_test_system.V2g.Session.Env.{
  Action, Env, request_received, peer_closed, receive_failed, exi_in, exi_out, publish_test_status,
  publish_test_result, malloc_buffer, free_buffer, calloc_document, free_document,
  dispatch_test_started, dispatch_connection_close_event, dispatch_test_finished,
  init_charging_state, init_testing_values,
}
use evse_test_system.V2g.Session.Stages.{
  update_heartbeat, run_context, Stage, message_loop, handshake,
}

-- The documents, the test server and the messages. `failed` is false where the code jumps to
-- `error_out` here, since `rv` still is 0 from sending the response of the handshake.
pub record Messages : Type 0 where
  pub stage : Stage
  pub in_allocated : Bool
  pub out_allocated : Bool
  pub test_ran : Bool
  -- `test_data.outcome`, which the result takes over.
  pub outcome : TestOutcome
  pub errors : List String

unfoldable pub allocate : Env → ℕ → TestOutcome → List String → Option TestServer → Messages
unfolding message_loop update_heartbeat
allocate v last outcome errors server =
    let stopped : List Action → Bool → Bool → List String → Messages = λ actions got with_out es.
      record {
        stage = record {
          actions = actions;
          last_heartbeat_time = last;
          failed = false;
          goes_on = false;
        };
        in_allocated = got;
        out_allocated = with_out;
        test_ran = false;
        outcome = outcome;
        errors = es;
      } in
    let docs = calloc_document exi_in ∷ calloc_document exi_out ∷ [] in
    let loop = message_loop v.opening.context.debug_mode last v.exchanges in
    let beat = update_heartbeat v.closing.now loop.last_heartbeat_time in
    if not v.in_ok
    then stopped [] false false errors
    else if not v.out_ok
    then stopped (calloc_document exi_in ∷ []) true false errors
    else elim server [
      | none ↦ stopped docs true true (errors ++ ("Test is not implemented" ∷ []))
      | some _ ↦ record {
        stage = record loop {
          actions = docs ++ (dispatch_test_started ∷ [] ++ (loop.actions ++ beat.0));
          last_heartbeat_time = beat.1;
        };
        in_allocated = true;
        out_allocated = true;
        test_ran = true;
        outcome = v.closing.outcome;
        errors = v.closing.errors;
      }
    ]

unfoldable pub messages : Env → ℕ → TestOutcome → Protocol → List String → Messages
unfolding allocate v2g_create_din_server v2g_create_iso_server
messages v last outcome selected errors =
    let none_allocated : Messages = record {
      stage = record { actions = []; last_heartbeat_time = last; failed = false; goes_on = false };
      in_allocated = false;
      out_allocated = false;
      test_ran = false;
      outcome = outcome;
      errors = errors;
    } in
    elim selected [
      | proto_din70121 ↦ allocate v last outcome errors (v2g_create_din_server v.test_id)
      | proto_iso15118_2010 ↦ allocate v last outcome errors (v2g_create_din_server v.test_id)
      | proto_iso15118_2013 ↦ allocate v last outcome errors (v2g_create_iso_server v.test_id)
      | proto_iso15118_2015 ↦ none_allocated
      | unknown_protocol ↦ none_allocated
    ]

-- The clean-up of the test server and of the documents.
abbrev pub close_test : Bool → List Action
close_test ran = if ran then dispatch_connection_close_event ∷ dispatch_test_finished ∷ [] else []

abbrev pub free_documents : Protocol → Messages → List Action
free_documents selected m =
    let documents =
      (if m.in_allocated then free_document exi_in ∷ [] else [])
      ++ (if m.out_allocated then free_document exi_out ∷ [] else []) in
    elim selected [
      | proto_din70121 ↦ documents
      | proto_iso15118_2010 ↦ documents
      | proto_iso15118_2013 ↦ documents
      | proto_iso15118_2015 ↦ []
      | unknown_protocol ↦ []
    ]

-- From `error_out` to the end; `selected` is the backup of the protocol.
unfoldable pub cleanup : Env → Protocol → Messages → List Action
unfolding run_context
cleanup v selected m =
    close_test m.test_ran
    ++ (free_documents selected m
        ++ (free_buffer
            ∷ publish_test_result (run_context v.closing) m.outcome m.errors
            ∷ publish_test_status finished
            ∷ init_charging_state true
            ∷ init_testing_values
            ∷ []))

-- Where the handshake jumps to `error_out`, with `rv` not 0; the handshake adds errors once it is
-- called.
unfoldable pub no_messages : Env → ℕ → TestOutcome → List String → Messages
no_messages v last outcome errors = record {
  stage = record { actions = []; last_heartbeat_time = last; failed = true; goes_on = false };
  in_allocated = false;
  out_allocated = false;
  test_ran = false;
  outcome = outcome;
  errors = elim v.opening.received [
    | request_received ↦ if v.opening.is_connection_terminated then v.test_errors else errors
    | peer_closed ↦ v.test_errors
    | receive_failed ↦ v.test_errors
  ];
}

-- What follows the handshake, and the backup of the protocol, which is made only then.
unfoldable pub after_handshake : Bool → Env → ℕ → TestOutcome → Protocol → List String → Messages
unfolding messages no_messages
after_handshake goes_on v last outcome selected errors =
    if goes_on then messages v last outcome selected errors else no_messages v last outcome errors

unfoldable pub backup : Bool → Protocol → Protocol
backup goes_on selected = if goes_on then selected else unknown_protocol

-- The session after its buffer was allocated, from the outcome that was stored before, with whether
-- `rv` is not 0.
unfoldable pub session : Env → ℕ → TestOutcome → List Action × Bool
unfolding handshake after_handshake backup cleanup
session v last outcome =
    let answer =
      v2g_handle_apphandshake v.opening.context v.opening.request v.opening.encoded unknown_protocol
        v.test_errors in
    let first = handshake v last answer in
    let selected = answer.0.selected_protocol in
    let m =
      after_handshake first.goes_on v first.last_heartbeat_time outcome selected answer.0.errors in
    (
      first.actions ++ (m.stage.actions ++ cleanup v (backup first.goes_on selected) m),
      m.stage.failed,
    )

-- The outcome of the test before is replaced here, before anything is received.
unfoldable pub v2g_handle_connection : Env → List Action × ℤ
unfolding session update_heartbeat
v2g_handle_connection v =
    let beat = update_heartbeat v.now v.last_heartbeat_time in
    let start = publish_test_status running ∷ beat.0 ++ (init_charging_state false ∷ []) in
    let outcome = preconditions_not_met in
    let rest = session v beat.1 outcome in
    if v.buffer_ok
    then (start ++ (malloc_buffer ∷ rest.0), if rest.1 then negsuc 0 else pos 0)
    else (start ++ (publish_test_status finished ∷ []), negsuc 0)
