-- ===== src/V2g/Session/Stages.antt =====
-- modules/EvseTestV2G/v2g_server.cpp: `update_heartbeat`, the context of `publish_v2g_test_result`, and the
-- handshake and the message loop of `v2g_handle_connection`. Waiting before a response is left out.
use evse_test_system.Base.{
  ℕ, ◌+◌, Bool, true, false, not, Option, none, some, List, [], ◌∷◌, ◌++◌, leb, if◌then◌else◌,
}
use evse_test_system.Types.{
  V2gProtocol, din_70121, iso_15118_2, ChargeMode, ac_mode, dc_mode, IdentificationMode, eim, pnc,
  RunContext,
}
use evse_test_system.V2g.Types.{
  V2gEvent, no_event, terminate_connection, send_and_terminate, send_recv_exi_msg, ignore_msg,
  proto_din70121, proto_iso15118_2010, proto_iso15118_2013, proto_iso15118_2015, unknown_protocol,
}
use evse_test_system.V2g.Handshake.{contract, external_payment, Response}
use evse_test_system.V2g.Session.Env.{
  Action, Exchange, Closing, Env, request_received, peer_closed, receive_failed, publish_heartbeat,
  publish_v2g_message_in, publish_v2g_message_out, outgoing,
}

abbrev heartbeat_update_rate : ℕ
heartbeat_update_rate = 2000

-- The time of the last heartbeat after the call, with what was published.
unfoldable pub update_heartbeat : ℕ → ℕ → List Action × ℕ
update_heartbeat now last =
    if leb (last + heartbeat_update_rate) now then (publish_heartbeat ∷ [], now) else ([], last)

-- The context of the result.
unfoldable pub run_context : Closing → RunContext
run_context c =
    let at : Option V2gProtocol → Option ChargeMode → Option IdentificationMode → RunContext =
      λ p m i. record {
        start_timestamp = none;
        end_timestamp = none;
        protocol = p;
        charge_mode = m;
        ident_mode = i;
      } in
    elim c.selected_protocol [
      | proto_din70121 ↦ at (some din_70121) (some dc_mode) (some eim)
      | proto_iso15118_2010 ↦ at (some din_70121) (some dc_mode) (some eim)
      | proto_iso15118_2013 ↦
          at (some iso_15118_2) (some (if c.is_dc_charger then dc_mode else ac_mode))
            (elim c.iso_selected_payment_option [
              | contract ↦ some pnc
              | external_payment ↦ some eim
            ])
      | proto_iso15118_2015 ↦ at none none none
      | unknown_protocol ↦ at none none none
    ]

-- What is left at the end of a stage: its actions, the time of the last heartbeat, whether `rv` is
-- not 0, and whether the session goes on.
pub record Stage : Type 0 where
  pub actions : List Action
  pub last_heartbeat_time : ℕ
  pub failed : Bool
  pub goes_on : Bool

abbrev debug : Bool → Action → List Action
debug on a = if on then a ∷ [] else []

-- What a round of the messages does, and what it leaves.
pub record Round : Type 0 where
  pub sent : List Action
  pub round_failed : Bool
  pub continues : Bool

abbrev round_with : List Action → Bool → Bool → Round
round_with actions failed goes_on = record {
  sent = actions;
  round_failed = failed;
  continues = goes_on;
}

-- One round of the messages after a request was received: the cases of the switch on the event.
unfoldable pub exchange_message : Bool → Exchange → Round
exchange_message on e =
    let event = if e.decoded then e.event else ignore_msg in
    let request = debug on publish_v2g_message_in in
    let response = request ++ debug on publish_v2g_message_out in
    let send = response ++ (outgoing e.written ∷ []) in
    elim event [
      | send_and_terminate ↦
          if e.encoded
          then round_with send (not e.written) false
          else round_with response true false
      | no_event ↦
          if e.encoded
          then round_with send (not e.written) e.written
          else round_with response true false
      | send_recv_exi_msg ↦ round_with send (not e.written) e.written
      | ignore_msg ↦ round_with request false true
      | terminate_connection ↦ round_with request false false
    ]

-- The loop over the messages.
unfoldable pub message_loop : Bool → ℕ → List Exchange → Stage
unfolding update_heartbeat exchange_message
message_loop on last [] = record {
  actions = [];
  last_heartbeat_time = last;
  failed = true;
  goes_on = false;
}
message_loop on last (e ∷ es) =
    let beat = update_heartbeat e.now last in
    let round = exchange_message on e in
    let rest = message_loop on beat.1 es in
    elim e.received [
      | request_received ↦
          if round.continues
          then record rest { actions = beat.0 ++ (round.sent ++ rest.actions) }
          else record {
            actions = beat.0 ++ round.sent;
            last_heartbeat_time = beat.1;
            failed = round.round_failed;
            goes_on = false;
          }
      | peer_closed ↦ record {
        actions = beat.0;
        last_heartbeat_time = beat.1;
        failed = true;
        goes_on = false;
      }
      | receive_failed ↦ record {
        actions = beat.0;
        last_heartbeat_time = beat.1;
        failed = true;
        goes_on = false;
      }
    ]

-- The negotiation of the protocol. Its loop `while ((rv == 1) and ...)` runs once, as `rv` is 0 there.
unfoldable pub handshake : Env → ℕ → Response × V2gEvent → Stage
unfolding update_heartbeat
handshake v last answer =
    let o = v.opening in
    let beat = update_heartbeat o.now last in
    let after = update_heartbeat o.now_after beat.1 in
    let stopped : List Action → Stage = λ actions. record {
      actions = beat.0 ++ actions;
      last_heartbeat_time = beat.1;
      failed = true;
      goes_on = false;
    } in
    let request : List Action = elim o.request [
      | none ↦ []
      | some _ ↦ debug o.context.debug_mode publish_v2g_message_in
    ] in
    let send =
      request
      ++ (debug o.context.debug_mode publish_v2g_message_out ++ (outgoing o.written ∷ [])) in
    elim o.received [
      | peer_closed ↦ stopped []
      | receive_failed ↦ stopped []
      | request_received ↦ if o.is_connection_terminated then stopped [] else elim answer.1 [
        | no_event ↦
            if o.written
            then record {
              actions = beat.0 ++ (send ++ after.0);
              last_heartbeat_time = after.1;
              failed = false;
              goes_on = true;
            }
            else stopped send
        | send_and_terminate ↦ stopped send
        | terminate_connection ↦ stopped request
        | send_recv_exi_msg ↦ record {
          actions = beat.0 ++ (request ++ after.0);
          last_heartbeat_time = after.1;
          failed = false;
          goes_on = true;
        }
        | ignore_msg ↦ record {
          actions = beat.0 ++ (request ++ after.0);
          last_heartbeat_time = after.1;
          failed = false;
          goes_on = true;
        }
      ]
    ]
