-- ===== src/V2g/Session/Totals.antt =====
-- v2g_server.cpp, `v2g_handle_connection`: sums of weights over the actions of a session, stage by stage.
use mathlib.Core.List.{}
use evse_test_system.Base.{
  ℕ, ◌+◌, ◌≡◌, refl, ◌&&◌, Bool, true, not, Option, List, [], ◌∷◌, ◌++◌, if◌then◌else◌, arith,
}
use Prim.Native.String.{String}
use evse_test_system.Types.{finished, TestOutcome}
use evse_test_system.V2g.Types.{
  V2gEvent, Protocol, proto_din70121, proto_iso15118_2010, proto_iso15118_2013, proto_iso15118_2015,
  unknown_protocol,
}
use evse_test_system.V2g.Create.{TestServer, v2g_create_din_server, v2g_create_iso_server}
use evse_test_system.V2g.Handshake.{Response}
use evse_test_system.V2g.Session.Env.{
  exi_in, exi_out, Action, publish_test_status, publish_heartbeat, publish_v2g_message_in,
  publish_v2g_message_out, publish_test_result, free_buffer, calloc_document, free_document,
  dispatch_test_started, dispatch_connection_close_event, dispatch_test_finished, outgoing,
  init_charging_state, init_testing_values, Exchange, Env,
}
use evse_test_system.V2g.Session.Stages.{
  update_heartbeat, exchange_message, message_loop, handshake, run_context,
}
use evse_test_system.V2g.Session.Connection.{Messages, allocate, messages, cleanup}

-- The sum of a weight over a list of actions.
unfoldable pub total : (Action → ℕ) → List Action → ℕ
total w [] = 0
total w (a ∷ xs) = w a + total w xs

pub total-append :
    (w : Action → ℕ) (xs ys : List Action) → total w (xs ++ ys) ≡ total w xs + total w ys
unfolding total
total-append w [] ys = omega arith
total-append w (a ∷ xs) ys = omega (arith, total-append w xs ys)

-- A weight that does not look at the traffic: heartbeats, published messages and responses.
pub record IsQuiet (w : Action → ℕ) : Type 0 where
  pub no_heartbeat : w publish_heartbeat ≡ 0
  pub no_request : w publish_v2g_message_in ≡ 0
  pub no_response : w publish_v2g_message_out ≡ 0
  pub no_outgoing : (b : Bool) → w (outgoing b) ≡ 0

pub update_heartbeat-total :
    (w : Action → ℕ) → IsQuiet w → (now last : ℕ) → total w (update_heartbeat now last).0 ≡ 0
unfolding total update_heartbeat
update_heartbeat-total w q now last = ground (arith, q.no_heartbeat)

exchange_message-total :
    (w : Action → ℕ)
    → IsQuiet w
    → (on : Bool) (e : Exchange) → total w (exchange_message on e).sent ≡ 0
unfolding total exchange_message
exchange_message-total w q on e =
    ground (arith, q.no_request, q.no_response, q.no_outgoing e.written)

message_loop-total :
    (w : Action → ℕ)
    → IsQuiet w
    → (on : Bool) (last : ℕ) (es : List Exchange) → total w (message_loop on last es).actions ≡ 0
unfolding message_loop total
message_loop-total w q on last [] = refl
message_loop-total w q on last (e ∷ es) =
    let beat = update_heartbeat e.now last in
    let round = exchange_message on e in
    let rest = message_loop on beat.1 es in
    ground (
      arith,
      update_heartbeat-total w q e.now last,
      exchange_message-total w q on e,
      message_loop-total w q on beat.1 es,
      total-append w beat.0 (round.sent ++ rest.actions),
      total-append w round.sent rest.actions,
      total-append w beat.0 round.sent,
    )

pub handshake-total :
    (w : Action → ℕ)
    → IsQuiet w
    → (v : Env) (last : ℕ) (answer : Response × V2gEvent)
    → total w (handshake v last answer).actions ≡ 0
unfolding handshake total
handshake-total w q v last answer = grind (
  arith,
  total-append w,
  update_heartbeat-total w q,
  q.no_heartbeat,
  q.no_request,
  q.no_response,
  q.no_outgoing,
)

-- What the messages allocate and start, by the flags that they leave.
allocate-total :
    (w : Action → ℕ)
    → IsQuiet w
    → (v : Env) (last : ℕ) (outcome : TestOutcome) (errors : List String)
      (server : Option TestServer)
    → let m = allocate v last outcome errors server in
      total w m.stage.actions
      ≡ (if m.in_allocated then w (calloc_document exi_in) else 0)
        + (if m.out_allocated then w (calloc_document exi_out) else 0)
        + (if m.test_ran then w dispatch_test_started else 0)
unfolding allocate total
allocate-total w q v last outcome errors server =
    grind (arith, total-append w, update_heartbeat-total w q, message_loop-total w q)

abbrev pub flags : (Action → ℕ) → Messages → ℕ
flags w m =
    (if m.in_allocated then w (calloc_document exi_in) else 0)
    + (if m.out_allocated then w (calloc_document exi_out) else 0)
    + (if m.test_ran then w dispatch_test_started else 0)

pub messages-total :
    (w : Action → ℕ)
    → IsQuiet w
    → (v : Env) (last : ℕ) (outcome : TestOutcome) (p : Protocol) (errors : List String)
    → total w (messages v last outcome p errors).stage.actions
      ≡ flags w (messages v last outcome p errors)
unfolding messages total
messages-total w q v last outcome proto_din70121 errors =
    allocate-total w q v last outcome errors (v2g_create_din_server v.test_id)
messages-total w q v last outcome proto_iso15118_2010 errors =
    allocate-total w q v last outcome errors (v2g_create_din_server v.test_id)
messages-total w q v last outcome proto_iso15118_2013 errors =
    allocate-total w q v last outcome errors (v2g_create_iso_server v.test_id)
messages-total w q v last outcome proto_iso15118_2015 errors = omega arith
messages-total w q v last outcome unknown_protocol errors = omega arith

-- A document that the messages allocated is one that the clean-up of their protocol frees.
unfoldable pub is_freed : Protocol → Messages → Bool
is_freed proto_iso15118_2015 m = not m.in_allocated && not m.out_allocated
is_freed unknown_protocol m = not m.in_allocated && not m.out_allocated
is_freed _ m = true

pub messages-is_freed :
    (v : Env) (last : ℕ) (outcome : TestOutcome) (p : Protocol) (errors : List String)
    → is_freed p (messages v last outcome p errors) ≡ true
unfolding messages is_freed
messages-is_freed v last outcome p errors = ground arith

-- The same for what the clean-up does.
unfoldable pub clean_flags : (Action → ℕ) → Env → Messages → ℕ
clean_flags w v m =
    (if m.in_allocated then w (free_document exi_in) else 0)
    + (if m.out_allocated then w (free_document exi_out) else 0)
    + (if m.test_ran then w dispatch_connection_close_event + w dispatch_test_finished else 0)
    + w free_buffer
    + w (publish_test_result (run_context v.closing) m.outcome m.errors)
    + w (publish_test_status finished)
    + w (init_charging_state true)
    + w init_testing_values

pub cleanup-total :
    (w : Action → ℕ) (v : Env) (p : Protocol) (m : Messages)
    → is_freed p m ≡ true
    → total w (cleanup v p m) ≡ clean_flags w v m
unfolding cleanup total is_freed clean_flags
cleanup-total w v p m h = ground arith

-- How every session with a buffer ends.
