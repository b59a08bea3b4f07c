-- ===== src/V2g/Session/Env.antt =====
-- modules/EvseTestV2G/v2g_server.cpp, `v2g_handle_connection`: what a session meets and what it does. What it
-- meets (the readings of the clock, what `malloc` and `calloc` gave, what the peer sent, what the codec, the
-- handler of the test server and `v2g_outgoing_v2gtp` returned) is its environment; what it does is a
-- list of actions, in order.
use evse_test_system.Base.{ℕ, Bool, Option, List}
use Prim.Native.String.{String}
use evse_test_system.Types.{TestId, TestState, TestOutcome, RunContext}
use evse_test_system.V2g.Types.{V2gEvent, Protocol}
use evse_test_system.V2g.Handshake.{PaymentOption, AppProtocol, Context}

-- What v2g_incoming_v2gtp returned: 0, 1 or -1.
pub data Received : Type 0 where
  request_received peer_closed receive_failed : Received

pub data Document : Type 0 where
  exi_in exi_out : Document

pub data Action : Type 0 where
  publish_test_status : TestState → Action
  publish_heartbeat publish_v2g_message_in publish_v2g_message_out : Action
  publish_test_result : RunContext → TestOutcome → List String → Action
  malloc_buffer free_buffer : Action
  calloc_document free_document : Document → Action
  dispatch_test_started dispatch_connection_close_event dispatch_test_finished : Action
  -- `v2g_outgoing_v2gtp`, and whether it could write.
  outgoing : Bool → Action
  init_charging_state : Bool → Action
  init_testing_values : Action

-- The request for a protocol, and what followed on it.
pub record Opening : Type 0 where
  pub now : ℕ
  pub received : Received
  pub is_connection_terminated : Bool
  pub context : Context
  pub request : Option (List AppProtocol)
  pub encoded : Bool
  pub written : Bool
  pub now_after : ℕ

-- One round of the messages: `decoded` and `encoded` say that the codec returned 0.
pub record Exchange : Type 0 where
  pub now : ℕ
  pub received : Received
  pub decoded : Bool
  pub event : V2gEvent
  pub encoded : Bool
  pub written : Bool

-- What `publish_v2g_test_result` finds when the session ends; `outcome` and `errors` are what the
-- test left, and are looked at only if it ran.
pub record Closing : Type 0 where
  pub now : ℕ
  pub selected_protocol : Protocol
  pub is_dc_charger : Bool
  pub iso_selected_payment_option : PaymentOption
  pub outcome : TestOutcome
  pub errors : List String

-- `exchanges`: after the last the peer closes the connection. `test_outcome` and `test_errors` are what
-- `test_data` holds before the session.
pub record Env : Type 0 where
  pub test_id : TestId
  pub now : ℕ
  pub last_heartbeat_time : ℕ
  pub buffer_ok : Bool
  pub in_ok : Bool
  pub out_ok : Bool
  pub test_outcome : TestOutcome
  pub test_errors : List String
  pub opening : Opening
  pub exchanges : List Exchange
  pub closing : Closing
