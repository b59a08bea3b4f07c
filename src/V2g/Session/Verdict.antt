-- ===== src/V2g/Session/Verdict.antt =====
-- v2g_server.cpp, `v2g_handle_connection`: when the loop over the messages ends with `rv` equal to 0.
use evse_test_system.Base.{ℕ, ◌≡◌, Bool, true, false, List, [], ◌∷◌, ◌⊎◌, ◌↔◌, arith}
use evse_test_system.V2g.Types.{
  no_event, terminate_connection, send_and_terminate, send_recv_exi_msg, ignore_msg,
}
use evse_test_system.V2g.Session.Env.{request_received, Exchange}
use evse_test_system.V2g.Session.Stages.{update_heartbeat, exchange_message, message_loop}

-- After this exchange the next request is awaited: a request that cannot be decoded or is ignored,
-- or one that was answered.
abbrev pub KeepsWaiting : Exchange → Type 0
KeepsWaiting e =
    (e.received ≡ request_received)
    × ((e.decoded ≡ false)
        ⊎ (e.event ≡ ignore_msg)
        ⊎ (e.event ≡ no_event) × (e.encoded ≡ true) × (e.written ≡ true)
        ⊎ (e.event ≡ send_recv_exi_msg) × (e.written ≡ true))

-- With this exchange the server ends the session: without a response, or with one that was sent.
abbrev pub EndsSession : Exchange → Type 0
EndsSession e =
    (e.received ≡ request_received)
    × (e.decoded ≡ true)
    × ((e.event ≡ terminate_connection)
        ⊎ (e.event ≡ send_and_terminate) × (e.encoded ≡ true) × (e.written ≡ true))

-- Some exchange ends the session, and those before it keep it waiting.
abbrev pub IsEnded : List Exchange → Type 0
IsEnded [] = ⊥
IsEnded (e ∷ es) = EndsSession e ⊎ KeepsWaiting e × IsEnded es

-- The loop over the messages ends without a failure exactly when the server ends the session after
-- exchanges that each keep it waiting: a peer that closes the connection, an error of the connection, a
-- response that cannot be encoded and one that cannot be written are failures.
pub message_loop-succeeds_iff :
    (debug : Bool) (last : ℕ) (es : List Exchange)
    → (message_loop debug last es).failed ≡ false ↔ IsEnded es
unfolding message_loop exchange_message
message_loop-succeeds_iff debug last [] = ground arith
message_loop-succeeds_iff debug last (e ∷ es) =
    ground (arith, message_loop-succeeds_iff debug (update_heartbeat e.now last).1 es)
