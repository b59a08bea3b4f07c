-- ===== src/V2g/Session/Endings.antt =====
-- v2g_server.cpp, `v2g_handle_connection`: how every session with a buffer ends, and with which outcome.
use mathlib.Core.List.{append_assoc}
use evse_test_system.Base.{
  ℕ, ◌+◌, ◌≡◌, refl, sym, ap, ◌∙◌, Bool, true, false, List, [], ◌∷◌, ◌++◌, ◌⊎◌, is_some, arith,
}
use Prim.Native.String.{String}
use evse_test_system.Types.{TestId, running, finished, TestOutcome, preconditions_not_met}
use evse_test_system.V2g.Types.{Protocol, unknown_protocol}
use evse_test_system.V2g.Create.{v2g_create_din_server, v2g_create_iso_server}
use evse_test_system.V2g.Handshake.{v2g_handle_apphandshake}
use evse_test_system.V2g.Session.Env.{
  Action, publish_test_status, publish_test_result, malloc_buffer, free_buffer, init_charging_state,
  init_testing_values, Env,
}
use evse_test_system.V2g.Session.Stages.{update_heartbeat, handshake, run_context}
use evse_test_system.V2g.Session.Connection.{
  Messages, close_test, free_documents, allocate, messages, cleanup, session, v2g_handle_connection,
  no_messages, after_handshake, backup,
}
use evse_test_system.V2g.Session.Totals.{
  total, total-append, IsQuiet, update_heartbeat-total, handshake-total, flags, messages-total,
  is_freed, messages-is_freed, clean_flags, cleanup-total,
}

-- One of the two protocols has a server of the test.
abbrev pub HasServer : TestId → Type 0
HasServer test_id =
    (is_some (v2g_create_din_server test_id) ≡ true)
    ⊎ (is_some (v2g_create_iso_server test_id) ≡ true)

-- The outcome is the one before the session, or, once a test has run, what that test left.
abbrev pub Leaves : Env → TestOutcome → Messages → Type 0
Leaves v outcome m =
    ((m.test_ran ≡ false) × (m.outcome ≡ outcome))
    ⊎ ((m.test_ran ≡ true)
        × (m.outcome ≡ v.closing.outcome)
        × (v.in_ok ≡ true)
        × (v.out_ok ≡ true)
        × HasServer v.test_id)

after_handshake-Leaves :
    (on : Bool) (v : Env) (last : ℕ) (outcome : TestOutcome) (p : Protocol) (errors : List String)
    → Leaves v outcome (after_handshake on v last outcome p errors)
unfolding after_handshake messages allocate no_messages
after_handshake-Leaves on v last outcome p errors = ground arith

unfoldable pub last_actions : Env → Messages → List Action
last_actions v m =
    free_buffer
    ∷ publish_test_result (run_context v.closing) m.outcome m.errors
    ∷ publish_test_status finished
    ∷ init_charging_state true
    ∷ init_testing_values
    ∷ []

EndsWith : List Action → List Action → Type 0
EndsWith xs end = (before : List Action) × (xs ≡ before ++ end)

append-EndsWith : (xs ys end : List Action) → EndsWith ys end → EndsWith (xs ++ ys) end
unfolding EndsWith
append-EndsWith xs ys end (before, e) =
    (xs ++ before, ap (λ zs. xs ++ zs) e ∙ sym (append_assoc xs before end))

cleanup-EndsWith :
    (v : Env) (p : Protocol) (m : Messages) → EndsWith (cleanup v p m) (last_actions v m)
unfolding cleanup last_actions EndsWith
cleanup-EndsWith v p m =
    append-EndsWith (close_test m.test_ran) (free_documents p m ++ last_actions v m)
      (last_actions v m)
      (append-EndsWith (free_documents p m) (last_actions v m) (last_actions v m) ([], refl))

after_handshake-total :
    (on : Bool) (v : Env) (last : ℕ) (outcome : TestOutcome) (p : Protocol) (errors : List String)
    → ((w : Action → ℕ)
        → IsQuiet w
        → total w (after_handshake on v last outcome p errors).stage.actions
          ≡ flags w (after_handshake on v last outcome p errors))
      × (is_freed (backup on p) (after_handshake on v last outcome p errors) ≡ true)
unfolding after_handshake backup no_messages is_freed total
after_handshake-total true v last outcome p errors =
    (λ w q. messages-total w q v last outcome p errors, messages-is_freed v last outcome p errors)
after_handshake-total false v last outcome p errors = (λ w q. omega arith, refl)

session-total :
    (v : Env) (last : ℕ) (outcome : TestOutcome)
    → (m : Messages) × ((w : Action → ℕ)
        → IsQuiet w
        → total w (session v last outcome).0 ≡ flags w m + clean_flags w v m)
      × EndsWith (session v last outcome).0 (last_actions v m)
      × Leaves v outcome m
unfolding session
session-total v last outcome =
    let answer =
      v2g_handle_apphandshake v.opening.context v.opening.request v.opening.encoded unknown_protocol
        v.test_errors in
    let first = handshake v last answer in
    let selected = answer.0.selected_protocol in
    let m =
      after_handshake first.goes_on v first.last_heartbeat_time outcome selected answer.0.errors in
    let p = backup first.goes_on selected in
    let k =
      after_handshake-total first.goes_on v first.last_heartbeat_time outcome selected
        answer.0.errors in
    (
      m,
      λ w q. omega (
        arith,
        handshake-total w q v last answer,
        k.0 w q,
        cleanup-total w v p m k.1,
        total-append w first.actions (m.stage.actions ++ cleanup v p m),
        total-append w m.stage.actions (cleanup v p m),
      ),
      append-EndsWith first.actions (m.stage.actions ++ cleanup v p m) (last_actions v m) (
          append-EndsWith m.stage.actions (cleanup v p m) (last_actions v m)
            (cleanup-EndsWith v p m)),
      after_handshake-Leaves first.goes_on v first.last_heartbeat_time outcome selected
          answer.0.errors,
    )

-- What a session does before its buffer is allocated.
start_actions : Env → List Action
start_actions v =
    publish_test_status running ∷ (update_heartbeat v.now v.last_heartbeat_time).0
    ++ (init_charging_state false ∷ [])

connection-actions :
    (v : Env)
    → v.buffer_ok ≡ true
    → (v2g_handle_connection v).0
      ≡ start_actions v
        ++ (malloc_buffer
            ∷ (session v (update_heartbeat v.now v.last_heartbeat_time).1 preconditions_not_met).0)
unfolding v2g_handle_connection start_actions
connection-actions v h = ground arith

pub connection-total :
    (v : Env)
    → v.buffer_ok ≡ true
    → (m : Messages) × ((w : Action → ℕ)
        → IsQuiet w
        → total w (v2g_handle_connection v).0
          ≡ w (publish_test_status running)
            + w (init_charging_state false)
            + w malloc_buffer
            + (flags w m + clean_flags w v m))
      × ((before : List Action) × ((v2g_handle_connection v).0 ≡ before ++ last_actions v m))
      × Leaves v preconditions_not_met m
unfolding v2g_handle_connection total EndsWith
connection-total v h =
    let beat = update_heartbeat v.now v.last_heartbeat_time in
    let rest = session-total v beat.1 preconditions_not_met in
    let e =
      append-EndsWith (start_actions v) (malloc_buffer ∷ (session v beat.1 preconditions_not_met).0)
        (last_actions v rest.0)
        (append-EndsWith (malloc_buffer ∷ []) (session v beat.1 preconditions_not_met).0
          (last_actions v rest.0) rest.2) in
    (
      rest.0,
      λ w q. grind (arith, rest.1 w q, total-append w, update_heartbeat-total w q),
      (e.0, connection-actions v h ∙ e.1),
      rest.3,
    )
