-- ===== src/V2g/Iso/Validation.antt =====
-- modules/EvseTestV2G/server/iso_server.cpp: which responses of the ISO 15118-2 server are failures.
use evse_test_system.Base.{
  ℕ, refl, ap, inl, inr, ◌≡◌, ◌≤◌, ◌<◌, ◌⊎◌, Bool, true, false, some, List, arith, get_elem?,
  if◌then◌else◌,
}
use evse_test_system.V2g.Types.{
  no_event, send_and_terminate, session_setup_msg, V2gMsgTypeId, msg_number,
}
use evse_test_system.V2g.Iso.States.{
  iso_ac_states, iso_dc_states, ok, failed, failed_sequence_error, is_allowed, iso_validate_state,
  IsoContext, validate_with, iso_validate_response_code,
}

-- What the specification asks of a request that is answered without a failure.
abbrev pub IsAccepted : IsoContext → List V2gMsgTypeId → Type 0
IsAccepted c allowed =
    (is_allowed c.current_v2g_msg allowed ≡ true)
    × (c.stop_hlc ≡ false)
    × (c.intl_emergency_shutdown ≡ false)
    × ((msg_number c.current_v2g_msg ≡ msg_number session_setup_msg)
        ⊎ (c.session_id ≡ c.received_session_id))

validate_with-lem :
    (c : IsoContext) (code : ℕ) (allowed : List V2gMsgTypeId) (b : Bool)
    → is_allowed c.current_v2g_msg allowed ≡ b
    → code < failed
    → let r = validate_with c code (if b then ok else failed_sequence_error) in
      (IsAccepted c allowed × (r ≡ (code, no_event)))
      ⊎ (¬ IsAccepted c allowed
          × (failed ≤ r.0)
          × (r.1 ≡ (
              if c.terminate_connection_on_failed_response then send_and_terminate else no_event)))
unfolding validate_with
validate_with-lem c code allowed true e h = ground arith
validate_with-lem c code allowed false e h = ground arith

-- On a connection that is not terminated, in a state of its table, a response that is no failure
-- is kept and sent exactly when the request is allowed in the state, there is no stop and no emergency
-- shutdown, and the request is the setup of a session or carries the id of the session. Otherwise
-- the response becomes a failure, and the session ends after it if the connection is to be
-- terminated on failures.
pub iso_validate_response_code-cases :
    (c : IsoContext) (code : ℕ) (allowed : List V2gMsgTypeId)
    → c.is_connection_terminated ≡ false
    → code < failed
    → get_elem? (if c.is_dc_charger then iso_dc_states else iso_ac_states) c.state ≡ some allowed
    → (IsAccepted c allowed × (iso_validate_response_code c code ≡ some (code, no_event)))
      ⊎ (¬ IsAccepted c allowed
          × ((n : ℕ) × (failed ≤ n)
              × (iso_validate_response_code c code
                  ≡ some (
                    n,
                    if c.terminate_connection_on_failed_response
                        then send_and_terminate
                        else no_event,
                  ))))
unfolding iso_validate_response_code iso_validate_state
iso_validate_response_code-cases c code allowed t h e =
    let b = is_allowed c.current_v2g_msg allowed in
    let r = validate_with c code (if b then ok else failed_sequence_error) in
    rw t (
      rw e (elim (validate_with-lem c code allowed b refl h) [
        | inl p ↦ inl (p.0, ap (λ x. some x) p.1)
        | inr q ↦ inr (q.0, (r.0, q.1, ap (λ x. some (r.0, x)) q.2))
      ]))
