-- ===== src/V2g/Iso/Authorization.antt =====
-- modules/EvseTestV2G/server/iso_server.cpp: `handle_iso_authorization`. Whether the signature of a request is
-- valid is a field of the request: that code calls OpenSSL. The clock does not run backwards.
use evse_test_system.Base.{
  ℕ, Bool, true, false, not, ◌&&◌, ◌==◌, leb, ◌*◌, ◌-◌, Option, none, some, List, [], ◌∷◌, length,
  if◌then◌else◌,
}
use evse_test_system.V2g.Types.{msg_number, authorization_msg}
use evse_test_system.V2g.Iso.States.{ok, failed}
use evse_test_system.V2g.Iso.StateIds.{wait_for_authorization, wait_for_charge_parameter_discovery}
use evse_test_system.V2g.Iso.Server.{
  Outcome, contract, same_option, Processing, is_finished, Server, Response, Reply, go_to, set_code,
  answer,
}
use evse_test_system.V2g.Iso.Payment.{failed_certificate_revoked}

abbrev pub failed_signature_error : ℕ
failed_signature_error = 11

abbrev pub failed_challenge_invalid : ℕ
failed_challenge_invalid = 14

-- `none`: `GenChallenge_isUsed` is 0.
pub record AuthorizationReq : Type 0 where
  pub challenge : Option (List ℕ)
  pub has_signature : Bool
  pub is_signature_valid : Bool

abbrev same_bytes : List ℕ → List ℕ → Bool
same_bytes [] [] = true
same_bytes (a ∷ xs) (b ∷ ys) = let rest = same_bytes xs ys in a == b && rest
same_bytes _ _ = false

unfoldable pub is_challenge_met : AuthorizationReq → Server → Bool
is_challenge_met req s = elim req.challenge [
  | none ↦ false
  | some bytes ↦ length bytes == 16 && same_bytes bytes s.gen_challenge
]

abbrev pub is_by_contract : Server → Bool
is_by_contract s = same_option s.iso_selected_payment_option contract

abbrev pub is_first_by_contract : Server → Bool
is_first_by_contract s =
    not (msg_number s.stop.last_v2g_msg == msg_number authorization_msg) && is_by_contract s

abbrev pub auth_timeout : Server → ℕ
auth_timeout s = if is_by_contract s then s.auth_timeout_pnc else s.auth_timeout_eim

-- `now`: the clock, at the check of the time.
unfoldable pub is_timed_out : ℕ → Server → Bool
is_timed_out now s =
    not (is_finished s.auth_processing)
    && not (auth_timeout s == 0)
    && leb (1000 * auth_timeout s) (now - s.auth_start_timeout)

-- The code of a request whose challenge and signature are not looked at, or are right.
unfoldable pub waiting_code : ℕ → Server → ℕ
unfolding is_timed_out
waiting_code now s =
    if not (is_finished s.auth_processing)
    then (if is_timed_out now s then failed else ok)
    else if s.authorization_rejected
    then (if s.is_certificate_revoked then failed_certificate_revoked else failed)
    else ok

-- A request that fails here jumps over the rest of the handler.
unfoldable pub proof_error : AuthorizationReq → Server → Option ℕ
unfolding is_challenge_met
proof_error req s =
    if not (is_first_by_contract s)
    then none
    else if not (is_challenge_met req s)
    then some failed_challenge_invalid
    else if not req.has_signature
    then some failed_signature_error
    else if req.is_signature_valid
    then none
    else some failed_signature_error

-- After a jump the response keeps the processing that its initialisation has left.
unfoldable pub auth_response : ℕ → AuthorizationReq → Server → Response → Response
unfolding proof_error waiting_code
auth_response now req s r = elim (proof_error req s) [
  | none ↦ record r { response_code = waiting_code now s; evse_processing = s.auth_processing }
  | some code ↦ set_code code r
]

-- One reading of the clock stands for the two of the source.
unfoldable pub auth_after : ℕ → AuthorizationReq → Server → Processing → Server
unfolding proof_error is_timed_out
auth_after now req s processing =
    let restarts : Bool = elim (proof_error req s) [
      | none ↦ is_timed_out now s
      | some code ↦ false
    ] in
    record (go_to
      (if is_finished processing
        then wait_for_charge_parameter_discovery
        else wait_for_authorization)
      s) { auth_start_timeout = if restarts then now else s.auth_start_timeout }

unfoldable pub handle_iso_authorization : ℕ → AuthorizationReq → Server → Response → Outcome Reply
unfolding auth_response auth_after answer
handle_iso_authorization now req s r =
    let response = auth_response now req s r in
    answer (auth_after now req s response.evse_processing) s.stop.iso response
