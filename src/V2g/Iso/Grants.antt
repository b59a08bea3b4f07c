-- ===== src/V2g/Iso/Grants.antt =====
-- modules/EvseTestV2G/server/iso_server.cpp: what a request that `handle_iso_authorization` answers without a
-- failure has met.
use evse_test_system.Base.{
  ℕ, ◌≡◌, ◌≤◌, ◌<◌, ◌⊎◌, ◌-◌, ◌*◌, inl, inr, refl, sym, ap, ◌∙◌, not, Bool, true, false, none, some,
  arith, if◌then◌else◌,
}
use evse_test_system.V2g.Iso.States.{failed}
use evse_test_system.V2g.Iso.Server.{returned, Processing, is_finished, Server, Response, Reply}
use evse_test_system.V2g.Iso.Answers.{answer-inv}
use evse_test_system.V2g.Iso.Authorization.{
  AuthorizationReq, is_challenge_met, is_first_by_contract, auth_timeout, is_timed_out,
  waiting_code, proof_error, failed_challenge_invalid, failed_signature_error, auth_response,
  auth_after, handle_iso_authorization,
}

-- The proof that a contract has to give, at the first authorization.
abbrev pub IsProved : AuthorizationReq → Server → Type 0
IsProved req s =
    (is_first_by_contract s ≡ false)
    ⊎ ((is_challenge_met req s ≡ true)
        × (req.has_signature ≡ true)
        × (req.is_signature_valid ≡ true))

-- The authorization is there, or is still waited for within its time.
abbrev pub IsInTime : ℕ → Server → Type 0
IsInTime now s =
    ((is_finished s.auth_processing ≡ true) × (s.authorization_rejected ≡ false))
    ⊎ ((is_finished s.auth_processing ≡ false)
        × ((auth_timeout s ≡ 0) ⊎ (now - s.auth_start_timeout < 1000 * auth_timeout s)))

-- The chain of the tests, over their results.
chain_cases :
    (a b c d : Bool)
    → (((a ≡ false) ⊎ ((b ≡ true) × (c ≡ true) × (d ≡ true)))
        × ((if not a
              then none
              else if not b
              then some failed_challenge_invalid
              else if not c
              then some failed_signature_error
              else if d
              then none
              else some failed_signature_error)
            ≡ none))
      ⊎ ((code : ℕ) × ((if not a
              then none
              else if not b
              then some failed_challenge_invalid
              else if not c
              then some failed_signature_error
              else if d
              then none
              else some failed_signature_error)
            ≡ some code)
          × (failed ≤ code))
chain_cases false b c d = inl (inl refl, refl)
chain_cases true false c d = inr (failed_challenge_invalid, refl, omega arith)
chain_cases true true false d = inr (failed_signature_error, refl, omega arith)
chain_cases true true true false = inr (failed_signature_error, refl, omega arith)
chain_cases true true true true = inl (inr (refl, refl, refl), refl)

proof_cases :
    (req : AuthorizationReq) (s : Server)
    → (IsProved req s × (proof_error req s ≡ none))
      ⊎ ((code : ℕ) × (proof_error req s ≡ some code) × (failed ≤ code))
unfolding proof_error
proof_cases req s =
    chain_cases (is_first_by_contract s) (is_challenge_met req s) req.has_signature
      req.is_signature_valid

waiting_cases : (now : ℕ) (s : Server) → IsInTime now s ⊎ (failed ≤ waiting_code now s)
unfolding waiting_code is_timed_out
waiting_cases now s = ground arith

response_cases :
    (now : ℕ) (req : AuthorizationReq) (s : Server) (r : Response)
    → (failed ≤ (auth_response now req s r).response_code)
      ⊎ (IsProved req s
          × IsInTime now s
          × ((auth_response now req s r).evse_processing ≡ s.auth_processing))
unfolding auth_response
response_cases now req s r = elim (proof_cases req s) [
  | inl (proved, e) ↦ elim (waiting_cases now s) [
    | inl in_time ↦ inr (proved, in_time, rw (e, auth_response) refl)
    | inr f ↦ inl (rw (e, auth_response) f)
  ]
  | inr (code, e, f) ↦ inl (rw (e, auth_response) f)
]

failed_again : {a b : ℕ} → (a < failed) ⊎ (failed ≤ b) → failed ≤ a → failed ≤ b
failed_again h f = ground arith

after_state :
    (now : ℕ) (req : AuthorizationReq) (s : Server) (p : Processing)
    → p ≡ s.auth_processing
    → (auth_after now req s p).stop.iso.state ≡ (if is_finished s.auth_processing then 6 else 5)
unfolding auth_after
after_state now req s p e = ap (λ x. if is_finished x then 6 else 5) e

-- An authorization request that is answered is answered by a failure, or all of this holds:
-- where it is the first one of a session that pays by contract, its challenge is the one that
-- was sent, and it has a valid signature; the authorization has been given and was not rejected,
-- or it is still waited for and the time for it, if any, has not passed; and the response and
-- the next state tell the state of the authorization.
pub handle_iso_authorization-cases :
    (now : ℕ) (req : AuthorizationReq) (s : Server) (r : Response) (t : Reply)
    → handle_iso_authorization now req s r ≡ returned t
    → (failed ≤ t.response.response_code)
      ⊎ (IsProved req s
          × IsInTime now s
          × (t.response.evse_processing ≡ s.auth_processing)
          × (t.server.stop.iso.state ≡ (if is_finished s.auth_processing then 6 else 5)))
unfolding handle_iso_authorization
handle_iso_authorization-cases now req s r t h =
    let response = auth_response now req s r in
    let after = auth_after now req s response.evse_processing in
    let (same, answered, kept, checked) = answer-inv after s.stop.iso response t h in
    elim (response_cases now req s r) [
      | inl f ↦ inl (failed_again kept f)
      | inr (proved, in_time, e) ↦ inr (
        proved,
        in_time,
        sym (ap (λ x. x.evse_processing) answered) ∙ e,
        sym (ap (λ x. x.stop.iso.state) same) ∙ after_state now req s response.evse_processing e,
      )
    ]
