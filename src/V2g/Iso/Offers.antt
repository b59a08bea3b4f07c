-- ===== src/V2g/Iso/Offers.antt =====
-- modules/EvseTestV2G/server/iso_server.cpp: which payment options `handle_iso_service_discovery` offers, and what
-- `handle_iso_payment_service_selection` answers.
use mathlib.Core.Path.{subst}
use evse_test_system.Base.{
  ℕ, zero, suc, ◌≡◌, ◌≢◌, ◌≤◌, ◌<◌, ◌⊎◌, inl, inr, refl, ap, Bool, true, false, not, ◌&&◌, Option,
  List, [], ◌∷◌, ◌++◌, arith, take, length, set, if◌then◌else◌, Bool-cases,
}
use evse_test_system.V2g.Iso.States.{ok, failed}
use evse_test_system.V2g.Iso.Server.{
  returned, PaymentOption, contract, external_payment, Server, Response, Reply, go_to, set_code,
  no_payment_option_left, TestError,
}
use evse_test_system.V2g.Iso.Answers.{answer-inv}
use evse_test_system.V2g.Iso.Discovery.{
  is_contract_corrected, is_supported, filter_options, offered_options, is_empty, discovery_after,
  discovery_response, handle_iso_service_discovery,
}

-- An option that may be offered: the constraints of the test allow it, and a contract needs TLS or the
-- debug mode.
abbrev pub IsOffer : Server → PaymentOption → Type 0
IsOffer s p =
    (is_supported s p ≡ true)
    × ((p ≡ external_payment) ⊎ (s.is_tls_connection ≡ true) ⊎ (s.debug_mode ≡ true))

abbrev pub AllOffers : Server → List PaymentOption → Type 0
AllOffers s [] = Unit
AllOffers s (p ∷ ps) = IsOffer s p × AllOffers s ps

-- In a list of at most two options without a contract, or for a session that may have one.
abbrev MayOffer : Server → List PaymentOption → Type 0
MayOffer s [] = Unit
MayOffer s (p ∷ ps) =
    ((p ≡ external_payment) ⊎ (s.is_tls_connection ≡ true) ⊎ (s.debug_mode ≡ true)) × MayOffer s ps

filter-AllOffers :
    (s : Server) (ps : List PaymentOption) → MayOffer s ps → AllOffers s (filter_options s ps)
filter-AllOffers s [] h = tt
filter-AllOffers s (p ∷ ps) h = elim (Bool-cases (is_supported s p)) [
  | inl e ↦ rw e ((e, h.0), filter-AllOffers s ps h.1)
  | inr e ↦ rw e (filter-AllOffers s ps h.1)
]

free : (x y : Bool) → (not x && true && not y) ≡ false → (x ≡ true) ⊎ (y ≡ true)
free x y h = ground arith

uncorrected_cases :
    (s : Server) (a b : PaymentOption)
    → s.payment_option_list ≡ a ∷ b ∷ []
    → is_contract_corrected s ≡ false
    → MayOffer s (a ∷ b ∷ [])
uncorrected_cases s contract b e c =
    let f = free s.is_tls_connection s.debug_mode (rw e at c) in (inr f, (inr f, tt))
uncorrected_cases s external_payment contract e c =
    (inl refl, (inr (free s.is_tls_connection s.debug_mode (rw e at c)), tt))
uncorrected_cases s external_payment external_payment e c = (inl refl, (inl refl, tt))

take-MayOffer :
    (s : Server) (a b : PaymentOption) (n : ℕ)
    → MayOffer s (a ∷ b ∷ [])
    → MayOffer s (take n (a ∷ b ∷ []))
take-MayOffer s a b zero h = tt
take-MayOffer s a b (suc zero) h = (h.0, tt)
take-MayOffer s a b (suc (suc zero)) h = h
take-MayOffer s a b (suc (suc (suc n))) h = h

offered-AllOffers :
    (s : Server) (a b : PaymentOption)
    → s.payment_option_list ≡ a ∷ b ∷ []
    → AllOffers s (offered_options s)
unfolding offered_options
offered-AllOffers s a b e = elim (Bool-cases (is_contract_corrected s)) [
  | inl c ↦ rw c (
      filter-AllOffers s (take 1 (set s.payment_option_list 0 external_payment))
        (rw e (inl refl, tt)))
  | inr c ↦ rw c (
      filter-AllOffers s (take s.payment_option_list_len s.payment_option_list)
        (rw e (take-MayOffer s a b s.payment_option_list_len (uncorrected_cases s a b e c))))
]

take-length : (xs ys : List PaymentOption) → take (length xs) (xs ++ ys) ≡ xs
take-length [] ys = refl
take-length (x ∷ xs) ys = ap (λ l. x ∷ l) (take-length xs ys)

abbrev pub Discovered : Server → Server → Response → Type 0
Discovered s u r =
    AllOffers s r.payment_options
    × (take u.payment_option_list_len u.payment_option_list ≡ r.payment_options)
    × (((r.payment_options ≡ [])
          × (failed ≤ r.response_code)
          × (u.errors ≡ s.errors ++ (no_payment_option_left ∷ [])))
        ⊎ ((r.payment_options ≢ []) × (u.errors ≡ s.errors)))

outcome_cases :
    (options : List PaymentOption) (errors : List TestError) (n : ℕ)
    → ((if is_empty options then failed else ok) < failed) ⊎ (failed ≤ n)
    → let after = if is_empty options then errors ++ (no_payment_option_left ∷ []) else errors in
      ((options ≡ []) × (failed ≤ n) × (after ≡ errors ++ (no_payment_option_left ∷ [])))
      ⊎ ((options ≢ []) × (after ≡ errors))
outcome_cases [] errors n (inl h) = absurd (omega arith)
outcome_cases [] errors n (inr h) = inl (refl, h, refl)
outcome_cases (x ∷ xs) errors n h = inr (λ e. cc, refl)

-- The options, and the code after its check, on which a failure stays a failure.
discovery-Discovered :
    (scope : Option (List ℕ)) (s : Server) (r : Response) (n : ℕ)
    → AllOffers s (offered_options s)
    → ((discovery_response scope s r).response_code < failed) ⊎ (failed ≤ n)
    → Discovered s (go_to 2 (discovery_after s)) (set_code n (discovery_response scope s r))
unfolding discovery_after discovery_response
discovery-Discovered scope s r n all kept =
    (all, take-length (offered_options s) _, outcome_cases (offered_options s) s.errors n kept)

-- On an array of two payment options, the options that an answered service discovery offers are
-- allowed by the constraints of the test, and hold a contract only over TLS or in debug mode;
-- the context keeps exactly them. Where none is left, the answer is a failure and the test has
-- one more error; else the errors stay.
pub handle_iso_service_discovery-offers :
    (scope : Option (List ℕ)) (s : Server) (r : Response) (t : Reply) (a b : PaymentOption)
    → s.payment_option_list ≡ a ∷ b ∷ []
    → handle_iso_service_discovery scope s r ≡ returned t
    → Discovered s t.server t.response
unfolding handle_iso_service_discovery
handle_iso_service_discovery-offers scope s r t a b e h =
    let after = go_to 2 (discovery_after s) in
    let response = discovery_response scope s r in
    let (same, answered, kept, checked) = answer-inv after s.stop.iso response t h in
    subst (λ u. Discovered s u t.response) same
      (subst (Discovered s after) answered
        (discovery-Discovered scope s r t.response.response_code (offered-AllOffers s a b e) kept))
