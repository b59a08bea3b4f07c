-- ===== src/V2g/Iso/Payment.antt =====
-- modules/EvseTestV2G/server/iso_server.cpp: `handle_iso_payment_service_selection` and
-- `handle_iso_payment_details`. What the certificates of a request are found to be is a field of the
-- request: that code calls OpenSSL and the security module. The clock is an argument.
use evse_test_system.Base.{
  ℕ, Bool, true, false, not, ◌&&◌, ◌||◌, ◌==◌, leb, ◌+◌, List, [], ◌∷◌, ◌++◌, length, take,
  replicate, if◌then◌else◌,
}
use evse_test_system.V2g.Iso.States.{ok, failed}
use evse_test_system.V2g.Iso.StateIds.{
  wait_for_payment_details_or_certificate, wait_for_authorization,
}
use evse_test_system.V2g.Iso.Server.{
  Outcome, PaymentOption, contract, same_option, waiting_for_customer_interaction, Service,
  selected_payment_option, sae_bidi_mode_active, require_auth_pnc, Server, Response, Reply, go_to,
  set_code, answer,
}
use evse_test_system.V2g.Iso.Discovery.{has_service}

abbrev pub failed_service_selection_invalid : ℕ
failed_service_selection_invalid = 8

abbrev pub failed_payment_selection_invalid : ℕ
failed_payment_selection_invalid = 9

abbrev pub failed_no_charge_service_selected : ℕ
failed_no_charge_service_selected = 21

abbrev sae_v2h : ℕ
sae_v2h = 28472

abbrev sae_v2g : ℕ
sae_v2g = 28473

pub record PaymentServiceSelectionReq : Type 0 where
  pub payment_option : PaymentOption
  pub selected_services : List ℕ

abbrev pub has_option : PaymentOption → List PaymentOption → Bool
has_option p [] = false
has_option p (q ∷ qs) = same_option q p || has_option p qs

unfoldable pub is_offered : PaymentOption → Server → Bool
is_offered p s = has_option p (take s.payment_option_list_len s.payment_option_list)

-- What the loop over the selected services has found, and the flags that it sets.
pub record Selection : Type 0 where
  pub charge_service_found : Bool
  pub selected_services_found : Bool
  pub v2h : Bool
  pub v2g : Bool
  pub bidi_signals : ℕ

-- A selected service that is on the list of the services.
abbrev pub enable_service : ℕ → Selection → Selection
enable_service id c =
    if id == sae_v2h
    then record c { v2h = true; v2g = false; bidi_signals = c.bidi_signals + 1 }
    else if id == sae_v2g
    then record c { v2h = false; v2g = true; bidi_signals = c.bidi_signals + 1 }
    else c

unfoldable pub select_services : List Service → List ℕ → Selection → Selection
select_services services [] c = c
select_services services (id ∷ ids) c =
    let charged = select_services services ids (record c { charge_service_found = true }) in
    let listed = select_services services ids (enable_service id c) in
    if id == 1
    then charged
    else if has_service id services
    then listed
    else record c { selected_services_found = false }

-- The loop over the selected services, from the flags of the context.
unfoldable pub selection_of : PaymentServiceSelectionReq → Server → Selection
unfolding select_services
selection_of req s = select_services s.evse_service_list req.selected_services (record {
  charge_service_found = false;
  selected_services_found = true;
  v2h = s.enabled_sae_v2h;
  v2g = s.enabled_sae_v2g;
  bidi_signals = 0;
})

-- The response code before its check: the last of the three tests that fails.
unfoldable pub selection_code : PaymentServiceSelectionReq → Server → ℕ
unfolding is_offered selection_of
selection_code req s =
    let c = selection_of req s in
    if not c.charge_service_found
    then failed_no_charge_service_selected
    else if not c.selected_services_found
    then failed_service_selection_invalid
    else if is_offered req.payment_option s
    then ok
    else failed_payment_selection_invalid

-- The selected payment option is published when it is offered; `now` is the clock after the check.
unfoldable pub selection_after : ℕ → PaymentServiceSelectionReq → Server → Server
unfolding is_offered selection_of
selection_after now req s =
    let c = selection_of req s in
    let is_contract = same_option req.payment_option contract in
    let state =
      if is_contract then wait_for_payment_details_or_certificate else wait_for_authorization in
    record (go_to state s) {
      iso_selected_payment_option = if is_contract then contract else s.iso_selected_payment_option;
      auth_processing = if is_contract then s.auth_processing else waiting_for_customer_interaction;
      auth_start_timeout = if is_contract then s.auth_start_timeout else now;
      enabled_sae_v2h = c.v2h;
      enabled_sae_v2g = c.v2g;
      published =
          (if is_offered req.payment_option s
            then s.published ++ (selected_payment_option req.payment_option ∷ [])
            else s.published)
          ++ replicate c.bidi_signals sae_bidi_mode_active;
    }

unfoldable pub handle_iso_payment_service_selection :
    ℕ → PaymentServiceSelectionReq → Server → Response → Outcome Reply
unfolding selection_code selection_after answer
handle_iso_payment_service_selection now req s r =
    answer (selection_after now req s) s.stop.iso (set_code (selection_code req s) r)

abbrev failed_certificate_expired : ℕ
failed_certificate_expired = 10

abbrev failed_no_certificate_available : ℕ
failed_no_certificate_available = 12

abbrev pub failed_cert_chain_error : ℕ
failed_cert_chain_error = 13

abbrev pub failed_certificate_revoked : ℕ
failed_certificate_revoked = 25

-- crypto::verify_result_t
pub data VerifyResult : Type 0 where
  verified certificate_expired certificate_revoked no_certificate_available : VerifyResult
  cert_chain_error : VerifyResult

-- `certificate_size`: the bytes of the contract certificate; `has_public_key` and `sub_certificates`:
-- whether its key and the sub certificates could be read; `verification`: of the whole chain.
pub record PaymentDetailsReq : Type 0 where
  pub certificate_size : ℕ
  pub is_parsed : Bool
  pub req_emaid : List ℕ
  pub cert_emaid : List ℕ
  pub has_public_key : Bool
  pub sub_certificates : List Bool
  pub verification : VerifyResult

-- The characters without '-'.
abbrev remove_dashes : List ℕ → List ℕ
remove_dashes [] = []
remove_dashes (c ∷ cs) = let rest = remove_dashes cs in if c == 45 then rest else c ∷ rest

abbrev to_lower : ℕ → ℕ
to_lower c = if leb 65 c && leb c 90 then c + 32 else c

-- strncasecmp, of strings of one length: it ends at a character 0.
abbrev same_ignoring_case : List ℕ → List ℕ → Bool
same_ignoring_case (a ∷ xs) (b ∷ ys) =
    let rest = same_ignoring_case xs ys in (to_lower a == to_lower b) && (a == 0 || rest)
same_ignoring_case _ _ = true

unfoldable pub same_emaid : List ℕ → List ℕ → Bool
same_emaid a b =
    let short_a = remove_dashes a in
    let short_b = remove_dashes b in
    length short_a == length short_b && same_ignoring_case short_a short_b

abbrev all_loaded : List Bool → Bool
all_loaded [] = true
all_loaded (b ∷ bs) = b && all_loaded bs

-- The response code of the verification, where it is no success.
abbrev verify_code : VerifyResult → Bool → ℕ
verify_code verified _ = ok
verify_code certificate_expired _ = failed_certificate_expired
verify_code certificate_revoked true = ok
verify_code certificate_revoked false = failed_certificate_revoked
verify_code no_certificate_available true = ok
verify_code no_certificate_available false = failed_no_certificate_available
verify_code cert_chain_error _ = failed_cert_chain_error

-- The response code before its check; only `ok` is reached without a jump to the end.
unfoldable pub payment_details_code : PaymentDetailsReq → Server → ℕ
unfolding same_emaid
payment_details_code req s =
    if not (same_option s.iso_selected_payment_option contract)
    then failed
    else if req.certificate_size == 0
        || not (same_emaid req.req_emaid req.cert_emaid)
        || not req.is_parsed
        || not req.has_public_key
        || not (all_loaded req.sub_certificates)
    then failed_cert_chain_error
    else if s.verify_contract_cert_chain
    then verify_code req.verification s.central_contract_validation_allowed
    else ok

-- `challenge`: the random data; `now`: the clock after the check.
unfoldable pub handle_iso_payment_details :
    ℕ → List ℕ → PaymentDetailsReq → Server → Response → Outcome Reply
unfolding payment_details_code answer
handle_iso_payment_details now challenge req s r =
    let code = payment_details_code req s in
    let is_ok = code == ok in
    answer
      (record (go_to wait_for_authorization s) {
        auth_start_timeout = now;
        gen_challenge = if is_ok then challenge else s.gen_challenge;
        published = if is_ok then s.published ++ (require_auth_pnc ∷ []) else s.published;
      })
      s.stop.iso (set_code code r)
