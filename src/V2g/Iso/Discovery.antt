-- ===== src/V2g/Iso/Discovery.antt =====
-- modules/EvseTestV2G/server/iso_server.cpp: `handle_iso_session_setup`, `handle_iso_service_discovery` and
-- `handle_iso_service_detail`. The numbers that rand() returns are arguments. The list of the payment
-- options has at most two entries, as its array.
use Prim.Native.Nat.{bit_or}
use evse_test_system.Base.{
  ℕ, ◌+◌, ◌*◌, ◌/◌, ◌%◌, ◌^◌, Bool, true, false, not, ◌&&◌, ◌||◌, ◌==◌, ltb, Option, none, some,
  List, [], ◌∷◌, ◌++◌, length, take, drop, set, get_elem?, if◌then◌else◌,
}
use evse_test_system.V2g.Iso.States.{ok, failed}
use evse_test_system.V2g.Iso.StateIds.{
  wait_for_service_discovery, wait_for_payment_service_selection,
}
use evse_test_system.V2g.Iso.Server.{
  Outcome, PaymentOption, contract, external_payment, Service, evcc_id, no_payment_option_left,
  Server, Response, Reply, publish, go_to, set_code, answer, answer_at,
}

abbrev pub ok_new_session_established : ℕ
ok_new_session_established = 1

abbrev ok_old_session_joined : ℕ
ok_old_session_joined = 2

abbrev pub failed_service_id_invalid : ℕ
failed_service_id_invalid = 6

-- The character of a digit in base 16.
abbrev hex_digit : ℕ → ℕ
hex_digit d = if ltb d 10 then 48 + d else 55 + d

-- The bytes as pairs of digits, with colons between them.
abbrev pub format_evcc_id : List ℕ → List ℕ
format_evcc_id [] = []
format_evcc_id (b ∷ []) = hex_digit (b / 16) ∷ hex_digit (b % 16) ∷ []
format_evcc_id (b ∷ c ∷ rest) =
    hex_digit (b / 16) ∷ hex_digit (b % 16) ∷ 58 ∷ format_evcc_id (c ∷ rest)

-- The four numbers of rand(), shifted as 64-bit words.
pub record RandomWords : Type 0 where
  pub first : ℕ
  pub second : ℕ
  pub third : ℕ
  pub fourth : ℕ

unfoldable pub random_session_id : RandomWords → ℕ
random_session_id r =
    bit_or
      (bit_or (bit_or (r.first * 2 ^ 48 % 2 ^ 64) (r.second * 2 ^ 32 % 2 ^ 64))
        (r.third * 2 ^ 16 % 2 ^ 64))
      r.fourth

-- `evccid`: the bytes of the EVCC id.
unfoldable pub handle_iso_session_setup : List ℕ → RandomWords → Server → Response → Outcome Reply
unfolding answer random_session_id
handle_iso_session_setup evccid random s r =
    let id = s.stop.iso.session_id in
    let is_new = id == 0 || not (id == s.stop.iso.received_session_id) in
    let named = publish s (evcc_id (format_evcc_id evccid)) in
    answer_at wait_for_service_discovery
      (record named {
        stop = record s.stop {
          iso = record s.stop.iso { session_id = if is_new then random_session_id random else id };
        };
      })
      (set_code (if is_new then ok_new_session_established else ok_old_session_joined) r)

abbrev is_contract : Option PaymentOption → Bool
is_contract (some contract) = true
is_contract _ = false

-- Without TLS a contract is not offered, unless in debug mode.
abbrev pub is_contract_corrected : Server → Bool
is_contract_corrected s =
    not s.is_tls_connection
    && (is_contract (get_elem? s.payment_option_list 0)
        || is_contract (get_elem? s.payment_option_list 1))
    && not s.debug_mode

abbrev pub is_supported : Server → PaymentOption → Bool
is_supported s external_payment = s.auth_eim_supported
is_supported s contract = s.auth_pnc_supported

abbrev pub filter_options : Server → List PaymentOption → List PaymentOption
filter_options s [] = []
filter_options s (p ∷ ps) =
    let rest = filter_options s ps in if is_supported s p then p ∷ rest else rest

-- The options that are left, in their order.
unfoldable pub offered_options : Server → List PaymentOption
offered_options s =
    if is_contract_corrected s
    then filter_options s (take 1 (set s.payment_option_list 0 external_payment))
    else filter_options s (take s.payment_option_list_len s.payment_option_list)

abbrev same_characters : List ℕ → List ℕ → Bool
same_characters [] [] = true
same_characters (a ∷ others) (b ∷ bs) = a == b && same_characters others bs
same_characters _ _ = false

-- The first service of the scope.
abbrev find_scope : List ℕ → List Service → Option Service
find_scope scope [] = none
find_scope scope (s ∷ ss) =
    let rest = find_scope scope ss in
    elim s.service_scope [
      | none ↦ rest
      | some own ↦ if same_characters own scope then some s else rest
    ]

abbrev scoped_services : Option (List ℕ) → List Service → List Service
scoped_services none services = services
scoped_services (some scope) services = elim (find_scope scope services) [
  | none ↦ services
  | some s ↦ s ∷ []
]

abbrev pub is_empty : {A : Type 0} → List A → Bool
is_empty [] = true
is_empty (x ∷ xs) = false

-- The list in the context becomes the list that is offered, with the rest of its array kept.
unfoldable pub discovery_after : Server → Server
unfolding offered_options
discovery_after s =
    let options = offered_options s in
    let corrected =
      if is_contract_corrected s
      then set s.payment_option_list 0 external_payment
      else s.payment_option_list in
    record s {
      charge_service_id = 1;
      is_ev_charging_category = true;
      payment_option_list = options ++ drop (length options) corrected;
      payment_option_list_len = length options;
      errors = if is_empty options then s.errors ++ (no_payment_option_left ∷ []) else s.errors;
    }

-- `scope`: the scope that the request names.
unfoldable pub discovery_response : Option (List ℕ) → Server → Response → Response
unfolding offered_options
discovery_response scope s r = record r {
  response_code = if is_empty (offered_options s) then failed else ok;
  payment_options = offered_options s;
  services = scoped_services scope s.evse_service_list;
}

unfoldable pub handle_iso_service_discovery : Option (List ℕ) → Server → Response → Outcome Reply
unfolding discovery_after discovery_response answer
handle_iso_service_discovery scope s r =
    answer (go_to wait_for_payment_service_selection (discovery_after s)) s.stop.iso
      (discovery_response scope s r)

-- The parameter sets of the last service with the id.
abbrev pub find_parameters : ℕ → List Service → Option (List ℕ)
find_parameters id [] = none
find_parameters id (s ∷ ss) = elim (find_parameters id ss) [
  | some found ↦ some found
  | none ↦ if id == s.service_id then some s.parameter_sets else none
]

abbrev pub has_service : ℕ → List Service → Bool
has_service id [] = false
has_service id (s ∷ ss) = id == s.service_id || has_service id ss

unfoldable pub handle_iso_service_detail : ℕ → Server → Response → Outcome Reply
unfolding answer
handle_iso_service_detail id s r =
    let parameters : List ℕ = elim (find_parameters id s.evse_service_list) [
      | none ↦ r.service_parameters
      | some found ↦ found
    ] in
    let found = id == 1 || has_service id s.evse_service_list in
    answer_at wait_for_payment_service_selection s (record r {
      response_code = if found then ok else failed_service_id_invalid;
      service_parameters = parameters;
    })
