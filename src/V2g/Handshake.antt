-- ===== src/V2g/Handshake.antt =====
-- modules/EvseTestV2G/v2g_server.cpp: `v2g_handle_apphandshake`, the negotiation of the protocol.
-- The EXI codec is not under modules/: what `decode_appHand_exiDocument` and
-- `encode_appHand_exiDocument` return are arguments.
use evse_test_system.Base.{
  ℕ, ◌+◌, ◌/◌, ◌%◌, ◌^◌, Bool, true, false, not, ◌&&◌, ◌||◌, Option, none, some, List, [], ◌∷◌,
  ◌++◌, leb, ◌==◌, if◌then◌else◌,
}
use Prim.Native.String.{String}
use text.Mathlib.Text.{◌==◌ as str_eq}
use evse_test_system.V2g.Types.{
  V2gEvent, no_event, terminate_connection, send_and_terminate, Protocol, proto_din70121,
  proto_iso15118_2010, proto_iso15118_2013, protocol_number,
}
pub mod Best

-- iso2_paymentOptionType
pub data PaymentOption : Type 0 where
  contract external_payment : PaymentOption

-- appHand_AppProtocolType
pub record AppProtocol : Type 0 where
  pub namespace : String
  pub version_major : ℕ
  pub version_minor : ℕ
  pub schema_id : ℕ
  pub priority : ℕ

-- appHand_responseCodeType, as far as the handshake uses it.
pub data ResponseCode : Type 0 where
  successful_negotiation failed_no_negotiation : ResponseCode

-- What the handshake reads of the connection, its context and the data of the test. The first two
-- entries of `payment_option_list` are read whatever the length of the list is.
pub record Context : Type 0 where
  pub supported_protocols : ℕ
  pub test_supported_protocols : ℕ
  pub payment_option_0 : PaymentOption
  pub payment_option_1 : PaymentOption
  pub auth_eim_supported : Bool
  pub auth_pnc_supported : Bool
  pub is_tls_connection : Bool
  pub debug_mode : Bool
  pub is_connection_terminated : Bool
  pub intl_emergency_shutdown : Bool
  pub stop_hlc : Bool
  pub terminate_connection_on_failed_response : Bool

-- What the loop over the offers changes. `published` is the list for `publish_ev_app_protocol`.
pub record Choice : Type 0 where
  pub ev_app_priority : ℕ
  pub response_code : ResponseCode
  pub schema_id : ℕ
  pub selected_protocol : Protocol
  pub errors : List String
  pub published : List AppProtocol

-- A test of bit `n` of a mask, `mask & (1 << n)`.
abbrev pub has_bit : ℕ → ℕ → Bool
has_bit mask n = mask / 2 ^ n % 2 == 1

-- Bit `p` of the mask that the configuration and the test case have in common.
unfoldable pub is_supported : Context → Protocol → Bool
is_supported c p =
    has_bit c.supported_protocols (protocol_number p)
    && has_bit c.test_supported_protocols (protocol_number p)

abbrev pub is_option : PaymentOption → PaymentOption → Bool
is_option contract contract = true
is_option external_payment external_payment = true
is_option _ _ = false

unfoldable pub auth_eim_listed : Context → Bool
auth_eim_listed c =
    is_option c.payment_option_0 external_payment || is_option c.payment_option_1 external_payment

unfoldable pub auth_pnc_listed : Context → Bool
auth_pnc_listed c = is_option c.payment_option_0 contract || is_option c.payment_option_1 contract

abbrev pub with_error : String → Choice → Choice
with_error e x = record x { errors = x.errors ++ (e ∷ []) }

abbrev pub accept : AppProtocol → Protocol → Choice → Choice
accept o p x = record x {
  ev_app_priority = o.priority;
  response_code = successful_negotiation;
  schema_id = o.schema_id;
  selected_protocol = p;
}

unfoldable pub consider_din : Context → AppProtocol → Choice → Choice
consider_din c o x =
    if not (c.auth_eim_supported && auth_eim_listed c)
    then if not c.auth_eim_supported
      then with_error
          "DIN 70121 AppProtocol is unavailable due to EIM payment unsupported by test config" x
      else with_error "DIN 70121 AppProtocol is unavailable due to EIM payment unsupported by EVSE"
          x
    else accept o proto_din70121 x

unfoldable pub consider_iso : Context → AppProtocol → Choice → Choice
consider_iso c o x =
    if not (c.auth_pnc_supported && (auth_pnc_listed c && c.is_tls_connection))
      && not (c.auth_eim_supported && auth_eim_listed c)
    then if not c.auth_pnc_supported && not c.auth_eim_supported
      then with_error
          "ISO 15118-2 AppProtocol is unavailable due to all identification modes disabled by test config."
          x
      else if c.auth_pnc_supported
      then if not (auth_pnc_listed c)
        then with_error
            "ISO 15118-2 AppProtocol is unavailable due to PnC payment unsupported by EVSE" x
        else with_error "ISO 15118-2 AppProtocol is unavailable due to PnC payment requiring TLS" x
      else with_error
          "ISO 15118-2 AppProtocol is unavailable due to EIM payment unsupported by EVSE" x
    else accept o proto_iso15118_2013 x

unfoldable pub is_din_offer : Context → AppProtocol → Bool
unfolding is_supported
is_din_offer c o =
    is_supported c proto_din70121
    && (str_eq o.namespace "urn:din:70121:2012:MsgDef" && o.version_major == 2)

unfoldable pub is_iso_offer : Context → AppProtocol → Bool
unfolding is_supported
is_iso_offer c o =
    is_supported c proto_iso15118_2013
    && (str_eq o.namespace "urn:iso:15118:2:2013:MsgDef" && o.version_major == 2)

-- The body of the loop.
unfoldable pub consider : Context → AppProtocol → Choice → Choice
unfolding consider_din consider_iso
consider c o x =
    let chosen =
      if is_din_offer c o && leb o.priority x.ev_app_priority
      then consider_din c o x
      else if is_iso_offer c o && leb o.priority x.ev_app_priority
      then consider_iso c o x
      else x in
    if c.debug_mode then record chosen { published = chosen.published ++ (o ∷ []) } else chosen

unfoldable pub consider_all : Context → List AppProtocol → Choice → Choice
consider_all c [] x = x
consider_all c (o ∷ os) x = consider_all c os (consider c o x)

-- The answer, with what was published for debugging: the offers and the selected protocol.
pub record Response : Type 0 where
  pub response_code : ResponseCode
  -- `SchemaID`, where `SchemaID_isUsed` is set.
  pub schema_id : Option ℕ
  pub selected_protocol : Protocol
  pub errors : List String
  pub published_offers : Option (List AppProtocol)
  pub published_selection : Option String

abbrev protocol_name : Protocol → String
protocol_name proto_din70121 = "DIN70121"
protocol_name proto_iso15118_2013 = "ISO15118-2-2013"
protocol_name proto_iso15118_2010 = "ISO15118-2-2010"
protocol_name _ = ""

abbrev pub when : {A : Type 0} → Bool → A → Option A
when b x = if b then some x else none

-- The response before the state of the connection is looked at.
unfoldable pub selection : Context → Choice → Response
selection c x = elim x.response_code [
  | successful_negotiation ↦ record {
    response_code = successful_negotiation;
    schema_id = some x.schema_id;
    selected_protocol = x.selected_protocol;
    errors = x.errors;
    published_offers = when c.debug_mode x.published;
    published_selection = when c.debug_mode (protocol_name x.selected_protocol);
  }
  | failed_no_negotiation ↦ record {
    response_code = failed_no_negotiation;
    schema_id = none;
    selected_protocol = x.selected_protocol;
    errors = x.errors ++ ("No compatible AppProtocol found" ∷ []);
    published_offers = when c.debug_mode x.published;
    published_selection = when c.debug_mode "None";
  }
]

abbrev is_failed : ResponseCode → Bool
is_failed successful_negotiation = false
is_failed failed_no_negotiation = true

-- The rest of the function. `encoded`: the encoder returned 0.
unfoldable pub answer : Context → Bool → Response → Response × V2gEvent
answer c encoded r =
    let event = if is_failed r.response_code then send_and_terminate else no_event in
    let abort = c.intl_emergency_shutdown || (c.stop_hlc || is_failed r.response_code) in
    let refused = if abort then record r { response_code = failed_no_negotiation } else r in
    let next =
      if abort && c.terminate_connection_on_failed_response then send_and_terminate else event in
    if c.is_connection_terminated
    then (r, terminate_connection)
    else (refused, if encoded then next else send_and_terminate)

-- The state at the start of the loop: the lowest priority is 20.
abbrev pub start_choice : Protocol → List String → Choice
start_choice selected errors = record {
  ev_app_priority = 20;
  response_code = failed_no_negotiation;
  schema_id = 0;
  selected_protocol = selected;
  errors = errors;
  published = [];
}

-- `offers` is what the decoder gave, if it returned 0; `selected` and `errors` are
-- `selected_protocol` of the context and the errors of the test so far.
unfoldable pub v2g_handle_apphandshake :
    Context → Option (List AppProtocol) → Bool → Protocol → List String → Response × V2gEvent
unfolding answer selection consider_all
v2g_handle_apphandshake c none encoded selected errors = (
  record {
    response_code = failed_no_negotiation;
    schema_id = none;
    selected_protocol = selected;
    errors = errors;
    published_offers = none;
    published_selection = none;
  },
  terminate_connection,
)
v2g_handle_apphandshake c (some offers) encoded selected errors =
    answer c encoded (selection c (consider_all c offers (start_choice selected errors)))
