-- ===== src/V2g/Tester.antt =====
-- modules/EvseTestV2G/tester/evse_test_v2gImpl.cpp: what the commands of the tester interface and the events
-- of the board set for a test, with `v2g_ctx_init_testing_values` of modules/EvseTestV2G/v2g_ctx.cpp.
use evse_test_system.Base.{
  ℕ, ◌+◌, ◌%◌, ◌^◌, ◌≡◌, refl, Bool, true, false, ◌||◌, Option, none, some, List, [], ◌∷◌,
  if◌then◌else◌, arith,
}
use Prim.Native.String.{String}
use evse_test_system.Types.{
  TestId, TestConstraints, TestOutcome, not_started, V2gProtocol, din_70121, iso_15118_2,
  IdentificationMode, eim, pnc,
}
use evse_test_system.V2g.Types.{proto_din70121, proto_iso15118_2013, protocol_number}
use evse_test_system.V2g.Handshake.{has_bit}

-- board_support_common::Event: the states of the control pilot, and any other event.
pub data BspEvent : Type 0 where
  a b c d e f : BspEvent
  other_event : ℕ → BspEvent

-- `test_data` of the context without its test server, and `force_next_connection_req_res` of the context.
-- A report stands for itself by a number.
pub record TestData : Type 0 where
  pub test_id : TestId
  pub supported_protocols : ℕ
  pub auth_eim_supported : Bool
  pub auth_pnc_supported : Bool
  pub outcome : TestOutcome
  pub evidence : List String
  pub reports : List ℕ
  pub errors : List String
  pub force_next_connection_req_res : Bool
  pub bsp_state : BspEvent
  pub cp_state : BspEvent

-- The subscriber to the board's events.
unfoldable pub on_bsp_event : BspEvent → TestData → TestData
on_bsp_event (other_event n) t = record t { bsp_state = other_event n }
on_bsp_event event t = record t { bsp_state = event; cp_state = event }

-- `mask |= (1 << n)`
abbrev or_bit : ℕ → ℕ → ℕ
or_bit mask n = if has_bit mask n then mask else mask + 2 ^ n

unfoldable pub add_protocols : ℕ → List V2gProtocol → ℕ
add_protocols mask [] = mask
add_protocols mask (din_70121 ∷ ps) =
    add_protocols (or_bit mask (protocol_number proto_din70121)) ps
add_protocols mask (iso_15118_2 ∷ ps) =
    add_protocols (or_bit mask (protocol_number proto_iso15118_2013)) ps

-- The mask is an `int8_t`, of which only the bits 0 to 3 are looked at; `supported` is the mask of the
-- context.
unfoldable pub get_v2g_protocol_bitmask : ℕ → TestConstraints → ℕ
unfolding add_protocols
get_v2g_protocol_bitmask supported constraints = elim constraints.protocols [
  | none ↦ supported % 256
  | some ps ↦ elim ps [ [] ↦ supported % 256 | p ∷ rest ↦ add_protocols 0 (p ∷ rest) ]
]

unfoldable pub add_modes : Bool → Bool → List IdentificationMode → Bool × Bool
add_modes has_eim has_pnc [] = (has_eim, has_pnc)
add_modes has_eim has_pnc (eim ∷ ms) = add_modes true has_pnc ms
add_modes has_eim has_pnc (pnc ∷ ms) = add_modes has_eim true ms

-- The two flags, for EIM and for PnC.
unfoldable pub apply_identification_modes : TestConstraints → Bool × Bool
unfolding add_modes
apply_identification_modes constraints = elim constraints.ident_modes [
  | none ↦ (true, true)
  | some ms ↦ elim ms [ [] ↦ (true, true) | m ∷ rest ↦ add_modes false false (m ∷ rest) ]
]

unfoldable pub handle_set_test_context : ℕ → TestId → TestConstraints → TestData → TestData
unfolding get_v2g_protocol_bitmask apply_identification_modes
handle_set_test_context supported id constraints t =
    let modes = apply_identification_modes constraints in
    record t {
      test_id = id;
      supported_protocols = get_v2g_protocol_bitmask supported constraints;
      auth_eim_supported = modes.0;
      auth_pnc_supported = modes.1;
    }

-- The body of the command is empty.
abbrev pub handle_cancel_test : TestData → TestData
handle_cancel_test t = t

-- `v2g_ctx_init_testing_values`
unfoldable pub v2g_ctx_init_testing_values : TestData → TestData
v2g_ctx_init_testing_values t = record t {
  supported_protocols = 0;
  outcome = not_started;
  evidence = [];
  reports = [];
  errors = [];
  force_next_connection_req_res = false;
}

-- Whether a list of constraints lets a value through: a missing or empty list lets everything through.
abbrev pub is_protocol : V2gProtocol → V2gProtocol → Bool
is_protocol din_70121 din_70121 = true
is_protocol iso_15118_2 iso_15118_2 = true
is_protocol _ _ = false

abbrev pub is_mode : IdentificationMode → IdentificationMode → Bool
is_mode eim eim = true
is_mode pnc pnc = true
is_mode _ _ = false

abbrev pub any : {A : Type 0} → (A → Bool) → List A → Bool
any test [] = false
any test (x ∷ xs) = test x || any test xs

abbrev pub permits : {A : Type 0} → (A → Bool) → Bool → Option (List A) → Bool
permits test otherwise none = otherwise
permits test otherwise (some []) = otherwise
permits test otherwise (some (x ∷ xs)) = any test (x ∷ xs)

add_protocols-lem :
    (mask : ℕ) (ps : List V2gProtocol)
    → (has_bit (add_protocols mask ps) 0 ≡ has_bit mask 0 || any (is_protocol din_70121) ps)
      × (has_bit (add_protocols mask ps) 2 ≡ has_bit mask 2 || any (is_protocol iso_15118_2) ps)
unfolding add_protocols
add_protocols-lem mask [] = ground arith
add_protocols-lem mask (din_70121 ∷ ps) = ground (arith, add_protocols-lem (or_bit mask 0) ps)
add_protocols-lem mask (iso_15118_2 ∷ ps) = ground (arith, add_protocols-lem (or_bit mask 2) ps)

add_modes-lem :
    (has_eim has_pnc : Bool) (ms : List IdentificationMode)
    → ((add_modes has_eim has_pnc ms).0 ≡ has_eim || any (is_mode eim) ms)
      × ((add_modes has_eim has_pnc ms).1 ≡ has_pnc || any (is_mode pnc) ms)
unfolding add_modes
add_modes-lem has_eim has_pnc [] = ground arith
add_modes-lem has_eim has_pnc (eim ∷ ms) = ground (arith, add_modes-lem true has_pnc ms)
add_modes-lem has_eim has_pnc (pnc ∷ ms) = ground (arith, add_modes-lem has_eim true ms)

bitmask-permits :
    (supported : ℕ) (constraints : TestConstraints) (o : Option (List V2gProtocol))
    → constraints.protocols ≡ o
    → let m = get_v2g_protocol_bitmask supported constraints in
      (has_bit m 0 ≡ permits (is_protocol din_70121) (has_bit supported 0) o)
      × (has_bit m 2 ≡ permits (is_protocol iso_15118_2) (has_bit supported 2) o)
unfolding get_v2g_protocol_bitmask
bitmask-permits supported constraints none h = ground arith
bitmask-permits supported constraints (some []) h = ground arith
bitmask-permits supported constraints (some (p ∷ ps)) h =
    ground (arith, add_protocols-lem 0 (p ∷ ps))

modes-permits :
    (constraints : TestConstraints) (o : Option (List IdentificationMode))
    → constraints.ident_modes ≡ o
    → let m = apply_identification_modes constraints in
      (m.0 ≡ permits (is_mode eim) true o) × (m.1 ≡ permits (is_mode pnc) true o)
unfolding apply_identification_modes
modes-permits constraints none h = ground arith
modes-permits constraints (some []) h = ground arith
modes-permits constraints (some (x ∷ ms)) h = ground (arith, add_modes-lem false false (x ∷ ms))

-- After `set_test_context` the test runs with a protocol and an identification mode exactly where its
-- constraints list them; where they list none, with the protocols of the station and with both
-- modes.
handle_set_test_context-permits :
    (supported : ℕ) (id : TestId) (constraints : TestConstraints) (t : TestData)
    → let s = handle_set_test_context supported id constraints t in
      (has_bit s.supported_protocols 0
        ≡ permits (is_protocol din_70121) (has_bit supported 0) constraints.protocols)
      × (has_bit s.supported_protocols 2
          ≡ permits (is_protocol iso_15118_2) (has_bit supported 2) constraints.protocols)
      × (s.auth_eim_supported ≡ permits (is_mode eim) true constraints.ident_modes)
      × (s.auth_pnc_supported ≡ permits (is_mode pnc) true constraints.ident_modes)
unfolding handle_set_test_context
handle_set_test_context-permits supported id constraints t =
    let m = bitmask-permits supported constraints constraints.protocols refl in
    let i = modes-permits constraints constraints.ident_modes refl in (m.0, m.1, i.0, i.1)
