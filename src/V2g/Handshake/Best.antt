-- ===== src/V2g/Handshake/Best.antt =====
-- v2g_server.cpp, `v2g_handle_apphandshake`: which offer the loop settles on.
use evse_test_system.Base.{
  ℕ, ◌≤◌, ◌≡◌, refl, Bool, true, false, ◌&&◌, ◌||◌, Option, none, some, List, [], ◌∷◌, ◌⊎◌, ◌↔◌,
  inl, inr, ◌+◌, leb, if◌then◌else◌, arith,
}
use Prim.Native.String.{String}
use evse_test_system.V2g.Types.{no_event, Protocol, proto_din70121, proto_iso15118_2013}
use evse_test_system.V2g.Handshake.{
  AppProtocol, successful_negotiation, failed_no_negotiation, Context, Choice, is_din_offer,
  is_iso_offer, auth_eim_listed, auth_pnc_listed, consider_din, consider_iso, consider,
  consider_all, start_choice, selection, answer, v2g_handle_apphandshake,
}

-- The payment that DIN 70121 and ISO 15118-2 need.
unfoldable pub din_feasible : Context → Bool
din_feasible c = c.auth_eim_supported && auth_eim_listed c

unfoldable pub iso_feasible : Context → Bool
iso_feasible c =
    c.auth_pnc_supported && (auth_pnc_listed c && c.is_tls_connection)
    || c.auth_eim_supported && auth_eim_listed c

-- The offers that the configuration of the station and the test allow, with the protocol chosen.
unfoldable pub acceptable : Context → AppProtocol → Option Protocol
acceptable c o =
    if is_din_offer c o
    then if din_feasible c then some proto_din70121 else none
    else if is_iso_offer c o
    then if iso_feasible c then some proto_iso15118_2013 else none
    else none

-- Where an accepted offer `o` leaves the choice, and what a round keeps that accepts nothing.
IsTaken : AppProtocol → Protocol → Choice → Type 0
IsTaken o p x =
    (x.ev_app_priority ≡ o.priority)
    × (x.response_code ≡ successful_negotiation)
    × (x.schema_id ≡ o.schema_id)
    × (x.selected_protocol ≡ p)

IsKept : Choice → Choice → Type 0
IsKept x y =
    (y.ev_app_priority ≡ x.ev_app_priority)
    × (y.response_code ≡ x.response_code)
    × (y.schema_id ≡ x.schema_id)
    × (y.selected_protocol ≡ x.selected_protocol)

consider_din-lem :
    (c : Context) (o : AppProtocol) (x : Choice) (b : Bool)
    → din_feasible c ≡ b
    → if b then IsTaken o proto_din70121 (consider_din c o x) else IsKept x (consider_din c o x)
unfolding consider_din IsTaken IsKept din_feasible
consider_din-lem c o x true e = ground arith
consider_din-lem c o x false e = ground arith

consider_iso-lem :
    (c : Context) (o : AppProtocol) (x : Choice) (b : Bool)
    → iso_feasible c ≡ b
    → if b
      then IsTaken o proto_iso15118_2013 (consider_iso c o x)
      else IsKept x (consider_iso c o x)
unfolding consider_iso IsTaken IsKept iso_feasible
consider_iso-lem c o x true e = ground arith
consider_iso-lem c o x false e = ground arith

-- One round of the loop: an acceptable offer of no worse priority is taken, and nothing else.
consider-IsTaken :
    (c : Context) (o : AppProtocol) (x : Choice) (p : Protocol)
    → acceptable c o ≡ some p
    → leb o.priority x.ev_app_priority ≡ true
    → IsTaken o p (consider c o x)
unfolding consider IsTaken IsKept acceptable
consider-IsTaken c o x p e h = ground (
  arith,
  consider_din-lem c o x (din_feasible c) refl,
  consider_iso-lem c o x (iso_feasible c) refl,
)

consider-IsKept :
    (c : Context) (o : AppProtocol) (x : Choice)
    → (acceptable c o ≡ none) ⊎ (leb o.priority x.ev_app_priority ≡ false)
    → IsKept x (consider c o x)
unfolding consider IsTaken IsKept acceptable
consider-IsKept c o x (inl e) = ground (
  arith,
  consider_din-lem c o x (din_feasible c) refl,
  consider_iso-lem c o x (iso_feasible c) refl,
)
consider-IsKept c o x (inr e) = ground (
  arith,
  consider_din-lem c o x (din_feasible c) refl,
  consider_iso-lem c o x (iso_feasible c) refl,
)

-- Every acceptable offer of the list has at least the priority `v`: a larger number is worse.
abbrev pub AllAtLeast : Context → ℕ → List AppProtocol → Type 0
AllAtLeast c v [] = Unit
AllAtLeast c v (o ∷ os) = ((acceptable c o ≡ none) ⊎ (v ≤ o.priority)) × AllAtLeast c v os

-- The choice stands for an acceptable offer of the list.
abbrev pub IsChosen : Context → List AppProtocol → Choice → Type 0
IsChosen c [] x = ⊥
IsChosen c (o ∷ os) x =
    ((acceptable c o ≡ some x.selected_protocol)
      × (x.ev_app_priority ≡ o.priority)
      × (x.schema_id ≡ o.schema_id))
    ⊎ IsChosen c os x

AllAtLeast-weaken :
    (c : Context) (v w : ℕ) (os : List AppProtocol) → w ≤ v → AllAtLeast c v os → AllAtLeast c w os
AllAtLeast-weaken c v w [] h p = tt
AllAtLeast-weaken c v w (o ∷ os) h p = ground (arith, AllAtLeast-weaken c v w os h p.1)

IsBest : Context → List AppProtocol → Choice → Choice → Type 0
IsBest c os x y =
    (IsChosen c os y
      × (y.response_code ≡ successful_negotiation)
      × (y.ev_app_priority ≤ x.ev_app_priority)
      × AllAtLeast c y.ev_app_priority os)
    ⊎ (IsKept x y × AllAtLeast c (1 + x.ev_app_priority) os)

IsBest-cons :
    (c : Context) (o : AppProtocol) (os : List AppProtocol) (x z : Choice) (a : Option Protocol)
    → acceptable c o ≡ a
    → (b : Bool) → leb o.priority x.ev_app_priority ≡ b
    → IsBest c os (consider c o x) z
    → IsBest c (o ∷ os) x z
unfolding IsBest IsKept IsTaken
IsBest-cons c o os x z (some p) e true h q = ground (
  arith,
  consider-IsTaken c o x p e h,
  AllAtLeast-weaken c (1 + (consider c o x).ev_app_priority) z.ev_app_priority os,
)
IsBest-cons c o os x z (some p) e false h q = ground (arith, consider-IsKept c o x (inr h))
IsBest-cons c o os x z none e b h q = ground (arith, consider-IsKept c o x (inl e))

consider_all-IsBest :
    (c : Context) (os : List AppProtocol) (x : Choice) → IsBest c os x (consider_all c os x)
unfolding consider_all IsBest IsKept
consider_all-IsBest c [] x = inr ((refl, refl, refl, refl), tt)
consider_all-IsBest c (o ∷ os) x =
    IsBest-cons c o os x (consider_all c os (consider c o x)) (acceptable c o) refl
      (leb o.priority x.ev_app_priority) refl (consider_all-IsBest c os (consider c o x))

-- The negotiation settles on an acceptable offer whose priority number is at most 20 and at most that
-- of every acceptable offer, and the loop's answer is that offer's schema id and protocol with a
-- successful negotiation; otherwise the answer is the failure it starts with, and each acceptable offer has
-- a priority number above 20.
pub consider_all-best :
    (c : Context) (offers : List AppProtocol) (selected : Protocol) (errors : List String)
    → let x = consider_all c offers (start_choice selected errors) in
      (IsChosen c offers x
        × (x.response_code ≡ successful_negotiation)
        × (x.ev_app_priority ≤ 20)
        × AllAtLeast c x.ev_app_priority offers)
      ⊎ ((x.response_code ≡ failed_no_negotiation)
          × (x.selected_protocol ≡ selected)
          × AllAtLeast c 21 offers)
unfolding IsBest IsKept
consider_all-best c offers selected errors =
    ground (arith, consider_all-IsBest c offers (start_choice selected errors))

not_all_worse :
    (c : Context) (os : List AppProtocol) (x : Choice)
    → IsChosen c os x
    → x.ev_app_priority ≤ 20
    → AllAtLeast c 21 os
    → ⊥
not_all_worse c [] x p h q = elim p [ ]
not_all_worse c (o ∷ os) x (inl p) h q = ground arith
not_all_worse c (o ∷ os) x (inr p) h q = not_all_worse c os x p h q.1

answer_iff :
    (c : Context) (encoded : Bool) (x : Choice)
    → (answer c encoded (selection c x)).1 ≡ no_event ↔ (
        (x.response_code ≡ successful_negotiation)
        × (c.is_connection_terminated ≡ false)
        × (encoded ≡ true)
        × ((c.intl_emergency_shutdown || c.stop_hlc) && c.terminate_connection_on_failed_response
            ≡ false))
unfolding answer selection
answer_iff c encoded x = ground arith

-- The handshake with a decoded request ends with `no_event`, the event after which the session goes on
-- to the messages of a protocol, exactly when some acceptable offer has a priority number of at
-- most 20, the connection is not terminated, the response could be encoded, and there is no emergency
-- shutdown or stop that has to terminate the connection.
handshake_continues_iff :
    (c : Context) (offers : List AppProtocol) (encoded : Bool) (selected : Protocol)
    (errors : List String)
    → (v2g_handle_apphandshake c (some offers) encoded selected errors).1 ≡ no_event ↔ (
        ¬ AllAtLeast c 21 offers
        × (c.is_connection_terminated ≡ false)
        × (encoded ≡ true)
        × ((c.intl_emergency_shutdown || c.stop_hlc) && c.terminate_connection_on_failed_response
            ≡ false))
unfolding v2g_handle_apphandshake
handshake_continues_iff c offers encoded selected errors =
    let x = consider_all c offers (start_choice selected errors) in
    ground (
      arith,
      answer_iff c encoded x,
      consider_all-best c offers selected errors,
      not_all_worse c offers x,
    )
