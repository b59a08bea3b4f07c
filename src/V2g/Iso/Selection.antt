-- ===== src/V2g/Iso/Selection.antt =====
-- modules/EvseTestV2G/server/iso_server.cpp: which selections `handle_iso_payment_service_selection` accepts.
use mathlib.Core.Path.{subst}
use evse_test_system.Base.{
  ℕ, ◌≡◌, ◌≤◌, ◌⊎◌, inl, inr, refl, Bool, true, false, ◌&&◌, ◌||◌, ◌==◌, some, List, [], ◌∷◌, arith,
}
use evse_test_system.V2g.Iso.States.{ok, failed, iso_validate_response_code}
use evse_test_system.V2g.Iso.Server.{returned, Service, Server, Response, Reply, set_code}
use evse_test_system.V2g.Iso.Answers.{answer-inv, answer-validate}
use evse_test_system.V2g.Iso.Discovery.{has_service}
use evse_test_system.V2g.Iso.Payment.{
  PaymentServiceSelectionReq, is_offered, Selection, select_services, selection_of, selection_code,
  selection_after, handle_iso_payment_service_selection,
}

abbrev selects_charging : List ℕ → Bool
selects_charging [] = false
selects_charging (id ∷ ids) = id == 1 || selects_charging ids

abbrev all_known : List Service → List ℕ → Bool
all_known services [] = true
all_known services (id ∷ ids) = (id == 1 || has_service id services) && all_known services ids

-- An offered payment option, the charging service, and no service that is not on the list.
abbrev pub IsSelectable : PaymentServiceSelectionReq → Server → Type 0
IsSelectable req s =
    (is_offered req.payment_option s ≡ true)
    × (selects_charging req.selected_services ≡ true)
    × (all_known s.evse_service_list req.selected_services ≡ true)

select-found :
    (services : List Service) (ids : List ℕ) (c : Selection)
    → c.selected_services_found ≡ true
    → (select_services services ids c).selected_services_found ≡ all_known services ids
unfolding select_services
select-found services [] c h = h
select-found services (id ∷ ids) c h = grind (arith, select-found services ids)

select-charge :
    (services : List Service) (ids : List ℕ) (c : Selection)
    → all_known services ids ≡ true
    → (select_services services ids c).charge_service_found
      ≡ (c.charge_service_found || selects_charging ids)
unfolding select_services
select-charge services [] c h = ground arith
select-charge services (id ∷ ids) c h = grind (arith, select-charge services ids)

selection_cases :
    (req : PaymentServiceSelectionReq) (s : Server)
    → (IsSelectable req s × (selection_code req s ≡ ok))
      ⊎ (¬ IsSelectable req s × (failed ≤ selection_code req s))
unfolding selection_code selection_of
selection_cases req s =
    let start : Selection = record {
      charge_service_found = false;
      selected_services_found = true;
      v2h = s.enabled_sae_v2h;
      v2g = s.enabled_sae_v2g;
      bidi_signals = 0;
    } in
    grind (
      arith,
      select-found s.evse_service_list req.selected_services start refl,
      select-charge s.evse_service_list req.selected_services start,
    )

-- An answered payment service selection is answered as the check of the request asks, with `ok`,
-- exactly where the payment option was offered, the charging service is selected, and every
-- selected service is the charging service or on the list of the charger. Any other selection is
-- answered by a failure.
pub handle_iso_payment_service_selection-cases :
    (now : ℕ) (req : PaymentServiceSelectionReq) (s : Server) (r : Response) (t : Reply)
    → handle_iso_payment_service_selection now req s r ≡ returned t
    → (IsSelectable req s
        × (iso_validate_response_code s.stop.iso ok ≡ some (t.response.response_code, t.event)))
      ⊎ (¬ IsSelectable req s × (failed ≤ t.response.response_code))
unfolding handle_iso_payment_service_selection
handle_iso_payment_service_selection-cases now req s r t h =
    let after = selection_after now req s in
    let response = set_code (selection_code req s) r in
    elim (selection_cases req s) [
      | inl (good, e) ↦ inl (
        good,
        subst
            (λ n.
              iso_validate_response_code s.stop.iso n ≡ some (t.response.response_code, t.event))
            e (answer-validate after s.stop.iso response t h),
      )
      | inr (bad, f) ↦
          let (same, answered, kept, checked) = answer-inv after s.stop.iso response t h in
          inr (bad, ground arith)
    ]
