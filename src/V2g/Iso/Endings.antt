-- ===== src/V2g/Iso/Endings.antt =====
-- modules/EvseTestV2G/server/iso_server.cpp: the states that `handle_iso_certificate_installation` and
-- `handle_iso_session_stop` go to, on a DC charger.
use mathlib.Core.Path.{subst}
use evse_test_system.Base.{
  ℕ, ◌≡◌, inl, inr, refl, ◌∙◌, Bool, some, List, [], ◌∷◌, arith, Option-cases,
}
use evse_test_system.V2g.Types.{V2gEvent, send_and_terminate}
use evse_test_system.V2g.Iso.States.{ok, iso_validate_response_code}
use evse_test_system.V2g.Iso.SessionStop.{
  StopState, ChargingSession, terminate, pause, other_value, stop_case, handle_iso_session_stop,
}
use evse_test_system.V2g.Iso.Server.{returned, undefined, Server, Response, Reply, set_code, answer}
use evse_test_system.V2g.Iso.Answers.{OneOf, IsChecked, Moves, returned_inj, validate-IsChecked}
use evse_test_system.V2g.Iso.Waiting.{WakeUp, wait_for_certificate}
use evse_test_system.V2g.Iso.Installation.{
  InstallationReq, end_with_code, sent_reply, send_installation, install_after_wait,
  await_installation, handle_iso_certificate_installation,
}
use evse_test_system.V2g.Iso.Request.{stop_session}
use evse_test_system.V2g.Iso.Delivery.{bind_inv}

-- The installation goes to one state, whatever was checked.
abbrev pub Goes : Bool → Reply → Type 0
Goes dc t = (t.server.stop.iso.is_dc_charger ≡ dc) × (t.server.stop.iso.state ≡ 4)

end_with_code-Goes :
    (code : ℕ) (s : Server) (r : Response) (t : Reply)
    → end_with_code code s r ≡ returned t
    → Goes s.stop.iso.is_dc_charger t
unfolding end_with_code answer
end_with_code-Goes code s r t h = ground arith

install_after_wait-Goes :
    (decode : List ℕ → List ℕ) (s : Server) (r : Response) (t : Reply)
    → install_after_wait decode s r ≡ returned t
    → Goes s.stop.iso.is_dc_charger t
unfolding install_after_wait send_installation sent_reply
install_after_wait-Goes decode s r t h = grind (arith, end_with_code-Goes)

wait_dc :
    (ws : List WakeUp) (s t : Server)
    → wait_for_certificate ws s ≡ returned t
    → t.stop.iso.is_dc_charger ≡ s.stop.iso.is_dc_charger
unfolding wait_for_certificate
wait_dc [] s t h = ground arith
wait_dc (w ∷ ws) s t h = grind (arith, wait_dc ws)

-- The switch of the session stop leaves a code that is checked, or a failure.
stop_case-IsChecked :
    (request : ChargingSession) (code : ℕ) (s : StopState)
    → IsChecked s.iso code
    → IsChecked s.iso (stop_case request code s).0
unfolding stop_case
stop_case-IsChecked terminate code s h = h
stop_case-IsChecked pause code s h = ground arith
stop_case-IsChecked other_value code s h = h

stop_case-OneOf :
    (request : ChargingSession) (code : ℕ) (s : StopState)
    → ((stop_case request code s).1.iso.is_dc_charger ≡ s.iso.is_dc_charger)
      × OneOf (stop_case request code s).1.iso.state (0 ∷ 14 ∷ [])
unfolding stop_case
stop_case-OneOf terminate code s = (refl, inr (inl refl))
stop_case-OneOf pause code s = ground arith
stop_case-OneOf other_value code s = (refl, inr (inl refl))

stopped : ChargingSession → ℕ × V2gEvent → Server → Response → Reply
stopped request checked s r = record {
  server = record s { stop = (stop_case request checked.0 s.stop).1 };
  response = set_code (stop_case request checked.0 s.stop).0 r;
  event = send_and_terminate;
}

undefined_cases : (t : Reply) → undefined ≡ returned t → ⊥
undefined_cases t h = cc

stop_session-inv :
    (request : ChargingSession) (s : Server) (r : Response) (t : Reply)
    → stop_session request s r ≡ returned t
    → (checked : ℕ × V2gEvent) × (iso_validate_response_code s.stop.iso ok ≡ some checked)
      × (stopped request checked s r ≡ t)
unfolding stop_session handle_iso_session_stop stopped
stop_session-inv request s r t h = elim (Option-cases (iso_validate_response_code s.stop.iso ok)) [
  | inl e ↦ absurd (undefined_cases t (rw (e, stop_session, handle_iso_session_stop) at h))
  | inr (checked, e) ↦
      (checked, e, returned_inj (rw (e, stop_session, handle_iso_session_stop) at h))
]

pub stop_session-Moves :
    (request : ChargingSession) (s : Server) (r : Response) (t : Reply)
    → stop_session request s r ≡ returned t
    → Moves s.stop.iso (0 ∷ 14 ∷ []) t
unfolding stopped
stop_session-Moves request s r t h =
    let (checked, e, same) = stop_session-inv request s r t h in
    let moved = stop_case-OneOf request checked.0 s.stop in
    subst (Moves s.stop.iso (0 ∷ 14 ∷ [])) {x = stopped request checked s r} {y = t} same (
      moved.0,
      moved.1,
      stop_case-IsChecked request checked.0 s.stop
          (validate-IsChecked s.stop.iso ok checked.0 checked.1 e),
    )

await_installation-Goes :
    (decode : List ℕ → List ℕ) (wake_ups : List WakeUp) (s : Server) (r : Response) (t : Reply)
    → await_installation decode wake_ups s r ≡ returned t
    → Goes s.stop.iso.is_dc_charger t
unfolding await_installation
await_installation-Goes decode wake_ups s r t h =
    let (u, e, h1) =
      bind_inv {A = Server} (wait_for_certificate wake_ups s) (λ u. install_after_wait decode u r)
        h in
    let goes = install_after_wait-Goes decode u r t h1 in (goes.0 ∙ wait_dc wake_ups s u e, goes.1)

pub certificate_installation-Goes :
    (decode : List ℕ → List ℕ) (wake_ups : List WakeUp) (req : InstallationReq) (s : Server)
    (r : Response) (t : Reply)
    → handle_iso_certificate_installation decode wake_ups req s r ≡ returned t
    → Goes s.stop.iso.is_dc_charger t
unfolding handle_iso_certificate_installation
certificate_installation-Goes decode wake_ups req s r t h =
    grind (arith, end_with_code-Goes, await_installation-Goes decode wake_ups)
