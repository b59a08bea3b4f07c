-- ===== src/V2g/Iso/InstallationBounds.antt =====
-- modules/EvseTestV2G/server/iso_server.cpp: the sizes of a decoded certificate response that
-- `handle_iso_certificate_installation` accepts, against the buffer that it is copied to.
use mathlib.Core.Path.{subst}
use evse_test_system.Base.{
  ℕ, ◌+◌, ◌≡◌, ◌≤◌, ◌<◌, ◌⊎◌, inl, inr, refl, sym, ◌∙◌, true, List, [], ◌∷◌, arith, length, ltb,
  ◌==◌, ◌||◌, if◌then◌else◌,
}
use evse_test_system.V2g.Types.{send_recv_exi_msg}
use evse_test_system.V2g.Iso.Server.{
  Outcome, returned, undefined, Server, Response, Reply, certificate_request, publish,
}
use evse_test_system.V2g.Iso.Waiting.{WakeUp, wait_for_certificate}
use evse_test_system.V2g.Iso.Installation.{
  default_buffer_size, InstallationReq, end_with_code, sent_reply, send_installation,
  install_after_wait, await_installation, handle_iso_certificate_installation,
}

-- The outcome for decoded bytes.
abbrev pub Sends : List ℕ → Server → Response → Outcome Reply → Type 0
Sends bytes s r outcome =
    ((1 ≤ length bytes)
      × (length bytes + 8 ≤ default_buffer_size)
      × ((t : Reply) × (outcome ≡ returned t)
          × (t.response.sent_exi ≡ bytes)
          × (t.response.byte_pos ≤ default_buffer_size)
          × (t.event ≡ send_recv_exi_msg)))
    ⊎ ((default_buffer_size < length bytes + 8)
        × (length bytes ≤ default_buffer_size)
        × (outcome ≡ undefined))
    ⊎ (((length bytes ≡ 0) ⊎ (default_buffer_size < length bytes))
        × (outcome ≡ end_with_code r.response_code s r))

-- The tests of the size, over any three outcomes.
small_size :
    {A : Type 0} (n : ℕ) (a b c : A)
    → 1 ≤ n
    → n + 8 ≤ default_buffer_size
    → (if n == 0 || ltb default_buffer_size n
        then a
        else if ltb default_buffer_size (8 + n)
        then b
        else c)
      ≡ c
small_size n a b c l h = ground arith

overflow_size :
    {A : Type 0} (n : ℕ) (a b c : A)
    → default_buffer_size < n + 8
    → n ≤ default_buffer_size
    → (if n == 0 || ltb default_buffer_size n
        then a
        else if ltb default_buffer_size (8 + n)
        then b
        else c)
      ≡ b
overflow_size n a b c l h = ground arith

refused_size :
    {A : Type 0} (n : ℕ) (a b c : A)
    → (n ≡ 0) ⊎ (default_buffer_size < n)
    → (if n == 0 || ltb default_buffer_size n
        then a
        else if ltb default_buffer_size (8 + n)
        then b
        else c)
      ≡ a
refused_size n a b c h = ground arith

size_cases :
    (n : ℕ)
    → ((1 ≤ n) × (n + 8 ≤ default_buffer_size))
      ⊎ ((default_buffer_size < n + 8) × (n ≤ default_buffer_size))
      ⊎ ((n ≡ 0) ⊎ (default_buffer_size < n))
size_cases n = ground arith

send_installation-Sends :
    (bytes : List ℕ) (s : Server) (r : Response) → Sends bytes s r (send_installation bytes s r)
unfolding send_installation sent_reply
send_installation-Sends bytes s r =
    let a = end_with_code r.response_code s r in
    let c = sent_reply bytes s r in
    elim (size_cases (length bytes)) [
      | inl h ↦ inl (
        h.0,
        h.1,
        (c, small_size (length bytes) a undefined (returned c) h.0 h.1, refl, h.1, refl),
      )
      | inr (inl h) ↦
          inr (inl (h.0, h.1, overflow_size (length bytes) a undefined (returned c) h.0 h.1))
      | inr (inr h) ↦ inr (inr (h, refused_size (length bytes) a undefined (returned c) h))
    ]

answered_wait :
    (wake_ups : List WakeUp) (s : Server)
    → 1 ≤ length s.cert_install_res
    → wait_for_certificate wake_ups s ≡ returned s
unfolding wait_for_certificate
answered_wait [] s n = ground arith
answered_wait (w ∷ ws) s n = ground arith

installed :
    (decode : List ℕ → List ℕ) (s : Server) (r : Response)
    → 1 ≤ length s.cert_install_res
    → s.cert_install_status ≡ true
    → install_after_wait decode s r ≡ send_installation (decode s.cert_install_res) s r
unfolding install_after_wait
installed decode s r n ok = ground arith

awaited_installation :
    (decode : List ℕ → List ℕ) (wake_ups : List WakeUp) (s : Server) (r : Response)
    → 1 ≤ length s.cert_install_res
    → s.cert_install_status ≡ true
    → await_installation decode wake_ups s r ≡ send_installation (decode s.cert_install_res) s r
unfolding await_installation
awaited_installation decode wake_ups s r n ok =
    rw (answered_wait wake_ups s n) (installed decode s r n ok)

published_installation :
    (decode : List ℕ → List ℕ) (wake_ups : List WakeUp) (req : InstallationReq) (s : Server)
    (r : Response)
    → 1 ≤ length req.exi_request
    → length req.exi_request ≤ req.max_payload
    → handle_iso_certificate_installation decode wake_ups req s r
      ≡ await_installation decode wake_ups (publish s (certificate_request req.exi_request)) r
unfolding handle_iso_certificate_installation
published_installation decode wake_ups req s r p m = ground arith

-- A published request whose answer is there at once, with a good status. Decoded bytes that fit
-- behind the header are sent, and end within the buffer. The test of the size accepts up to
-- eight bytes more: those are copied past the end of the buffer. Without bytes, or with more
-- than the buffer holds, the response is checked as its initialisation left it.
pub certificate_installation-Sends :
    (decode : List ℕ → List ℕ) (wake_ups : List WakeUp) (req : InstallationReq) (s : Server)
    (r : Response)
    → 1 ≤ length req.exi_request
    → length req.exi_request ≤ req.max_payload
    → 1 ≤ length s.cert_install_res
    → s.cert_install_status ≡ true
    → Sends
        (decode s.cert_install_res)
        (publish s (certificate_request req.exi_request))
        r
        (handle_iso_certificate_installation decode wake_ups req s r)
certificate_installation-Sends decode wake_ups req s r p m n ok =
    let told = publish s (certificate_request req.exi_request) in
    subst (Sends (decode s.cert_install_res) told r)
      (sym (
        published_installation decode wake_ups req s r p m
        ∙ awaited_installation decode wake_ups told r n ok))
      (send_installation-Sends (decode s.cert_install_res) told r)
