-- ===== src/Sdp/Announce.antt =====
-- modules/EvseTestV2G/sdp.cpp: what `sdp_send_response` announces and what `sdp_listen` answers.
use evse_test_system.Base.{
  ℕ, ◌⊎◌, false, ◌≡◌, ◌↔◌, Bool, true, false, Option, none, some, List, [], ◌∷◌, ◌++◌, length,
  length-append, sym, ◌∙◌, arith,
}
use evse_test_system.Base.Int.{pos}
use evse_test_system.Sdp.{
  SockaddrIn6, sdp_request_type, sdp_request_payload_len, sdp_response_type,
  sdp_response_payload_len, sdp_security_tls, sdp_security_none, sdp_transport_protocol_tcp,
  sdp_validate_header, sdp_write_header, sdp_create_response, SdpContext, SdpQuery, Announcement,
  announce_tls, announce_no_tls, announce_nothing, choose_announcement, announcement_packet,
  sdp_send_response, answer_datagram, datagram_query,
}
use evse_test_system.Sdp.Header.{sdp_header-roundtrip}

-- A request for TCP with TLS is announced TLS exactly where the station has an address for it and its
-- TLS server is available, and otherwise the connection without TLS exactly where that has an
-- address.
tls_request-announcement :
    (c : SdpContext) (q : SdpQuery) (addr : SockaddrIn6)
    → q.proto_requested ≡ sdp_transport_protocol_tcp
    → q.security_requested ≡ sdp_security_tls
    → (choose_announcement c q ≡ announce_tls addr
        ↔ (c.local_tls_addr ≡ some addr) × (c.tls_server_available ≡ true))
      × (choose_announcement c q ≡ announce_no_tls addr
          ↔ (c.local_tcp_addr ≡ some addr)
            × ((c.local_tls_addr ≡ none) ⊎ (c.tls_server_available ≡ false)))
unfolding choose_announcement
tls_request-announcement c q addr h k = ground arith

-- A request for TCP without TLS is announced the connection without TLS exactly where that has an
-- address, and otherwise TLS exactly where the station has an address for it and its TLS server is
-- available.
plain_request-announcement :
    (c : SdpContext) (q : SdpQuery) (addr : SockaddrIn6)
    → q.proto_requested ≡ sdp_transport_protocol_tcp
    → q.security_requested ≡ sdp_security_none
    → (choose_announcement c q ≡ announce_no_tls addr ↔ c.local_tcp_addr ≡ some addr)
      × (choose_announcement c q ≡ announce_tls addr
          ↔ (c.local_tcp_addr ≡ none)
            × (c.local_tls_addr ≡ some addr)
            × (c.tls_server_available ≡ true))
unfolding choose_announcement
plain_request-announcement c q addr h k = ground arith

-- An address with the sizes of `sin6_addr` and `sin6_port`.
abbrev pub IsAddress : Option SockaddrIn6 → Type 0
IsAddress none = Unit
IsAddress (some a) = (length a.sin6_addr ≡ 16) × (length a.sin6_port ≡ 2)

sdp_create_response-lem :
    (a : SockaddrIn6) (security proto : ℕ)
    → IsAddress (some a)
    → (length (sdp_create_response a security proto) ≡ 28)
      × (sdp_validate_header
            (sdp_create_response a security proto)
            sdp_response_type
            sdp_response_payload_len
          ≡ pos 0)
unfolding sdp_create_response
sdp_create_response-lem a security proto h =
    let payload = a.sin6_addr ++ (a.sin6_port ++ (security ∷ proto ∷ [])) in
    ground (
      arith,
      length-append a.sin6_addr (a.sin6_port ++ (security ∷ proto ∷ [])),
      length-append a.sin6_port (security ∷ proto ∷ []),
      length-append (sdp_write_header sdp_response_type (length payload)) payload,
      sdp_header-roundtrip payload sdp_response_type (length payload) sdp_response_type 20,
    )

IsSendable : Announcement → Type 0
IsSendable (announce_tls a) = IsAddress (some a)
IsSendable (announce_no_tls a) = IsAddress (some a)
IsSendable announce_nothing = Unit

choose_announcement-IsSendable :
    (c : SdpContext) (q : SdpQuery)
    → IsAddress c.local_tls_addr
    → IsAddress c.local_tcp_addr
    → IsSendable (choose_announcement c q)
unfolding choose_announcement IsSendable
choose_announcement-IsSendable c q h k = ground arith

IsResponse : List ℕ → Type 0
IsResponse packet =
    (length packet ≡ 28)
    × (sdp_validate_header packet sdp_response_type sdp_response_payload_len ≡ pos 0)

announcement_packet-IsResponse :
    (a : Announcement) (packet : List ℕ)
    → IsSendable a
    → announcement_packet a ≡ some packet
    → IsResponse packet
unfolding announcement_packet IsSendable IsResponse
announcement_packet-IsResponse (announce_tls a) packet h e =
    ground (arith, sdp_create_response-lem a sdp_security_tls sdp_transport_protocol_tcp h)
announcement_packet-IsResponse (announce_no_tls a) packet h e =
    ground (arith, sdp_create_response-lem a sdp_security_none sdp_transport_protocol_tcp h)
announcement_packet-IsResponse announce_nothing packet h e = ground arith

sdp_send_response-lem :
    (c : SdpContext) (q : SdpQuery) (sent : Bool)
    → (sdp_send_response c q sent).1 ≡ announcement_packet (choose_announcement c q)
unfolding sdp_send_response
sdp_send_response-lem c q sent = ground arith

answer_datagram-lem :
    (c : SdpContext) (buffer : List ℕ) (remote : SockaddrIn6) (sent : Bool) (packet : List ℕ)
    → answer_datagram c buffer remote sent ≡ some packet
    → (length buffer ≡ 10)
      × (sdp_validate_header buffer sdp_request_type sdp_request_payload_len ≡ pos 0)
      × ((sdp_send_response c (datagram_query buffer remote) sent).1 ≡ some packet)
unfolding answer_datagram
answer_datagram-lem c buffer remote sent packet e = ground arith

-- A datagram is answered only if it has the ten bytes of a request and a valid header of the type and the
-- length of a request; the answer has 28 bytes and a valid header of a response, when the station's
-- addresses have their sizes.
pub answer_datagram-valid :
    (c : SdpContext) (buffer : List ℕ) (remote : SockaddrIn6) (sent : Bool) (packet : List ℕ)
    → IsAddress c.local_tls_addr
    → IsAddress c.local_tcp_addr
    → answer_datagram c buffer remote sent ≡ some packet
    → (length buffer ≡ 10)
      × (sdp_validate_header buffer sdp_request_type sdp_request_payload_len ≡ pos 0)
      × (length packet ≡ 28)
      × (sdp_validate_header packet sdp_response_type sdp_response_payload_len ≡ pos 0)
unfolding IsResponse
answer_datagram-valid c buffer remote sent packet h k e =
    let r = answer_datagram-lem c buffer remote sent packet e in
    let q = datagram_query buffer remote in
    let p =
      announcement_packet-IsResponse (choose_announcement c q) packet
        (choose_announcement-IsSendable c q h k) (sym (sdp_send_response-lem c q sent) ∙ r.2) in
    (r.0, r.1, p.0, p.1)
