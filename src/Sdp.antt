-- ===== src/Sdp.antt =====
-- modules/EvseTestV2G/sdp.cpp: the SECC discovery protocol, by which a vehicle finds the server: the
-- header, the response, and what is announced. A buffer is a list of bytes; `sendto`, `recvfrom` and
-- `poll` are the system's, and what they gave are arguments. Logging is left out.
use evse_test_system.Base.{
  ℕ, ◌+◌, ◌-◌, ◌*◌, ◌/◌, ◌%◌, ◌^◌, Bool, true, false, not, ◌&&◌, ◌||◌, Option, none, some, List, [],
  ◌∷◌, ◌++◌, get_or, length, ◌==◌, if◌then◌else◌,
}
use evse_test_system.Base.Int.{ℤ, pos, negsuc}
pub mod Header
pub mod Announce

abbrev pub sdp_header_len : ℕ
sdp_header_len = 8

abbrev pub sdp_request_payload_len : ℕ
sdp_request_payload_len = 2

abbrev pub sdp_response_payload_len : ℕ
sdp_response_payload_len = 20

-- 0x9000 and 0x9001.
abbrev pub sdp_request_type : ℕ
sdp_request_type = 36864

abbrev pub sdp_response_type : ℕ
sdp_response_type = 36865

-- The eight bytes that are stored at the start of the buffer: the version 0x01 and its inverse 0xfe, then
-- the type and the length in network byte order.
unfoldable pub sdp_write_header : ℕ → ℕ → List ℕ
sdp_write_header payload_type payload_len =
    1
    ∷ 254
    ∷ payload_type / 256 % 256
    ∷ payload_type % 256
    ∷ payload_len / 16777216 % 256
    ∷ payload_len / 65536 % 256
    ∷ payload_len / 256 % 256
    ∷ payload_len % 256
    ∷ []

-- The type is a uint16_t and the length a uint32_t: both wrap around.
unfoldable pub sdp_validate_header : List ℕ → ℕ → ℕ → ℤ
sdp_validate_header buffer expected_payload_type expected_payload_len =
    let at = λ (i : ℕ). get_or buffer i 0 in
    let payload_type = (at 2 * 256 + at 3) % 65536 in
    let payload_len = (at 4 * 16777216 + at 5 * 65536 + at 6 * 256 + at 7) % 4294967296 in
    if not (at 0 == 1)
    then negsuc 0
    else if not (at 1 == 254)
    then negsuc 0
    else if not (payload_type == expected_payload_type)
    then negsuc 0
    else if not (payload_len == expected_payload_len)
    then negsuc 0
    else pos 0

-- A socket address: 16 bytes of address and 2 of port, in network byte order.
pub record SockaddrIn6 : Type 0 where
  pub sin6_addr : List ℕ
  pub sin6_port : List ℕ

-- sdp_security and sdp_transport_protocol (modules/EvseTestV2G/sdp.hpp), as numbers of a byte.
abbrev pub sdp_security_tls : ℕ
sdp_security_tls = 0

abbrev pub sdp_security_none : ℕ
sdp_security_none = 16

abbrev pub sdp_transport_protocol_tcp : ℕ
sdp_transport_protocol_tcp = 0

-- The packet: the header is written last, with the length of the payload.
unfoldable pub sdp_create_response : SockaddrIn6 → ℕ → ℕ → List ℕ
unfolding sdp_write_header
sdp_create_response addr security proto =
    let payload = addr.sin6_addr ++ (addr.sin6_port ++ (security ∷ proto ∷ [])) in
    sdp_write_header sdp_response_type (length payload) ++ payload

-- The parts of the context that the answer depends on; `tls_server_available`: the TLS server, which
-- is not under modules/, is initialised or running.
pub record SdpContext : Type 0 where
  pub local_tls_addr : Option SockaddrIn6
  pub local_tcp_addr : Option SockaddrIn6
  pub tls_server_available : Bool

pub record SdpQuery : Type 0 where
  pub remote_addr : SockaddrIn6
  pub security_requested : ℕ
  pub proto_requested : ℕ

-- What a request is answered with: TLS at an address, no TLS at an address, or nothing.
pub data Announcement : Type 0 where
  announce_tls announce_no_tls : SockaddrIn6 → Announcement
  announce_nothing : Announcement

abbrev or_else : Announcement → Announcement → Announcement
or_else announce_nothing b = b
or_else a _ = a

abbrev pub tls_announcement : SdpContext → Announcement
tls_announcement c = elim c.local_tls_addr [
  | none ↦ announce_nothing
  | some addr ↦ if c.tls_server_available then announce_tls addr else announce_nothing
]

abbrev pub tcp_announcement : SdpContext → Announcement
tcp_announcement c = elim c.local_tcp_addr [
  | none ↦ announce_nothing
  | some addr ↦ announce_no_tls addr
]

-- The switch over the security that was requested.
unfoldable pub choose_announcement : SdpContext → SdpQuery → Announcement
choose_announcement c q =
    if not (q.proto_requested == sdp_transport_protocol_tcp)
    then announce_nothing
    else if q.security_requested == sdp_security_tls
    then or_else (tls_announcement c) (tcp_announcement c)
    else if q.security_requested == sdp_security_none
    then or_else (tcp_announcement c) (tls_announcement c)
    else announce_nothing

unfoldable pub announcement_packet : Announcement → Option (List ℕ)
unfolding sdp_create_response
announcement_packet (announce_tls addr) =
    some (sdp_create_response addr sdp_security_tls sdp_transport_protocol_tcp)
announcement_packet (announce_no_tls addr) =
    some (sdp_create_response addr sdp_security_none sdp_transport_protocol_tcp)
announcement_packet announce_nothing = none

-- The value returned, and the packet handed to `sendto`; `sent`: it took the whole packet.
unfoldable pub sdp_send_response : SdpContext → SdpQuery → Bool → ℤ × Option (List ℕ)
unfolding choose_announcement announcement_packet
sdp_send_response c q sent =
    let packet = announcement_packet (choose_announcement c q) in
    elim packet [
      | none ↦ (pos 1, none)
      | some buffer ↦ (if sent then pos 0 else negsuc 0, some buffer)
    ]

-- One round of `sdp_listen`: what `poll` and `recvfrom` gave. A datagram has at most 10 bytes here, as
-- `recvfrom` cuts it to the size of the buffer.
pub data ListenEvent : Type 0 where
  poll_failed no_data receive_failed : ListenEvent
  datagram : List ℕ → SockaddrIn6 → Bool → ListenEvent

-- What a datagram asks for.
abbrev pub datagram_query : List ℕ → SockaddrIn6 → SdpQuery
datagram_query buffer remote = record {
  remote_addr = remote;
  security_requested = get_or buffer sdp_header_len 0;
  proto_requested = get_or buffer (sdp_header_len + 1) 0;
}

-- The packet that answers a datagram.
unfoldable pub answer_datagram : SdpContext → List ℕ → SockaddrIn6 → Bool → Option (List ℕ)
answer_datagram c buffer remote sent =
    if not (length buffer == sdp_header_len + sdp_request_payload_len)
    then none
    else elim (sdp_validate_header buffer sdp_request_type sdp_request_payload_len) [
      | pos n ↦ if n == 0 then (sdp_send_response c (datagram_query buffer remote) sent).1 else none
      | negsuc _ ↦ none
    ]

-- The packets that the loop sends, with their destinations, until the shutdown at the end of the list.
unfoldable pub sdp_listen : SdpContext → List ListenEvent → List (SockaddrIn6 × List ℕ)
unfolding answer_datagram
sdp_listen c [] = []
sdp_listen c (poll_failed ∷ es) = sdp_listen c es
sdp_listen c (no_data ∷ es) = sdp_listen c es
sdp_listen c (receive_failed ∷ es) = sdp_listen c es
sdp_listen c (datagram buffer remote sent ∷ es) =
    let rest = sdp_listen c es in
    elim (answer_datagram c buffer remote sent) [
      | none ↦ rest
      | some packet ↦ (remote, packet) ∷ rest
    ]
