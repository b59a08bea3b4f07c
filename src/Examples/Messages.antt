-- ===== src/Examples/Messages.antt =====
-- Runs of the models of modules/EvseTestV2G's discovery protocol, transport and commands on concrete inputs.
use evse_test_system.Base.{
  ℕ, ◌+◌, ◌≤◌, ◌≡◌, refl, ◌↔◌, ◌⊎◌, true, false, Option, some, List, [], ◌∷◌, ◌++◌, length,
  replicate, length-replicate, arith,
}
use evse_test_system.Base.Int.{pos, negsuc}
use evse_test_system.V2g.Transport.Tcp.{
  Round, available, not_ready, connection_read, connection_read-bounded, tcp_transport,
}
use evse_test_system.V2g.Transport.Incoming.{
  Conn, default_buffer_size, v2gtp_header_length, v2g_incoming_v2gtp, v2g_incoming_v2gtp-fits,
}
use evse_test_system.Sdp.{
  SockaddrIn6, SdpContext, sdp_write_header, sdp_validate_header, sdp_header_len, sdp_request_type,
  sdp_request_payload_len, sdp_response_type, sdp_response_payload_len, sdp_send_response,
  answer_datagram,
}
use evse_test_system.Sdp.Header.{sdp_header-roundtrip}
use evse_test_system.Sdp.Announce.{answer_datagram-valid}

abbrev address : SockaddrIn6
address = record { sin6_addr = replicate 16 7; sin6_port = 240 ∷ 11 ∷ [] }

-- A station with an address for both, whose TLS server does not run.
abbrev station : SdpContext
station = record {
  local_tls_addr = some address;
  local_tcp_addr = some address;
  tls_server_available = false;
}

abbrev payload_len : ℕ
payload_len = 2

sdp_header-roundtrip_example :
    (length (sdp_write_header sdp_request_type payload_len) ≡ sdp_header_len)
    × (sdp_validate_header
            (sdp_write_header sdp_request_type 2 ++ (16 ∷ 0 ∷ []))
            sdp_request_type
            payload_len
          ≡ pos 0
        ↔ (sdp_request_type ≡ sdp_request_type) × (payload_len ≡ payload_len))
sdp_header-roundtrip_example =
    sdp_header-roundtrip (16 ∷ 0 ∷ []) sdp_request_type payload_len sdp_request_type payload_len
      (omega arith) (omega arith)

abbrev request : List ℕ
request = 1 ∷ 254 ∷ 144 ∷ 0 ∷ 0 ∷ 0 ∷ 0 ∷ 2 ∷ 0 ∷ 0 ∷ []

abbrev response : List ℕ
response = 1 ∷ 254 ∷ 144 ∷ 1 ∷ 0 ∷ 0 ∷ 0 ∷ 20 ∷ replicate 16 7 ++ (240 ∷ 11 ∷ 16 ∷ 0 ∷ [])

answer_datagram-valid_example :
    (length request ≡ 10)
    × (sdp_validate_header request sdp_request_type sdp_request_payload_len ≡ pos 0)
    × (length response ≡ 28)
    × (sdp_validate_header response sdp_response_type sdp_response_payload_len ≡ pos 0)
unfolding answer_datagram sdp_validate_header sdp_send_response
answer_datagram-valid_example =
    answer_datagram-valid station request address true response (refl, refl) (refl, refl) refl

abbrev received : List ℕ → Round
received bytes = record {
  clock_failed = false;
  elapsed_ms = pos 5;
  is_connection_terminated = false;
  force_next_connection_req_res = false;
  event = available bytes;
}

-- A header in two parts, a round without data, and a payload of three bytes.
abbrev rounds : List Round
rounds =
    received (1 ∷ 254 ∷ 128 ∷ [])
    ∷ record (received []) { event = not_ready }
    ∷ received (1 ∷ 0 ∷ 0 ∷ 0 ∷ 3 ∷ [])
    ∷ received (128 ∷ 152 ∷ 2 ∷ [])
    ∷ []

connection_read-bounded_example :
    let r = (connection_read false false 8 rounds).0 in
    (length r.bytes ≤ 8)
    × (r.value ≡ pos (length r.bytes) ⊎ r.value ≡ negsuc 0 ⊎ r.value ≡ negsuc 1)
connection_read-bounded_example = connection_read-bounded false false 8 rounds

abbrev connection : Conn
connection = record {
  buffer = replicate default_buffer_size 0;
  payload_len = 0;
  byte_pos = 0;
  data_size = 0;
}

abbrev three : List ℕ → Option ℕ
three _ = some 3

v2g_incoming_v2gtp-fits_example :
    let x = v2g_incoming_v2gtp tcp_transport three connection rounds in
    (length x.1.buffer ≡ default_buffer_size)
    × ((x.0 ≡ pos 0)
          × (x.1.byte_pos ≡ v2gtp_header_length)
          × (x.1.data_size ≡ x.1.payload_len + v2gtp_header_length)
          × (x.1.data_size ≤ length x.1.buffer)
        ⊎ x.0 ≡ pos 1
        ⊎ x.0 ≡ negsuc 0)
v2g_incoming_v2gtp-fits_example =
    v2g_incoming_v2gtp-fits tcp_transport three connection rounds
      (length-replicate {A = ℕ} default_buffer_size 0)
