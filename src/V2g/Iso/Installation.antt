-- ===== src/V2g/Iso/Installation.antt =====
-- modules/EvseTestV2G/server/iso_server.cpp: `handle_iso_certificate_installation` and
-- `publish_iso_certificate_installation_exi_req`. The coding in base 64 is that of OpenSSL: the coded
-- request is a field of the request, and the decoder an argument.
use evse_test_system.Base.{ℕ, ◌+◌, Bool, not, ◌&&◌, ◌||◌, ◌==◌, ltb, List, length, if◌then◌else◌}
use evse_test_system.V2g.Types.{send_recv_exi_msg}
use evse_test_system.V2g.Iso.States.{ok, failed}
use evse_test_system.V2g.Iso.StateIds.{wait_for_payment_details}
use evse_test_system.V2g.Iso.Server.{
  Outcome, returned, undefined, ◌>>=◌, certificate_request, Server, Response, Reply, publish, go_to,
  set_code, answer, answer_at,
}
use evse_test_system.V2g.Iso.Waiting.{WakeUp, wait_for_certificate}

-- DEFAULT_BUFFER_SIZE: the bytes of `conn->buffer`.
abbrev pub default_buffer_size : ℕ
default_buffer_size = 8192

abbrev pub v2gtp_header_length : ℕ
v2gtp_header_length = 8

-- `exi_request`: the coded bytes of the request; `max_payload`: MQTT_MAX_PAYLOAD_SIZE.
pub record InstallationReq : Type 0 where
  pub exi_request : List ℕ
  pub max_payload : ℕ

abbrev is_publishable : InstallationReq → Bool
is_publishable req =
    not (ltb req.max_payload (length req.exi_request)) && not (length req.exi_request == 0)

-- Where the handler ends without data to send: the response is checked as it is.
unfoldable pub end_with_code : ℕ → Server → Response → Outcome Reply
unfolding answer
end_with_code code s r = answer_at wait_for_payment_details s (set_code code r)

-- The copy of the decoded bytes, and the event that sends them.
unfoldable pub sent_reply : List ℕ → Server → Response → Reply
sent_reply bytes s r = record {
  server = go_to wait_for_payment_details s;
  response = record r {
    response_code = ok;
    sent_exi = bytes;
    byte_pos = length bytes + v2gtp_header_length;
  };
  event = send_recv_exi_msg;
}

-- The copy of the decoded data behind the header; past the end of the buffer it is undefined.
unfoldable pub send_installation : List ℕ → Server → Response → Outcome Reply
unfolding end_with_code sent_reply
send_installation bytes s r =
    if length bytes == 0 || ltb default_buffer_size (length bytes)
    then end_with_code r.response_code s r
    else if ltb default_buffer_size (v2gtp_header_length + length bytes)
    then undefined
    else returned (sent_reply bytes s r)

unfoldable pub install_after_wait : (List ℕ → List ℕ) → Server → Response → Outcome Reply
unfolding send_installation end_with_code
install_after_wait decode s r =
    if not (length s.cert_install_res == 0) && s.cert_install_status
    then send_installation (decode s.cert_install_res) s r
    else end_with_code failed s r

-- The wait for the answer to the published request, and what follows it.
unfoldable pub await_installation :
    (List ℕ → List ℕ) → List WakeUp → Server → Response → Outcome Reply
unfolding wait_for_certificate install_after_wait
await_installation decode wake_ups s r =
    wait_for_certificate wake_ups s >>= λ t. install_after_wait decode t r

unfoldable pub handle_iso_certificate_installation :
    (List ℕ → List ℕ) → List WakeUp → InstallationReq → Server → Response → Outcome Reply
unfolding await_installation end_with_code
handle_iso_certificate_installation decode wake_ups req s r =
    if is_publishable req
    then await_installation decode wake_ups (publish s (certificate_request req.exi_request)) r
    else end_with_code r.response_code s r
