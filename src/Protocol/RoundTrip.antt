-- ===== src/Protocol/RoundTrip.antt =====
-- internal/protocol/message.go: what one side marshals, the other decodes.
use beacon_desk.Prelude.{◌≡◌, true, some, arith, eq_iff}
use beacon_desk.Prelude.Int.{in_int64}
use beacon_desk.Protocol.Json.{string_field, bool_field, int_field, scan_field, same_key}
use beacon_desk.Protocol.Payloads.{
  HeartbeatPayload, decode_heartbeat, encode_heartbeat, SessionRequestPayload,
  decode_session_request, encode_session_request,
}

-- The numbers of a heartbeat are read back as they were written, if they fit Go's `int64`.
pub decode_heartbeat-encode_heartbeat :
    (p : HeartbeatPayload)
    → in_int64 p.sequence ≡ true
    → in_int64 p.sent_at ≡ true
    → decode_heartbeat (some (encode_heartbeat p)) ≡ some p
unfolding decode_heartbeat encode_heartbeat int_field scan_field same_key
decode_heartbeat-encode_heartbeat p h k = ground arith

-- A request for a session is read back as it was written, although its empty fields are left out.
pub decode_session_request-encode_session_request :
    (p : SessionRequestPayload) → decode_session_request (some (encode_session_request p)) ≡ some p
unfolding decode_session_request encode_session_request string_field bool_field scan_field same_key
decode_session_request-encode_session_request p =
    ground (arith, eq_iff p.auth_code "", eq_iff p.requester_name "", eq_iff p.requester_role "")
