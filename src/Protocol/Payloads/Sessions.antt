-- ===== src/Protocol/Payloads/Sessions.antt =====
-- message.go: heartbeats, requests for a session, its announcement, and errors.
use beacon_desk.Prelude.{String, Bool, Option, some, ◌>>=◌}
use beacon_desk.Prelude.Int.{ℤ}
use beacon_desk.Protocol.Json.{
  Json, boolean, int, text, object, end, field, string_field, bool_field, int_field, raw_fields,
  omit_empty, omit_false,
}

pub record HeartbeatPayload : Type 0 where
  pub sequence : ℤ
  pub sent_at : ℤ

unfoldable pub decode_heartbeat : Option Json → Option HeartbeatPayload
decode_heartbeat raw = do
  fields ← raw_fields raw
  sequence ← int_field "sequence" fields
  sent_at ← int_field "sent_at" fields
  some (record { sequence = sequence; sent_at = sent_at })

unfoldable pub encode_heartbeat : HeartbeatPayload → Json
encode_heartbeat p =
    object (field "sequence" (int p.sequence) (field "sent_at" (int p.sent_at) end))

pub record SessionRequestPayload : Type 0 where
  pub target_device_id : String
  pub mode : String
  pub auth_code : String
  pub requester_name : String
  pub requester_role : String
  pub input_requested : Bool

unfoldable pub decode_session_request : Option Json → Option SessionRequestPayload
decode_session_request raw = do
  fields ← raw_fields raw
  target_device_id ← string_field "target_device_id" fields
  mode ← string_field "mode" fields
  auth_code ← string_field "auth_code" fields
  requester_name ← string_field "requester_name" fields
  requester_role ← string_field "requester_role" fields
  input_requested ← bool_field "input_requested" fields
  some (record {
    target_device_id = target_device_id;
    mode = mode;
    auth_code = auth_code;
    requester_name = requester_name;
    requester_role = requester_role;
    input_requested = input_requested;
  })

unfoldable pub encode_session_request : SessionRequestPayload → Json
encode_session_request p = object (
    field "target_device_id" (text p.target_device_id) (
      field "mode" (text p.mode) (
        omit_empty "auth_code" p.auth_code (
          omit_empty "requester_name" p.requester_name (
            omit_empty "requester_role" p.requester_role
              (omit_false "input_requested" p.input_requested end))))))

pub record SessionConfirmPayload : Type 0 where
  pub accepted : Bool
  pub reason : String
  pub accepted_mode : String
  pub input_allowed : Bool

unfoldable pub decode_session_confirm : Option Json → Option SessionConfirmPayload
decode_session_confirm raw = do
  fields ← raw_fields raw
  accepted ← bool_field "accepted" fields
  reason ← string_field "reason" fields
  accepted_mode ← string_field "accepted_mode" fields
  input_allowed ← bool_field "input_allowed" fields
  some (record {
    accepted = accepted;
    reason = reason;
    accepted_mode = accepted_mode;
    input_allowed = input_allowed;
  })

pub record SessionReadyPayload : Type 0 where
  pub session_id : String
  pub peer_id : String
  pub peer_name : String
  pub mode : String
  pub relay_route : Bool
  pub input_allowed : Bool
  pub local_role : String
  pub should_send_view : Bool

unfoldable pub encode_session_ready : SessionReadyPayload → Json
encode_session_ready p = object (
    field "session_id" (text p.session_id) (
      field "peer_id" (text p.peer_id) (
        omit_empty "peer_name" p.peer_name (
          field "mode" (text p.mode) (
            field "relay_route" (boolean p.relay_route) (
              field "input_allowed" (boolean p.input_allowed) (
                omit_empty "local_role" p.local_role
                  (omit_false "should_send_view" p.should_send_view end))))))))

pub record ErrorPayload : Type 0 where
  pub code : String
  pub message : String

unfoldable pub encode_error : ErrorPayload → Json
encode_error p = object (field "code" (text p.code) (field "message" (text p.message) end))
