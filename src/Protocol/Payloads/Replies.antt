-- ===== src/Protocol/Payloads/Replies.antt =====
-- message.go: the other direction of the payloads between a device and the relay: what a device
-- marshals for the relay, and what it decodes of the relay's messages.
use beacon_desk.Prelude.{false, Option, none, some, List, [], ◌∷◌, ◌>>=◌}
use beacon_desk.Prelude.Int.{ℤ}
use beacon_desk.Protocol.Json.{
  Json, Items, Fields, null, boolean, int, text, array, object, nil, item, end, field, string_field,
  bool_field, int_field, raw_fields, omit_empty, omit_false, scan_field,
}
use beacon_desk.Protocol.Payloads.Devices.{
  RegisterPayload, RegisteredPayload, AuthCodePublishPayload, AuthCodePublishedPayload,
}
use beacon_desk.Protocol.Payloads.Shares.{
  WebShareCreatePayload, WebSharePayload, WebShareCreatedPayload, WebShareListResultPayload,
  WebShareRevokePayload, WebShareRevokedPayload, WebShareStatusPayload,
}
use beacon_desk.Protocol.Payloads.Sessions.{
  SessionConfirmPayload, SessionReadyPayload, ErrorPayload,
}

unfoldable pub encode_register : RegisterPayload → Json
encode_register p = object (
    field "device_id" (text p.device_id) (
      field "device_name" (text p.device_name)
        (field "role" (text p.role) (omit_empty "token" p.token end))))

unfoldable pub decode_registered : Option Json → Option RegisteredPayload
decode_registered raw = do
  fields ← raw_fields raw
  device_id ← string_field "device_id" fields
  device_name ← string_field "device_name" fields
  server_time ← int_field "server_time" fields
  message ← string_field "message" fields
  some (record {
    device_id = device_id;
    device_name = device_name;
    server_time = server_time;
    message = message;
  })

unfoldable pub encode_auth_code_publish : AuthCodePublishPayload → Json
encode_auth_code_publish p =
    object (field "code" (text p.code) (field "ttl_ms" (int p.ttl_millis) end))

unfoldable pub decode_auth_code_published : Option Json → Option AuthCodePublishedPayload
decode_auth_code_published raw = do
  fields ← raw_fields raw
  expires_at ← int_field "expires_at" fields
  message ← string_field "message" fields
  some (record { expires_at = expires_at; message = message })

unfoldable pub encode_web_share_create : WebShareCreatePayload → Json
encode_web_share_create p = object (
    field "ttl_ms" (int p.ttl_millis) (field "mode" (text p.mode) (omit_empty "label" p.label end)))

unfoldable pub encode_web_share_revoke : WebShareRevokePayload → Json
encode_web_share_revoke p = object (omit_empty "id" p.id (omit_empty "token" p.token end))

-- A share inside another payload, from the fields of its object.
unfoldable pub web_share_of : Fields → Option WebSharePayload
web_share_of fields = do
  id ← string_field "id" fields
  token ← string_field "token" fields
  url ← string_field "url" fields
  controlled_id ← string_field "controlled_id" fields
  controlled_name ← string_field "controlled_name" fields
  mode ← string_field "mode" fields
  label ← string_field "label" fields
  created_at ← int_field "created_at" fields
  expires_at ← int_field "expires_at" fields
  revoked ← bool_field "revoked" fields
  some (record {
    id = id;
    token = token;
    url = url;
    controlled_id = controlled_id;
    controlled_name = controlled_name;
    mode = mode;
    label = label;
    created_at = created_at;
    expires_at = expires_at;
    revoked = revoked;
  })

abbrev pub no_share : WebSharePayload
no_share = record {
  id = "";
  token = "";
  url = "";
  controlled_id = "";
  controlled_name = "";
  mode = "";
  label = "";
  created_at = ℤ.pos 0;
  expires_at = ℤ.pos 0;
  revoked = false;
}

-- The field "share"; the name is not repeated in a message of the relay.
assign_share : Json → WebSharePayload → Option WebSharePayload
unfolding web_share_of
assign_share null current = some current
assign_share (object fields) current = web_share_of fields
assign_share _ current = none

unfoldable pub decode_web_share_created : Option Json → Option WebShareCreatedPayload
unfolding assign_share scan_field
decode_web_share_created raw = do
  fields ← raw_fields raw
  share ← scan_field assign_share "share" no_share fields
  message ← string_field "message" fields
  some (record { share = share; message = message })

share_items : Items → Option (List WebSharePayload)
unfolding assign_share
share_items nil = some []
share_items (item j rest) = do
  share ← assign_share j no_share
  shares ← share_items rest
  some (share ∷ shares)

assign_shares : Json → List WebSharePayload → Option (List WebSharePayload)
unfolding share_items
assign_shares null current = some []
assign_shares (array items) current = share_items items
assign_shares _ current = none

unfoldable pub decode_web_share_list_result : Option Json → Option WebShareListResultPayload
unfolding assign_shares scan_field
decode_web_share_list_result raw = do
  fields ← raw_fields raw
  shares ← scan_field assign_shares "shares" [] fields
  some (record { shares = shares })

unfoldable pub decode_web_share_revoked : Option Json → Option WebShareRevokedPayload
decode_web_share_revoked raw = do
  fields ← raw_fields raw
  id ← string_field "id" fields
  token ← string_field "token" fields
  message ← string_field "message" fields
  some (record { id = id; token = token; message = message })

unfoldable pub decode_web_share_status : Option Json → Option WebShareStatusPayload
decode_web_share_status raw = do
  fields ← raw_fields raw
  id ← string_field "id" fields
  token ← string_field "token" fields
  status ← string_field "status" fields
  message ← string_field "message" fields
  some (record { id = id; token = token; status = status; message = message })

unfoldable pub encode_session_confirm : SessionConfirmPayload → Json
encode_session_confirm p = object (
    field "accepted" (boolean p.accepted) (
      omit_empty "reason" p.reason (
        omit_empty "accepted_mode" p.accepted_mode
          (omit_false "input_allowed" p.input_allowed end))))

unfoldable pub decode_session_ready : Option Json → Option SessionReadyPayload
decode_session_ready raw = do
  fields ← raw_fields raw
  session_id ← string_field "session_id" fields
  peer_id ← string_field "peer_id" fields
  peer_name ← string_field "peer_name" fields
  mode ← string_field "mode" fields
  relay_route ← bool_field "relay_route" fields
  input_allowed ← bool_field "input_allowed" fields
  local_role ← string_field "local_role" fields
  should_send_view ← bool_field "should_send_view" fields
  some (record {
    session_id = session_id;
    peer_id = peer_id;
    peer_name = peer_name;
    mode = mode;
    relay_route = relay_route;
    input_allowed = input_allowed;
    local_role = local_role;
    should_send_view = should_send_view;
  })

unfoldable pub decode_error : Option Json → Option ErrorPayload
decode_error raw = do
  fields ← raw_fields raw
  code ← string_field "code" fields
  message ← string_field "message" fields
  some (record { code = code; message = message })
