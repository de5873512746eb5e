-- ===== src/Protocol/Payloads/Devices.antt =====
-- message.go: registrations and temporary codes.
use beacon_desk.Prelude.{String, Option, some, ◌>>=◌}
use beacon_desk.Prelude.Int.{ℤ}
use beacon_desk.Protocol.Json.{
  Json, int, text, object, end, field, string_field, int_field, raw_fields, omit_empty,
}

pub record RegisterPayload : Type 0 where
  pub device_id : String
  pub device_name : String
  pub role : String
  pub token : String

unfoldable pub decode_register : Option Json → Option RegisterPayload
decode_register raw = do
  fields ← raw_fields raw
  device_id ← string_field "device_id" fields
  device_name ← string_field "device_name" fields
  role ← string_field "role" fields
  token ← string_field "token" fields
  some (record { device_id = device_id; device_name = device_name; role = role; token = token })

pub record RegisteredPayload : Type 0 where
  pub device_id : String
  pub device_name : String
  pub server_time : ℤ
  pub message : String

unfoldable pub encode_registered : RegisteredPayload → Json
encode_registered p = object (
    field "device_id" (text p.device_id) (
      omit_empty "device_name" p.device_name
        (field "server_time" (int p.server_time) (field "message" (text p.message) end))))

pub record AuthCodePublishPayload : Type 0 where
  pub code : String
  pub ttl_millis : ℤ

unfoldable pub decode_auth_code_publish : Option Json → Option AuthCodePublishPayload
decode_auth_code_publish raw = do
  fields ← raw_fields raw
  code ← string_field "code" fields
  ttl_millis ← int_field "ttl_ms" fields
  some (record { code = code; ttl_millis = ttl_millis })

pub record AuthCodePublishedPayload : Type 0 where
  pub expires_at : ℤ
  pub message : String

unfoldable pub encode_auth_code_published : AuthCodePublishedPayload → Json
encode_auth_code_published p =
    object (field "expires_at" (int p.expires_at) (field "message" (text p.message) end))
