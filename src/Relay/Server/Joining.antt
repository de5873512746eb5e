-- ===== src/Relay/Server/Joining.antt =====
-- server.go: registrations and heartbeats.
use beacon_desk.Prelude.{ℕ, not, none, some, ◌==◌, if◌then◌else◌}
use beacon_desk.Prelude.Int.{pos}
use beacon_desk.Auth.{validate}
use beacon_desk.Protocol.Types.{type_device_registered, type_heartbeat_pong, role_peer}
use beacon_desk.Protocol.Message.{Envelope, must_envelope, unix_milli}
use beacon_desk.Protocol.Payloads.{
  RegisterPayload, decode_register, decode_heartbeat, encode_registered, encode_heartbeat,
}
use beacon_desk.Relay.State.{
  Client, Server, Env, Outcome, bad_payload, device_id_required, invalid_token, set_client,
}
use beacon_desk.Relay.Client.{conn_write}
use beacon_desk.Relay.Hub.{register}

-- What `handleRegister` writes to its client before the client is put into the map.
abbrev pub identify : Client → RegisterPayload → Client
identify client payload = record client {
  device_id = payload.device_id;
  device_name = payload.device_name;
  role = if payload.role == "" then role_peer else payload.role;
}

abbrev pub registered_envelope : Env → Client → Envelope
registered_envelope env client =
    must_envelope env.now type_device_registered "relay" client.device_id (
      encode_registered (record {
        device_id = client.device_id;
        device_name = client.device_name;
        server_time = pos (unix_milli env.now);
        message = "registered";
      }))

-- The reply follows only a registration that succeeded.
unfoldable pub answer_register : Env → ℕ → Outcome → Outcome
unfolding conn_write
answer_register env c (s, some e) = (s, some e)
answer_register env c (s, none) = conn_write s c (registered_envelope env (s.client_at c))

unfoldable pub admit_device : Server → Env → ℕ → RegisterPayload → Outcome
unfolding register answer_register
admit_device s env c payload =
    let s' = set_client s c (identify (s.client_at c) payload) in
    if payload.device_id == ""
    then (s, some device_id_required)
    else if not (validate s.auth payload.token)
    then (s, some invalid_token)
    else answer_register env c (register s' env c)

unfoldable pub handle_register : Server → Env → ℕ → Envelope → Outcome
unfolding admit_device
handle_register s env c msg = elim (decode_register msg.payload) [
  | none ↦ (s, some bad_payload)
  | some payload ↦ admit_device s env c payload
]

unfoldable pub handle_ping : Server → Env → ℕ → Envelope → Outcome
unfolding conn_write
handle_ping s env c msg = elim (decode_heartbeat msg.payload) [
  | none ↦ (s, some bad_payload)
  | some payload ↦ conn_write s c (
      must_envelope env.now type_heartbeat_pong "relay" (s.client_at c).device_id
        (encode_heartbeat (record { sequence = payload.sequence; sent_at = payload.sent_at })))
]
