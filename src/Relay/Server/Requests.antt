-- ===== src/Relay/Server/Requests.antt =====
-- server.go: requests for a session, and their check.
use beacon_desk.Prelude.{ℕ, String, not, Option, none, some, ltb, ◌==◌, if◌then◌else◌}
use beacon_desk.Protocol.Types.{
  normalize_session_mode, session_mode_allows_input, type_session_request,
}
use beacon_desk.Protocol.Message.{Envelope, must_envelope}
use beacon_desk.Protocol.Payloads.{
  SessionRequestPayload, decode_session_request, encode_session_request,
}
use beacon_desk.Relay.State.{
  Client, Server, Env, Error, Outcome, bad_payload, requester_not_registered,
  target_device_id_required, target_offline, target_code_expired, target_code_invalid, set_client,
}
use beacon_desk.Relay.Client.{get_client, send_or_error}
use beacon_desk.Relay.Hub.{store_pending_request}

-- `validateTargetAuthCode`: the target afterwards, and the error.
unfoldable pub validate_target_auth_code : Client → Env → String → Client × Option Error
validate_target_auth_code target env code =
    let cleared = record target { auth_code = ""; auth_expiry = 0 } in
    if target.auth_code == ""
    then (target, none)
    else if ltb target.auth_expiry env.now
    then (cleared, some target_code_expired)
    else if not (code == target.auth_code)
    then (target, some target_code_invalid)
    else (cleared, none)

abbrev pub forwarded_request : Env → Client → SessionRequestPayload → Envelope → Envelope
forwarded_request env client payload msg =
    let mode = normalize_session_mode payload.mode in
    record msg {
      from = client.device_id;
      to = payload.target_device_id;
      payload =
          (must_envelope env.now type_session_request client.device_id payload.target_device_id (
            encode_session_request (record {
              target_device_id = payload.target_device_id;
              mode = mode;
              auth_code = "";
              requester_name = client.device_name;
              requester_role = client.role;
              input_requested = session_mode_allows_input mode;
            }))).payload;
    }

-- The request once its target is known.
unfoldable pub request_session : Server → Env → ℕ → ℕ → SessionRequestPayload → Envelope → Outcome
unfolding validate_target_auth_code store_pending_request send_or_error
request_session s env c target payload msg =
    let client = s.client_at c in
    let checked = validate_target_auth_code (s.client_at target) env payload.auth_code in
    let s1 = set_client s target checked.0 in
    let s2 =
      store_pending_request s1 env client.device_id payload.target_device_id
        (normalize_session_mode payload.mode) in
    let sent = send_or_error s2 target (forwarded_request env client payload msg) in
    elim checked.1 [ some e ↦ (s1, some e) | none ↦ sent ]

unfoldable pub handle_session_request : Server → Env → ℕ → Envelope → Outcome
unfolding request_session get_client
handle_session_request s env c msg =
    if (s.client_at c).device_id == ""
    then (s, some requester_not_registered)
    else elim (decode_session_request msg.payload) [
      | none ↦ (s, some bad_payload)
      | some payload ↦
          if payload.target_device_id == ""
          then (s, some target_device_id_required)
          else elim (get_client s payload.target_device_id) [
            | none ↦ (s, some (target_offline payload.target_device_id))
            | some target ↦ request_session s env c target payload msg
          ]
    ]
