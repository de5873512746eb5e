-- ===== src/Relay/Dispatch.antt =====
-- internal/relay/server.go (`handleMessage`) and client.go (`run`, `writeLoop`): what a client's
-- connection does with each message that it reads, and with each that is queued for it.
use beacon_desk.Prelude.{
  ℕ, ◌+◌, ◌*◌, String, Bool, true, false, Option, none, some, List, [], ◌∷◌, ◌==◌, if◌then◌else◌,
}
use beacon_desk.Config.{second}
use beacon_desk.Protocol.Types.{
  type_device_register, type_auth_code_publish, type_web_share_create, type_web_share_list,
  type_web_share_revoke, type_heartbeat_ping, type_heartbeat_pong, type_session_request,
  type_session_confirm, type_stream_frame, type_stream_control, type_input_mouse,
  type_input_keyboard, type_telemetry_stats, type_session_close, type_error,
}
use beacon_desk.Protocol.Json.{Json}
use beacon_desk.Protocol.Message.{Envelope, must_envelope, unix_milli}
use beacon_desk.Protocol.Payloads.{encode_error}
use beacon_desk.Relay.Limiter.{Timers, WaitResult, granted, cancelled, unfinished, wait}
use beacon_desk.Relay.State.{
  Client, Server, Env, Error, Outcome, unsupported_message_type, set_client,
}
use beacon_desk.Relay.Client.{conn_write, send_client}
use beacon_desk.Relay.Hub.{close_client}
use beacon_desk.Relay.Server.{
  handle_register, handle_auth_code_publish, handle_ping, handle_session_request,
  handle_session_confirm, forward_session_message, forward_stream_control_message,
  forward_input_message, handle_session_close,
}
use beacon_desk.Relay.WebShare.{
  handle_web_share_create, handle_web_share_list, handle_web_share_revoke,
}

unfoldable pub handle_message : (String → String) → Server → Env → ℕ → Envelope → Outcome
handle_message share_url s env c msg =
    if msg.type == type_device_register
    then handle_register s env c msg
    else if msg.type == type_auth_code_publish
    then handle_auth_code_publish s env c msg
    else if msg.type == type_web_share_create
    then handle_web_share_create share_url s env c msg
    else if msg.type == type_web_share_list
    then handle_web_share_list share_url s env c
    else if msg.type == type_web_share_revoke
    then handle_web_share_revoke s env c msg
    else if msg.type == type_heartbeat_ping
    then handle_ping s env c msg
    else if msg.type == type_heartbeat_pong
    then (s, none)
    else if msg.type == type_session_request
    then handle_session_request s env c msg
    else if msg.type == type_session_confirm
    then handle_session_confirm s env c msg
    else if msg.type == type_stream_frame
    then forward_session_message s env c msg
    else if msg.type == type_stream_control
    then forward_stream_control_message s env c msg
    else if msg.type == type_input_mouse
    then forward_input_message s env c msg
    else if msg.type == type_input_keyboard
    then forward_input_message s env c msg
    else if msg.type == type_telemetry_stats
    then forward_session_message s env c msg
    else if msg.type == type_session_close
    then handle_session_close s env c msg
    else (s, some (unsupported_message_type msg.type))

-- `stats.Touch`.
abbrev pub touch_stats : Client → Env → Client
touch_stats client env = record client { last_message_at = unix_milli env.now }

abbrev pub error_envelope : (Error → String) → Env → Client → Error → Envelope
error_envelope render env client e =
    must_envelope env.now type_error "relay" client.device_id
      (encode_error (record { code = "message_failed"; message = render e }))

-- One round of the loop of `run`: a message, or a failed read, after which the client is closed.
-- `render` is the text of an error.
unfoldable pub read_client :
    (String → String) → (Error → String) → Server → Env → ℕ → Option Envelope → Server
unfolding handle_message send_client close_client
read_client share_url render s env c none = close_client s env c
read_client share_url render s env c (some msg) =
    let touched = set_client s c (touch_stats (s.client_at c) env) in
    let handled = handle_message share_url touched env c msg in
    elim handled.1 [
      | none ↦ handled.0
      | some e ↦ send_client handled.0 c (error_envelope render env (handled.0.client_at c) e)
    ]

-- The write of a message that the limiter has let through; a failure closes the client.
unfoldable pub write_message : Server → Env → ℕ → Envelope → Server × Bool
unfolding conn_write close_client
write_message s env c msg =
    let written = conn_write s c msg in
    elim written.1 [ none ↦ (written.0, true) | some e ↦ (close_client written.0 env c, false) ]

-- What follows the limiter, for a message taken off the queue.
unfoldable pub send_limited :
    Server → Env → ℕ → Envelope → List Envelope → WaitResult → Server × Bool
unfolding write_message
send_limited s env c msg rest (granted limiter now) =
    write_message (set_client s c (record (s.client_at c) { send = rest; limiter = limiter }))
      (record env { now = now }) c msg
send_limited s env c msg rest (cancelled limiter) =
    (set_client s c (record (s.client_at c) { send = rest; limiter = limiter }), false)
send_limited s env c msg rest unfinished = (s, false)

-- One round of `writeLoop` that takes a message: the server, and whether the loop goes on. `timers`
-- is what the runtime decides for the limiter, and `size` the length of a payload in bytes.
unfoldable pub write_queued :
    Timers → (Option Json → ℕ) → Server → Env → ℕ → List Envelope → Server × Bool
unfolding wait send_limited
write_queued timers size s env c [] = (s, true)
write_queued timers size s env c (msg ∷ rest) =
    send_limited s env c msg rest
      (wait timers (s.client_at c).limiter (size msg.payload) env.now (env.now + 10 * second))

unfoldable pub write_client : Timers → (Option Json → ℕ) → Server → Env → ℕ → Server × Bool
unfolding write_queued
write_client timers size s env c = write_queued timers size s env c (s.client_at c).send
