-- ===== src/Relay/WebPeer.antt =====
-- internal/relay/webpeer.go: the visitors that come by a web share.
use beacon_desk.Prelude.{
  ℕ, String, Bool, true, false, not, Option, none, some, List, [], ◌∷◌, ◌==◌, if◌then◌else◌,
}
use beacon_desk.Maps.{insert}
use beacon_desk.Protocol.Types.{
  normalize_session_mode, session_mode_allows_input, type_session_request, type_input_mouse,
  type_input_keyboard, type_stream_control, type_session_close, type_heartbeat_ping,
  type_heartbeat_pong, type_web_share_status, type_error, role_controller,
}
use beacon_desk.Protocol.Message.{Envelope, must_envelope}
use beacon_desk.Protocol.Payloads.{
  decode_heartbeat, encode_heartbeat, encode_session_request, encode_web_share_status, encode_error,
}
use beacon_desk.Relay.State.{
  WebPeer, WebShare, Session, Server, Env, Error, Outcome, bad_payload, session_not_found,
  input_not_allowed, only_controller_input, only_controller_stream, controlled_offline,
  controlled_device_offline, unsupported_web_message_type, set_peer,
}
use beacon_desk.Relay.Client.{get_client, send_or_error, send_web_or_error, send_peer}
use beacon_desk.Relay.Hub.{
  new_id, store_pending_request, get_session, touch_session, close_web_peer,
}
use beacon_desk.Relay.Server.{readdressed, close_session}
use beacon_desk.Relay.WebShare.{active, inactive, get_active_web_share}

-- `newWebPeer`.
unfoldable pub new_web_peer : Env → Bool → WebShare → WebPeer
new_web_peer env picks_send share = record {
  conn_closed = false;
  send = [];
  picks_send = picks_send;
  closed = false;
  id = new_id "web_" env;
  name = "Web visitor";
  share_token = share.token;
  share_id = share.id;
  controlled = share.controlled_id;
  mode = normalize_session_mode share.mode;
}

abbrev pub approval_request : Env → WebPeer → Envelope
approval_request env peer = must_envelope env.now type_session_request peer.id peer.controlled (
    encode_session_request (record {
      target_device_id = peer.controlled;
      mode = peer.mode;
      auth_code = "";
      requester_name = peer.name;
      requester_role = role_controller;
      input_requested = session_mode_allows_input peer.mode;
    }))

-- `requestControlledApproval`.
unfoldable pub request_controlled_approval : Server → Env → ℕ → Outcome
unfolding get_active_web_share get_client store_pending_request send_or_error
request_controlled_approval s env p =
    let peer = s.peer_at p in
    let checked = get_active_web_share s env peer.share_token in
    let s1 = record checked.0 { web_peers = insert peer.id p checked.0.web_peers } in
    let s2 = store_pending_request s1 env peer.id peer.controlled peer.mode in
    elim checked.1 [
      | inactive e ↦ (checked.0, some e)
      | active share ↦ elim (get_client checked.0 peer.controlled) [
        | none ↦ (checked.0, some controlled_device_offline)
        | some target ↦ send_or_error s2 target (approval_request env peer)
      ]
    ]

-- The delivery of a web peer's message to the controlled device.
unfoldable pub deliver_web : Server → Env → ℕ → Session → Envelope → Outcome
unfolding get_client touch_session send_or_error
deliver_web s env p session msg = elim (get_client s session.controlled_id) [
  | none ↦ (s, some (controlled_offline session.controlled_id))
  | some target ↦
      send_or_error (touch_session s env session.id) target
        (readdressed msg (s.peer_at p).id session.controlled_id)
]

unfoldable pub forward_web_input_message : Server → Env → ℕ → Envelope → Outcome
unfolding get_session deliver_web
forward_web_input_message s env p msg = elim (get_session s msg.session_id) [
  | none ↦ (s, some (session_not_found msg.session_id))
  | some session ↦
      if not session.input_allowed
      then (s, some (input_not_allowed session.id))
      else if not ((s.peer_at p).id == session.controller_id)
      then (s, some (only_controller_input session.id))
      else deliver_web s env p session msg
]

unfoldable pub forward_web_stream_control_message : Server → Env → ℕ → Envelope → Outcome
unfolding get_session deliver_web
forward_web_stream_control_message s env p msg = elim (get_session s msg.session_id) [
  | none ↦ (s, some (session_not_found msg.session_id))
  | some session ↦
      if not ((s.peer_at p).id == session.controller_id)
      then (s, some (only_controller_stream session.id))
      else deliver_web s env p session msg
]

unfoldable pub handle_web_session_close : Server → Env → Envelope → Outcome
unfolding close_session
handle_web_session_close s env msg = close_session s env msg.session_id "closed by web peer"

unfoldable pub handle_web_ping : Server → Env → ℕ → Envelope → Outcome
unfolding send_web_or_error
handle_web_ping s env p msg = elim (decode_heartbeat msg.payload) [
  | none ↦ (s, some bad_payload)
  | some payload ↦ send_web_or_error s p (
      must_envelope env.now type_heartbeat_pong "relay" (s.peer_at p).id (encode_heartbeat payload))
]

-- `handleMessage` of a web peer.
unfoldable pub handle_web_message : Server → Env → ℕ → Envelope → Outcome
unfolding forward_web_input_message forward_web_stream_control_message handle_web_session_close
    handle_web_ping
handle_web_message s env p msg =
    if msg.type == type_input_mouse
    then forward_web_input_message s env p msg
    else if msg.type == type_input_keyboard
    then forward_web_input_message s env p msg
    else if msg.type == type_stream_control
    then forward_web_stream_control_message s env p msg
    else if msg.type == type_session_close
    then handle_web_session_close s env msg
    else if msg.type == type_heartbeat_ping
    then handle_web_ping s env p msg
    else (s, some (unsupported_web_message_type msg.type))

-- The message that tells a web peer of an error; `render` is the error's text.
abbrev pub web_error_envelope : (Error → String) → Env → WebPeer → String → Error → Envelope
web_error_envelope render env peer code e =
    must_envelope env.now type_error "relay" peer.id
      (encode_error (record { code = code; message = render e }))

abbrev pub waiting_envelope : Env → WebPeer → Envelope
waiting_envelope env peer = must_envelope env.now type_web_share_status "relay" peer.id (
    encode_web_share_status (record {
      id = peer.share_id;
      token = peer.share_token;
      status = "waiting";
      message = "waiting for controlled-side approval";
    }))

-- `run` up to its loop: the visitor asks for approval, and is closed if that fails.
unfoldable pub start_web_peer : (Error → String) → Server → Env → ℕ → Server
unfolding request_controlled_approval send_peer close_web_peer
start_web_peer render s env p =
    let asked = request_controlled_approval s env p in
    let peer = asked.0.peer_at p in
    elim asked.1 [
      | some e ↦
          close_web_peer
            (send_peer asked.0 p (web_error_envelope render env peer "web_request_failed" e)) env p
      | none ↦ send_peer asked.0 p (waiting_envelope env peer)
    ]

-- One round of the loop of `run`: a message, or a failed read, after which the peer is closed.
unfoldable pub read_web_peer : (Error → String) → Server → Env → ℕ → Option Envelope → Server
unfolding handle_web_message send_peer close_web_peer
read_web_peer render s env p none = close_web_peer s env p
read_web_peer render s env p (some msg) =
    let handled = handle_web_message s env p msg in
    elim handled.1 [
      | none ↦ handled.0
      | some e ↦
          send_peer handled.0 p
            (web_error_envelope render env (handled.0.peer_at p) "web_message_failed" e)
    ]

-- One round of `writeLoop` that takes a message: the message is written, or lost in a failed write,
-- after which the loop ends (the result says whether it goes on).
unfoldable pub write_web_queued : Server → ℕ → Bool → List Envelope → Server × Bool
write_web_queued s p writable [] = (s, true)
write_web_queued s p writable (msg ∷ rest) =
    (set_peer s p (record (s.peer_at p) { send = rest }), writable)

unfoldable pub write_web_peer : Server → ℕ → Bool → Server × Bool
unfolding write_web_queued
write_web_peer s p writable = write_web_queued s p writable (s.peer_at p).send
