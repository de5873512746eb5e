-- ===== src/Relay/Server/Confirming.antt =====
-- server.go: the confirmation of a session by the controlled side.
use beacon_desk.Prelude.{
  ℕ, String, Bool, true, false, not, ◌&&◌, Option, none, some, ◌==◌, if◌then◌else◌,
}
use beacon_desk.Protocol.Types.{
  normalize_session_mode, session_mode_allows_input, type_session_ready, role_controller,
  role_controlled,
}
use beacon_desk.Protocol.Message.{Envelope, must_envelope}
use beacon_desk.Protocol.Payloads.{
  SessionConfirmPayload, decode_session_confirm, encode_session_ready,
}
use beacon_desk.Relay.State.{
  Session, PendingRequest, Server, Env, Outcome, bad_payload, not_registered, controller_offline,
}
use beacon_desk.Relay.Client.{get_client, get_web_peer, send_or_error, send_to_peer}
use beacon_desk.Relay.Hub.{
  create_session, created, refused, consume_pending_request, has_client, has_web_peer,
}

abbrev pub ready_envelope : Env → Session → String → String → String → String → Bool → Envelope
ready_envelope env session to peer_id peer_name local_role should_send_view =
    record (must_envelope env.now type_session_ready "relay" to (
      encode_session_ready (record {
        session_id = session.id;
        peer_id = peer_id;
        peer_name = peer_name;
        mode = session.mode;
        relay_route = true;
        input_allowed = session.input_allowed;
        local_role = local_role;
        should_send_view = should_send_view;
      }))) { session_id = session.id }

-- The name and id of the controller: of its client, or else of its web peer.
abbrev pub controller_identity : Server → Option ℕ → Option ℕ → String × String
controller_identity s (some c) web = ((s.client_at c).device_id, (s.client_at c).device_name)
controller_identity s none (some p) = ((s.peer_at p).id, (s.peer_at p).name)
controller_identity s none none = ("", "")

abbrev pub mode_of_request : Option PendingRequest → String → String
mode_of_request (some request) mode = request.mode
mode_of_request none mode = mode

-- The session for an accepted request, and its announcements to both sides.
unfoldable pub accept_session : Server → Env → ℕ → String → SessionConfirmPayload → Outcome
unfolding consume_pending_request create_session send_to_peer send_or_error
accept_session s env c controller_id payload =
    let device = (s.client_at c).device_id in
    let consumed = consume_pending_request s controller_id device in
    let mode = mode_of_request consumed.1 (normalize_session_mode payload.accepted_mode) in
    let input_allowed = payload.input_allowed && session_mode_allows_input mode in
    elim (create_session consumed.0 env controller_id device mode input_allowed) [
      | refused e ↦ (consumed.0, some e)
      | created session s1 ↦
          let peer =
            controller_identity s1 (get_client s controller_id) (get_web_peer s controller_id) in
          let to_controller =
            ready_envelope env session controller_id device (s.client_at c).device_name
              role_controller false in
          let to_target = ready_envelope env session device peer.0 peer.1 role_controlled true in
          send_or_error (send_to_peer s1 controller_id to_controller).0 c to_target
    ]

unfoldable pub decline_session : Server → ℕ → String → Envelope → Outcome
unfolding consume_pending_request send_to_peer
decline_session s c controller_id msg =
    let device = (s.client_at c).device_id in
    send_to_peer (consume_pending_request s controller_id device).0 controller_id
      (record msg { from = device; to = controller_id })

-- To whom a confirmation goes.
abbrev pub controller_of : Envelope → String
controller_of msg = if msg.to == "" then msg.from else msg.to

unfoldable pub handle_session_confirm : Server → Env → ℕ → Envelope → Outcome
unfolding accept_session decline_session has_client has_web_peer
handle_session_confirm s env c msg =
    let controller_id = controller_of msg in
    if (s.client_at c).device_id == ""
    then (s, some not_registered)
    else elim (decode_session_confirm msg.payload) [
      | none ↦ (s, some bad_payload)
      | some payload ↦
          if not (has_client s controller_id) && not (has_web_peer s controller_id)
          then (s, some (controller_offline controller_id))
          else if not payload.accepted
          then decline_session s c controller_id msg
          else accept_session s env c controller_id payload
    ]
