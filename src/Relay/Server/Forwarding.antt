-- ===== src/Relay/Server/Forwarding.antt =====
-- server.go: messages through a session.
use beacon_desk.Prelude.{ℕ, String, not, Option, none, some, ◌==◌, if◌then◌else◌}
use beacon_desk.Protocol.Message.{Envelope}
use beacon_desk.Relay.State.{
  Session, Server, Env, Outcome, session_not_found, not_part_of_session, session_peer_offline,
  input_not_allowed, only_controller_input, only_controller_stream,
}
use beacon_desk.Relay.Client.{get_client, get_web_peer, send_or_error, send_web_or_error}
use beacon_desk.Relay.Hub.{get_session, touch_session}

-- The peer of a session, seen from one device: the controlled side, the controller, or nobody.
abbrev pub session_peer : Session → String → Option String
session_peer session device =
    if device == session.controller_id
    then some session.controlled_id
    else if device == session.controlled_id
    then some session.controller_id
    else none

abbrev pub readdressed : Envelope → String → String → Envelope
readdressed msg from to = record msg { from = from; to = to }

-- The delivery to the peer, a client or else a web peer.
unfoldable pub deliver : Server → Env → String → Session → String → Envelope → Outcome
unfolding get_client get_web_peer touch_session send_or_error send_web_or_error
deliver s env device session target msg = elim (get_client s target) [
  | some t ↦ send_or_error (touch_session s env session.id) t (readdressed msg device target)
  | none ↦ elim (get_web_peer s target) [
    | some p ↦ send_web_or_error (touch_session s env session.id) p (readdressed msg device target)
    | none ↦ (s, some (session_peer_offline target))
  ]
]

unfoldable pub forward_session_message : Server → Env → ℕ → Envelope → Outcome
unfolding get_session deliver
forward_session_message s env c msg =
    let device = (s.client_at c).device_id in
    elim (get_session s msg.session_id) [
      | none ↦ (s, some (session_not_found msg.session_id))
      | some session ↦ elim (session_peer session device) [
        | none ↦ (s, some (not_part_of_session device session.id))
        | some target ↦ deliver s env device session target msg
      ]
    ]

unfoldable pub forward_input_message : Server → Env → ℕ → Envelope → Outcome
unfolding get_session forward_session_message
forward_input_message s env c msg = elim (get_session s msg.session_id) [
  | none ↦ (s, some (session_not_found msg.session_id))
  | some session ↦
      if not session.input_allowed
      then (s, some (input_not_allowed session.id))
      else if not ((s.client_at c).device_id == session.controller_id)
      then (s, some (only_controller_input session.id))
      else forward_session_message s env c msg
]

unfoldable pub forward_stream_control_message : Server → Env → ℕ → Envelope → Outcome
unfolding get_session forward_session_message
forward_stream_control_message s env c msg = elim (get_session s msg.session_id) [
  | none ↦ (s, some (session_not_found msg.session_id))
  | some session ↦
      if not ((s.client_at c).device_id == session.controller_id)
      then (s, some (only_controller_stream session.id))
      else forward_session_message s env c msg
]
