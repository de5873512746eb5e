-- ===== src/Relay/Client.antt =====
-- internal/relay/client.go, the part of webpeer.go that is alike, and the sending functions of
-- server.go: queues, writes, and the messages to the peers of a session.
use beacon_desk.Prelude.{
  ℕ, String, Bool, true, false, not, ◌&&◌, ◌||◌, Option, none, some, [], ◌∷◌, ◌++◌, ltb,
  if◌then◌else◌, length,
}
use beacon_desk.Maps.{lookup}
use beacon_desk.Protocol.Types.{type_session_close}
use beacon_desk.Protocol.Json.{Json, object, field, end, text}
use beacon_desk.Protocol.Message.{Envelope, must_envelope, unix_milli}
use beacon_desk.Relay.Limiter.{new_bandwidth_limiter}
use beacon_desk.Relay.State.{
  Client, WebPeer, Server, Env, Outcome, queue_failed, peer_offline, write_failed, set_client,
  set_peer,
}

abbrev pub send_capacity : ℕ
send_capacity = 128

-- `newClient`, on a fresh connection.
unfoldable pub new_client : Server → Env → Bool → Bool → Client
unfolding new_bandwidth_limiter
new_client s env writable picks_send = record {
  written = [];
  conn_closed = false;
  writable = writable;
  send = [];
  picks_send = picks_send;
  closed = false;
  last_message_at = unix_milli env.now;
  device_id = "";
  device_name = "";
  role = "";
  auth_code = "";
  auth_expiry = 0;
  limiter = new_bandwidth_limiter s.cfg.bandwidth_limit_kbps env.now;
}

-- The `select` of `trySend`: which of its cases runs, for a queue of `n` messages.
abbrev pub accepts : ℕ → Bool → Bool → Bool
accepts n closed picks_send = ltb n send_capacity && (not closed || picks_send)

-- `trySend` of a client.
unfoldable pub try_send : Client → Envelope → Client × Bool
try_send c msg =
    if accepts (length c.send) c.closed c.picks_send
    then (record c { send = c.send ++ msg ∷ [] }, true)
    else (c, false)

-- `trySend` of a web peer.
unfoldable pub try_send_web : WebPeer → Envelope → WebPeer × Bool
try_send_web p msg =
    if accepts (length p.send) p.closed p.picks_send
    then (record p { send = p.send ++ msg ∷ [] }, true)
    else (p, false)

-- `client.conn.Write` from a handler.
unfoldable pub conn_write : Server → ℕ → Envelope → Outcome
conn_write s c msg =
    if (s.client_at c).writable
    then (
      set_client s c (record (s.client_at c) { written = (s.client_at c).written ++ msg ∷ [] }),
      none,
    )
    else (s, some write_failed)

-- `trySend` with its result dropped.
unfoldable pub send_client : Server → ℕ → Envelope → Server
unfolding try_send
send_client s c msg = set_client s c (try_send (s.client_at c) msg).0

unfoldable pub send_peer : Server → ℕ → Envelope → Server
unfolding try_send_web
send_peer s p msg = set_peer s p (try_send_web (s.peer_at p) msg).0

unfoldable pub send_or_error : Server → ℕ → Envelope → Outcome
unfolding send_client
send_or_error s c msg = (
  send_client s c msg,
  if (try_send (s.client_at c) msg).1 then none else some (queue_failed (s.client_at c).device_id),
)

unfoldable pub send_web_or_error : Server → ℕ → Envelope → Outcome
unfolding send_peer
send_web_or_error s p msg = (
  send_peer s p msg,
  if (try_send_web (s.peer_at p) msg).1 then none else some (queue_failed (s.peer_at p).id),
)

-- `getClient` and `getWebPeer`.
unfoldable pub get_client : Server → String → Option ℕ
unfolding lookup
get_client s device_id = lookup device_id s.clients

unfoldable pub get_web_peer : Server → String → Option ℕ
unfolding lookup
get_web_peer s device_id = lookup device_id s.web_peers

unfoldable pub send_to_peer : Server → String → Envelope → Outcome
unfolding get_client get_web_peer send_or_error send_web_or_error
send_to_peer s device_id msg = elim (get_client s device_id) [
  | some c ↦ send_or_error s c msg
  | none ↦ elim (get_web_peer s device_id) [
    | some p ↦ send_web_or_error s p msg
    | none ↦ (s, some (peer_offline device_id))
  ]
]

-- `protocolEnvelopeSessionClose`, with the payload that its caller builds.
unfoldable pub session_close_envelope : ℕ → String → String → String → String → Envelope
unfolding must_envelope
session_close_envelope now session_id from to reason =
    let payload : Json =
      object (field "reason" (text reason) (field "session_id" (text session_id) end)) in
    record (must_envelope now type_session_close from to payload) { session_id = session_id }
