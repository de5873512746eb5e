-- ===== src/Relay/Hub.antt =====
-- internal/relay/hub.go, with the closing of clients and web peers (client.go, webpeer.go): the
-- maps of the server, and what goes when a peer goes.
use beacon_desk.Prelude.{
  ℕ, String, Bool, true, false, not, ◌&&◌, ◌||◌, Option, none, some, [], ◌∷◌, ltb, leb, ◌=ℕ◌, ◌==◌,
  if◌then◌else◌, length, is_some,
}
use Prim.Native.String.{◌++◌ as append}
use beacon_desk.Prelude.Int.{pos_part}
use beacon_desk.Maps.{Map, lookup, insert, delete, delete_where}
use beacon_desk.Protocol.Message.{Envelope}
use beacon_desk.Protocol.Types.{normalize_session_mode, session_mode_allows_input}
use beacon_desk.Relay.State.{
  Session, PendingRequest, WebShare, Server, Env, Error, Outcome, no_device_id, max_clients_reached,
  controller_offline, controlled_offline, set_client, set_peer,
}
use beacon_desk.Relay.Client.{send_client, send_peer, session_close_envelope}

-- `newID`: a prefix and random digits.
abbrev pub new_id : String → Env → String
new_id prefix env = append prefix env.random_hex

-- The message of `notifySessionClosedLocked` to one side of the session.
abbrev pub closed_message : Env → Session → String → String → Envelope
closed_message env session reason to = session_close_envelope env.now session.id "relay" to reason

-- Its first half: the controller is a client, or else a web peer.
unfoldable pub notify_controller : Server → Env → Session → String → Server
notify_controller s env session reason = elim (lookup session.controller_id s.clients) [
  | some c ↦ send_client s c (closed_message env session reason session.controller_id)
  | none ↦ elim (lookup session.controller_id s.web_peers) [
    | some p ↦ send_peer s p (closed_message env session reason session.controller_id)
    | none ↦ s
  ]
]

-- `notifySessionClosedLocked`. The sends change no map.
unfoldable pub notify_session_closed : Server → Env → Session → String → Server
unfolding notify_controller
notify_session_closed s env session reason =
    let told = notify_controller s env session reason in
    elim (lookup session.controlled_id s.clients) [
      | some c ↦ send_client told c (closed_message env session reason session.controlled_id)
      | none ↦ told
    ]

-- Does a session, or a pending request, name this peer?
abbrev pub names_peer : String → String → String → Bool
names_peer peer controller controlled = controller == peer || controlled == peer

abbrev pub session_names : String → Session → Bool
session_names peer session = names_peer peer session.controller_id session.controlled_id

abbrev pub request_names : String → PendingRequest → Bool
request_names peer request = names_peer peer request.controller_id request.controlled_id

-- The loop over the sessions in `unregister` and `unregisterWebPeer`; the list is what is left to
-- look at.
unfoldable pub close_sessions_of : String → String → Env → Map Session → Server → Server
unfolding notify_session_closed
close_sessions_of peer reason env [] s = s
close_sessions_of peer reason env ((id, session) ∷ rest) s =
    close_sessions_of peer reason env rest (
      if session_names peer session
      then notify_session_closed (record s { sessions = delete id s.sessions }) env session reason
      else s)

-- The loop over the pending requests.
unfoldable pub drop_pending_of : String → Server → Server
unfolding delete_where
drop_pending_of peer s = record s {
  pending = delete_where (request_names peer) s.pending s.pending;
}

abbrev pub revoke_share : String → ℕ → WebShare → WebShare
revoke_share device now share =
    if share.controlled_id == device
    then record share { revoked = true; revoked_at = now }
    else share

-- The loop over the shares.
unfoldable pub revoke_shares_of : String → ℕ → Map WebShare → Map WebShare
revoke_shares_of device now [] = []
revoke_shares_of device now ((token, share) ∷ rest) =
    (token, revoke_share device now share) ∷ revoke_shares_of device now rest

abbrev pub is_client : Option ℕ → ℕ → Bool
is_client none c = false
is_client (some d) c = d =ℕ c

-- `delete(s.clients, id)` if the entry is this client.
abbrev pub forget_client : String → ℕ → Map ℕ → Map ℕ
forget_client device c clients =
    if is_client (lookup device clients) c then delete device clients else clients

unfoldable pub unregister : Server → Env → ℕ → Server
unfolding close_sessions_of drop_pending_of revoke_shares_of
unregister s env c =
    let device = (s.client_at c).device_id in
    let s1 = record s { clients = forget_client device c s.clients } in
    let s2 = close_sessions_of device "peer disconnected" env s1.sessions s1 in
    let s3 = drop_pending_of device s2 in
    let s4 = record s3 { shares = revoke_shares_of device env.now s3.shares } in
    if device == "" then s else s4

-- `close` of a client; `closeOnce` lets only the first call through.
unfoldable pub close_client : Server → Env → ℕ → Server
unfolding unregister
close_client s env c =
    let x = s.client_at c in
    let done = unregister (set_client s c (record x { closed = true; conn_closed = true })) env c in
    if x.closed then s else done

unfoldable pub register : Server → Env → ℕ → Outcome
unfolding close_client
register s env c =
    let device = (s.client_at c).device_id in
    let limit = pos_part s.cfg.max_clients in
    let s' = record s { clients = insert device c s.clients } in
    if device == ""
    then (s, some no_device_id)
    else if ltb 0 limit && leb limit (length s.clients)
    then (s, some (max_clients_reached s.cfg.max_clients))
    else elim (lookup device s.clients) [
      | none ↦ (s', none)
      | some old ↦ (if old =ℕ c then s' else close_client s' env old, none)
    ]

-- `createSession`, under the name of the error or the session.
pub data Created : Type 0 where
  created : Session → Server → Created
  refused : Error → Created

abbrev pub new_session : Env → String → String → String → Bool → Session
new_session env controller_id controlled_id mode input_allowed = record {
  id = new_id "sess_" env;
  controller_id = controller_id;
  controlled_id = controlled_id;
  mode = normalize_session_mode mode;
  input_allowed = input_allowed && session_mode_allows_input mode;
  created_at = env.now;
  last_activity_at = env.now;
}

unfoldable pub has_client : Server → String → Bool
unfolding lookup
has_client s id = is_some (lookup id s.clients)

unfoldable pub has_web_peer : Server → String → Bool
unfolding lookup
has_web_peer s id = is_some (lookup id s.web_peers)

unfoldable pub create_session : Server → Env → String → String → String → Bool → Created
unfolding has_client has_web_peer
create_session s env controller_id controlled_id mode input_allowed =
    let session = new_session env controller_id controlled_id mode input_allowed in
    if not (has_client s controller_id) && not (has_web_peer s controller_id)
    then refused (controller_offline controller_id)
    else if not (has_client s controlled_id)
    then refused (controlled_offline controlled_id)
    else created session (record s { sessions = insert session.id session s.sessions })

abbrev pub pending_key : String → String → String
pending_key controller_id controlled_id = append controller_id (append "\0" controlled_id)

unfoldable pub store_pending_request : Server → Env → String → String → String → Server
store_pending_request s env controller_id controlled_id mode =
    let request : PendingRequest = record {
      controller_id = controller_id;
      controlled_id = controlled_id;
      mode = normalize_session_mode mode;
      requested_at = env.now;
    } in
    record s { pending = insert (pending_key controller_id controlled_id) request s.pending }

unfoldable pub consume_pending_request : Server → String → String → Server × Option PendingRequest
consume_pending_request s controller_id controlled_id =
    let key = pending_key controller_id controlled_id in
    (record s { pending = delete key s.pending }, lookup key s.pending)

unfoldable pub get_session : Server → String → Option Session
get_session s session_id = lookup session_id s.sessions

-- `touchSession`: the session object that the map names is updated in place.
unfoldable pub touch_session : Server → Env → String → Server
touch_session s env session_id = elim (lookup session_id s.sessions) [
  | none ↦ s
  | some session ↦ record s {
    sessions = insert session_id (record session { last_activity_at = env.now }) s.sessions;
  }
]

-- `unregisterWebPeer`.
unfoldable pub unregister_web_peer : Server → Env → ℕ → Server
unfolding close_sessions_of drop_pending_of
unregister_web_peer s env p =
    let id = (s.peer_at p).id in
    let s1 = record s { web_peers = forget_client id p s.web_peers } in
    drop_pending_of id (close_sessions_of id "web peer disconnected" env s1.sessions s1)

-- `close` of a web peer.
unfoldable pub close_web_peer : Server → Env → ℕ → Server
unfolding unregister_web_peer
close_web_peer s env p =
    let x = s.peer_at p in
    let done =
      unregister_web_peer (set_peer s p (record x { closed = true; conn_closed = true })) env p in
    if x.closed then s else done
