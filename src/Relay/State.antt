-- ===== src/Relay/State.antt =====
-- internal/relay: the data of the relay. Clients and web peers are objects that several maps name,
-- so they stand in heaps, under the number of their connection.
use beacon_desk.Prelude.{ℕ, ◌+◌, ◌-◌, String, Bool, Option, List, [], update}
use beacon_desk.Prelude.Int.{ℤ, pos_part, neg_part}
use beacon_desk.Config.{RelayConfig}
use beacon_desk.Auth.{TokenValidator, new_token_validator}
use beacon_desk.Maps.{Map}
use beacon_desk.Protocol.Message.{Envelope}
use beacon_desk.Relay.Limiter.{BandwidthLimiter}

-- client.go. `conn` is the connection's transport: what it has been given to write, whether it has
-- been closed, and whether its next write succeeds. `picks_send` is the choice of a `select` when
-- the queue has room and the client is closed, both at once.
pub record Client : Type 0 where
  pub written : List Envelope
  pub conn_closed : Bool
  pub writable : Bool
  pub send : List Envelope
  pub picks_send : Bool
  pub closed : Bool
  pub last_message_at : ℕ
  pub device_id : String
  pub device_name : String
  pub role : String
  pub auth_code : String
  pub auth_expiry : ℕ
  pub limiter : BandwidthLimiter

-- webpeer.go.
pub record WebPeer : Type 0 where
  pub conn_closed : Bool
  pub send : List Envelope
  pub picks_send : Bool
  pub closed : Bool
  pub id : String
  pub name : String
  pub share_token : String
  pub share_id : String
  pub controlled : String
  pub mode : String

-- session.go.
pub record Session : Type 0 where
  pub id : String
  pub controller_id : String
  pub controlled_id : String
  pub mode : String
  pub input_allowed : Bool
  pub created_at : ℕ
  pub last_activity_at : ℕ

pub record PendingRequest : Type 0 where
  pub controller_id : String
  pub controlled_id : String
  pub mode : String
  pub requested_at : ℕ

-- webshare.go. `revoked_at` is 0 for the zero time.
pub record WebShare : Type 0 where
  pub id : String
  pub token : String
  pub controlled_id : String
  pub controlled_name : String
  pub mode : String
  pub label : String
  pub created_at : ℕ
  pub expires_at : ℕ
  pub revoked : Bool
  pub revoked_at : ℕ

-- server.go, with the heaps of its clients and web peers.
pub record Server : Type 0 where
  pub cfg : RelayConfig
  pub auth : TokenValidator
  pub clients : Map ℕ
  pub web_peers : Map ℕ
  pub sessions : Map Session
  pub pending : Map PendingRequest
  pub shares : Map WebShare
  pub client_at : ℕ → Client
  pub peer_at : ℕ → WebPeer

-- What a handler takes from its surroundings: the clock, and the random names of this call (the
-- digits that `newID` draws, and the token of `randomWebToken`).
pub record Env : Type 0 where
  pub now : ℕ
  pub random_hex : String
  pub random_token : String

-- The errors of the handlers, one for each message text.
pub data Error : Type 0 where
  unsupported_message_type : String → Error
  unsupported_web_message_type : String → Error
  bad_payload : Error
  write_failed : Error
  not_registered : Error
  requester_not_registered : Error
  auth_code_required : Error
  auth_code_not_six_digits : Error
  device_id_required : Error
  invalid_token : Error
  no_device_id : Error
  max_clients_reached : ℤ → Error
  target_device_id_required : Error
  target_offline : String → Error
  target_code_expired : Error
  target_code_invalid : Error
  controller_offline : String → Error
  controlled_offline : String → Error
  session_not_found : String → Error
  not_part_of_session : String → String → Error
  session_peer_offline : String → Error
  input_not_allowed : String → Error
  only_controller_input : String → Error
  only_controller_stream : String → Error
  session_id_required : Error
  peer_offline : String → Error
  queue_failed : String → Error
  share_id_or_token_required : Error
  share_not_found : Error
  share_token_required : Error
  share_link_not_found : Error
  share_expired_or_revoked : Error
  controlled_device_offline : Error

-- A handler returns the server and its `error`; `none` is nil.
abbrev pub Outcome : Type 0
Outcome = Server × Option Error

abbrev pub set_client : Server → ℕ → Client → Server
set_client s c x = record s { client_at = update s.client_at c x }

abbrev pub set_peer : Server → ℕ → WebPeer → Server
set_peer s p x = record s { peer_at = update s.peer_at p x }

-- `t.Add(d)`; instants are far enough from the epoch.
abbrev pub time_add : ℕ → ℤ → ℕ
time_add t d = t + pos_part d - neg_part d

-- `NewServer`.
unfoldable pub new_server : RelayConfig → (ℕ → Client) → (ℕ → WebPeer) → Server
unfolding new_token_validator
new_server cfg client_at peer_at = record {
  cfg = cfg;
  auth = new_token_validator cfg.shared_token;
  clients = [];
  web_peers = [];
  sessions = [];
  pending = [];
  shares = [];
  client_at = client_at;
  peer_at = peer_at;
}
