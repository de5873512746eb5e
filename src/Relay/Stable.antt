-- ===== src/Relay/Stable.antt =====
-- What a property of the server has to survive to be kept by every handler: one field for each way
-- in which a handler writes to the state. The modules below prove, once for all such properties,
-- that the handlers and the steps of the relay keep them.
pub mod Hub
pub mod Handlers
pub mod Web
pub mod Dispatch
use beacon_desk.Prelude.{ℕ, ◌+◌, ◌*◌, ◌≤◌, ◌<◌, ◌≡◌, ◌≢◌, String, Bool, true, some, length, arith}
use beacon_desk.Prelude.Int.{pos_part}
use beacon_desk.Config.{RelayConfig, minute, hour}
use beacon_desk.Maps.{Map, lookup, insert, delete, Entries, IsUnique}
use beacon_desk.Protocol.Types.{IsMode, session_mode_view_control}
use beacon_desk.Relay.State.{
  Client, WebPeer, Session, PendingRequest, WebShare, Server, set_client, set_peer,
}
use beacon_desk.Relay.Client.{send_capacity}

-- A session stands under its own name, has one of the two modes, and allows input in the mode
-- "view-control" only.
abbrev pub SessionOk : String → Session → Type 0
SessionOk key x =
    (x.id ≡ key) × IsMode x.mode × (x.input_allowed ≡ true → x.mode ≡ session_mode_view_control)

abbrev pub RequestOk : String → PendingRequest → Type 0
RequestOk key x = IsMode x.mode

-- A share stands under its token, belongs to a named device, and lives from a minute to a week.
abbrev pub ShareOk : String → WebShare → Type 0
ShareOk key x =
    (x.token ≡ key)
    × IsMode x.mode
    × (x.controlled_id ≢ "")
    × (x.created_at + minute ≤ x.expires_at)
    × (x.expires_at ≤ x.created_at + 7 * 24 * hour)

-- The configured limit on clients; 0 or less means none.
abbrev pub client_limit : RelayConfig → ℕ
client_limit cfg = pos_part cfg.max_clients

-- Does this queue fit its channel?
abbrev pub ClientFits : Client → Type 0
ClientFits x = length x.send ≤ send_capacity

abbrev pub PeerFits : WebPeer → Type 0
PeerFits x = length x.send ≤ send_capacity

abbrev pub InLimit : RelayConfig → Map ℕ → Type 0
InLimit cfg clients = 0 < client_limit cfg → length clients ≤ client_limit cfg

-- `May x` says that the session `x` may be created.
pub record Stable {ℓ} (P : Server → Type ℓ) (May : Session → Type 0) : Type ℓ where
  pub on_client :
      {s : Server} (c : ℕ) (x : Client)
      → (ClientFits (s.client_at c) → ClientFits x)
      → P s
      → P (set_client s c x)
  pub on_peer :
      {s : Server} (p : ℕ) (x : WebPeer)
      → (PeerFits (s.peer_at p) → PeerFits x)
      → P s
      → P (set_peer s p x)
  pub on_delete_session :
      {s : Server} (k : String) → P s → P (record s { sessions = delete k s.sessions })
  pub on_touch :
      {s : Server} (k : String) (x : Session) (now : ℕ)
      → lookup k s.sessions ≡ some x
      → P s
      → P (record s { sessions = insert k (record x { last_activity_at = now }) s.sessions })
  pub on_create :
      {s : Server} (x : Session)
      → SessionOk x.id x
      → May x
      → P s
      → P (record s { sessions = insert x.id x s.sessions })
  pub on_pending :
      {s : Server} (m : Map PendingRequest)
      → (Entries RequestOk s.pending → Entries RequestOk m)
      → (IsUnique s.pending → IsUnique m)
      → P s
      → P (record s { pending = m })
  pub on_shares :
      {s : Server} (m : Map WebShare)
      → (Entries ShareOk s.shares → Entries ShareOk m)
      → (IsUnique s.shares → IsUnique m)
      → P s
      → P (record s { shares = m })
  pub on_clients :
      {s : Server} (m : Map ℕ)
      → (InLimit s.cfg s.clients → InLimit s.cfg m)
      → (IsUnique s.clients → IsUnique m)
      → P s
      → P (record s { clients = m })
  pub on_web_peers : {s : Server} (m : Map ℕ) → P s → P (record s { web_peers = m })
