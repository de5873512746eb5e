-- ===== src/Relay/Invariant.antt =====
-- The well-formedness of a relay: what its maps and queues hold at any time.
use beacon_desk.Prelude.{ℕ, String, Option, none, some, update, arith, if_rule, ◌=ℕ◌}
use beacon_desk.Config.{RelayConfig}
use beacon_desk.Maps.{
  Map, insert, lookup, Entries, IsUnique, Entries-delete, Entries-insert, delete-IsUnique,
  insert-IsUnique,
}
use beacon_desk.Protocol.Json.{Json}
use beacon_desk.Relay.State.{
  Client, WebPeer, Session, PendingRequest, WebShare, Server, Error, new_server,
}
use beacon_desk.Relay.Steps.{
  Step, Reach, here, next, accept, read, write, reap, browse, visit, read_web, write_web, drift,
  drift_web,
}
use beacon_desk.Relay.Stable.{Stable, SessionOk, RequestOk, ShareOk, InLimit, ClientFits, PeerFits}
use beacon_desk.Relay.Stable.Dispatch.{MayStep, Step-Stable}

abbrev pub SessionsInv : Map Session → Type 0
SessionsInv m = Entries SessionOk m × IsUnique m

abbrev pub PendingInv : Map PendingRequest → Type 0
PendingInv m = Entries RequestOk m × IsUnique m

abbrev pub SharesInv : Map WebShare → Type 0
SharesInv m = Entries ShareOk m × IsUnique m

abbrev pub ClientsInv : RelayConfig → Map ℕ → Type 0
ClientsInv cfg m = InLimit cfg m × IsUnique m

-- Each session stands under its own name and allows input only in the mode "view-control"; each
-- pending request has one of the two modes; each share belongs to a named device and lives from a
-- minute to a week; no map has a key twice; no more clients are registered than configured; and no
-- queue exceeds its capacity.
pub record Inv (s : Server) : Type 0 where
  pub sessions_inv : SessionsInv s.sessions
  pub pending_inv : PendingInv s.pending
  pub shares_inv : SharesInv s.shares
  pub clients_inv : ClientsInv s.cfg s.clients
  pub client_queues : (c : ℕ) → ClientFits (s.client_at c)
  pub peer_queues : (p : ℕ) → PeerFits (s.peer_at p)

-- The invariant asks nothing of a session but that it is made as `createSession` makes it.
abbrev AnySession : Session → Type 0
AnySession x = Unit

update-fits {ℓ} :
    {A : Type ℓ} (Fits : A → Type 0) (h : ℕ → A) (a : ℕ) (x : A)
    → (Fits (h a) → Fits x)
    → ((b : ℕ) → Fits (h b))
    → (b : ℕ) → Fits (update h a x b)
update-fits Fits h a x f all b = if_rule Fits (a =ℕ b) _ _ (λ _. f (all a)) (λ _. all b)

insert_session :
    (m : Map Session) (k : String) (x : Session)
    → SessionOk k x
    → SessionsInv m
    → SessionsInv (insert k x m)
insert_session m k x h v = (Entries-insert SessionOk k x m h v.0, insert-IsUnique k x m v.1)

Inv-Stable : Stable Inv AnySession
Inv-Stable = record {
  on_client = λ {s} c x f v. record {
    sessions_inv = v.sessions_inv;
    pending_inv = v.pending_inv;
    shares_inv = v.shares_inv;
    clients_inv = v.clients_inv;
    client_queues = update-fits ClientFits s.client_at c x f v.client_queues;
    peer_queues = v.peer_queues;
  };
  on_peer = λ {s} p x f v. record {
    sessions_inv = v.sessions_inv;
    pending_inv = v.pending_inv;
    shares_inv = v.shares_inv;
    clients_inv = v.clients_inv;
    client_queues = v.client_queues;
    peer_queues = update-fits PeerFits s.peer_at p x f v.peer_queues;
  };
  on_delete_session = λ {s} k v. record {
    sessions_inv = (
      Entries-delete SessionOk k s.sessions v.sessions_inv.0,
      delete-IsUnique k s.sessions v.sessions_inv.1,
    );
    pending_inv = v.pending_inv;
    shares_inv = v.shares_inv;
    clients_inv = v.clients_inv;
    client_queues = v.client_queues;
    peer_queues = v.peer_queues;
  };
  on_touch = λ {s} k x now e v. record {
    sessions_inv = insert_session s.sessions k _ (v.sessions_inv.0 k x e) v.sessions_inv;
    pending_inv = v.pending_inv;
    shares_inv = v.shares_inv;
    clients_inv = v.clients_inv;
    client_queues = v.client_queues;
    peer_queues = v.peer_queues;
  };
  on_create = λ {s} x h may v. record {
    sessions_inv = insert_session s.sessions x.id x h v.sessions_inv;
    pending_inv = v.pending_inv;
    shares_inv = v.shares_inv;
    clients_inv = v.clients_inv;
    client_queues = v.client_queues;
    peer_queues = v.peer_queues;
  };
  on_pending = λ m h u v. record {
    sessions_inv = v.sessions_inv;
    pending_inv = (h v.pending_inv.0, u v.pending_inv.1);
    shares_inv = v.shares_inv;
    clients_inv = v.clients_inv;
    client_queues = v.client_queues;
    peer_queues = v.peer_queues;
  };
  on_shares = λ m h u v. record {
    sessions_inv = v.sessions_inv;
    pending_inv = v.pending_inv;
    shares_inv = (h v.shares_inv.0, u v.shares_inv.1);
    clients_inv = v.clients_inv;
    client_queues = v.client_queues;
    peer_queues = v.peer_queues;
  };
  on_clients = λ m h u v. record {
    sessions_inv = v.sessions_inv;
    pending_inv = v.pending_inv;
    shares_inv = v.shares_inv;
    clients_inv = (h v.clients_inv.0, u v.clients_inv.1);
    client_queues = v.client_queues;
    peer_queues = v.peer_queues;
  };
  on_web_peers = λ m v. record {
    sessions_inv = v.sessions_inv;
    pending_inv = v.pending_inv;
    shares_inv = v.shares_inv;
    clients_inv = v.clients_inv;
    client_queues = v.client_queues;
    peer_queues = v.peer_queues;
  };
}

new_server-Inv :
    (cfg : RelayConfig) (client_at : ℕ → Client) (peer_at : ℕ → WebPeer)
    → ((c : ℕ) → ClientFits (client_at c))
    → ((p : ℕ) → PeerFits (peer_at p))
    → Inv (new_server cfg client_at peer_at)
unfolding new_server lookup
new_server-Inv cfg client_at peer_at h k = record {
  sessions_inv = (λ k x e. cc, tt);
  pending_inv = (λ k x e. cc, tt);
  shares_inv = (λ k x e. cc, tt);
  clients_inv = (λ h. omega arith, tt);
  client_queues = h;
  peer_queues = k;
}

module _ (share_url : String → String) (render : Error → String) (size : Option Json → ℕ) where
  any_step : {s t : Server} (step : Step share_url render size s t) → MayStep AnySession step
  any_step (accept env c writable picks_send fresh) = tt
  any_step (read env c none) = tt
  any_step (read env c (some msg)) = λ confirm payload named decoded agreed. tt
  any_step (write timers env c) = tt
  any_step (reap env) = tt
  any_step (browse env token) = tt
  any_step (visit env token share p picks_send found fresh) = tt
  any_step (read_web env p msg) = tt
  any_step (write_web p writable) = tt
  any_step (drift c writable picks_send) = tt
  any_step (drift_web p picks_send) = tt

  Reach-Inv : {s t : Server} → Reach share_url render size s t → Inv s → Inv t
  Reach-Inv here v = v
  Reach-Inv (next r step) v =
      Step-Stable Inv-Stable share_url render size step (any_step step) (Reach-Inv r v)

  -- At any time after the start of a relay whose queues fit, whatever its clients, visitors, clocks
  -- and networks do: each session stands under its own name, has one of the two modes and allows
  -- input only in the mode "view-control"; each pending request has one of the two modes; each share
  -- stands under its token, has one of the two modes, belongs to a named device and lives from a
  -- minute to a week; no map of sessions, requests, shares or clients has a key twice; no more
  -- clients are registered than configured; and no queue exceeds its capacity.
  pub relay-Inv :
      (cfg : RelayConfig) (client_at : ℕ → Client) (peer_at : ℕ → WebPeer) {t : Server}
      → ((c : ℕ) → ClientFits (client_at c))
      → ((p : ℕ) → PeerFits (peer_at p))
      → Reach share_url render size (new_server cfg client_at peer_at) t
      → Inv t
  relay-Inv cfg client_at peer_at h k r = Reach-Inv r (new_server-Inv cfg client_at peer_at h k)
