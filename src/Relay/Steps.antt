-- ===== src/Relay/Steps.antt =====
-- The relay as a transition system: the goroutines of internal/relay, each of whose rounds is one
-- step, in any interleaving. Clocks, random names, lateness of timers and the outcome of writes are
-- the environment's choice.
use beacon_desk.Prelude.{ℕ, ◌≡◌, ◌≢◌, String, Bool, Option, some}
use beacon_desk.Maps.{lookup}
use beacon_desk.Protocol.Json.{Json}
use beacon_desk.Protocol.Message.{Envelope}
use beacon_desk.Relay.Limiter.{Timers}
use beacon_desk.Relay.State.{WebShare, Server, Env, Error, set_client, set_peer}
use beacon_desk.Relay.Client.{new_client}
use beacon_desk.Relay.Server.{close_idle_clients, reaper_timeout}
use beacon_desk.Relay.WebShare.{active, get_active_web_share}
use beacon_desk.Relay.WebPeer.{new_web_peer, start_web_peer, read_web_peer, write_web_peer}
use beacon_desk.Relay.Dispatch.{read_client, write_client}

-- No map names this connection yet.
abbrev pub IsFreshClient : Server → ℕ → Type 0
IsFreshClient s c = (id : String) → lookup id s.clients ≢ some c

abbrev pub IsFreshPeer : Server → ℕ → Type 0
IsFreshPeer s p = (id : String) → lookup id s.web_peers ≢ some p

-- `share_url`, `render` and `size` print a link, print an error, and measure a payload.
module _ (share_url : String → String) (render : Error → String) (size : Option Json → ℕ) where
  pub data Step (s : Server) : Server → Type 0 where
    -- `Serve` accepts a connection.
    accept :
        (env : Env) (c : ℕ) (writable picks_send : Bool)
        → IsFreshClient s c
        → Step s (set_client s c (new_client s env writable picks_send))
    -- A round of a client's read loop; no message stands for a failed read.
    read :
        (env : Env) (c : ℕ) (msg : Option Envelope)
        → Step s (read_client share_url render s env c msg)
    -- A round of a client's write loop.
    write : (timers : Timers) (env : Env) (c : ℕ) → Step s (write_client timers size s env c).0
    -- A tick of the reaper.
    reap : (env : Env) → Step s (close_idle_clients s env (reaper_timeout s.cfg.heartbeat_timeout))
    -- A browser asks for a share's page.
    browse : (env : Env) (token : String) → Step s (get_active_web_share s env token).0
    -- A browser connects: the share is checked, and a web peer starts.
    visit :
        (env : Env) (token : String) (share : WebShare) (p : ℕ) (picks_send : Bool)
        → (get_active_web_share s env token).1 ≡ active share
        → IsFreshPeer s p
        → Step s (
            start_web_peer render
              (set_peer (get_active_web_share s env token).0 p (new_web_peer env picks_send share))
              env
              p)
    -- A round of a web peer's loops.
    read_web :
        (env : Env) (p : ℕ) (msg : Option Envelope) → Step s (read_web_peer render s env p msg)
    write_web : (p : ℕ) (writable : Bool) → Step s (write_web_peer s p writable).0
    -- A connection gets better or worse, and the choices of `select` change.
    drift :
        (c : ℕ) (writable picks_send : Bool)
        → Step s (
            set_client s c
              (record (s.client_at c) { writable = writable; picks_send = picks_send }))
    drift_web :
        (p : ℕ) (picks_send : Bool)
        → Step s (set_peer s p (record (s.peer_at p) { picks_send = picks_send }))

  pub data Reach (s : Server) : Server → Type 0 where
    here : Reach s s
    next : {t u : Server} → Reach s t → Step t u → Reach s u
