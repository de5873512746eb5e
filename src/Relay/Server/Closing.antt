-- ===== src/Relay/Server/Closing.antt =====
-- server.go: sessions that are closed, and clients that are silent.
use beacon_desk.Prelude.{ℕ, ◌*◌, String, none, some, List, [], ◌∷◌, ◌==◌, if◌then◌else◌}
use beacon_desk.Prelude.Int.{ℤ, pos, ltb_ℤ, sub_ℕ}
use beacon_desk.Config.{second}
use beacon_desk.Maps.{Map, lookup, delete}
use beacon_desk.Protocol.Message.{Envelope}
use beacon_desk.Relay.State.{Client, Session, Server, Env, Outcome, session_id_required}
use beacon_desk.Relay.Hub.{notify_session_closed, close_client}

-- `handleSessionClose` and `handleWebSessionClose` differ in the reason that they give.
unfoldable pub close_session : Server → Env → String → String → Outcome
unfolding notify_session_closed
close_session s env session_id reason =
    let closed = λ (session : Session).
      notify_session_closed (record s { sessions = delete session_id s.sessions }) env session
        reason in
    if session_id == ""
    then (s, some session_id_required)
    else elim (lookup session_id s.sessions) [
      | none ↦ (s, none)
      | some session ↦ (closed session, none)
    ]

unfoldable pub handle_session_close : Server → Env → ℕ → Envelope → Outcome
unfolding close_session
handle_session_close s env c msg = close_session s env msg.session_id "closed by peer"

-- The clients of the map that have been silent for longer than the timeout.
unfoldable pub stale_clients : (ℕ → Client) → ℕ → ℤ → Map ℕ → List ℕ
stale_clients client_at now timeout [] = []
stale_clients client_at now timeout ((id, c) ∷ rest) =
    let others = stale_clients client_at now timeout rest in
    if ltb_ℤ timeout (sub_ℕ now ((client_at c).last_message_at * 1_000_000))
    then c ∷ others
    else others

unfoldable pub close_all : Server → Env → List ℕ → Server
unfolding close_client
close_all s env [] = s
close_all s env (c ∷ cs) = close_all (close_client s env c) env cs

unfoldable pub close_idle_clients : Server → Env → ℤ → Server
unfolding stale_clients close_all
close_idle_clients s env timeout =
    close_all s env (stale_clients s.client_at env.now timeout s.clients)

-- The timeout of `reaperLoop`.
unfoldable pub reaper_timeout : ℤ → ℤ
reaper_timeout heartbeat_timeout =
    if ltb_ℤ (pos 0) heartbeat_timeout then heartbeat_timeout else pos (45 * second)
