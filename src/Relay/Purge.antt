-- ===== src/Relay/Purge.antt =====
-- hub.go and webpeer.go: what is left in the maps when a peer goes, and what a registration does.
use beacon_desk.Prelude.{
  ℕ, ◌≡◌, ◌≢◌, refl, sym, ap, ◌∙◌, String, ◌&&◌, none, some, [], ◌∷◌, ◌==◌, eq_iff, eq_refl, arith,
  if◌then◌else◌, if_rule, Option-cases, inl, inr,
}
use beacon_desk.Maps.{
  Map, lookup, delete, delete_where, keep_unless, IsUnique, lookup-delete, lookup-delete_where_self,
}
use beacon_desk.Relay.State.{Session, Server, Env}
use beacon_desk.Relay.Client.{send_client, send_peer}
use beacon_desk.Relay.Hub.{
  notify_controller, notify_session_closed, session_names, request_names, close_sessions_of,
  drop_pending_of, is_client, forget_client, unregister, unregister_web_peer,
}
use beacon_desk.Relay.Stable.Hub.{revoked_entry, lookup-revoke_shares_of}

-- Two servers with the same maps, but perhaps for the sessions.
record SameMaps (s t : Server) : Type 0 where
  same_clients : t.clients ≡ s.clients
  same_web_peers : t.web_peers ≡ s.web_peers
  same_pending : t.pending ≡ s.pending
  same_shares : t.shares ≡ s.shares

notify_session_closed-sessions :
    (s : Server) (env : Env) (x : Session) (reason : String)
    → (notify_session_closed s env x reason).sessions ≡ s.sessions
unfolding notify_session_closed notify_controller send_client send_peer
notify_session_closed-sessions s env x reason = ground arith

notify_session_closed-SameMaps :
    (s : Server) (env : Env) (x : Session) (reason : String)
    → SameMaps s (notify_session_closed s env x reason)
unfolding notify_session_closed notify_controller send_client send_peer
notify_session_closed-SameMaps s env x reason = record {
  same_clients = ground arith;
  same_web_peers = ground arith;
  same_pending = ground arith;
  same_shares = ground arith;
}

close_sessions_of-sessions :
    (peer reason : String) (env : Env) (l : Map Session) (s : Server)
    → (close_sessions_of peer reason env l s).sessions
      ≡ delete_where (session_names peer) l s.sessions
unfolding close_sessions_of delete_where
close_sessions_of-sessions peer reason env [] s = refl
close_sessions_of-sessions peer reason env ((id, x) ∷ rest) s =
    let told = notify_session_closed (record s { sessions = delete id s.sessions }) env x reason in
    close_sessions_of-sessions peer reason env rest (if session_names peer x then told else s)
    ∙ ap (λ m. delete_where (session_names peer) rest m)
        (ground (
          arith,
          notify_session_closed-sessions (record s { sessions = delete id s.sessions }) env x
              reason,
        ))

SameMaps-trans : {s t u : Server} → SameMaps s t → SameMaps t u → SameMaps s u
SameMaps-trans h k = record {
  same_clients = k.same_clients ∙ h.same_clients;
  same_web_peers = k.same_web_peers ∙ h.same_web_peers;
  same_pending = k.same_pending ∙ h.same_pending;
  same_shares = k.same_shares ∙ h.same_shares;
}

SameMaps-refl : (s : Server) → SameMaps s s
SameMaps-refl s = record {
  same_clients = refl;
  same_web_peers = refl;
  same_pending = refl;
  same_shares = refl;
}

close_sessions_of-SameMaps :
    (peer reason : String) (env : Env) (l : Map Session) (s : Server)
    → SameMaps s (close_sessions_of peer reason env l s)
unfolding close_sessions_of
close_sessions_of-SameMaps peer reason env [] s = SameMaps-refl s
close_sessions_of-SameMaps peer reason env ((id, x) ∷ rest) s =
    let s' = record s { sessions = delete id s.sessions } in
    let told = notify_session_closed s' env x reason in
    let same = notify_session_closed-SameMaps s' env x reason in
    SameMaps-trans {s = s}
      (if_rule (SameMaps s) (session_names peer x) told s
        (λ _. record {
          same_clients = same.same_clients;
          same_web_peers = same.same_web_peers;
          same_pending = same.same_pending;
          same_shares = same.same_shares;
        })
        (λ _. SameMaps-refl s))
      (close_sessions_of-SameMaps peer reason env rest (if session_names peer x then told else s))

lookup-forget_client :
    (device k : String) (c : ℕ) (m : Map ℕ)
    → lookup k (forget_client device c m)
      ≡ (if device == k && is_client (lookup device m) c then none else lookup k m)
lookup-forget_client device k c m = elim (Option-cases (lookup device m)) [
  | inl h ↦ ground (arith, lookup-delete device k m)
  | inr (d, h) ↦ ground (arith, lookup-delete device k m)
]

forget_client-gone :
    (device : String) (c : ℕ) (m : Map ℕ) → lookup device (forget_client device c m) ≢ some c
forget_client-gone device c m e = elim (Option-cases (lookup device m)) [
  | inl h ↦ ground (arith, lookup-delete device device m, eq_refl device)
  | inr (d, h) ↦ ground (arith, lookup-delete device device m, eq_refl device)
]

-- What is left of the maps once a device has gone.
pub record Purged (s t : Server) (env : Env) (device : String) (c : ℕ) : Type 0 where
  pub sessions_left :
      (k : String) → lookup k t.sessions ≡ keep_unless (session_names device) (lookup k s.sessions)
  pub pending_left :
      (k : String) → lookup k t.pending ≡ keep_unless (request_names device) (lookup k s.pending)
  pub shares_left :
      (k : String) → lookup k t.shares ≡ revoked_entry device env.now (lookup k s.shares)
  pub clients_left :
      (k : String)
      → lookup k t.clients ≡ (
          if device == k && is_client (lookup device s.clients) c then none else lookup k s.clients)
  pub web_peers_left : t.web_peers ≡ s.web_peers

-- When a registered client goes, where no key stands twice: exactly the sessions and the pending
-- requests that name its device are gone; exactly the device's shares are revoked, as of now; from
-- the map of clients its device is gone if the map has led to this client, and nothing else; and the
-- map of web peers is as before.
pub unregister-Purged :
    (s : Server) (env : Env) (c : ℕ)
    → (s.client_at c).device_id ≢ ""
    → IsUnique s.sessions
    → IsUnique s.pending
    → Purged s (unregister s env c) env (s.client_at c).device_id c
unfolding unregister drop_pending_of
unregister-Purged s env c named u v =
    let device = (s.client_at c).device_id in
    let s1 = record s { clients = forget_client device c s.clients } in
    let same = close_sessions_of-SameMaps device "peer disconnected" env s1.sessions s1 in
    let s2 = close_sessions_of device "peer disconnected" env s1.sessions s1 in
    if_rule (λ t. Purged s t env device c) (device == "") _ _
      (λ e. absurd (named ((eq_iff device "").0 e)))
      (λ _. record {
        sessions_left = λ k.
            ap (lookup k) (close_sessions_of-sessions device "peer disconnected" env s1.sessions s1)
            ∙ lookup-delete_where_self (session_names device) k s.sessions u;
        pending_left = λ k.
            ap (λ m. lookup k (delete_where (request_names device) m m)) same.same_pending
            ∙ lookup-delete_where_self (request_names device) k s.pending v;
        shares_left = λ k.
            lookup-revoke_shares_of device env.now k s2.shares
            ∙ ap (λ m. revoked_entry device env.now (lookup k m)) same.same_shares;
        clients_left =
            λ k. ap (lookup k) same.same_clients ∙ lookup-forget_client device k c s.clients;
        web_peers_left = same.same_web_peers;
      })

-- When a web peer goes, where no key stands twice: exactly the sessions and the pending requests
-- that name it are gone, its own name does not lead to it any more, and no share and no client goes.
pub unregister_web_peer-purges :
    (s : Server) (env : Env) (p : ℕ)
    → IsUnique s.sessions
    → IsUnique s.pending
    → ((k : String)
        → lookup k (unregister_web_peer s env p).sessions
          ≡ keep_unless (session_names (s.peer_at p).id) (lookup k s.sessions))
      × ((k : String)
          → lookup k (unregister_web_peer s env p).pending
            ≡ keep_unless (request_names (s.peer_at p).id) (lookup k s.pending))
      × (lookup (s.peer_at p).id (unregister_web_peer s env p).web_peers ≢ some p)
      × ((unregister_web_peer s env p).shares ≡ s.shares)
      × ((unregister_web_peer s env p).clients ≡ s.clients)
unfolding unregister_web_peer drop_pending_of
unregister_web_peer-purges s env p u v =
    let id = (s.peer_at p).id in
    let s1 = record s { web_peers = forget_client id p s.web_peers } in
    let same = close_sessions_of-SameMaps id "web peer disconnected" env s1.sessions s1 in
    (
      λ k.
          ap (lookup k) (close_sessions_of-sessions id "web peer disconnected" env s1.sessions s1)
          ∙ lookup-delete_where_self (session_names id) k s.sessions u,
      λ k.
          ap (λ m. lookup k (delete_where (request_names id) m m)) same.same_pending
          ∙ lookup-delete_where_self (request_names id) k s.pending v,
      λ e. forget_client-gone id p s.web_peers (sym (ap (lookup id) same.same_web_peers) ∙ e),
      same.same_shares,
      same.same_clients,
    )

-- When a client goes, no other client leaves the map.
pub unregister-keeps :
    (s : Server) (env : Env) (d c : ℕ) (k : String)
    → lookup k s.clients ≡ some c
    → d ≢ c
    → lookup k (unregister s env d).clients ≡ some c
unfolding unregister drop_pending_of
unregister-keeps s env d c k found other =
    let device = (s.client_at d).device_id in
    let s1 = record s { clients = forget_client device d s.clients } in
    let same = close_sessions_of-SameMaps device "peer disconnected" env s1.sessions s1 in
    if_rule (λ (t : Server). lookup k t.clients ≡ some c) (device == "") _ _ (λ _. found)
      (λ _.
        ap (lookup k) same.same_clients
        ∙ ground (arith, lookup-delete device k s.clients, eq_iff device k))
