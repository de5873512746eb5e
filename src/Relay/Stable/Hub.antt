-- ===== src/Relay/Stable/Hub.antt =====
-- The operations of client.go and hub.go keep every stable property.
use beacon_desk.Prelude.{
  ℕ, ◌≤◌, ◌≡◌, refl, String, false, ◌&&◌, Option, none, some, [], ◌∷◌, length, length-append, arith,
  ltb, ◌=ℕ◌, ◌==◌, inl, inr, Option-cases, if_rule, option_rule, subst, sym, ap, ◌∙◌, leb,
}
use beacon_desk.Maps.{
  Map, lookup, insert, Entries, IsUnique, Entries-delete, Entries-insert, Entries-delete_where,
  delete-IsUnique, insert-IsUnique, delete_where-IsUnique, length-delete-le, length-insert-le,
}
use beacon_desk.Protocol.Types.{normalize_session_mode-IsMode}
use beacon_desk.Protocol.Message.{Envelope}
use beacon_desk.Relay.State.{Client, WebPeer, Session, WebShare, Server, Env}
use beacon_desk.Relay.Client.{
  try_send, try_send_web, send_client, send_peer, conn_write, send_or_error, send_web_or_error,
  send_to_peer, get_client, get_web_peer,
}
use beacon_desk.Relay.Hub.{
  notify_controller, notify_session_closed, close_sessions_of, drop_pending_of, revoke_shares_of,
  revoke_share, forget_client, is_client, unregister, close_client, register, store_pending_request,
  consume_pending_request, touch_session, unregister_web_peer, close_web_peer, request_names,
  session_names,
}
use beacon_desk.Relay.Kept.{Kept, Kept-pair, Kept-if, Kept-option}
use beacon_desk.Relay.Stable.{Stable, ClientFits, PeerFits, RequestOk, ShareOk, client_limit}

try_send-fits : (x : Client) (msg : Envelope) → ClientFits x → ClientFits (try_send x msg).0
unfolding try_send
try_send-fits x msg h = ground (arith, length-append x.send (msg ∷ []))

try_send_web-fits : (x : WebPeer) (msg : Envelope) → PeerFits x → PeerFits (try_send_web x msg).0
unfolding try_send_web
try_send_web-fits x msg h = ground (arith, length-append x.send (msg ∷ []))

abbrev pub revoked_entry : String → ℕ → Option WebShare → Option WebShare
revoked_entry device now none = none
revoked_entry device now (some share) = some (revoke_share device now share)

pub lookup-revoke_shares_of :
    (device : String) (now : ℕ) (k : String) (m : Map WebShare)
    → lookup k (revoke_shares_of device now m) ≡ revoked_entry device now (lookup k m)
unfolding lookup revoke_shares_of
lookup-revoke_shares_of device now k [] = refl
lookup-revoke_shares_of device now k ((j, x) ∷ m) =
    ground (arith, lookup-revoke_shares_of device now k m)

revoke_shares_of-IsUnique :
    (device : String) (now : ℕ) (m : Map WebShare)
    → IsUnique m
    → IsUnique (revoke_shares_of device now m)
unfolding revoke_shares_of
revoke_shares_of-IsUnique device now [] u = tt
revoke_shares_of-IsUnique device now ((j, x) ∷ m) u = (
  rw (lookup-revoke_shares_of device now j m, u.0) refl,
  revoke_shares_of-IsUnique device now m u.1,
)

revoke_share-ShareOk :
    (device : String) (now : ℕ) (k : String) (x : WebShare)
    → ShareOk k x
    → ShareOk k (revoke_share device now x)
revoke_share-ShareOk device now k x h =
    if_rule (ShareOk k) (x.controlled_id == device) _ _ (λ _. h) (λ _. h)

some-injective' {ℓ} : {A : Type ℓ} {x y : A} → some x ≡ some y → x ≡ y
some-injective' e = cc

revoke_shares_of-ShareOk :
    (device : String) (now : ℕ) (m : Map WebShare)
    → Entries ShareOk m
    → Entries ShareOk (revoke_shares_of device now m)
revoke_shares_of-ShareOk device now m h k y e = elim (Option-cases (lookup k m)) [
  | inl n ↦ cc (lookup-revoke_shares_of device now k m)
  | inr (x, p) ↦
      let same : some (revoke_share device now x) ≡ some y =
        ap (revoked_entry device now) (sym p) ∙ sym (lookup-revoke_shares_of device now k m) ∙ e in
      subst (ShareOk k) {x = revoke_share device now x} {y = y} (some-injective' same)
        (revoke_share-ShareOk device now k x (h k x p))
]

module _ {ℓ} {P : Server → Type ℓ} {May : Session → Type 0} (S : Stable P May) where
  pub send_client-Stable : {s : Server} (c : ℕ) (msg : Envelope) → P s → P (send_client s c msg)
  unfolding send_client
  send_client-Stable {s} c msg v = S.on_client c _ (try_send-fits (s.client_at c) msg) v

  pub send_peer-Stable : {s : Server} (p : ℕ) (msg : Envelope) → P s → P (send_peer s p msg)
  unfolding send_peer
  send_peer-Stable {s} p msg v = S.on_peer p _ (try_send_web-fits (s.peer_at p) msg) v

  pub conn_write-Stable : {s : Server} (c : ℕ) (msg : Envelope) → P s → Kept P (conn_write s c msg)
  unfolding conn_write
  conn_write-Stable {s} c msg v =
      Kept-if (s.client_at c).writable _ _ (λ _. Kept-pair none (S.on_client c _ (λ h. h) v))
        (λ _. Kept-pair _ v)

  pub send_or_error-Stable :
      {s : Server} (c : ℕ) (msg : Envelope) → P s → Kept P (send_or_error s c msg)
  unfolding send_or_error
  send_or_error-Stable {s} c msg v = record { at = send_client-Stable c msg v }

  pub send_web_or_error-Stable :
      {s : Server} (p : ℕ) (msg : Envelope) → P s → Kept P (send_web_or_error s p msg)
  unfolding send_web_or_error
  send_web_or_error-Stable p msg v = record { at = send_peer-Stable p msg v }

  pub send_to_peer-Stable :
      {s : Server} (id : String) (msg : Envelope) → P s → Kept P (send_to_peer s id msg)
  unfolding send_to_peer
  send_to_peer-Stable {s} id msg v =
      Kept-option (get_client s id) _ _
        (λ _.
          Kept-option (get_web_peer s id) _ _ (λ _. Kept-pair _ v)
            (λ p _. send_web_or_error-Stable p msg v))
        (λ c _. send_or_error-Stable c msg v)

  notify_controller-Stable :
      {s : Server} (env : Env) (session : Session) (reason : String)
      → P s
      → P (notify_controller s env session reason)
  unfolding notify_controller
  notify_controller-Stable {s} env session reason v =
      option_rule P (lookup session.controller_id s.clients) _ _
        (λ _.
          option_rule P (lookup session.controller_id s.web_peers) _ _ (λ _. v)
            (λ p _. send_peer-Stable p _ v))
        (λ c _. send_client-Stable c _ v)

  pub notify_session_closed-Stable :
      {s : Server} (env : Env) (session : Session) (reason : String)
      → P s
      → P (notify_session_closed s env session reason)
  unfolding notify_session_closed
  notify_session_closed-Stable {s} env session reason v =
      let told : P (notify_controller s env session reason) =
        notify_controller-Stable env session reason v in
      option_rule P (lookup session.controlled_id s.clients) _ _ (λ _. told)
        (λ c _. send_client-Stable c _ told)

  pub close_sessions_of-Stable :
      (peer reason : String) (env : Env) (l : Map Session) {s : Server}
      → P s
      → P (close_sessions_of peer reason env l s)
  unfolding close_sessions_of
  close_sessions_of-Stable peer reason env [] v = v
  close_sessions_of-Stable peer reason env ((id, session) ∷ l) v =
      close_sessions_of-Stable peer reason env l (
        if_rule P (session_names peer session) _ _
          (λ _. notify_session_closed-Stable env session reason (S.on_delete_session id v))
          (λ _. v))

  pub drop_pending_of-Stable : {s : Server} (peer : String) → P s → P (drop_pending_of peer s)
  unfolding drop_pending_of
  drop_pending_of-Stable {s} peer v =
      S.on_pending _ (Entries-delete_where RequestOk (request_names peer) s.pending s.pending)
        (delete_where-IsUnique (request_names peer) s.pending s.pending) v

  forget_client-Stable :
      {s : Server} (device : String) (c : ℕ)
      → P s
      → P (record s { clients = forget_client device c s.clients })
  forget_client-Stable {s} device c v =
      let here = is_client (lookup device s.clients) c in
      S.on_clients _
        (λ b h.
          if_rule (λ (m : Map ℕ). length m ≤ client_limit s.cfg) here _ _
            (λ _. omega (arith, length-delete-le device s.clients, b h)) (λ _. b h))
        (λ u. if_rule IsUnique here _ _ (λ _. delete-IsUnique device s.clients u) (λ _. u)) v

  pub unregister-Stable : {s : Server} (env : Env) (c : ℕ) → P s → P (unregister s env c)
  unfolding unregister
  unregister-Stable {s} env c v =
      let device = (s.client_at c).device_id in
      if_rule P (device == "") _ _ (λ _. v)
        (λ _.
          S.on_shares _ (revoke_shares_of-ShareOk device env.now _)
            (revoke_shares_of-IsUnique device env.now _)
            (drop_pending_of-Stable device (
              close_sessions_of-Stable device "peer disconnected" env s.sessions
                (forget_client-Stable device c v))))

  pub close_client-Stable : {s : Server} (env : Env) (c : ℕ) → P s → P (close_client s env c)
  unfolding close_client
  close_client-Stable {s} env c v =
      if_rule P (s.client_at c).closed _ _ (λ _. v)
        (λ _. unregister-Stable env c (S.on_client c _ (λ h. h) v))

  pub unregister_web_peer-Stable :
      {s : Server} (env : Env) (p : ℕ) → P s → P (unregister_web_peer s env p)
  unfolding unregister_web_peer
  unregister_web_peer-Stable {s} env p v = drop_pending_of-Stable (s.peer_at p).id (
      close_sessions_of-Stable (s.peer_at p).id "web peer disconnected" env s.sessions
        (S.on_web_peers _ v))

  pub close_web_peer-Stable : {s : Server} (env : Env) (p : ℕ) → P s → P (close_web_peer s env p)
  unfolding close_web_peer
  close_web_peer-Stable {s} env p v =
      if_rule P (s.peer_at p).closed _ _ (λ _. v)
        (λ _. unregister_web_peer-Stable env p (S.on_peer p _ (λ h. h) v))

  -- A new entry keeps the limit, since a full map refuses it.
  insert_client-Stable :
      {s : Server} (device : String) (c : ℕ)
      → (ltb 0 (client_limit s.cfg) && leb (client_limit s.cfg) (length s.clients)) ≡ false
      → P s
      → P (record s { clients = insert device c s.clients })
  insert_client-Stable {s} device c room v =
      S.on_clients _ (λ b h. ground (arith, length-insert-le device c s.clients))
        (insert-IsUnique device c s.clients) v

  pub register-Stable : {s : Server} (env : Env) (c : ℕ) → P s → Kept P (register s env c)
  unfolding register
  register-Stable {s} env c v =
      let device = (s.client_at c).device_id in
      Kept-if (device == "") _ _ (λ _. Kept-pair _ v)
        (λ _.
          Kept-if (ltb 0 (client_limit s.cfg) && leb (client_limit s.cfg) (length s.clients)) _ _
            (λ _. Kept-pair _ v)
            (λ room.
              Kept-option (lookup device s.clients) _ _
                (λ _. Kept-pair _ (insert_client-Stable device c room v))
                (λ old _. Kept-pair _ (
                  if_rule P (old =ℕ c) _ _ (λ _. insert_client-Stable device c room v)
                    (λ _. close_client-Stable env old (insert_client-Stable device c room v))))))

  pub store_pending_request-Stable :
      {s : Server} (env : Env) (a b mode : String) → P s → P (store_pending_request s env a b mode)
  unfolding store_pending_request
  store_pending_request-Stable {s} env a b mode v =
      S.on_pending _ (Entries-insert RequestOk _ _ s.pending (normalize_session_mode-IsMode mode))
        (insert-IsUnique _ _ s.pending) v

  pub consume_pending_request-Stable :
      {s : Server} (a b : String) → P s → P (consume_pending_request s a b).0
  unfolding consume_pending_request
  consume_pending_request-Stable {s} a b v =
      S.on_pending _ (Entries-delete RequestOk _ s.pending) (delete-IsUnique _ s.pending) v

  pub touch_session-Stable :
      {s : Server} (env : Env) (id : String) → P s → P (touch_session s env id)
  unfolding touch_session
  touch_session-Stable {s} env id v =
      option_rule P (lookup id s.sessions) _ _ (λ _. v)
        (λ session e. S.on_touch id session env.now e v)
