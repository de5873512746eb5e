-- ===== src/Relay/Stable/Dispatch.antt =====
-- The dispatch of messages, and so every step of the relay, keeps every stable property.
use beacon_desk.Prelude.{
  ℕ, ◌≤◌, ◌≡◌, String, Bool, true, Option, none, some, List, [], ◌∷◌, arith, length, option_rule,
  ◌==◌,
}
use beacon_desk.Protocol.Types.{
  type_device_register, type_auth_code_publish, type_web_share_create, type_web_share_list,
  type_web_share_revoke, type_heartbeat_ping, type_heartbeat_pong, type_session_request,
  type_session_confirm, type_stream_frame, type_stream_control, type_input_mouse,
  type_input_keyboard, type_telemetry_stats, type_session_close,
}
use beacon_desk.Protocol.Json.{Json}
use beacon_desk.Protocol.Message.{Envelope}
use beacon_desk.Relay.Limiter.{Timers, WaitResult, granted, cancelled, unfinished}
use beacon_desk.Relay.State.{Client, WebShare, Session, Server, Env, Error, set_client}
use beacon_desk.Relay.Client.{conn_write, new_client}
use beacon_desk.Relay.Server.{handle_session_close, forward_session_message, forward_input_message}
use beacon_desk.Relay.WebPeer.{new_web_peer, write_web_queued, write_web_peer}
use beacon_desk.Relay.Dispatch.{
  handle_message, read_client, touch_stats, write_message, send_limited, write_queued, write_client,
}
use beacon_desk.Relay.Steps.{
  Step, accept, read, write, reap, browse, visit, read_web, write_web, drift, drift_web,
}
use beacon_desk.Relay.Kept.{Kept, Kept-pair, Kept-if}
use beacon_desk.Relay.Stable.{Stable, ClientFits, PeerFits}
use beacon_desk.Relay.Stable.Hub.{send_client-Stable, conn_write-Stable, close_client-Stable}
use beacon_desk.Relay.Stable.Handlers.{
  handle_register-Stable, handle_auth_code_publish-Stable, handle_ping-Stable,
  handle_session_request-Stable, handle_session_confirm-Stable, forward_session_message-Stable,
  forward_stream_control_message-Stable, forward_input_message-Stable, close_session-Stable,
  MayConfirm, close_idle_clients-Stable,
}
use beacon_desk.Relay.Stable.Web.{
  handle_web_share_create-Stable, handle_web_share_list-Stable, handle_web_share_revoke-Stable,
  get_active_web_share-Stable, start_web_peer-Stable, read_web_peer-Stable,
}

-- What a round of the read loop may create.
abbrev pub MayRead : (Session → Type 0) → Server → Env → ℕ → Option Envelope → Type 0
MayRead May s env c none = Unit
MayRead May s env c (some msg) =
    (msg.type == type_session_confirm) ≡ true
    → MayConfirm May (set_client s c (touch_stats (s.client_at c) env)) env c msg

module _ {ℓ} {P : Server → Type ℓ} {May : Session → Type 0} (S : Stable P May) where
  pub handle_message-Stable :
      (share_url : String → String) {s : Server} (env : Env) (c : ℕ) (msg : Envelope)
      → ((msg.type == type_session_confirm) ≡ true → MayConfirm May s env c msg)
      → P s
      → Kept P (handle_message share_url s env c msg)
  unfolding handle_message handle_session_close
  handle_message-Stable share_url {s} env c msg may v =
      let forwarded : Kept P (forward_session_message s env c msg) =
        forward_session_message-Stable S env c msg v in
      let input : Kept P (forward_input_message s env c msg) =
        forward_input_message-Stable S env c msg v in
      Kept-if (msg.type == type_device_register) _ _ (λ _. handle_register-Stable S env c msg v)
        (λ _.
          Kept-if (msg.type == type_auth_code_publish) _ _
            (λ _. handle_auth_code_publish-Stable S env c msg v)
            (λ _.
              Kept-if (msg.type == type_web_share_create) _ _
                (λ _. handle_web_share_create-Stable S share_url env c msg v)
                (λ _.
                  Kept-if (msg.type == type_web_share_list) _ _
                    (λ _. handle_web_share_list-Stable S share_url env c v)
                    (λ _.
                      Kept-if (msg.type == type_web_share_revoke) _ _
                        (λ _. handle_web_share_revoke-Stable S env c msg v)
                        (λ _.
                          Kept-if (msg.type == type_heartbeat_ping) _ _
                            (λ _. handle_ping-Stable S env c msg v)
                            (λ _.
                              Kept-if (msg.type == type_heartbeat_pong) _ _ (λ _. Kept-pair _ v)
                                (λ _.
                                  Kept-if (msg.type == type_session_request) _ _
                                    (λ _. handle_session_request-Stable S env c msg v)
                                    (λ _.
                                      Kept-if (msg.type == type_session_confirm) _ _
                                        (λ confirm.
                                          handle_session_confirm-Stable S env c msg (may confirm) v)
                                        (λ _.
                                          Kept-if (msg.type == type_stream_frame) _ _
                                            (λ _. forwarded)
                                            (λ _.
                                              Kept-if (msg.type == type_stream_control) _ _
                                                (λ _.
                                                  forward_stream_control_message-Stable S env c msg
                                                    v)
                                                (λ _.
                                                  Kept-if (msg.type == type_input_mouse) _ _
                                                    (λ _. input)
                                                    (λ _.
                                                      Kept-if (msg.type == type_input_keyboard) _ _
                                                        (λ _. input)
                                                        (λ _.
                                                          Kept-if (msg.type == type_telemetry_stats)
                                                            _ _ (λ _. forwarded)
                                                            (λ _.
                                                            Kept-if (msg.type == type_session_close)
                                                            _ _
                                                            (λ _.
                                                            close_session-Stable S env
                                                            msg.session_id "closed by peer" v)
                                                            (λ _. Kept-pair _ v)))))))))))))))

  pub read_client-Stable :
      (share_url : String → String) (render : Error → String) {s : Server} (env : Env) (c : ℕ)
      (msg : Option Envelope)
      → MayRead May s env c msg
      → P s
      → P (read_client share_url render s env c msg)
  unfolding read_client
  read_client-Stable share_url render env c none may v = close_client-Stable S env c v
  read_client-Stable share_url render {s} env c (some msg) may v =
      let touched = set_client s c (touch_stats (s.client_at c) env) in
      let handled : P (handle_message share_url touched env c msg).0 =
        (handle_message-Stable share_url env c msg may (S.on_client c _ (λ h. h) v)).at in
      option_rule P (handle_message share_url touched env c msg).1 _ _ (λ _. handled)
        (λ e _. send_client-Stable S c _ handled)

  write_message-Stable :
      {s : Server} (env : Env) (c : ℕ) (msg : Envelope) → P s → P (write_message s env c msg).0
  unfolding write_message
  write_message-Stable {s} env c msg v =
      let written : P (conn_write s c msg).0 = (conn_write-Stable S c msg v).at in
      option_rule Left (conn_write s c msg).1 _ _ (λ _. written)
        (λ e _. close_client-Stable S env c written)
    where
      Left : Server × Bool → Type ℓ
      Left r = P r.0

  -- A client may lose the head of its queue.
  shorten-Stable :
      {s : Server} (c : ℕ) (x : Client)
      → length x.send ≤ length (s.client_at c).send
      → P s
      → P (set_client s c x)
  shorten-Stable c x h v = S.on_client c x (λ fits. omega arith) v

  send_limited-Stable :
      {s : Server} (env : Env) (c : ℕ) (msg : Envelope) (rest : List Envelope) (r : WaitResult)
      → length rest ≤ length (s.client_at c).send
      → P s
      → P (send_limited s env c msg rest r).0
  unfolding send_limited
  send_limited-Stable env c msg rest (granted limiter now) h v =
      write_message-Stable (record env { now = now }) c msg (shorten-Stable c _ h v)
  send_limited-Stable env c msg rest (cancelled limiter) h v = shorten-Stable c _ h v
  send_limited-Stable env c msg rest unfinished h v = v

  write_queued-Stable :
      (timers : Timers) (size : Option Json → ℕ) {s : Server} (env : Env) (c : ℕ)
      (q : List Envelope)
      → length q ≤ length (s.client_at c).send
      → P s
      → P (write_queued timers size s env c q).0
  unfolding write_queued
  write_queued-Stable timers size env c [] h v = v
  write_queued-Stable timers size env c (msg ∷ rest) h v =
      send_limited-Stable env c msg rest _ (omega arith) v

  write_client-Stable :
      (timers : Timers) (size : Option Json → ℕ) {s : Server} (env : Env) (c : ℕ)
      → P s
      → P (write_client timers size s env c).0
  unfolding write_client
  write_client-Stable timers size {s} env c v =
      write_queued-Stable timers size env c (s.client_at c).send (omega arith) v

  write_web_queued-Stable :
      {s : Server} (p : ℕ) (writable : Bool) (q : List Envelope)
      → length q ≤ length (s.peer_at p).send
      → P s
      → P (write_web_queued s p writable q).0
  unfolding write_web_queued
  write_web_queued-Stable p writable [] h v = v
  write_web_queued-Stable p writable (msg ∷ rest) h v = S.on_peer p _ (λ fits. omega arith) v

  write_web_peer-Stable :
      {s : Server} (p : ℕ) (writable : Bool) → P s → P (write_web_peer s p writable).0
  unfolding write_web_peer
  write_web_peer-Stable {s} p writable v =
      write_web_queued-Stable p writable (s.peer_at p).send (omega arith) v

new_client-fits :
    (s : Server) (env : Env) (writable picks_send : Bool)
    → ClientFits (new_client s env writable picks_send)
unfolding new_client
new_client-fits s env writable picks_send = omega arith

new_web_peer-fits :
    (env : Env) (picks_send : Bool) (share : WebShare)
    → PeerFits (new_web_peer env picks_send share)
unfolding new_web_peer
new_web_peer-fits env picks_send share = omega arith

-- What a step may create: only a client's message creates sessions.
abbrev pub MayStep :
    (Session → Type 0)
    → {share_url : String → String} {render : Error → String} {size : Option Json → ℕ}
      {s t : Server}
    → Step share_url render size s t
    → Type 0
MayStep May {s = s} (read env c msg) = MayRead May s env c msg
MayStep May _ = Unit

module _ {ℓ} {P : Server → Type ℓ} {May : Session → Type 0} (S : Stable P May)
    (share_url : String → String) (render : Error → String) (size : Option Json → ℕ) where
  -- Every step of the relay keeps every stable property, if what it creates may be created.
  pub Step-Stable :
      {s t : Server} (step : Step share_url render size s t) → MayStep May step → P s → P t
  Step-Stable {s} (accept env c writable picks_send fresh) may v =
      S.on_client c _ (λ _. new_client-fits s env writable picks_send) v
  Step-Stable (read env c msg) may v = read_client-Stable S share_url render env c msg may v
  Step-Stable (write timers env c) may v = write_client-Stable S timers size env c v
  Step-Stable (reap env) may v = close_idle_clients-Stable S env _ v
  Step-Stable (browse env token) may v = get_active_web_share-Stable S env token v
  Step-Stable {s} (visit env token share p picks_send found fresh) may v =
      start_web_peer-Stable S render env p (
        S.on_peer p _ (λ _. new_web_peer-fits env picks_send share)
          (get_active_web_share-Stable S env token v))
  Step-Stable (read_web env p msg) may v = read_web_peer-Stable S render env p msg v
  Step-Stable (write_web p writable) may v = write_web_peer-Stable S p writable v
  Step-Stable (drift c writable picks_send) may v = S.on_client c _ (λ h. h) v
  Step-Stable (drift_web p picks_send) may v = S.on_peer p _ (λ h. h) v
