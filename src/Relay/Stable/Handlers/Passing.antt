-- ===== src/Relay/Stable/Handlers/Passing.antt =====
-- Messages through a session, and closings, keep every stable property.
use beacon_desk.Prelude.{ℕ, String, not, List, [], ◌∷◌, ◌==◌}
use beacon_desk.Prelude.Int.{ℤ}
use beacon_desk.Maps.{lookup}
use beacon_desk.Protocol.Message.{Envelope}
use beacon_desk.Relay.State.{Session, Server, Env}
use beacon_desk.Relay.Client.{get_client, get_web_peer}
use beacon_desk.Relay.Hub.{get_session}
use beacon_desk.Relay.Server.{
  session_peer, deliver, forward_session_message, forward_input_message,
  forward_stream_control_message, close_session, close_all, close_idle_clients, stale_clients,
}
use beacon_desk.Relay.Kept.{Kept, Kept-pair, Kept-if, Kept-option}
use beacon_desk.Relay.Stable.{Stable}
use beacon_desk.Relay.Stable.Hub.{
  send_or_error-Stable, send_web_or_error-Stable, touch_session-Stable,
  notify_session_closed-Stable, close_client-Stable,
}

module _ {ℓ} {P : Server → Type ℓ} {May : Session → Type 0} (S : Stable P May) where
  deliver-Stable :
      {s : Server} (env : Env) (device : String) (session : Session) (target : String)
      (msg : Envelope)
      → P s
      → Kept P (deliver s env device session target msg)
  unfolding deliver
  deliver-Stable {s} env device session target msg v =
      Kept-option (get_client s target) _ _
        (λ _.
          Kept-option (get_web_peer s target) _ _ (λ _. Kept-pair _ v)
            (λ p _. send_web_or_error-Stable S p _ (touch_session-Stable S env session.id v)))
        (λ t _. send_or_error-Stable S t _ (touch_session-Stable S env session.id v))

  pub forward_session_message-Stable :
      {s : Server} (env : Env) (c : ℕ) (msg : Envelope)
      → P s
      → Kept P (forward_session_message s env c msg)
  unfolding forward_session_message
  forward_session_message-Stable {s} env c msg v =
      Kept-option (get_session s msg.session_id) _ _ (λ _. Kept-pair _ v)
        (λ session _.
          Kept-option (session_peer session (s.client_at c).device_id) _ _ (λ _. Kept-pair _ v)
            (λ target _. deliver-Stable env _ session target msg v))

  pub forward_input_message-Stable :
      {s : Server} (env : Env) (c : ℕ) (msg : Envelope)
      → P s
      → Kept P (forward_input_message s env c msg)
  unfolding forward_input_message
  forward_input_message-Stable {s} env c msg v =
      Kept-option (get_session s msg.session_id) _ _ (λ _. Kept-pair _ v)
        (λ session _.
          Kept-if (not session.input_allowed) _ _ (λ _. Kept-pair _ v)
            (λ _.
              Kept-if (not ((s.client_at c).device_id == session.controller_id)) _ _
                (λ _. Kept-pair _ v) (λ _. forward_session_message-Stable env c msg v)))

  pub forward_stream_control_message-Stable :
      {s : Server} (env : Env) (c : ℕ) (msg : Envelope)
      → P s
      → Kept P (forward_stream_control_message s env c msg)
  unfolding forward_stream_control_message
  forward_stream_control_message-Stable {s} env c msg v =
      Kept-option (get_session s msg.session_id) _ _ (λ _. Kept-pair _ v)
        (λ session _.
          Kept-if (not ((s.client_at c).device_id == session.controller_id)) _ _
            (λ _. Kept-pair _ v) (λ _. forward_session_message-Stable env c msg v))

  pub close_session-Stable :
      {s : Server} (env : Env) (id reason : String) → P s → Kept P (close_session s env id reason)
  unfolding close_session
  close_session-Stable {s} env id reason v =
      Kept-if (id == "") _ _ (λ _. Kept-pair _ v)
        (λ _.
          Kept-option (lookup id s.sessions) _ _ (λ _. Kept-pair _ v)
            (λ session _.
              Kept-pair _
                (notify_session_closed-Stable S env session reason (S.on_delete_session id v))))

  close_all-Stable : (env : Env) (l : List ℕ) {s : Server} → P s → P (close_all s env l)
  unfolding close_all
  close_all-Stable env [] v = v
  close_all-Stable env (c ∷ l) v = close_all-Stable env l (close_client-Stable S env c v)

  pub close_idle_clients-Stable :
      {s : Server} (env : Env) (timeout : ℤ) → P s → P (close_idle_clients s env timeout)
  unfolding close_idle_clients
  close_idle_clients-Stable {s} env timeout v =
      close_all-Stable env (stale_clients s.client_at env.now timeout s.clients) v
