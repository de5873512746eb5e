-- ===== src/Relay/Stable/Handlers/Joining.antt =====
-- Codes, registrations, heartbeats and requests keep every stable property.
use beacon_desk.Prelude.{ℕ, not, none, some, ◌==◌}
use beacon_desk.Auth.{validate}
use beacon_desk.Protocol.Message.{Envelope}
use beacon_desk.Protocol.Payloads.{
  AuthCodePublishPayload, SessionRequestPayload, decode_register, decode_auth_code_publish,
  decode_session_request, decode_heartbeat,
}
use beacon_desk.Relay.State.{Session, Server, Env, Outcome}
use beacon_desk.Relay.Client.{get_client}
use beacon_desk.Relay.Server.{
  publish_auth_code, handle_auth_code_publish, is_six_digit_code, answer_register, admit_device,
  handle_register, handle_ping, validate_target_auth_code, request_session, handle_session_request,
}
use beacon_desk.Relay.Stable.Handlers.Acceptance.{send-validate_target_auth_code}
use beacon_desk.Relay.Kept.{Kept, Kept-pair, Kept-if, Kept-option}
use beacon_desk.Relay.Stable.{Stable}
use beacon_desk.Relay.Stable.Hub.{
  conn_write-Stable, send_or_error-Stable, register-Stable, store_pending_request-Stable,
}

module _ {ℓ} {P : Server → Type ℓ} {May : Session → Type 0} (S : Stable P May) where
  publish_auth_code-Stable :
      {s : Server} (env : Env) (c : ℕ) (payload : AuthCodePublishPayload)
      → P s
      → Kept P (publish_auth_code s env c payload)
  unfolding publish_auth_code
  publish_auth_code-Stable {s} env c payload v =
      Kept-if (payload.code == "") _ _ (λ _. Kept-pair _ v)
        (λ _.
          Kept-if (not (is_six_digit_code payload.code)) _ _ (λ _. Kept-pair _ v)
            (λ _. conn_write-Stable S c _ (S.on_client c _ (λ h. h) v)))

  pub handle_auth_code_publish-Stable :
      {s : Server} (env : Env) (c : ℕ) (msg : Envelope)
      → P s
      → Kept P (handle_auth_code_publish s env c msg)
  unfolding handle_auth_code_publish
  handle_auth_code_publish-Stable {s} env c msg v =
      Kept-if ((s.client_at c).device_id == "") _ _ (λ _. Kept-pair _ v)
        (λ _.
          Kept-option (decode_auth_code_publish msg.payload) _ _ (λ _. Kept-pair _ v)
            (λ payload _. publish_auth_code-Stable env c payload v))

  answer_register-Stable :
      (env : Env) (c : ℕ) (o : Outcome) → Kept P o → Kept P (answer_register env c o)
  unfolding answer_register
  answer_register-Stable env c (s, none) k = conn_write-Stable S c _ k.at
  answer_register-Stable env c (s, some e) k = k

  pub handle_register-Stable :
      {s : Server} (env : Env) (c : ℕ) (msg : Envelope) → P s → Kept P (handle_register s env c msg)
  unfolding handle_register admit_device
  handle_register-Stable {s} env c msg v =
      Kept-option (decode_register msg.payload) _ _ (λ _. Kept-pair _ v)
        (λ payload _.
          Kept-if (payload.device_id == "") _ _ (λ _. Kept-pair _ v)
            (λ _.
              Kept-if (not (validate s.auth payload.token)) _ _ (λ _. Kept-pair _ v)
                (λ _.
                  answer_register-Stable env c _
                    (register-Stable S env c (S.on_client c _ (λ h. h) v)))))

  pub handle_ping-Stable :
      {s : Server} (env : Env) (c : ℕ) (msg : Envelope) → P s → Kept P (handle_ping s env c msg)
  unfolding handle_ping
  handle_ping-Stable env c msg v =
      Kept-option (decode_heartbeat msg.payload) _ _ (λ _. Kept-pair _ v)
        (λ payload _. conn_write-Stable S c _ v)

  request_session-Stable :
      {s : Server} (env : Env) (c target : ℕ) (payload : SessionRequestPayload) (msg : Envelope)
      → P s
      → Kept P (request_session s env c target payload msg)
  unfolding request_session
  request_session-Stable {s} env c target payload msg v =
      let checked =
        S.on_client target _
          (λ h. rw (send-validate_target_auth_code (s.client_at target) env payload.auth_code) h)
          v in
      Kept-option (validate_target_auth_code (s.client_at target) env payload.auth_code).1 _ _
        (λ _. send_or_error-Stable S target _ (store_pending_request-Stable S env _ _ _ checked))
        (λ e _. Kept-pair _ checked)

  pub handle_session_request-Stable :
      {s : Server} (env : Env) (c : ℕ) (msg : Envelope)
      → P s
      → Kept P (handle_session_request s env c msg)
  unfolding handle_session_request
  handle_session_request-Stable {s} env c msg v =
      Kept-if ((s.client_at c).device_id == "") _ _ (λ _. Kept-pair _ v)
        (λ _.
          Kept-option (decode_session_request msg.payload) _ _ (λ _. Kept-pair _ v)
            (λ payload _.
              Kept-if (payload.target_device_id == "") _ _ (λ _. Kept-pair _ v)
                (λ _.
                  Kept-option (get_client s payload.target_device_id) _ _ (λ _. Kept-pair _ v)
                    (λ target _. request_session-Stable env c target payload msg v))))
