-- ===== src/Relay/Stable/Handlers/Confirming.antt =====
-- Confirmations keep every stable property that may see a new session.
use beacon_desk.Prelude.{ℕ, String, Bool, not, ◌&&◌, refl, if_rule, ◌==◌}
use beacon_desk.Maps.{insert}
use beacon_desk.Protocol.Message.{Envelope}
use beacon_desk.Protocol.Payloads.{SessionConfirmPayload, decode_session_confirm}
use beacon_desk.Relay.State.{Session, Server, Env, Error, Outcome}
use beacon_desk.Relay.Hub.{
  create_session, created, refused, Created, consume_pending_request, new_session, has_client,
  has_web_peer,
}
use beacon_desk.Relay.Server.{
  accept_session, decline_session, handle_session_confirm, controller_of,
}
use beacon_desk.Relay.Stable.Handlers.Acceptance.{
  accepted_session, MayConfirm, new_session-SessionOk,
}
use beacon_desk.Relay.Kept.{Kept, Kept-pair, Kept-if, Kept-option}
use beacon_desk.Relay.Stable.{Stable}
use beacon_desk.Relay.Stable.Hub.{
  send_or_error-Stable, send_to_peer-Stable, consume_pending_request-Stable,
}

module _ {ℓ} {P : Server → Type ℓ} {May : Session → Type 0} (S : Stable P May) where
  -- What a call of `createSession` leaves: a server with the property, or an error.
  abbrev CreatedP : Created → Type ℓ
  CreatedP (created session s) = P s
  CreatedP (refused e) = Unit

  create_session-Stable :
      {s : Server} (env : Env) (a b mode : String) (input : Bool)
      → May (new_session env a b mode input)
      → P s
      → CreatedP (create_session s env a b mode input)
  unfolding create_session
  create_session-Stable {s} env a b mode input may v =
      let session = new_session env a b mode input in
      let made : P (record s { sessions = insert session.id session s.sessions }) =
        S.on_create session (new_session-SessionOk session mode input refl refl) may v in
      if_rule CreatedP (not (has_client s a) && not (has_web_peer s a)) _ _ (λ _. tt)
        (λ _. if_rule CreatedP (not (has_client s b)) _ _ (λ _. tt) (λ _. made))

  Kept-created :
      (r : Created) (f : Error → Outcome) (g : Session → Server → Outcome)
      → CreatedP r
      → ((e : Error) → Kept P (f e))
      → ((x : Session) (s : Server) → P s → Kept P (g x s))
      → Kept P (elim r [ refused e ↦ f e | created x s ↦ g x s ])
  Kept-created (created x s) f g v kf kg = kg x s v
  Kept-created (refused e) f g v kf kg = kf e

  accept_session-Stable :
      {s : Server} (env : Env) (c : ℕ) (id : String) (payload : SessionConfirmPayload)
      → May (accepted_session s env c id payload)
      → P s
      → Kept P (accept_session s env c id payload)
  unfolding accept_session
  accept_session-Stable {s} env c id payload may v =
      let consumed : P (consume_pending_request s id (s.client_at c).device_id).0 =
        consume_pending_request-Stable S id (s.client_at c).device_id v in
      Kept-created _ _ _ (create_session-Stable env id _ _ _ may consumed)
        (λ e. Kept-pair _ consumed)
        (λ x s' v'. send_or_error-Stable S c _ ((send_to_peer-Stable S id _ v').at))

  decline_session-Stable :
      {s : Server} (c : ℕ) (id : String) (msg : Envelope)
      → P s
      → Kept P (decline_session s c id msg)
  unfolding decline_session
  decline_session-Stable c id msg v =
      send_to_peer-Stable S id _ (consume_pending_request-Stable S id _ v)

  pub handle_session_confirm-Stable :
      {s : Server} (env : Env) (c : ℕ) (msg : Envelope)
      → MayConfirm May s env c msg
      → P s
      → Kept P (handle_session_confirm s env c msg)
  unfolding handle_session_confirm
  handle_session_confirm-Stable {s} env c msg may v =
      Kept-if ((s.client_at c).device_id == "") _ _ (λ _. Kept-pair _ v)
        (λ named.
          Kept-option (decode_session_confirm msg.payload) _ _ (λ _. Kept-pair _ v)
            (λ payload decoded.
              Kept-if
                (not (has_client s (controller_of msg)) && not (has_web_peer s (controller_of msg)))
                _ _ (λ _. Kept-pair _ v)
                (λ _.
                  Kept-if (not payload.accepted) _ _
                    (λ _. decline_session-Stable c (controller_of msg) msg v)
                    (λ agreed.
                      accept_session-Stable env c (controller_of msg) payload
                        (may payload named decoded agreed) v))))
