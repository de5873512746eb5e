-- ===== src/Relay/Forwarding.antt =====
-- server.go and webpeer.go: what the forwarding handlers put into which queue.
use mathlib.Core.Path.{subst₂}
use beacon_desk.Prelude.{
  ℕ, ◌≡◌, sym, ap, ◌∙◌, String, true, not, none, some, [], ◌∷◌, ◌++◌, ◌==◌, eq_iff, arith, if_rule,
  option_rule, update,
}
use beacon_desk.Maps.{lookup}
use beacon_desk.Protocol.Message.{Envelope}
use beacon_desk.Relay.State.{Client, WebPeer, Session, Server, Env, Outcome}
use beacon_desk.Relay.Client.{
  get_client, get_web_peer, try_send, try_send_web, send_client, send_peer, send_or_error,
  send_web_or_error,
}
use beacon_desk.Relay.Hub.{touch_session, get_session}
use beacon_desk.Relay.Server.{
  session_peer, readdressed, deliver, forward_session_message, forward_input_message,
  forward_stream_control_message,
}

-- The message has gone to the end of one queue, that of `to`, and no other client or web peer has
-- changed at all.
pub data Delivered (s t : Server) (to : String) (msg : Envelope) : Type 0 where
  to_client :
      (c : ℕ)
      → lookup to s.clients ≡ some c
      → t.client_at
        ≡ update s.client_at c (record (s.client_at c) { send = (s.client_at c).send ++ msg ∷ [] })
      → t.peer_at ≡ s.peer_at
      → Delivered s t to msg
  to_web_peer :
      (p : ℕ)
      → lookup to s.clients ≡ none
      → lookup to s.web_peers ≡ some p
      → t.peer_at
        ≡ update s.peer_at p (record (s.peer_at p) { send = (s.peer_at p).send ++ msg ∷ [] })
      → t.client_at ≡ s.client_at
      → Delivered s t to msg

touch_session-client_at :
    (s : Server) (env : Env) (id : String) → (touch_session s env id).client_at ≡ s.client_at
unfolding touch_session
touch_session-client_at s env id = ground arith

touch_session-peer_at :
    (s : Server) (env : Env) (id : String) → (touch_session s env id).peer_at ≡ s.peer_at
unfolding touch_session
touch_session-peer_at s env id = ground arith

try_send-sent :
    (c : Client) (msg : Envelope)
    → (try_send c msg).1 ≡ true
    → (try_send c msg).0 ≡ record c { send = c.send ++ msg ∷ [] }
unfolding try_send
try_send-sent c msg h = ground arith

try_send_web-sent :
    (p : WebPeer) (msg : Envelope)
    → (try_send_web p msg).1 ≡ true
    → (try_send_web p msg).0 ≡ record p { send = p.send ++ msg ∷ [] }
unfolding try_send_web
try_send_web-sent p msg h = ground arith

-- A message for a client whose server is `u`, which has the queues of `s`.
send_or_error-Delivered :
    (s u : Server) (c : ℕ) (to : String) (msg : Envelope)
    → u.client_at ≡ s.client_at
    → u.peer_at ≡ s.peer_at
    → lookup to s.clients ≡ some c
    → (send_or_error u c msg).1 ≡ none
    → Delivered s (send_or_error u c msg).0 to msg
unfolding send_or_error send_client
send_or_error-Delivered s u c to msg same same' found h =
    to_client c found
      (ap (update u.client_at c) (try_send-sent (u.client_at c) msg (ground arith))
        ∙ ap (λ f. update f c (record (f c) { send = (f c).send ++ msg ∷ [] })) same)
      same'

send_web_or_error-Delivered :
    (s u : Server) (p : ℕ) (to : String) (msg : Envelope)
    → u.client_at ≡ s.client_at
    → u.peer_at ≡ s.peer_at
    → lookup to s.clients ≡ none
    → lookup to s.web_peers ≡ some p
    → (send_web_or_error u p msg).1 ≡ none
    → Delivered s (send_web_or_error u p msg).0 to msg
unfolding send_web_or_error send_peer
send_web_or_error-Delivered s u p to msg same same' absent found h =
    to_web_peer p absent found
      (ap (update u.peer_at p) (try_send_web-sent (u.peer_at p) msg (ground arith))
        ∙ ap (λ f. update f p (record (f p) { send = (f p).send ++ msg ∷ [] })) same')
      same

-- What an outcome without an error promises.
abbrev OnSuccess : (Server → Type 0) → Outcome → Type 0
OnSuccess P o = o.1 ≡ none → P o.0

deliver-Delivered :
    (s : Server) (env : Env) (device : String) (session : Session) (target : String)
    (msg : Envelope)
    → OnSuccess
        (λ t. Delivered s t target (readdressed msg device target))
        (deliver s env device session target msg)
unfolding deliver get_client get_web_peer
deliver-Delivered s env device session target msg =
    let client_same = touch_session-client_at s env session.id in
    let peer_same = touch_session-peer_at s env session.id in
    let Ok : Outcome → Type 0 =
      OnSuccess (λ t. Delivered s t target (readdressed msg device target)) in
    option_rule Ok (lookup target s.clients) _ _
      (λ absent.
        option_rule Ok (lookup target s.web_peers) _ _ (λ _ h. absurd (ground arith))
          (λ p found.
            send_web_or_error-Delivered s _ p target _ client_same peer_same absent found))
      (λ c found. send_or_error-Delivered s _ c target _ client_same peer_same found)

-- A message passes only where a session of that name exists and the sender is one of its two sides;
-- then it stands at the end of the queue of the other side, and no other client or web peer has changed.
pub forward_session_message-Delivered :
    (s : Server) (env : Env) (c : ℕ) (msg : Envelope)
    → (forward_session_message s env c msg).1 ≡ none
    → (session : Session) × (to : String) × (lookup msg.session_id s.sessions ≡ some session)
      × (session_peer session (s.client_at c).device_id ≡ some to)
      × Delivered s
          (forward_session_message s env c msg).0
          to
          (readdressed msg (s.client_at c).device_id to)
unfolding forward_session_message get_session
forward_session_message-Delivered s env c msg =
    let device = (s.client_at c).device_id in
    let Passed : Outcome → Type 0 = OnSuccess (λ t.
      (session : Session) × (to : String) × (lookup msg.session_id s.sessions ≡ some session)
      × (session_peer session device ≡ some to)
      × Delivered s t to (readdressed msg device to)) in
    option_rule Passed (lookup msg.session_id s.sessions) _ _ (λ _ h. absurd (ground arith))
      (λ session found.
        option_rule Passed (session_peer session device) _ _ (λ _ h. absurd (ground arith))
          (λ to peer h.
            (session, to, found, peer, deliver-Delivered s env device session to msg h)))

some_inj {ℓ} : {A : Type ℓ} {a b : A} → some a ≡ some b → a ≡ b
some_inj h = cc

-- The peer of the controller is the controlled side.
session_peer-controller :
    (session : Session) (device to : String)
    → device ≡ session.controller_id
    → session_peer session device ≡ some to
    → to ≡ session.controlled_id
session_peer-controller session device to e h = ground (arith, eq_iff device session.controller_id)

-- The controller's message, once its session is known.
controller-Delivered :
    (s t : Server) (msg : Envelope) (device : String) (session : Session)
    → lookup msg.session_id s.sessions ≡ some session
    → device ≡ session.controller_id
    → ((x : Session) × (to : String) × (lookup msg.session_id s.sessions ≡ some x)
        × (session_peer x device ≡ some to)
        × Delivered s t to (readdressed msg device to))
    → Delivered s t session.controlled_id
        (readdressed msg session.controller_id session.controlled_id)
controller-Delivered s t msg device session found controller (x, to, found', peer, sent) =
    let peer' : session_peer session device ≡ some to =
      ap (λ y. session_peer y device) (some_inj (sym found ∙ found')) ∙ peer in
    subst₂ (λ from to. Delivered s t to (readdressed msg from to)) controller
      (session_peer-controller session device to controller peer') sent

-- Input passes only from the controller of an existing session that allows input, and then stands
-- at the end of the queue of that session's controlled side, under the controller's name; no other
-- client or web peer has changed.
pub forward_input_message-Delivered :
    (s : Server) (env : Env) (c : ℕ) (msg : Envelope)
    → (forward_input_message s env c msg).1 ≡ none
    → (session : Session) × (lookup msg.session_id s.sessions ≡ some session)
      × (session.input_allowed ≡ true)
      × ((s.client_at c).device_id ≡ session.controller_id)
      × Delivered s
          (forward_input_message s env c msg).0
          session.controlled_id
          (readdressed msg session.controller_id session.controlled_id)
unfolding forward_input_message get_session
forward_input_message-Delivered s env c msg =
    let device = (s.client_at c).device_id in
    let Passed : Outcome → Type 0 = OnSuccess (λ t.
      (session : Session) × (lookup msg.session_id s.sessions ≡ some session)
      × (session.input_allowed ≡ true)
      × (device ≡ session.controller_id)
      × Delivered s t session.controlled_id
          (readdressed msg session.controller_id session.controlled_id)) in
    option_rule Passed (lookup msg.session_id s.sessions) _ _ (λ _ h. absurd (ground arith))
      (λ session found.
        if_rule Passed (not session.input_allowed) _ _ (λ _ h. absurd (ground arith))
          (λ allowed.
            if_rule Passed (not (device == session.controller_id)) _ _
              (λ _ h. absurd (ground arith))
              (λ controller h.
                let controller' = (eq_iff device session.controller_id).0 (ground arith) in
                (
                  session,
                  found,
                  ground arith,
                  controller',
                  controller-Delivered s _ msg device session found controller'
                      (forward_session_message-Delivered s env c msg h),
                ))))

-- Stream control passes only from the controller of an existing session, and then stands at the end
-- of the queue of that session's controlled side, under the controller's name; no other client
-- or web peer has changed.
pub forward_stream_control_message-Delivered :
    (s : Server) (env : Env) (c : ℕ) (msg : Envelope)
    → (forward_stream_control_message s env c msg).1 ≡ none
    → (session : Session) × (lookup msg.session_id s.sessions ≡ some session)
      × ((s.client_at c).device_id ≡ session.controller_id)
      × Delivered s
          (forward_stream_control_message s env c msg).0
          session.controlled_id
          (readdressed msg session.controller_id session.controlled_id)
unfolding forward_stream_control_message get_session
forward_stream_control_message-Delivered s env c msg =
    let device = (s.client_at c).device_id in
    let Passed : Outcome → Type 0 = OnSuccess (λ t.
      (session : Session) × (lookup msg.session_id s.sessions ≡ some session)
      × (device ≡ session.controller_id)
      × Delivered s t session.controlled_id
          (readdressed msg session.controller_id session.controlled_id)) in
    option_rule Passed (lookup msg.session_id s.sessions) _ _ (λ _ h. absurd (ground arith))
      (λ session found.
        if_rule Passed (not (device == session.controller_id)) _ _ (λ _ h. absurd (ground arith))
          (λ controller h.
            let controller' = (eq_iff device session.controller_id).0 (ground arith) in
            (
              session,
              found,
              controller',
              controller-Delivered s _ msg device session found controller'
                  (forward_session_message-Delivered s env c msg h),
            )))
