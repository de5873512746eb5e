-- ===== src/Relay/Consent.antt =====
-- Where sessions come from: server.go, `handleSessionConfirm`, is the only way in.
use beacon_desk.Prelude.{
  ℕ, ◌≡◌, refl, sym, ap, ◌∙◌, subst, ◌⊎◌, inl, inr, String, true, false, ◌&&◌, Option, none, some,
  arith, ◌==◌,
}
use beacon_desk.Maps.{Map, lookup, Entries, Entries-delete, Entries-insert}
use beacon_desk.Protocol.Types.{
  type_session_confirm, normalize_session_mode, session_mode_allows_input,
}
use beacon_desk.Protocol.Json.{Json}
use beacon_desk.Protocol.Message.{Envelope}
use beacon_desk.Protocol.Payloads.{SessionConfirmPayload, decode_session_confirm}
use beacon_desk.Relay.State.{Session, PendingRequest, Server, Env, Error, set_client}
use beacon_desk.Relay.Hub.{new_session, consume_pending_request, pending_key}
use beacon_desk.Relay.Server.{controller_of, mode_of_request}
use beacon_desk.Relay.Dispatch.{touch_stats}
use beacon_desk.Relay.Steps.{
  Step, accept, read, write, reap, browse, visit, read_web, write_web, drift, drift_web,
}
use beacon_desk.Relay.Stable.{Stable}
use beacon_desk.Relay.Stable.Handlers.{accepted_session, MayConfirm}
use beacon_desk.Relay.Stable.Dispatch.{MayStep, Step-Stable}

-- The same session, at another time of its last activity.
pub record SameSession (x y : Session) : Type 0 where
  pub same_id : x.id ≡ y.id
  pub same_controller : x.controller_id ≡ y.controller_id
  pub same_controlled : x.controlled_id ≡ y.controlled_id
  pub same_mode : x.mode ≡ y.mode
  pub same_input : x.input_allowed ≡ y.input_allowed

SameSession-refl : (x : Session) → SameSession x x
SameSession-refl x = record {
  same_id = refl;
  same_controller = refl;
  same_controlled = refl;
  same_mode = refl;
  same_input = refl;
}

-- What happened at a client's message: a registered device sent a confirmation that accepts, whether
-- or not a request waits for it, and this is the session that the relay makes of it.
pub record Consented (s : Server) (env : Env) (c : ℕ) (msg : Envelope) (x : Session) : Type 0 where
  pub confirms : (msg.type == type_session_confirm) ≡ true
  pub payload : SessionConfirmPayload
  pub decoded : decode_session_confirm msg.payload ≡ some payload
  pub accepted : payload.accepted ≡ true
  pub registered : ((s.client_at c).device_id == "") ≡ false
  pub made : SameSession x (accepted_session s env c (controller_of msg) payload)

-- The consent that a step gives to a new session.
abbrev pub ConsentedStep :
    {share_url : String → String} {render : Error → String} {size : Option Json → ℕ} {s t : Server}
    → Step share_url render size s t
    → Session
    → Type 0
ConsentedStep {s = s} (read env c (some msg)) x = Consented s env c msg x
ConsentedStep _ x = ⊥

-- A session was there before, under the same name, or it is covered by `May`.
abbrev Origin : Map Session → (Session → Type 0) → String → Session → Type 0
Origin before May k x = ((y : Session) × (lookup k before ≡ some y) × SameSession x y) ⊎ May x

-- The sessions of a server all have an origin.
abbrev HasOrigins : Map Session → (Session → Type 0) → Server → Type 0
HasOrigins before May s = Entries (Origin before May) s.sessions

-- `May` does not look at the time of the last activity.
abbrev IsTimeless : (Session → Type 0) → Type 0
IsTimeless May = (x : Session) (now : ℕ) → May x → May (record x { last_activity_at = now })

touched-Origin :
    (before : Map Session) (May : Session → Type 0)
    → IsTimeless May
    → (k : String) (x : Session) (now : ℕ) → Origin before May k x
    → Origin before May k (record x { last_activity_at = now })
touched-Origin before May timeless k x now (inl (y, e, same)) = inl (
  y,
  e,
  record {
    same_id = same.same_id;
    same_controller = same.same_controller;
    same_controlled = same.same_controlled;
    same_mode = same.same_mode;
    same_input = same.same_input;
  },
)
touched-Origin before May timeless k x now (inr may) = inr (timeless x now may)

HasOrigins-Stable :
    (before : Map Session) (May : Session → Type 0)
    → IsTimeless May
    → Stable (HasOrigins before May) May
HasOrigins-Stable before May timeless = record {
  on_client = λ c x f v. v;
  on_peer = λ p x f v. v;
  on_delete_session = λ {s} k v. Entries-delete (Origin before May) k s.sessions v;
  on_touch = λ {s} k x now e v.
      Entries-insert (Origin before May) k _ s.sessions
        (touched-Origin before May timeless k x now (v k x e)) v;
  on_create = λ {s} x h may v. Entries-insert (Origin before May) x.id x s.sessions (inr may) v;
  on_pending = λ m h u v. v;
  on_shares = λ m h u v. v;
  on_clients = λ m h u v. v;
  on_web_peers = λ m v. v;
}

Consented-timeless :
    (s : Server) (env : Env) (c : ℕ) (msg : Envelope) → IsTimeless (Consented s env c msg)
Consented-timeless s env c msg x now h = record {
  confirms = h.confirms;
  payload = h.payload;
  decoded = h.decoded;
  accepted = h.accepted;
  registered = h.registered;
  made = record {
    same_id = h.made.same_id;
    same_controller = h.made.same_controller;
    same_controlled = h.made.same_controlled;
    same_mode = h.made.same_mode;
    same_input = h.made.same_input;
  };
}

-- The first thing a round of the read loop does is no change for what follows.
touched : Server → Env → ℕ → Server
touched s env c = set_client s c (touch_stats (s.client_at c) env)

device-touched :
    (s : Server) (env : Env) (c : ℕ)
    → ((touched s env c).client_at c).device_id ≡ (s.client_at c).device_id
unfolding touched
device-touched s env c = ground arith

accepted_session-touched :
    (s : Server) (env : Env) (c : ℕ) (id : String) (payload : SessionConfirmPayload)
    → accepted_session (touched s env c) env c id payload ≡ accepted_session s env c id payload
unfolding touched consume_pending_request
accepted_session-touched s env c id payload =
    ap
      (λ (device : String).
        let mode =
          mode_of_request (lookup (pending_key id device) s.pending)
            (normalize_session_mode payload.accepted_mode) in
        new_session env id device mode (payload.input_allowed && session_mode_allows_input mode))
      (device-touched s env c)

MayConfirm-Consented :
    (s : Server) (env : Env) (c : ℕ) (msg : Envelope)
    → (msg.type == type_session_confirm) ≡ true
    → MayConfirm (Consented s env c msg) (touched s env c) env c msg
MayConfirm-Consented s env c msg confirm payload named decoded agreed = record {
  confirms = confirm;
  payload = payload;
  decoded = decoded;
  accepted = ground arith;
  registered = ap (λ (d : String). d == "") (sym (device-touched s env c)) ∙ named;
  made =
      subst (SameSession (accepted_session (touched s env c) env c (controller_of msg) payload))
        (accepted_session-touched s env c (controller_of msg) payload) (SameSession-refl _);
}

-- The request, if one waits, or else the confirmation, is for "view-control".
pub IsForControl : Option PendingRequest → SessionConfirmPayload → Type 0
IsForControl (some request) payload = request.mode ≡ "view-control"
IsForControl none payload = normalize_session_mode payload.accepted_mode ≡ "view-control"

module _ (share_url : String → String) (render : Error → String) (size : Option Json → ℕ) where
  -- The whole of a step: what it leaves in the map has an origin.
  origins_after :
      {s t : Server} (step : Step share_url render size s t) (May : Session → Type 0)
      → IsTimeless May
      → MayStep May step
      → HasOrigins s.sessions May t
  origins_after {s} step May timeless may =
      Step-Stable (HasOrigins-Stable s.sessions May timeless) share_url render size step may
        (λ k x e. inl (x, e, SameSession-refl x))

  no_consent :
      {s t : Server} (step : Step share_url render size s t)
      → MayStep (λ _. ⊥) step
      → HasOrigins s.sessions (λ _. ⊥) t
  no_consent {s} step may = origins_after {s = s} step (λ _. ⊥) (λ x now h. h) may

  -- Every session that is there after a step was there before it, under the same name and with the
  -- same id, peers, mode and permission; or the step was the reading of a message by which a
  -- registered device sent a confirmation that accepts, and the session, but for the time of its last
  -- activity, is the one that the relay makes of it, with the device as the controlled side and the
  -- controller that the message names. That a request of this controller waits is not demanded.
  pub session_needs_consent :
      {s t : Server} (step : Step share_url render size s t) (k : String) (x : Session)
      → lookup k t.sessions ≡ some x
      → ((y : Session) × (lookup k s.sessions ≡ some y) × SameSession x y) ⊎ ConsentedStep step x
  unfolding touched
  session_needs_consent {s} (accept env c writable picks_send fresh) k x e =
      no_consent {s = s} (accept env c writable picks_send fresh) tt k x e
  session_needs_consent {s} (read env c none) k x e = no_consent {s = s} (read env c none) tt k x e
  session_needs_consent {s} (read env c (some msg)) k x e =
      origins_after {s = s} (read env c (some msg)) (Consented s env c msg)
        (Consented-timeless s env c msg) (λ confirm. MayConfirm-Consented s env c msg confirm) k x e
  session_needs_consent {s} (write timers env c) k x e =
      no_consent {s = s} (write timers env c) tt k x e
  session_needs_consent {s} (reap env) k x e = no_consent {s = s} (reap env) tt k x e
  session_needs_consent {s} (browse env token) k x e =
      no_consent {s = s} (browse env token) tt k x e
  session_needs_consent {s} (visit env token share p picks_send found fresh) k x e =
      no_consent {s = s} (visit env token share p picks_send found fresh) tt k x e
  session_needs_consent {s} (read_web env p msg) k x e =
      no_consent {s = s} (read_web env p msg) tt k x e
  session_needs_consent {s} (write_web p writable) k x e =
      no_consent {s = s} (write_web p writable) tt k x e
  session_needs_consent {s} (drift c writable picks_send) k x e =
      no_consent {s = s} (drift c writable picks_send) tt k x e
  session_needs_consent {s} (drift_web p picks_send) k x e =
      no_consent {s = s} (drift_web p picks_send) tt k x e
