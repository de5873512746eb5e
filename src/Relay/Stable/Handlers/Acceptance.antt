-- ===== src/Relay/Stable/Handlers/Acceptance.antt =====
-- What an acceptance makes: the one way in which a session comes.
use beacon_desk.Prelude.{
  ℕ, String, Bool, true, false, not, ◌&&◌, ◌≡◌, refl, some, arith, subst, sym, ◌∙◌, inl, inr, ◌==◌,
}
use beacon_desk.Protocol.Types.{
  IsMode, normalize_session_mode, normalize_session_mode-IsMode, normalize_session_mode_cases,
  session_mode_allows_input, session_mode_allows_input_iff, session_mode_view_control,
}
use beacon_desk.Protocol.Message.{Envelope}
use beacon_desk.Protocol.Payloads.{SessionConfirmPayload, decode_session_confirm}
use beacon_desk.Relay.State.{Client, Session, Server, Env}
use beacon_desk.Relay.Hub.{consume_pending_request, new_session}
use beacon_desk.Relay.Server.{validate_target_auth_code, mode_of_request, controller_of}
use beacon_desk.Relay.Stable.{SessionOk}

-- The check of a code leaves the queue alone.
pub send-validate_target_auth_code :
    (x : Client) (env : Env) (code : String)
    → (validate_target_auth_code x env code).0.send ≡ x.send
unfolding validate_target_auth_code
send-validate_target_auth_code x env code = ground arith

-- A new session has one of the two modes, and allows input in "view-control" only.
pub new_session-SessionOk :
    (x : Session) (mode : String) (input : Bool)
    → x.mode ≡ normalize_session_mode mode
    → x.input_allowed ≡ (input && session_mode_allows_input mode)
    → SessionOk x.id x
new_session-SessionOk x mode input m i = (
  refl,
  subst IsMode (sym m) (normalize_session_mode-IsMode mode),
  λ h. m ∙ normal (ground arith),
)
  where
    normal :
        session_mode_allows_input mode ≡ true
        → normalize_session_mode mode ≡ session_mode_view_control
    normal a = elim (normalize_session_mode_cases mode) [
      | inl (_, e) ↦ e
      | inr (n, _) ↦ absurd (n ((session_mode_allows_input_iff mode).0 a))
    ]

-- The session that an accepted confirmation creates.
abbrev pub accepted_session : Server → Env → ℕ → String → SessionConfirmPayload → Session
accepted_session s env c controller_id payload =
    let device = (s.client_at c).device_id in
    let request = (consume_pending_request s controller_id device).1 in
    let mode = mode_of_request request (normalize_session_mode payload.accepted_mode) in
    new_session env controller_id device mode
      (payload.input_allowed && session_mode_allows_input mode)

-- A confirmation may create its session: it comes from a registered device and accepts.
abbrev pub MayConfirm : (Session → Type 0) → Server → Env → ℕ → Envelope → Type 0
MayConfirm May s env c msg =
    (payload : SessionConfirmPayload)
    → ((s.client_at c).device_id == "") ≡ false
    → decode_session_confirm msg.payload ≡ some payload
    → not payload.accepted ≡ false
    → May (accepted_session s env c (controller_of msg) payload)
