-- ===== src/Protocol/Types.antt =====
-- internal/protocol/types.go: the names of the messages, roles and session modes.
use beacon_desk.Prelude.{
  ℕ, String, ◌≡◌, ◌≢◌, ◌↔◌, ◌⊎◌, inl, inr, Bool, true, arith, ◌==◌, string_test, if◌then◌else◌,
}

abbrev pub protocol_version : ℕ
protocol_version = 1

abbrev pub type_device_register : String
type_device_register = "device.register"

abbrev pub type_device_registered : String
type_device_registered = "device.registered"

abbrev pub type_auth_code_publish : String
type_auth_code_publish = "auth.code.publish"

abbrev pub type_auth_code_published : String
type_auth_code_published = "auth.code.published"

abbrev pub type_web_share_create : String
type_web_share_create = "web.share.create"

abbrev pub type_web_share_created : String
type_web_share_created = "web.share.created"

abbrev pub type_web_share_list : String
type_web_share_list = "web.share.list"

abbrev pub type_web_share_list_result : String
type_web_share_list_result = "web.share.list.result"

abbrev pub type_web_share_revoke : String
type_web_share_revoke = "web.share.revoke"

abbrev pub type_web_share_revoked : String
type_web_share_revoked = "web.share.revoked"

abbrev pub type_web_share_status : String
type_web_share_status = "web.share.status"

abbrev pub type_heartbeat_ping : String
type_heartbeat_ping = "heartbeat.ping"

abbrev pub type_heartbeat_pong : String
type_heartbeat_pong = "heartbeat.pong"

abbrev pub type_session_request : String
type_session_request = "session.request"

abbrev pub type_session_confirm : String
type_session_confirm = "session.confirm"

abbrev pub type_session_ready : String
type_session_ready = "session.ready"

abbrev pub type_session_close : String
type_session_close = "session.close"

abbrev pub type_stream_frame : String
type_stream_frame = "stream.frame"

abbrev pub type_stream_control : String
type_stream_control = "stream.control"

abbrev pub type_input_mouse : String
type_input_mouse = "input.mouse"

abbrev pub type_input_keyboard : String
type_input_keyboard = "input.keyboard"

abbrev pub type_telemetry_stats : String
type_telemetry_stats = "telemetry.stats"

abbrev pub type_error : String
type_error = "error"

abbrev pub stream_kind_jpeg : String
stream_kind_jpeg = "jpeg"

abbrev pub stream_kind_status : String
stream_kind_status = "status"

abbrev pub stream_kind_error : String
stream_kind_error = "error"

abbrev pub role_controller : String
role_controller = "controller"

abbrev pub role_controlled : String
role_controlled = "controlled"

abbrev pub role_peer : String
role_peer = "peer"

abbrev pub session_mode_view : String
session_mode_view = "view"

abbrev pub session_mode_view_control : String
session_mode_view_control = "view-control"

unfoldable pub normalize_session_mode : String → String
normalize_session_mode mode =
    if mode == session_mode_view_control
    then session_mode_view_control
    else if mode == session_mode_view
    then session_mode_view
    else if mode == ""
    then session_mode_view
    else session_mode_view

unfoldable pub session_mode_allows_input : String → Bool
unfolding normalize_session_mode
session_mode_allows_input mode = normalize_session_mode mode == session_mode_view_control

-- A mode is normal when it is one of the two that the protocol names.
abbrev pub IsMode : String → Type 0
IsMode mode = (mode ≡ session_mode_view) ⊎ (mode ≡ session_mode_view_control)

pub normalize_session_mode-IsMode : (mode : String) → IsMode (normalize_session_mode mode)
unfolding normalize_session_mode
normalize_session_mode-IsMode mode = ground arith

-- What normalising gives, by whether the mode is "view-control".
pub normalize_session_mode_cases :
    (mode : String)
    → ((mode ≡ session_mode_view_control)
        × (normalize_session_mode mode ≡ session_mode_view_control))
      ⊎ ((mode ≢ session_mode_view_control) × (normalize_session_mode mode ≡ session_mode_view))
unfolding normalize_session_mode
normalize_session_mode_cases mode = elim (string_test mode session_mode_view_control) [
  | inl (e, t) ↦ inl (e, rw t)
  | inr (n, t) ↦ inr (n, rw t (ground arith))
]

-- Input is allowed exactly in the mode "view-control".
pub session_mode_allows_input_iff :
    (mode : String) → (session_mode_allows_input mode ≡ true) ↔ (mode ≡ session_mode_view_control)
unfolding session_mode_allows_input
session_mode_allows_input_iff mode = elim (normalize_session_mode_cases mode) [
  | inl (e, t) ↦ (λ _. e, λ _. rw t)
  | inr (n, t) ↦ (λ h. cc (rw t at h), λ e. absurd (n e))
]

-- Normalising twice is normalising once.
pub normalize_session_mode_idem :
    (mode : String)
    → normalize_session_mode (normalize_session_mode mode) ≡ normalize_session_mode mode
unfolding normalize_session_mode
normalize_session_mode_idem mode = elim (normalize_session_mode_cases mode) [
  | inl (e, t) ↦ rw t
  | inr (n, t) ↦ rw t
]

pub session_mode_allows_input-normalize_session_mode :
    (mode : String)
    → session_mode_allows_input (normalize_session_mode mode) ≡ session_mode_allows_input mode
unfolding session_mode_allows_input
session_mode_allows_input-normalize_session_mode mode = rw normalize_session_mode_idem
