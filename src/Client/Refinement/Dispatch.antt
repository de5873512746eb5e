-- ===== src/Client/Refinement/Dispatch.antt =====
-- Each message that the client reads is a step of its core.
use beacon_desk.Prelude.{ℕ, ◌≡◌, refl, Bool, true, false, none, some, is_some, ◌==◌, if◌then◌else◌}
use beacon_desk.Protocol.Types.{
  type_device_registered, type_auth_code_published, type_web_share_created,
  type_web_share_list_result, type_web_share_revoked, type_web_share_status, type_heartbeat_pong,
  type_session_request, type_session_confirm, type_session_ready, type_stream_frame,
  type_input_mouse, type_input_keyboard, type_stream_control, type_telemetry_stats,
  type_session_close, type_error,
}
use beacon_desk.Protocol.Message.{Envelope}
use beacon_desk.Client.State.{Client, Stores, Texts, Env, Outcome}
use beacon_desk.Client.Basics.{emit, set_state}
use beacon_desk.Client.Handlers.{
  on_auth_code_published, on_web_share_created, on_web_share_list, on_web_share_revoked,
  on_web_share_status, on_heartbeat_pong, on_error, on_session_confirm, on_telemetry,
}
use beacon_desk.Client.Dispatch.{handle_message}
use beacon_desk.Client.Connection.{read_message}
use beacon_desk.Client.Core.{core, CoreStep}
use beacon_desk.Client.Refinement.Basics.{
  Same, Same-pair, Same-if, Same-payload, Moves, Moves-same, settle_rule,
}
use beacon_desk.Client.Refinement.Handlers.{
  on_registered-Same, shown-Same, on_stream_frame-Same, handle_stream_control-Moves,
  on_session_close-Moves, on_session_ready-Moves, handle_session_request-Same,
  handle_input_mouse-Moves, handle_input_keyboard-Moves,
}

module _ {D A : Type 0} where
  -- A test on the type of a message, in the chain of `handleMessage`.
  on_type :
      {c : Client D A} (b : Bool) (x y : Outcome D A)
      → Moves c x
      → Moves c y
      → Moves c (if b then x else y)
  on_type true x y hx hy = hx
  on_type false x y hx hy = hy

  shown :
      {c : Client D A} (b : Bool) (x y : Outcome D A)
      → Same c x
      → Moves c y
      → Moves c (if b then x else y)
  shown b x y hx hy = on_type b x y (Moves-same hx) hy

  module _ (stores : Stores D A) (texts : Texts) where
    answer-Same :
        (now : ℕ) (msg : Envelope) (c : Client D A) → Same c (on_session_confirm now msg c)
    unfolding on_session_confirm emit
    answer-Same now msg c =
        Same-payload _ c _ refl
          (λ p. Same-if p.accepted _ _ (Same-pair none refl) (Same-pair none refl))

    pub handle_message-Moves :
        (env : Env) (msg : Envelope) (c : Client D A)
        → is_some c.conn ≡ true
        → Moves c (handle_message stores texts env msg c)
    unfolding handle_message on_auth_code_published on_web_share_created on_web_share_list
        on_web_share_revoked on_web_share_status on_heartbeat_pong on_error on_telemetry emit
    handle_message-Moves env msg c on =
        shown (msg.type == type_device_registered) _ _ (on_registered-Same env.now msg c) (
          shown (msg.type == type_auth_code_published) _ _ (shown-Same _ c _ (λ p. refl)) (
            shown (msg.type == type_web_share_created) _ _ (shown-Same _ c _ (λ p. refl)) (
              shown (msg.type == type_web_share_list_result) _ _ (shown-Same _ c _ (λ p. refl)) (
                shown (msg.type == type_web_share_revoked) _ _ (shown-Same _ c _ (λ p. refl)) (
                  shown (msg.type == type_web_share_status) _ _ (shown-Same _ c _ (λ p. refl)) (
                    shown (msg.type == type_heartbeat_pong) _ _ (shown-Same _ c _ (λ p. refl)) (
                      shown (msg.type == type_session_request) _ _
                        (handle_session_request-Same stores env.now msg c)
                        (shown (msg.type == type_session_confirm) _ _ (answer-Same env.now msg c) (
                          on_type (msg.type == type_session_ready) _ _
                            (on_session_ready-Moves stores env.now msg c on)
                            (shown (msg.type == type_stream_frame) _ _
                              (on_stream_frame-Same texts env.now msg c)
                              (on_type (msg.type == type_input_mouse) _ _
                                (handle_input_mouse-Moves stores env msg c)
                                (on_type (msg.type == type_input_keyboard) _ _
                                  (handle_input_keyboard-Moves stores env msg c)
                                  (on_type (msg.type == type_stream_control) _ _
                                    (handle_stream_control-Moves env.now msg c on)
                                    (shown (msg.type == type_telemetry_stats) _ _
                                      (shown-Same _ c _ (λ p. refl))
                                      (on_type (msg.type == type_session_close) _ _
                                        (on_session_close-Moves env.now c on)
                                        (shown (msg.type == type_error) _ _
                                          (shown-Same _ c _ (λ p. refl))
                                          (Moves-same (Same-pair none refl))))))))))))))))))

    -- A message that is read, its error told.
    pub read_message-core :
        (env : Env) (msg : Envelope) (c : Client D A)
        → is_some c.conn ≡ true
        → CoreStep (core c) (core (read_message stores texts env msg c))
    unfolding read_message emit
    read_message-core env msg c on =
        let moved = handle_message-Moves env msg (noted env c) on in
        settle_rule After _ _ _ moved.moves (λ e. moved.moves)
      where
        noted : Env → Client D A → Client D A
        noted env c = set_state (λ s. record s { last_message_at = some env.now }) c

        After : Client D A → Type 0
        After d = CoreStep (core c) (core d)
