-- ===== src/Client/Refinement/Handlers.antt =====
-- The messages that the client reads: most leave its core alone; a session's announcement and its
-- end, stream controls and input are steps of the core.
use beacon_desk.Prelude.{
  ℕ, ◌+◌, ◌≡◌, refl, sym, ◌∙◌, String, Bool, true, false, not, ◌||◌, Option, none, ap, is_some,
  ◌==◌, if_rule, arith, if◌then◌else◌,
}
use beacon_desk.Protocol.Types.{stream_kind_jpeg, stream_kind_status, stream_kind_error}
use beacon_desk.Protocol.Message.{Envelope}
use beacon_desk.Protocol.Payloads.{StreamFramePayload}
use beacon_desk.Client.State.{State, Client, Stores, Injected, mouse, keyboard, Texts, Env}
use beacon_desk.Client.Basics.{emit, stop_stream, clear_session}
use beacon_desk.Client.Streams.{start_configured_stream, disable_stream}
use beacon_desk.Client.Media.{media_options}
use beacon_desk.Client.Handlers.{
  with_payload, on_registered, registered_state, pending_state, ready_state, sends_view,
  on_session_close, answer_request, handle_session_request, on_session_ready, frame_state,
  frame_event, on_stream_frame, handle_stream_control, inject, block_input, handle_input_mouse,
  handle_input_keyboard,
}
use beacon_desk.Client.Core.{
  core, Core, turned, resent, enter, control, leave, inject as inject_event, with_streaming,
  with_injected, to_core,
}
use beacon_desk.Client.Refinement.Basics.{
  core-record_audit, core-touch_trusted, Same, Same-pair, Same-if, Same-payload, Moves, Moves-same,
  Moves-pair, Moves-if, Moves-payload,
}
use beacon_desk.Client.Refinement.Commands.{request_session_with_code-Same, approve_session-Same}

module _ {D A : Type 0} where
  pub on_registered-Same :
      (now : ℕ) (msg : Envelope) (c : Client D A) → Same c (on_registered now msg c)
  unfolding on_registered registered_state emit
  on_registered-Same now msg c = Same-payload _ c _ refl (λ p.
      Same-if (c.opts.target_device_id == "") _ _ (Same-pair _ refl)
        (record { same = (request_session_with_code-Same now _ _ _).same }))

  -- The answers of the relay that are shown, and no more.
  pub shown-Same :
      {P : Type 0} (o : Option P) (c : Client D A) (f : P → Client D A)
      → ((p : P) → core (f p) ≡ core c)
      → Same c (with_payload o c (λ p. (f p, none)))
  shown-Same o c f h = Same-payload o c _ refl (λ p. Same-pair none (h p))

  frame_state-core :
      (p : StreamFramePayload) (c : Client D A)
      → core (record c { state = frame_state p c.state }) ≡ core c
  unfolding frame_state
  frame_state-core p c =
      if_rule Shown (p.kind == stream_kind_jpeg) _ _ (λ _. refl)
        (λ _.
          if_rule Shown (p.kind == stream_kind_status) _ _ (λ _. refl)
            (λ _. if_rule Shown (p.kind == stream_kind_error) _ _ (λ _. refl) (λ _. refl)))
    where
      Shown : State → Type 0
      Shown s = core (record c { state = s }) ≡ core c

  frame_event-core :
      (texts : Texts) (now : ℕ) (p : StreamFramePayload) (c : Client D A)
      → core (frame_event texts now p c) ≡ core c
  unfolding frame_event emit
  frame_event-core texts now p c =
      if_rule Shown (p.kind == stream_kind_jpeg) _ _ (λ _. refl)
        (λ _.
          if_rule Shown (p.kind == stream_kind_error) _ _ (λ _. refl)
            (λ _. if_rule Shown (p.kind == stream_kind_status) _ _ (λ _. refl) (λ _. refl)))
    where
      Shown : Client D A → Type 0
      Shown d = core d ≡ core c

  pub on_stream_frame-Same :
      (texts : Texts) (now : ℕ) (msg : Envelope) (c : Client D A)
      → Same c (on_stream_frame texts now msg c)
  unfolding on_stream_frame
  on_stream_frame-Same texts now msg c = shown-Same _ c _ (λ p.
      frame_event-core texts now p _
      ∙ frame_state-core p (record c { frames_received = c.frames_received + 1 }))

  -- Starting the stream that is configured turns the client to its session.
  pub core-start_configured_stream :
      (now : ℕ) (session : String) (c : Client D A)
      → core (start_configured_stream now session c) ≡ turned session (core c)
  unfolding start_configured_stream disable_stream emit
  core-start_configured_stream now session c =
      if_rule (Turns session) (session == "") _ _ (λ e. ap with_running (ground (arith)))
        (λ named.
          if_rule (Turns session) c.opts.send_screen_frames _ _
            (λ screen. ap with_running (ground (arith)))
            (λ off.
              if_rule (Turns session) c.opts.send_mock_frames _ _
                (λ mock. ap with_running (ground (arith)))
                (λ idle. ap with_running (ground (arith)))))
    where
      Turns : String → Client D A → Type 0
      Turns session d = core d ≡ turned session (core c)

      with_running : Option String → Core
      with_running running = with_streaming running (core c)

  -- A session with a view to send, or without.
  entered :
      (now : ℕ) (session : String) (view : Bool) (c d : Client D A)
      → core d ≡ record (core c) { session = session; view = view }
      → is_some c.conn ≡ true
      → Moves c
          (if view then (start_configured_stream now session d, none) else (stop_stream d, none))
  entered now session true c d h on = Moves-pair none (
      to_core (ap (turned session) (sym h) ∙ sym (core-start_configured_stream now session d))
        (enter session true on))
  entered now session false c d h on =
      Moves-pair none (to_core (ap (with_streaming none) (sym h)) (enter session false on))

  pub handle_stream_control-Moves :
      (now : ℕ) (msg : Envelope) (c : Client D A)
      → is_some c.conn ≡ true
      → Moves c (handle_stream_control now msg c)
  unfolding handle_stream_control emit media_options
  handle_stream_control-Moves now msg c on = Moves-payload _ _ (λ p.
      let opts = media_options p c.opts in
      let sends = opts.send_screen_frames || opts.send_mock_frames in
      let resend = resent (core c) sends (core c).streaming in
      Moves-if (c.state.session_id == "" || not c.state.should_send_view) _ _
        (λ e. Moves-pair none (to_core (ap resend (ap not e)) (control sends on)))
        (λ e. Moves-pair none (
          to_core
            (ap resend (ap not e) ∙ sym (core-start_configured_stream now c.state.session_id _))
            (control sends on))))

  pub on_session_close-Moves :
      (now : ℕ) (c : Client D A) → is_some c.conn ≡ true → Moves c (on_session_close now c)
  unfolding on_session_close emit clear_session
  on_session_close-Moves now c on = Moves-pair none (leave (is_some c.conn) on)

  module _ (stores : Stores D A) where
    pub on_session_ready-Moves :
        (now : ℕ) (msg : Envelope) (c : Client D A)
        → is_some c.conn ≡ true
        → Moves c (on_session_ready stores now msg c)
    unfolding on_session_ready emit ready_state
    on_session_ready-Moves now msg c on = Moves-payload _ _ (λ p.
        entered now p.session_id (sends_view p c.opts) c _
          (core-record_audit stores now _ _ _ _ _ _) on)

    answer_request-Same :
        (now : ℕ) (peer : String) (trusted : Bool) (c d : Client D A)
        → core d ≡ core c
        → Same c (answer_request stores now peer trusted d)
    unfolding answer_request emit
    answer_request-Same now peer trusted c d h =
        Same-if trusted _ _
          (approve_session-Same stores now false c _ (core-touch_trusted stores now peer d ∙ h))
          (Same-if (not d.opts.auto_accept) _ _ (Same-pair none h)
            (approve_session-Same stores now false c d h))

    pub handle_session_request-Same :
        (now : ℕ) (msg : Envelope) (c : Client D A)
        → Same c (handle_session_request stores now msg c)
    unfolding handle_session_request emit pending_state
    handle_session_request-Same now msg c =
        Same-payload _ _ _ refl
          (λ p. answer_request-Same now msg.from _ c _ (core-record_audit stores now _ _ _ _ _ _))

    -- Input is injected, or it fails.
    inject-Moves :
        (env : Env) (event : Injected) (c d : Client D A)
        → c.opts.enable_input ≡ true
        → core d ≡ core c
        → Moves c (inject env event d)
    inject-Moves env event c d enabled h =
        Moves-if env.injects _ _
          (λ _.
            Moves-pair none
              (to_core (ap (with_injected event) (sym h)) (inject_event event enabled)))
          (λ _. Moves-same (Same-pair _ h))

    block_input-Same :
        (now : ℕ) (device : String) (msg : Envelope) (c : Client D A)
        → core (block_input stores now device msg c) ≡ core c
    unfolding block_input emit
    block_input-Same now device msg c = core-record_audit stores now _ _ _ _ _ _

    pub handle_input_mouse-Moves :
        (env : Env) (msg : Envelope) (c : Client D A)
        → Moves c (handle_input_mouse stores env msg c)
    unfolding handle_input_mouse
    handle_input_mouse-Moves env msg c =
        Moves-if (not c.opts.enable_input) _ _
          (λ _. Moves-same (Same-pair none (block_input-Same env.now "mouse" msg c)))
          (λ e. Moves-payload _ _ (λ p.
            Moves-if (not env.has_injector) _ _ (λ _. Moves-same (Same-pair _ refl))
              (λ _.
                inject-Moves env (mouse p) c _ (ground (arith))
                  (core-record_audit stores env.now _ _ _ _ _ _))))

    pub handle_input_keyboard-Moves :
        (env : Env) (msg : Envelope) (c : Client D A)
        → Moves c (handle_input_keyboard stores env msg c)
    unfolding handle_input_keyboard
    handle_input_keyboard-Moves env msg c =
        Moves-if (not c.opts.enable_input) _ _
          (λ _. Moves-same (Same-pair none (block_input-Same env.now "keyboard" msg c)))
          (λ e. Moves-payload _ _ (λ p.
            Moves-if (not env.has_injector) _ _ (λ _. Moves-same (Same-pair _ refl))
              (λ _.
                inject-Moves env (keyboard p) c _ (ground (arith))
                  (core-record_audit stores env.now _ _ _ _ _ _))))
