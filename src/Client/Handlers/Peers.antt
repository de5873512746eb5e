-- ===== src/Client/Handlers/Peers.antt =====
-- client.go, `handleMessage`: what the peer of a session sends: frames, controls, telemetry, and
-- input, which is injected.
use Prim.Native.String.{◌++◌ as append}
use beacon_desk.Prelude.{ℕ, ◌+◌, String, not, ◌||◌, none, some, ◌∷◌, [], ◌++◌, ◌==◌, if◌then◌else◌}
use beacon_desk.Protocol.Types.{stream_kind_jpeg, stream_kind_status, stream_kind_error}
use beacon_desk.Protocol.Message.{Envelope}
use beacon_desk.Protocol.Payloads.{
  StreamFramePayload, decode_stream_frame, decode_stream_control, decode_input_mouse,
  decode_input_keyboard, decode_telemetry,
}
use beacon_desk.Client.State.{
  State, Injected, mouse, keyboard, Client, Stores, no_injector, injection_failed, Texts, Env,
  Outcome,
}
use beacon_desk.Client.Basics.{set_state, emit, record_audit}
use beacon_desk.Client.Media.{update_media_options}
use beacon_desk.Client.Streams.{start_configured_stream}
use beacon_desk.Client.Handlers.Replies.{with_payload}

-- What the window shows of a frame.
unfoldable pub frame_state : StreamFramePayload → State → State
frame_state p s =
    let sized = record s {
      last_frame_kind = p.kind;
      last_frame_width = p.width;
      last_frame_height = p.height;
    } in
    if p.kind == stream_kind_jpeg
    then record sized {
      last_frame_data = append "data:image/jpeg;base64," p.content;
      last_frame_status = "";
      last_frame_error = "";
    }
    else if p.kind == stream_kind_status
    then record sized { last_frame_status = p.content; last_frame_error = "" }
    else if p.kind == stream_kind_error
    then record sized { last_frame_error = p.content; last_frame_status = ""; last_frame_data = "" }
    else sized

module _ {D A : Type 0} where
  -- The event for a frame.
  unfoldable pub frame_event : Texts → ℕ → StreamFramePayload → Client D A → Client D A
  frame_event texts now p c =
      if p.kind == stream_kind_jpeg
      then emit now "stream.frame"
          (append "received jpeg frame " (
            append (texts.show_int p.frame_id) (
              append " (" (
                append (texts.show_int p.width)
                  (append "x" (append (texts.show_int p.height) ")"))))))
          c
      else if p.kind == stream_kind_error
      then emit now "stream.error" p.content c
      else if p.kind == stream_kind_status
      then emit now "stream.status" p.content c
      else emit now "stream.frame"
          (append "received frame " (append (texts.show_int p.frame_id) (append ": " p.content))) c

  unfoldable pub on_stream_frame : Texts → ℕ → Envelope → Client D A → Outcome D A
  on_stream_frame texts now msg c = with_payload (decode_stream_frame msg.payload) c (λ p. (
    frame_event texts now p
        (set_state (frame_state p) (record c { frames_received = c.frames_received + 1 })),
    none,
  ))

  unfoldable pub on_telemetry : Texts → ℕ → Envelope → Client D A → Outcome D A
  on_telemetry texts now msg c = with_payload (decode_telemetry msg.payload) c (λ p. (
    emit now "telemetry.stats"
        (append "peer rtt=" (
          append (texts.show_int p.rtt_millis) (
            append "ms bitrate=" (
              append (texts.show_int p.bitrate_kbps)
                (append "kbps loss=" (append (texts.show_int p.packet_loss_permy) "/10000"))))))
        c,
    none,
  ))

  -- `handleStreamControl`.
  unfoldable pub handle_stream_control : ℕ → Envelope → Client D A → Outcome D A
  handle_stream_control now msg c = with_payload (decode_stream_control msg.payload) c (λ p.
      let c' = emit now "stream.control" "updated stream controls" (update_media_options p c) in
      if c'.state.session_id == "" || not c'.state.should_send_view
      then (c', none)
      else (start_configured_stream now c'.state.session_id c', none))

  -- The call of the injector.
  abbrev pub inject : Env → Injected → Client D A → Outcome D A
  inject env event c =
      if env.injects
      then (record c { injected = c.injected ++ event ∷ [] }, none)
      else (c, some injection_failed)

  module _ (stores : Stores D A) where
    -- Input that is not enabled is noted, and dropped.
    unfoldable pub block_input : ℕ → String → Envelope → Client D A → Client D A
    block_input now device msg c =
        record_audit stores now "input.blocked" msg.from msg.session_id "" device (
          emit now "input.blocked"
            (append "blocked " (append device " input because remote input is disabled")) c)

    unfoldable pub handle_input_mouse : Env → Envelope → Client D A → Outcome D A
    handle_input_mouse env msg c =
        if not c.opts.enable_input
        then (block_input env.now "mouse" msg c, none)
        else with_payload (decode_input_mouse msg.payload) c (λ p.
          if not env.has_injector
          then (c, some no_injector)
          else inject env (mouse p)
              (record_audit stores env.now "input.mouse" msg.from msg.session_id "" p.action c))

    unfoldable pub handle_input_keyboard : Env → Envelope → Client D A → Outcome D A
    handle_input_keyboard env msg c =
        if not c.opts.enable_input
        then (block_input env.now "keyboard" msg c, none)
        else with_payload (decode_input_keyboard msg.payload) c (λ p.
          if not env.has_injector
          then (c, some no_injector)
          else inject env (keyboard p) (
              record_audit stores env.now "input.keyboard" msg.from msg.session_id ""
                (append p.action (append " " p.code)) c))
