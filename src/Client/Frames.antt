-- ===== src/Client/Frames.antt =====
-- client.go: the loops that send frames: `screenFrameLoop`, `mockFrameLoop` and the frames of text.
-- `hash` is the hash of a frame, `encode` is base64; a capture that fails gives nothing.
use Prim.Native.Char.{code}
use Prim.Native.String.{◌++◌ as append}
use beacon_desk.Prelude.{
  ℕ, ◌+◌, ◌-◌, ◌*◌, String, Bool, true, not, Option, none, some, List, ltb, leb, ◌==◌,
  if◌then◌else◌, length,
}
use beacon_desk.Prelude.Int.{pos, scale, wrap64}
use beacon_desk.Config.{second}
use beacon_desk.Protocol.Types.{
  type_stream_frame, stream_kind_jpeg, stream_kind_status, stream_kind_error,
}
use beacon_desk.Protocol.Message.{unix_milli}
use beacon_desk.Protocol.Payloads.{encode_stream_frame}
use beacon_desk.Desktop.ChangeDetector.{Frame, observe}
use beacon_desk.Client.State.{
  Stream, screen, mock, Client, no_capturer, capture_failed, Texts, Outcome,
}
use beacon_desk.Client.Basics.{set_state, emit, write}
use beacon_desk.Client.Media.{adjust_capture_quality, adjust_capture_fps}
use beacon_desk.Client.Streams.{show_text_frame, screen_sending_disabled_message}
use beacon_desk.Client.Commands.{session_envelope, settle}

-- The bytes of a character in UTF-8, and `len` of a string.
abbrev pub utf8_size : ℕ → ℕ
utf8_size c = if ltb c 0x80 then 1 else if ltb c 0x800 then 2 else if ltb c 0x10000 then 3 else 4

unfoldable pub byte_length : String → ℕ
byte_length String.[] = 0
byte_length (String.◌∷◌ c s) = utf8_size (code c) + byte_length s

-- Has the last report of an error been sent five seconds ago, or never?
abbrev pub may_report : Option ℕ → ℕ → Bool
may_report none now = true
may_report (some sent) now = leb (5 * second) (now - sent)

module _ {D A : Type 0} where
  -- `streamTextFrame`.
  unfoldable pub stream_text_frame : ℕ → String → String → String → Client D A → Outcome D A
  stream_text_frame now session kind message c = write c (
      session_envelope now type_stream_frame session
        (encode_stream_frame (record {
          frame_id = pos (unix_milli now);
          kind = kind;
          content = if message == "" then kind else message;
          mime_type = "";
          width = pos 1280;
          height = pos 720;
          timestamp = pos (unix_milli now);
        }))
        c)

  -- The goroutine "stream-status": the error of its write is dropped.
  unfoldable pub send_status : ℕ → String → List String → Client D A → Client D A
  send_status now session rest c =
      (stream_text_frame now session stream_kind_status screen_sending_disabled_message
        (record c { status_due = rest })).0

  abbrev pub set_stream : Option Stream → Client D A → Client D A
  set_stream stream c = record c { stream = stream }

  -- The start of `screenFrameLoop`, which needs a capturer.
  unfoldable pub open_screen : Texts → ℕ → Bool → Stream → Client D A → Client D A
  open_screen texts now available stream c =
      let quality = c.opts.capture_quality in
      let fps = c.opts.capture_fps in
      let message = append "无法初始化屏幕采集：" (texts.show_fault no_capturer) in
      if available
      then set_stream
          (some (record stream {
            opened = true;
            quality = quality;
            fps = fps;
            detector = record stream.detector {
              static_frame_interval = wrap64 (scale c.opts.static_frame_seconds second);
            };
          }))
          (set_state (λ s. record s { capture_quality = quality; current_fps = fps }) c)
      else set_stream none
          (stream_text_frame now stream.session stream_kind_error message (
            set_state (show_text_frame stream_kind_error "" message)
              (emit now "screen.error" (texts.show_fault no_capturer) c))).0

  -- A capture that failed: it is told at most every five seconds.
  unfoldable pub fail_capture : Texts → ℕ → Stream → Client D A → Client D A
  fail_capture texts now stream c =
      let message = append "无法采集屏幕：" (texts.show_fault capture_failed) in
      let shown =
        set_state (show_text_frame stream_kind_error "" message)
          (emit now "screen.error" (texts.show_fault capture_failed) c) in
      if may_report stream.last_error_sent now
      then (stream_text_frame now stream.session stream_kind_error message
          (set_stream (some (record stream { last_error_sent = some now })) shown)).0
      else shown

  -- What follows a frame that was sent: the counters, the quality and the rate of the next ones.
  unfoldable pub after_frame : Texts → ℕ → Stream → Frame → Bool → Client D A → Client D A
  after_frame texts now stream frame changed c =
      let counted = record c {
        frames_sent = c.frames_sent + 1;
        bytes_sent = c.bytes_sent + length frame.pixels;
      } in
      let adjusted = adjust_capture_quality texts now stream.quality counted in
      let paced = adjust_capture_fps texts now stream.fps adjusted.0 in
      let size = append (texts.show_int frame.id) (
        append " (" (
          append (texts.show_int frame.width)
            (append "x" (append (texts.show_int frame.height) ")")))) in
      let kept =
        set_stream (some (record stream { quality = adjusted.1; fps = paced.1 })) paced.0 in
      if changed
      then emit now "screen.sent" (append "sent jpeg frame " size) kept
      else emit now "screen.keepalive" (append "sent static jpeg frame " size) kept

  module _ (hash : Frame → ℕ) (encode : List ℕ → String) where
    -- A frame that was captured, in a loop that is open.
    unfoldable pub send_frame : Texts → ℕ → Stream → Frame → Client D A → Client D A
    send_frame texts now stream frame c =
        let observed = observe hash stream.detector now frame in
        let stream' = record stream { detector = observed.0 } in
        let written = write (set_stream (some stream') c) (
          session_envelope now type_stream_frame stream.session
            (encode_stream_frame (record {
              frame_id = frame.id;
              kind = stream_kind_jpeg;
              content = encode frame.pixels;
              mime_type = "image/jpeg";
              width = frame.width;
              height = frame.height;
              timestamp = frame.timestamp;
            }))
            c) in
        if not observed.1.send
        then set_stream (some stream') c
        else settle written (after_frame texts now stream' frame observed.1.changed)
            (λ e d. set_stream none (emit now "screen.error" (texts.show_fault e) d))

    -- A tick of `screenFrameLoop`.
    unfoldable pub screen_tick : Texts → ℕ → Option Frame → Stream → Client D A → Client D A
    screen_tick texts now none stream c = fail_capture texts now stream c
    screen_tick texts now (some frame) stream c = send_frame texts now stream frame c

  -- A tick of `mockFrameLoop`.
  unfoldable pub mock_tick : Texts → ℕ → Stream → Client D A → Client D A
  mock_tick texts now stream c =
      let id = stream.frame_id + 1 in
      let content =
        append "mock desktop frame "
          (append (texts.show_int (pos id)) (append " from " c.identity.device_id)) in
      let written = write (set_stream (some (record stream { frame_id = id })) c) (
        session_envelope now type_stream_frame stream.session
          (encode_stream_frame (record {
            frame_id = pos id;
            kind = stream_kind_status;
            content = content;
            mime_type = "";
            width = pos 1280;
            height = pos 720;
            timestamp = pos (unix_milli now);
          }))
          c) in
      settle written
        (λ d.
          emit now "stream.sent" (append "sent mock frame " (texts.show_int (pos id))) (record d {
            frames_sent = d.frames_sent + 1;
            bytes_sent = d.bytes_sent + byte_length content;
          }))
        (λ e d. set_stream none (emit now "stream.error" (texts.show_fault e) d))

  -- The round of the loop that is running, if there is one. `available` says whether the screen can
  -- be captured at all.
  unfoldable pub stream_round :
      (Frame → ℕ)
      → (List ℕ → String)
      → Texts
      → ℕ
      → Bool
      → Option Frame
      → Stream
      → Client D A
      → Client D A
  stream_round hash encode texts now available captured stream c = elim stream.kind [
    | screen ↦
        if stream.opened
        then screen_tick hash encode texts now captured stream c
        else open_screen texts now available stream c
    | mock ↦ mock_tick texts now stream c
  ]
