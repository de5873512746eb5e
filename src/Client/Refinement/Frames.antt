-- ===== src/Client/Refinement/Frames.antt =====
-- A round of the loop that sends frames goes on with its session, or ends the loop.
use beacon_desk.Prelude.{
  ℕ, ◌≡◌, refl, sym, ap, ◌∙◌, String, Bool, not, Option, none, some, List, is_some, if_rule,
}
use beacon_desk.Prelude.Int.{ℤ, pos, ltb_ℤ}
use beacon_desk.Desktop.ChangeDetector.{Frame, observe}
use beacon_desk.Client.State.{StreamKind, Stream, screen, mock, Client, Texts}
use beacon_desk.Client.Basics.{emit}
use beacon_desk.Client.Media.{adjust_capture_quality, adjust_capture_fps}
use beacon_desk.Client.Frames.{
  stream_text_frame, send_status, open_screen, fail_capture, after_frame, send_frame, screen_tick,
  mock_tick, stream_round, may_report,
}
use beacon_desk.Client.Core.{
  core, stream_session, attached_of, with_streaming, CoreStep, finish, same_core, to_core,
}
use beacon_desk.Client.Refinement.Basics.{core-write, settle_rule}

module _ {D A : Type 0} where
  -- The same core, but for this stream.
  abbrev Runs : Option String → Client D A → Client D A → Type 0
  Runs session c d = core d ≡ with_streaming session (core c)

  -- What a round of the loop of a stream may leave.
  pub data Round (stream : Stream) (c d : Client D A) : Type 0 where
    goes_on : Runs (some stream.session) c d → Round stream c d
    ends : Runs none c d → Round stream c d

  text-core :
      (now : ℕ) (session kind message : String) (c : Client D A)
      → core (stream_text_frame now session kind message c).0 ≡ core c
  unfolding stream_text_frame
  text-core now session kind message c = core-write c _

  pub send_status-core :
      (now : ℕ) (session : String) (rest : List String) (c : Client D A)
      → core (send_status now session rest c) ≡ core c
  unfolding send_status
  send_status-core now session rest c = text-core now _ _ _ _

  quality-core :
      (texts : Texts) (now : ℕ) (current : ℤ) (c : Client D A)
      → core (adjust_capture_quality texts now current c).0 ≡ core c
  unfolding adjust_capture_quality emit
  quality-core texts now current c =
      if_rule Left (not (ltb_ℤ (pos 0) c.opts.bandwidth_limit_kbps)) _ _ (λ _. refl)
        (λ _. if_rule Left _ _ _ (λ _. refl) (λ _. refl))
    where
      Left : Client D A × ℤ → Type 0
      Left r = core r.0 ≡ core c

  fps-core :
      (texts : Texts) (now : ℕ) (current : ℤ) (c : Client D A)
      → core (adjust_capture_fps texts now current c).0 ≡ core c
  unfolding adjust_capture_fps emit
  fps-core texts now current c =
      if_rule Left (not (ltb_ℤ (pos 1) c.opts.capture_fps)) _ _ (λ _. refl)
        (λ _. if_rule Left _ _ _ (λ _. refl) (λ _. refl))
    where
      Left : Client D A × ℤ → Type 0
      Left r = core r.0 ≡ core c

  after_frame-Runs :
      (texts : Texts) (now : ℕ) (stream : Stream) (frame : Frame) (changed : Bool) (c : Client D A)
      → Runs (some stream.session) c (after_frame texts now stream frame changed c)
  unfolding after_frame emit
  after_frame-Runs texts now stream frame changed c =
      let kept =
        ap (with_streaming (some stream.session))
          (fps-core texts now stream.fps _ ∙ quality-core texts now stream.quality _) in
      if_rule (Runs (some stream.session) c) changed _ _ (λ _. kept) (λ _. kept)

  module _ (texts : Texts) (now : ℕ) (stream : Stream) where
    open_screen-Round :
        (available : Bool) (c : Client D A)
        → Round stream c (open_screen texts now available stream c)
    unfolding open_screen emit
    open_screen-Round available c =
        if_rule (Round stream c) available _ _ (λ _. goes_on refl)
          (λ _. ends (ap (with_streaming none) (text-core now _ _ _ _)))

    fail_capture-Round :
        (c : Client D A)
        → core c ≡ with_streaming (some stream.session) (core c)
        → Round stream c (fail_capture texts now stream c)
    unfolding fail_capture emit
    fail_capture-Round c running =
        if_rule (Round stream c) (may_report stream.last_error_sent now) _ _
          (λ _. goes_on (text-core now _ _ _ _)) (λ _. goes_on running)

    send_frame-Round :
        (hash : Frame → ℕ) (encode : List ℕ → String) (frame : Frame) (c : Client D A)
        → Round stream c (send_frame hash encode texts now stream frame c)
    unfolding send_frame emit
    send_frame-Round hash encode frame c =
        let observed = observe hash stream.detector now frame in
        if_rule (Round stream c) (not observed.1.send) _ _ (λ _. goes_on refl)
          (λ _.
            settle_rule (Round stream c) _ _ _
              (goes_on (
                after_frame-Runs texts now _ frame _ _
                ∙ ap (with_streaming (some stream.session)) (core-write _ _)))
              (λ e. ends (ap (with_streaming none) (core-write _ _))))

    mock_tick-Round : (c : Client D A) → Round stream c (mock_tick texts now stream c)
    unfolding mock_tick emit
    mock_tick-Round c =
        settle_rule (Round stream c) _ _ _ (goes_on (core-write _ _))
          (λ e. ends (ap (with_streaming none) (core-write _ _)))

    screen_tick-Round :
        (hash : Frame → ℕ) (encode : List ℕ → String) (captured : Option Frame) (c : Client D A)
        → core c ≡ with_streaming (some stream.session) (core c)
        → Round stream c (screen_tick hash encode texts now captured stream c)
    unfolding screen_tick
    screen_tick-Round hash encode none c running = fail_capture-Round c running
    screen_tick-Round hash encode (some frame) c running = send_frame-Round hash encode frame c

  -- The stream that is running is one of the core.
  running-core :
      (c : Client D A) (stream : Stream)
      → c.stream ≡ some stream
      → core c ≡ with_streaming (some stream.session) (core c)
  running-core c stream h = ap (λ s. with_streaming (stream_session s) (core c)) h

  pub stream_round-Round :
      (hash : Frame → ℕ) (encode : List ℕ → String) (texts : Texts) (now : ℕ) (available : Bool)
      (captured : Option Frame) (stream : Stream) (c : Client D A)
      → c.stream ≡ some stream
      → Round stream c (stream_round hash encode texts now available captured stream c)
  unfolding stream_round
  stream_round-Round hash encode texts now available captured stream c h =
      kind_rule stream.kind
        (if_rule (Round stream c) stream.opened _ _
          (λ _. screen_tick-Round texts now stream hash encode captured c (running-core c stream h))
          (λ _. open_screen-Round texts now stream available c))
        (mock_tick-Round texts now stream c)
    where
      kind_rule :
          (kind : StreamKind) {x y : Client D A}
          → Round stream c x
          → Round stream c y
          → Round stream c (elim kind [ screen ↦ x | mock ↦ y ])
      kind_rule screen hx hy = hx
      kind_rule mock hx hy = hy

  -- Such a round is a step of the core.
  pub Round-CoreStep :
      (stream : Stream) (c d : Client D A)
      → c.stream ≡ some stream
      → Round stream c d
      → CoreStep (core c) (core d)
  Round-CoreStep stream c d h (goes_on same) = same_core (running-core c stream h ∙ sym same)
  Round-CoreStep stream c d h (ends over) = to_core (sym over) (finish (ap stream_session h))

  pub Round-attached :
      (stream : Stream) (c d : Client D A) → Round stream c d → is_some d.conn ≡ is_some c.conn
  Round-attached stream c d (goes_on same) = ap attached_of same
  Round-attached stream c d (ends over) = ap attached_of over
