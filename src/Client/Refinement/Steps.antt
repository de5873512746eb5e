-- ===== src/Client/Refinement/Steps.antt =====
-- Every step of a client is a step of its core.
use beacon_desk.Prelude.{
  ℕ, ◌≡◌, refl, sym, ap, ◌∙◌, String, Bool, true, false, not, ◌||◌, Option, none, some, is_some,
  List, ◌==◌, if_rule, option_rule, arith,
}
use beacon_desk.Prelude.Int.{ℤ}
use beacon_desk.Protocol.Message.{Envelope}
use beacon_desk.ClientOptions.{Options, with_defaults}
use beacon_desk.Desktop.ChangeDetector.{Frame}
use beacon_desk.Client.State.{Conn, Client, Stores, Texts, Env, Outcome}
use beacon_desk.Client.Basics.{emit, clear_session, clear_pending}
use beacon_desk.Client.Media.{media_options}
use beacon_desk.Client.Streams.{restart_stream, update_options}
use beacon_desk.Client.Connection.{
  ReadLoop, retrying, waiting, ended, connect, connected_state, reconnecting_state,
  disconnected_state, mark_disconnected, close, announce_reconnect, resume, keep_registered, retry,
  read_round, lose_connection, heartbeat_tick, telemetry_tick,
}
use beacon_desk.Client.Steps.{
  Step, read, announce, reconnect, give_up, heartbeat, telemetry, frame, status, command, options,
  media, quit,
}
use beacon_desk.Client.Core.{
  Core, core, attached_of, with_attached, fainted, with_enabled, resent, CoreStep, stay, reset,
  media as media_core, leave, depart, clear, attach, faint, quit as quit_core, to_core, same_core,
}
use beacon_desk.Client.Refinement.Basics.{core-write, settle_rule}
use beacon_desk.Client.Refinement.Commands.{register-Same, run_command-Same}
use beacon_desk.Client.Refinement.Handlers.{core-start_configured_stream}
use beacon_desk.Client.Refinement.Dispatch.{read_message-core}
use beacon_desk.Client.Refinement.Frames.{
  send_status-core, stream_round-Round, Round-CoreStep, Round-attached,
}

-- The read loop that tries again, or waits for that, has no connection.
abbrev pub is_apart : ReadLoop → Bool
is_apart (retrying delay) = true
is_apart (waiting delay) = true
is_apart _ = false

pub record Fits {D A : Type 0} (c : Client D A) (loop : ReadLoop) : Type 0 where
  pub apart : is_apart loop ≡ true → is_some c.conn ≡ false

-- A step of the core, after which the read loop still fits.
pub record Refined {D A : Type 0} (c d : Client D A) (loop : ReadLoop) : Type 0 where
  pub step : CoreStep (core c) (core d)
  pub fits : Fits d loop

module _ {D A : Type 0} where
  -- Where neither the connection nor the read loop moves.
  beside :
      (c d : Client D A) (loop : ReadLoop)
      → CoreStep (core c) (core d)
      → is_some d.conn ≡ is_some c.conn
      → Fits c loop
      → Refined c d loop
  beside c d loop step same fits = record {
    step = step;
    fits = record { apart = λ h. same ∙ fits.apart h };
  }

  beside_same :
      (c d : Client D A) (loop : ReadLoop) → core d ≡ core c → Fits c loop → Refined c d loop
  beside_same c d loop h fits = beside c d loop (same_core (sym h)) (ap attached_of h) fits

  over : {c d : Client D A} → CoreStep (core c) (core d) → Refined c d ended
  over step = record { step = step; fits = record { apart = λ e. ground (arith) } }

  lose_connection-Refined :
      (now : ℕ) (reason : String) (c : Client D A)
      → is_some c.conn ≡ true
      → Refined c (lose_connection now reason c).0 (lose_connection now reason c).1
  unfolding lose_connection mark_disconnected disconnected_state close clear_session emit
  lose_connection-Refined now reason c on =
      if_rule Left c.opts.disable_reconnect _ _
        (λ _.
          if_rule (λ d. Refined c d ended) c.closed _ _ (λ _. over (leave false on))
            (λ opened. over (depart on opened)))
        (λ _. record { step = leave false on; fits = record { apart = λ _. refl } })
    where
      Left : Client D A × ReadLoop → Type 0
      Left r = Refined c r.0 r.1

  read_round-Refined :
      (stores : Stores D A) (texts : Texts) (env : Env) (message : Option Envelope)
      (reason : String) (c : Client D A)
      → Refined c
          (read_round stores texts env message reason c).0
          (read_round stores texts env message reason c).1
  unfolding read_round
  read_round-Refined stores texts env message reason c =
      option_rule Left c.conn _ _
        (λ h. record { step = stay; fits = record { apart = λ _. ap is_some h } })
        (λ k h.
          option_rule Left message _ _
            (λ _. lose_connection-Refined env.now reason c (ap is_some h))
            (λ msg _. record {
              step = read_message-core stores texts env msg c (ap is_some h);
              fits = record { apart = λ e. ground (arith) };
            }))
    where
      Left : Client D A × ReadLoop → Type 0
      Left r = Refined c r.0 r.1

  announce_reconnect-Refined :
      (texts : Texts) (now : ℕ) (delay : ℤ) (c : Client D A)
      → Fits c (retrying delay)
      → Refined c (announce_reconnect texts now delay c) (waiting delay)
  unfolding announce_reconnect reconnecting_state clear_session clear_pending emit
  announce_reconnect-Refined texts now delay c fits = record {
    step = clear (fits.apart refl);
    fits = record { apart = λ _. fits.apart refl };
  }

  -- What follows the registration on a new connection.
  resume-Refined :
      (texts : Texts) (now : ℕ) (delay : ℤ) (c : Client D A) (o : Outcome D A)
      → is_some c.conn ≡ false
      → core o.0 ≡ with_attached (core c) true
      → Refined c
          (resume texts now delay (keep_registered o)).0
          (resume texts now delay (keep_registered o)).1
  unfolding resume keep_registered emit
  resume-Refined texts now delay c (d, none) off h = record {
    step = to_core (sym h) (attach off);
    fits = record { apart = λ e. ground (arith) };
  }
  resume-Refined texts now delay c (d, some e) off h = record {
    step = same_core (ap (with_attached (core c)) off ∙ ap detached (sym h));
    fits = record { apart = λ _. refl };
  }
    where
      detached : Core → Core
      detached k = with_attached k false

  retry-Refined :
      (texts : Texts) (now : ℕ) (delay : ℤ) (dialled : Option Conn) (c : Client D A)
      → Fits c (waiting delay)
      → Refined c (retry texts now delay dialled c).0 (retry texts now delay dialled c).1
  unfolding retry connect connected_state emit resume
  retry-Refined texts now delay none c fits = record {
    step = stay;
    fits = record { apart = λ _. fits.apart refl };
  }
  retry-Refined texts now delay (some k) c fits =
      resume-Refined texts now delay c _ (fits.apart refl)
        (register-Same now (record c { conn = some k }) _ refl).same

  heartbeat_tick-Refined :
      (texts : Texts) (now : ℕ) (loop : ReadLoop) (c : Client D A)
      → Fits c loop
      → Refined c (heartbeat_tick texts now c) loop
  unfolding heartbeat_tick emit
  heartbeat_tick-Refined texts now loop c fits =
      if_rule (λ d. Refined c d loop) c.heartbeats _ _
        (λ beats.
          settle_rule (λ d. Refined c d loop) _ _ _ (beside_same c _ loop (core-write _ _) fits)
            (λ e.
              beside c _ loop (to_core (ap fainted (sym (core-write _ _))) (faint beats))
                (ap attached_of (core-write _ _)) fits))
        (λ _. beside_same c c loop refl fits)

  telemetry_tick-Refined :
      (texts : Texts) (now : ℕ) (loop : ReadLoop) (c : Client D A)
      → Fits c loop
      → Refined c (telemetry_tick texts now c) loop
  unfolding telemetry_tick emit
  telemetry_tick-Refined texts now loop c fits =
      if_rule (λ d. Refined c d loop) (c.state.session_id == "") _ _
        (λ _. beside_same c c loop refl fits)
        (λ _.
          settle_rule (λ d. Refined c d loop) _ _ _ (beside_same c _ loop (core-write _ _) fits)
            (λ e. beside_same c _ loop (core-write _ _) fits))

  update_options-Refined :
      (now : ℕ) (opts : Options) (loop : ReadLoop) (c : Client D A)
      → c.closed ≡ false
      → Fits c loop
      → Refined c (update_options now opts c) loop
  unfolding update_options restart_stream
  update_options-Refined now opts loop c opened fits =
      let o = with_defaults opts in
      let sends = o.send_screen_frames || o.send_mock_frames in
      let resend : Bool → Core =
        λ shown. with_enabled o.enable_input (resent (core c) sends none shown) in
      let same = core-start_configured_stream now c.state.session_id _ in
      if_rule (λ d. Refined c d loop) (c.state.session_id == "" || not c.state.should_send_view) _ _
        (λ e. beside c _ loop (to_core (ap resend (ap not e)) (reset _ sends opened)) refl fits)
        (λ e.
          beside c _ loop
            (to_core (ap resend (ap not e) ∙ sym same) (reset o.enable_input sends opened))
            (ap attached_of same) fits)

  close-Refined : (loop : ReadLoop) (c : Client D A) → Fits c loop → Refined c (close c) loop
  unfolding close
  close-Refined loop c fits =
      if_rule (λ d. Refined c d loop) c.closed _ _ (λ _. beside_same c c loop refl fits)
        (λ opened. record { step = quit_core opened; fits = record { apart = λ _. refl } })

  module _ (stores : Stores D A) (texts : Texts) (hash : Frame → ℕ) (encode : List ℕ → String) where
    -- Every step of a client (a round of one of its goroutines, or a call of its window) from
    -- a read loop that fits, that is, one that has no connection while it tries again, leaves
    -- a read loop that fits, and is a step of the core. That is one of these. It changes
    -- nothing of the core. Or, with a connection, it enters a session, and then the stream is
    -- the session's own if its view is to be sent and the options let frames be sent, the one
    -- before if the view is to be sent and the session has no name, and else none. Or the
    -- viewer's controls, with a connection, or the window's options, before the client is
    -- closed, change what is sent (the options also whether input is enabled): where a
    -- session with a name and a view to send is on, its stream starts again or, if no frames
    -- are sent, there is none; elsewhere the controls leave the stream alone, and the options
    -- stop it. Or the media options change what is sent, and the stream stays. Or a stream
    -- that runs ends. Or, with a connection, the session and its stream end, and the
    -- connection may end with them, and the client may close. Or the state loses its session
    -- while there is no connection. Or a connection is found where there was none. Or the
    -- heartbeats that were sent end. Or the client closes, which ends its connection, its
    -- stream and its heartbeats. Or one event is injected while input is enabled.
    pub Step-Refined :
        {c d : Client D A} {l m : ReadLoop}
        → Fits c l
        → Step stores texts hash encode c l d m
        → Refined c d m
    unfolding media_options
    Step-Refined {c = c} fits (read env message reason) =
        read_round-Refined stores texts env message reason c
    Step-Refined {c = c} fits (announce now delay opened) =
        announce_reconnect-Refined texts now delay c fits
    Step-Refined {c = c} fits (reconnect now delay dialled opened) =
        retry-Refined texts now delay dialled c fits
    Step-Refined {c = c} fits (give_up loop gone) = over stay
    Step-Refined {c = c} fits (heartbeat now loop) = heartbeat_tick-Refined texts now loop c fits
    Step-Refined {c = c} fits (telemetry now loop) = telemetry_tick-Refined texts now loop c fits
    Step-Refined {c = c} fits (frame now loop available captured stream h) =
        let round = stream_round-Round hash encode texts now available captured stream c h in
        beside c _ loop (Round-CoreStep stream c _ h round) (Round-attached stream c _ round) fits
    Step-Refined {c = c} fits (status now loop session rest h) =
        beside_same c _ loop (send_status-core now session rest c) fits
    Step-Refined {c = c} fits (command env loop asked) =
        beside_same c _ loop (run_command-Same stores texts env asked c).same fits
    Step-Refined {c = c} fits (options now loop opts opened) =
        update_options-Refined now opts loop c opened fits
    Step-Refined {c = c} fits (media loop payload) = beside c _ loop (media_core _) refl fits
    Step-Refined {c = c} fits (quit loop) = close-Refined loop c fits
