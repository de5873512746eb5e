-- ===== src/Client/Steps.antt =====
-- The client as a transition system: the goroutines of client.go and the calls of the window, in any
-- interleaving. Clocks, what is read, dialled and captured, and errors of writes are the
-- environment's choice.
use beacon_desk.Prelude.{ℕ, ◌≡◌, String, Bool, true, false, Option, some, List, ◌∷◌}
use beacon_desk.Prelude.Int.{ℤ}
use beacon_desk.Protocol.Message.{Envelope}
use beacon_desk.Protocol.Payloads.{StreamControlPayload, InputMousePayload, InputKeyboardPayload}
use beacon_desk.Desktop.ChangeDetector.{Frame}
use beacon_desk.ClientOptions.{Options}
use beacon_desk.Client.State.{Conn, Stream, Client, Stores, Texts, Env, Outcome}
use beacon_desk.Client.Media.{update_media_options}
use beacon_desk.Client.Streams.{update_options}
use beacon_desk.Client.Commands.{
  send_stream_control, send_mouse, send_keyboard, request_session_with_code,
  generate_temporary_code, create_web_share, refresh_web_shares, revoke_web_share, approve_session,
  reject_session,
}
use beacon_desk.Client.Connection.{
  ReadLoop, reading, retrying, waiting, ended, close, announce_reconnect, retry, read_round,
  heartbeat_tick, telemetry_tick,
}
use beacon_desk.Client.Frames.{send_status, stream_round}

-- The calls of the window that write to the relay.
pub data Command : Type 0 where
  ask_session : String → String → Command
  make_code : ℤ → Command
  make_share : ℤ → String → String → Command
  list_shares : Command
  revoke_share : String → String → Command
  approve : Bool → Command
  reject : String → Command
  control : StreamControlPayload → Command
  move_mouse : InputMousePayload → Command
  press_key : InputKeyboardPayload → Command

module _ {D A : Type 0} (stores : Stores D A) (texts : Texts) where
  unfoldable pub run_command : Env → Command → Client D A → Outcome D A
  run_command env (ask_session target code) c = request_session_with_code env.now target code c
  run_command env (make_code ttl) c = generate_temporary_code env ttl c
  run_command env (make_share ttl mode label) c = create_web_share texts env.now ttl mode label c
  run_command env list_shares c = refresh_web_shares env.now c
  run_command env (revoke_share id token) c = revoke_web_share env.now id token c
  run_command env (approve remember) c = approve_session stores env.now remember c
  run_command env (reject reason) c = reject_session stores env.now reason c
  run_command env (control payload) c = send_stream_control env.now payload c
  run_command env (move_mouse payload) c = send_mouse env.now payload c
  run_command env (press_key payload) c = send_keyboard env.now payload c

  -- The client, and where its read loop is.
  pub data Step (hash : Frame → ℕ) (encode : List ℕ → String) (c : Client D A)
      : ReadLoop → Client D A → ReadLoop → Type 0 where
    read :
        (env : Env) (message : Option Envelope) (reason : String)
        → Step hash encode c reading
            (read_round stores texts env message reason c).0
            (read_round stores texts env message reason c).1
    announce :
        (now : ℕ) (delay : ℤ)
        → c.closed ≡ false
        → Step hash encode c (retrying delay) (announce_reconnect texts now delay c) (waiting delay)
    reconnect :
        (now : ℕ) (delay : ℤ) (dialled : Option Conn)
        → c.closed ≡ false
        → Step hash encode c
            (waiting delay)
            (retry texts now delay dialled c).0
            (retry texts now delay dialled c).1
    give_up : (loop : ReadLoop) → c.closed ≡ true → Step hash encode c loop c ended
    heartbeat :
        (now : ℕ) (loop : ReadLoop) → Step hash encode c loop (heartbeat_tick texts now c) loop
    telemetry :
        (now : ℕ) (loop : ReadLoop) → Step hash encode c loop (telemetry_tick texts now c) loop
    frame :
        (now : ℕ) (loop : ReadLoop) (available : Bool) (captured : Option Frame) (stream : Stream)
        → c.stream ≡ some stream
        → Step hash encode c loop
            (stream_round hash encode texts now available captured stream c)
            loop
    status :
        (now : ℕ) (loop : ReadLoop) (session : String) (rest : List String)
        → c.status_due ≡ session ∷ rest
        → Step hash encode c loop (send_status now session rest c) loop
    command :
        (env : Env) (loop : ReadLoop) (asked : Command)
        → Step hash encode c loop (run_command env asked c).0 loop
    options :
        (now : ℕ) (loop : ReadLoop) (opts : Options)
        → c.closed ≡ false
        → Step hash encode c loop (update_options now opts c) loop
    media :
        (loop : ReadLoop) (payload : StreamControlPayload)
        → Step hash encode c loop (update_media_options payload c) loop
    quit : (loop : ReadLoop) → Step hash encode c loop (close c) loop

  pub data Reach (hash : Frame → ℕ) (encode : List ℕ → String) (c : Client D A) (l : ReadLoop)
      : Client D A → ReadLoop → Type 0 where
    here : Reach hash encode c l c l
    next :
        {d e : Client D A} {m n : ReadLoop}
        → Reach hash encode c l d m
        → Step hash encode d m e n
        → Reach hash encode c l e n
