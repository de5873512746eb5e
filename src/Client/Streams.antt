-- ===== src/Client/Streams.antt =====
-- client.go: starting and stopping the loop that sends frames, and the changes of the options that
-- restart it. The operations are those of a client that has been started.
use beacon_desk.Prelude.{
  ℕ, ◌==◌, String, false, not, ◌||◌, none, some, [], ◌∷◌, ◌++◌, if◌then◌else◌,
}
use beacon_desk.Prelude.Int.{pos}
use beacon_desk.Protocol.Types.{stream_kind_status}
use beacon_desk.ClientOptions.{Options, with_defaults}
use beacon_desk.Client.State.{State, StreamKind, screen, mock, Stream, Client}
use beacon_desk.Client.Basics.{set_state, emit, stop_stream}

abbrev pub screen_sending_disabled_message : String
screen_sending_disabled_message = "被控端尚未开启屏幕画面发送，请在被控端设置 -> 授权中开启“发送屏幕画面”。"

-- A loop that has not made its first round.
abbrev pub new_stream : StreamKind → String → Stream
new_stream kind session = record {
  kind = kind;
  session = session;
  opened = false;
  quality = pos 0;
  fps = pos 0;
  detector = record {
    static_frame_interval = pos 0;
    initialized = false;
    last_hash = 0;
    last_sent_at = none;
  };
  last_error_sent = none;
  frame_id = 0;
}

-- What the window shows in place of a frame: a status, or an error.
abbrev pub show_text_frame : String → String → String → State → State
show_text_frame kind status error s = record s {
  last_frame_kind = kind;
  last_frame_status = status;
  last_frame_error = error;
  last_frame_data = "";
  last_frame_width = pos 0;
  last_frame_height = pos 0;
}

module _ {D A : Type 0} where
  -- `startStreamLoop`.
  abbrev pub start_stream : StreamKind → String → Client D A → Client D A
  start_stream kind session c = record c { stream = some (new_stream kind session) }

  -- The default case of `startConfiguredStreamLoop`.
  unfoldable pub disable_stream : ℕ → String → Client D A → Client D A
  disable_stream now session c =
      let shown =
        set_state (show_text_frame stream_kind_status screen_sending_disabled_message "") c in
      emit now "screen.disabled" "screen frame sending is disabled"
        (record shown { status_due = shown.status_due ++ session ∷ [] })

  unfoldable pub start_configured_stream : ℕ → String → Client D A → Client D A
  start_configured_stream now session c =
      if session == ""
      then c
      else if c.opts.send_screen_frames
      then start_stream screen session (stop_stream c)
      else if c.opts.send_mock_frames
      then start_stream mock session (stop_stream c)
      else disable_stream now session (stop_stream c)

  -- `restartStreamLoopForCurrentState`.
  unfoldable pub restart_stream : ℕ → Client D A → Client D A
  restart_stream now c =
      if c.state.session_id == "" || not c.state.should_send_view
      then stop_stream c
      else start_configured_stream now c.state.session_id c

  -- `UpdateOptions`: every field is taken over.
  unfoldable pub update_options : ℕ → Options → Client D A → Client D A
  update_options now options c =
      let opts = with_defaults options in
      let named =
        set_state (λ s. record s { device_name = opts.device_name; role = opts.role })
          (record c { opts = opts }) in
      restart_stream now named
