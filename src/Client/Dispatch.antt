-- ===== src/Client/Dispatch.antt =====
-- client.go: `handleMessage`, the dispatch on the type of a message.
use beacon_desk.Prelude.{none, ◌==◌, if◌then◌else◌}
use beacon_desk.Protocol.Types.{
  type_device_registered, type_auth_code_published, type_web_share_created,
  type_web_share_list_result, type_web_share_revoked, type_web_share_status, type_heartbeat_pong,
  type_session_request, type_session_confirm, type_session_ready, type_stream_frame,
  type_input_mouse, type_input_keyboard, type_stream_control, type_telemetry_stats,
  type_session_close, type_error,
}
use beacon_desk.Protocol.Message.{Envelope}
use beacon_desk.Client.State.{Client, Stores, Texts, Env, Outcome}
use beacon_desk.Client.Basics.{emit}
use beacon_desk.Client.Handlers.{
  on_registered, on_auth_code_published, on_web_share_created, on_web_share_list,
  on_web_share_revoked, on_web_share_status, on_heartbeat_pong, handle_session_request,
  on_session_confirm, on_session_ready, on_stream_frame, handle_input_mouse, handle_input_keyboard,
  handle_stream_control, on_telemetry, on_session_close, on_error,
}

module _ {D A : Type 0} (stores : Stores D A) (texts : Texts) where
  unfoldable pub handle_message : Env → Envelope → Client D A → Outcome D A
  handle_message env msg c =
      if msg.type == type_device_registered
      then on_registered env.now msg c
      else if msg.type == type_auth_code_published
      then on_auth_code_published env.now msg c
      else if msg.type == type_web_share_created
      then on_web_share_created env.now msg c
      else if msg.type == type_web_share_list_result
      then on_web_share_list texts env.now msg c
      else if msg.type == type_web_share_revoked
      then on_web_share_revoked env.now msg c
      else if msg.type == type_web_share_status
      then on_web_share_status env.now msg c
      else if msg.type == type_heartbeat_pong
      then on_heartbeat_pong texts env.now msg c
      else if msg.type == type_session_request
      then handle_session_request stores env.now msg c
      else if msg.type == type_session_confirm
      then on_session_confirm env.now msg c
      else if msg.type == type_session_ready
      then on_session_ready stores env.now msg c
      else if msg.type == type_stream_frame
      then on_stream_frame texts env.now msg c
      else if msg.type == type_input_mouse
      then handle_input_mouse stores env msg c
      else if msg.type == type_input_keyboard
      then handle_input_keyboard stores env msg c
      else if msg.type == type_stream_control
      then handle_stream_control env.now msg c
      else if msg.type == type_telemetry_stats
      then on_telemetry texts env.now msg c
      else if msg.type == type_session_close
      then on_session_close env.now c
      else if msg.type == type_error
      then on_error env.now msg c
      else (emit env.now "message.ignored" msg.type c, none)
