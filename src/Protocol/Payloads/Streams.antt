-- ===== src/Protocol/Payloads/Streams.antt =====
-- message.go: the payloads that devices exchange through a session: frames, controls, input and
-- telemetry.
use beacon_desk.Prelude.{String, Bool, Option, some, List, ◌>>=◌}
use beacon_desk.Prelude.Int.{ℤ}
use beacon_desk.Protocol.Json.{
  Json, int, text, object, end, field, string_field, int_field, string_list_field, pointer_field,
  raw_fields, omit_empty, omit_zero, omit_nil, omit_none,
}

-- `content` is the source's `Data`.
pub record StreamFramePayload : Type 0 where
  pub frame_id : ℤ
  pub kind : String
  pub content : String
  pub mime_type : String
  pub width : ℤ
  pub height : ℤ
  pub timestamp : ℤ

unfoldable pub decode_stream_frame : Option Json → Option StreamFramePayload
decode_stream_frame raw = do
  fields ← raw_fields raw
  frame_id ← int_field "frame_id" fields
  kind ← string_field "kind" fields
  content ← string_field "data" fields
  mime_type ← string_field "mime_type" fields
  width ← int_field "width" fields
  height ← int_field "height" fields
  timestamp ← int_field "timestamp" fields
  some (record {
    frame_id = frame_id;
    kind = kind;
    content = content;
    mime_type = mime_type;
    width = width;
    height = height;
    timestamp = timestamp;
  })

unfoldable pub encode_stream_frame : StreamFramePayload → Json
encode_stream_frame p = object (
    field "frame_id" (int p.frame_id) (
      field "kind" (text p.kind) (
        field "data" (text p.content) (
          omit_empty "mime_type" p.mime_type (
            omit_zero "width" p.width
              (omit_zero "height" p.height (field "timestamp" (int p.timestamp) end)))))))

-- `send_screen_frames` is a pointer, `none` if it is nil.
pub record StreamControlPayload : Type 0 where
  pub send_screen_frames : Option Bool
  pub capture_fps : ℤ
  pub capture_max_width : ℤ
  pub capture_max_height : ℤ
  pub capture_quality : ℤ
  pub bandwidth_limit_kbps : ℤ
  pub static_frame_seconds : ℤ

unfoldable pub decode_stream_control : Option Json → Option StreamControlPayload
decode_stream_control raw = do
  fields ← raw_fields raw
  send_screen_frames ← pointer_field "send_screen_frames" fields
  capture_fps ← int_field "capture_fps" fields
  capture_max_width ← int_field "capture_max_width" fields
  capture_max_height ← int_field "capture_max_height" fields
  capture_quality ← int_field "capture_quality" fields
  bandwidth_limit_kbps ← int_field "bandwidth_limit_kbps" fields
  static_frame_seconds ← int_field "static_frame_seconds" fields
  some (record {
    send_screen_frames = send_screen_frames;
    capture_fps = capture_fps;
    capture_max_width = capture_max_width;
    capture_max_height = capture_max_height;
    capture_quality = capture_quality;
    bandwidth_limit_kbps = bandwidth_limit_kbps;
    static_frame_seconds = static_frame_seconds;
  })

unfoldable pub encode_stream_control : StreamControlPayload → Json
encode_stream_control p = object (
    omit_nil "send_screen_frames" p.send_screen_frames (
      omit_zero "capture_fps" p.capture_fps (
        omit_zero "capture_max_width" p.capture_max_width (
          omit_zero "capture_max_height" p.capture_max_height (
            omit_zero "capture_quality" p.capture_quality (
              omit_zero "bandwidth_limit_kbps" p.bandwidth_limit_kbps
                (omit_zero "static_frame_seconds" p.static_frame_seconds end)))))))

pub record InputMousePayload : Type 0 where
  pub x : ℤ
  pub y : ℤ
  pub source_width : ℤ
  pub source_height : ℤ
  pub button : String
  pub action : String
  pub wheel_delta : ℤ

unfoldable pub decode_input_mouse : Option Json → Option InputMousePayload
decode_input_mouse raw = do
  fields ← raw_fields raw
  x ← int_field "x" fields
  y ← int_field "y" fields
  source_width ← int_field "source_width" fields
  source_height ← int_field "source_height" fields
  button ← string_field "button" fields
  action ← string_field "action" fields
  wheel_delta ← int_field "wheel_delta" fields
  some (record {
    x = x;
    y = y;
    source_width = source_width;
    source_height = source_height;
    button = button;
    action = action;
    wheel_delta = wheel_delta;
  })

unfoldable pub encode_input_mouse : InputMousePayload → Json
encode_input_mouse p = object (
    field "x" (int p.x) (
      field "y" (int p.y) (
        omit_zero "source_width" p.source_width (
          omit_zero "source_height" p.source_height (
            omit_empty "button" p.button
              (field "action" (text p.action) (omit_zero "wheel_delta" p.wheel_delta end)))))))

pub record InputKeyboardPayload : Type 0 where
  pub key : String
  pub code : String
  pub key_code : ℤ
  pub action : String
  pub modifiers : List String

unfoldable pub decode_input_keyboard : Option Json → Option InputKeyboardPayload
decode_input_keyboard raw = do
  fields ← raw_fields raw
  key ← string_field "key" fields
  code ← string_field "code" fields
  key_code ← int_field "key_code" fields
  action ← string_field "action" fields
  modifiers ← string_list_field "modifiers" fields
  some (record {
    key = key;
    code = code;
    key_code = key_code;
    action = action;
    modifiers = modifiers;
  })

unfoldable pub encode_input_keyboard : InputKeyboardPayload → Json
encode_input_keyboard p = object (
    field "key" (text p.key) (
      omit_empty "code" p.code (
        omit_zero "key_code" p.key_code
          (field "action" (text p.action) (omit_none "modifiers" p.modifiers end)))))

pub record TelemetryPayload : Type 0 where
  pub rtt_millis : ℤ
  pub frames_sent : ℤ
  pub frames_received : ℤ
  pub bitrate_kbps : ℤ
  pub packet_loss_permy : ℤ

unfoldable pub decode_telemetry : Option Json → Option TelemetryPayload
decode_telemetry raw = do
  fields ← raw_fields raw
  rtt_millis ← int_field "rtt_ms" fields
  frames_sent ← int_field "frames_sent" fields
  frames_received ← int_field "frames_received" fields
  bitrate_kbps ← int_field "bitrate_kbps" fields
  packet_loss_permy ← int_field "packet_loss_permyriad" fields
  some (record {
    rtt_millis = rtt_millis;
    frames_sent = frames_sent;
    frames_received = frames_received;
    bitrate_kbps = bitrate_kbps;
    packet_loss_permy = packet_loss_permy;
  })

unfoldable pub encode_telemetry : TelemetryPayload → Json
encode_telemetry p = object (
    field "rtt_ms" (int p.rtt_millis) (
      field "frames_sent" (int p.frames_sent) (
        field "frames_received" (int p.frames_received) (
          field "bitrate_kbps" (int p.bitrate_kbps)
            (field "packet_loss_permyriad" (int p.packet_loss_permy) end)))))
