-- ===== src/Examples/Tools.antt =====
-- Runs of the injector and of the comparison of versions.
use beacon_desk.Prelude.{
  String, true, false, ◌≡◌, ◌↔◌, ◌⊎◌, refl, arith, none, some, trim_space, is_digit,
}
use beacon_desk.Prelude.Int.{pos, negsuc}
use beacon_desk.Protocol.Payloads.{InputMousePayload}
use beacon_desk.Injection.{moves, mouse_inputs, mouse_inputs-panics}
use beacon_desk.Settings.{UiSettings, normalize_ui_settings}
use beacon_desk.Settings.Normal.{normalize_again}
use beacon_desk.Updates.{
  compare_versions, parse_version, version_of, parse_part, digits_value, split_dots, before_sign,
  compare_parts,
}

abbrev same_text : String → String
same_text s = s

abbrev on_a_line : InputMousePayload
on_a_line = record {
  x = pos 3;
  y = pos 0;
  source_width = pos 1;
  source_height = pos 400;
  button = "";
  action = "move";
  wheel_delta = pos 0;
}

mouse_inputs-panics_example :
    (mouse_inputs same_text same_text (pos 1920) (pos 1080) on_a_line ≡ none) ↔ (
      (moves on_a_line ≡ true)
      × ((on_a_line.source_width ≡ pos 1) ⊎ (on_a_line.source_height ≡ pos 1)))
mouse_inputs-panics_example =
    mouse_inputs-panics same_text same_text 1920 1080 on_a_line (omega arith) (omega arith)

older : compare_versions "v1.2" "1.10.0-beta" ≡ some (negsuc 0)
unfolding compare_versions parse_version version_of parse_part digits_value split_dots before_sign
    compare_parts trim_space is_digit
older = refl

abbrev untidy : UiSettings
untidy = record {
  language = "";
  server_address = "relay:8443";
  transport = "";
  use_tls = true;
  web_socket_path = "";
  tls_server_name = "";
  tls_skip_verify = false;
  tls_cert_sha256 = "";
  device_name = "";
  role = "";
  request_mode = "view";
  token = "";
  auto_start = false;
  auto_accept = false;
  enable_input = true;
  web_share_ttl_minutes = pos 0;
  send_mock_frames = false;
  send_screen_frames = true;
  capture_fps = pos 17;
  capture_max_width = pos 1600;
  capture_max_height = pos 900;
  capture_quality = pos 72;
  bandwidth_limit_kbps = pos 5_000;
  static_frame_seconds = pos 3;
}

normalize_again_example :
    normalize_ui_settings (normalize_ui_settings untidy) ≡ normalize_ui_settings untidy
normalize_again_example = normalize_again untidy
