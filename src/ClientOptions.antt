-- ===== src/ClientOptions.antt =====
-- internal/client/options.go: the options of a client, and their defaults.
use beacon_desk.Prelude.{
  ℕ, ◌=ℕ◌, ◌+◌, ◌*◌, ◌≡◌, ◌≢◌, String, Bool, ◌==◌, if◌then◌else◌, arith, eq_iff,
}
use beacon_desk.Prelude.Int.{ℤ, pos, ltb_ℤ, pos_part, neg_part}
use beacon_desk.Config.{second}
use beacon_desk.Protocol.Types.{normalize_session_mode, session_mode_view_control, IsMode}

-- Durations are nanoseconds.
pub record Options : Type 0 where
  pub server_address : String
  pub transport : String
  pub use_tls : Bool
  pub web_socket_path : String
  pub tls_server_name : String
  pub tls_skip_verify : Bool
  pub tls_cert_sha256 : String
  pub device_name : String
  pub role : String
  pub request_mode : String
  pub target_device_id : String
  pub target_auth_code : String
  pub token : String
  pub identity_path : String
  pub trust_store_path : String
  pub audit_log_path : String
  pub auto_accept : Bool
  pub enable_input : Bool
  pub send_mock_frames : Bool
  pub send_screen_frames : Bool
  pub capture_fps : ℤ
  pub capture_max_width : ℤ
  pub capture_max_height : ℤ
  pub capture_quality : ℤ
  pub bandwidth_limit_kbps : ℤ
  pub static_frame_seconds : ℤ
  pub heartbeat_interval : ℤ
  pub reconnect_min_delay : ℤ
  pub reconnect_max_delay : ℤ
  pub disable_reconnect : Bool

-- `if s == "" { s = d }`
abbrev pub or_text : String → String → String
or_text s d = if s == "" then d else s

-- `if n <= 0 { n = d }`
abbrev pub or_positive : ℤ → ℕ → ℤ
or_positive n d = if ltb_ℤ (pos 0) n then n else pos d

-- `if t == 0 { t = d }`
abbrev pub or_duration : ℤ → ℕ → ℤ
or_duration t d = if pos_part t + neg_part t =ℕ 0 then pos d else t

-- The longest delay is at least the shortest.
abbrev pub max_delay : ℤ → ℤ → ℤ
max_delay longest shortest = if ltb_ℤ longest shortest then shortest else longest

unfoldable pub with_defaults : Options → Options
unfolding normalize_session_mode
with_defaults o = record o {
  server_address = or_text o.server_address "127.0.0.1:8443";
  transport = or_text o.transport "tcp";
  web_socket_path = or_text o.web_socket_path "/ws";
  device_name = or_text o.device_name "beacondesk-client";
  role = or_text o.role "peer";
  request_mode =
      if o.request_mode == ""
      then session_mode_view_control
      else normalize_session_mode o.request_mode;
  heartbeat_interval = or_duration o.heartbeat_interval (10 * second);
  reconnect_min_delay = or_duration o.reconnect_min_delay second;
  reconnect_max_delay =
      max_delay (or_duration o.reconnect_max_delay (30 * second))
        (or_duration o.reconnect_min_delay second);
  capture_fps = or_positive o.capture_fps 2;
  capture_max_width = or_positive o.capture_max_width 1280;
  capture_max_height = or_positive o.capture_max_height 720;
  capture_quality = or_positive o.capture_quality 55;
  bandwidth_limit_kbps = or_positive o.bandwidth_limit_kbps 2048;
  static_frame_seconds = or_positive o.static_frame_seconds 5;
}

or_text-nonempty : (s d : String) → d ≢ "" → or_text s d ≢ ""
or_text-nonempty s d n h = ground (arith, eq_iff s "", eq_iff d "")

-- What a client may rely on.
pub record Usable (o : Options) : Type 0 where
  pub addressed : o.server_address ≢ ""
  pub transported : o.transport ≢ ""
  pub named : o.device_name ≢ ""
  pub has_mode : IsMode o.request_mode
  pub beats : o.heartbeat_interval ≢ pos 0
  pub delays : ltb_ℤ o.reconnect_max_delay o.reconnect_min_delay ≡ Bool.false
  pub fps_positive : ltb_ℤ (pos 0) o.capture_fps ≡ Bool.true
  pub width_positive : ltb_ℤ (pos 0) o.capture_max_width ≡ Bool.true
  pub height_positive : ltb_ℤ (pos 0) o.capture_max_height ≡ Bool.true
  pub quality_positive : ltb_ℤ (pos 0) o.capture_quality ≡ Bool.true
  pub limit_positive : ltb_ℤ (pos 0) o.bandwidth_limit_kbps ≡ Bool.true
  pub still_positive : ltb_ℤ (pos 0) o.static_frame_seconds ≡ Bool.true

-- Whatever options are given, with the defaults the addresses and names are not empty, the mode is
-- one of the two, the heartbeat interval is not 0, the longest delay is not shorter than the
-- shortest, and the numbers of the capture are positive.
pub with_defaults-Usable : (o : Options) → Usable (with_defaults o)
unfolding with_defaults
with_defaults-Usable o = record {
  addressed =
      or_text-nonempty o.server_address "127.0.0.1:8443"
        (λ h. ground (arith, eq_iff "127.0.0.1:8443" ""));
  transported = or_text-nonempty o.transport "tcp" (λ h. ground (arith, eq_iff "tcp" ""));
  named =
      or_text-nonempty o.device_name "beacondesk-client"
        (λ h. ground (arith, eq_iff "beacondesk-client" ""));
  has_mode = ground (arith);
  beats = λ h. ground arith;
  delays = ground arith;
  fps_positive = ground arith;
  width_positive = ground arith;
  height_positive = ground arith;
  quality_positive = ground arith;
  limit_positive = ground arith;
  still_positive = ground arith;
}
