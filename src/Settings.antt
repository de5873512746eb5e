-- ===== src/Settings.antt =====
-- cmd/client-windows/app.go: the settings of the window, what is made of those that a file gives, and
-- the options of the client that they stand for. `strconv.Itoa` and `strconv.Atoi` undo each other,
-- so that a number is looked up as it is. The paths of the client's files are arguments.
pub mod Normal
use beacon_desk.Prelude.{
  ℕ, ◌≤◌, ◌≡◌, refl, ap, sym, ◌∙◌, ◌⊎◌, inl, inr, String, Bool, true, false, not, ◌&&◌, ◌||◌, List,
  [], ◌∷◌, ◌==◌, if◌then◌else◌, if_rule, arith, eq_iff,
}
use beacon_desk.Prelude.Int.{ℤ, pos, ltb_ℤ}
use beacon_desk.ClientOptions.{Options}

pub record UiSettings : Type 0 where
  pub language : String
  pub server_address : String
  pub transport : String
  pub use_tls : Bool
  pub web_socket_path : String
  pub tls_server_name : String
  pub tls_skip_verify : Bool
  pub tls_cert_sha256 : String
  pub device_name : String
  pub role : String
  pub request_mode : String
  pub token : String
  pub auto_start : Bool
  pub auto_accept : Bool
  pub enable_input : Bool
  pub web_share_ttl_minutes : ℤ
  pub send_mock_frames : Bool
  pub send_screen_frames : Bool
  pub capture_fps : ℤ
  pub capture_max_width : ℤ
  pub capture_max_height : ℤ
  pub capture_quality : ℤ
  pub bandwidth_limit_kbps : ℤ
  pub static_frame_seconds : ℤ

-- `if s == "" { s = d }` and `if n <= 0 { n = d }`.
abbrev pub text_or : String → String → String
text_or s d = if s == "" then d else s

abbrev pub is_int : ℤ → ℕ → Bool
is_int n m = not (ltb_ℤ n (pos m)) && not (ltb_ℤ (pos m) n)

-- The loop of `parsePresetInt`.
unfoldable pub preset_int : ℤ → ℕ → List ℕ → ℤ
preset_int n fallback [] = pos fallback
preset_int n fallback (allowed ∷ rest) =
    let later = preset_int n fallback rest in if is_int n allowed then n else later

-- `resolutionOptionItems`, and the sizes that their keys name.
abbrev pub resolutions : List (ℕ × ℕ)
resolutions = (1280, 720) ∷ (1600, 900) ∷ (1920, 1080) ∷ (2560, 1440) ∷ (3840, 2160) ∷ []

-- `resolutionKey`: the size that a key names, in place of the key.
unfoldable pub resolution_key : ℤ → ℤ → List (ℕ × ℕ) → ℕ × ℕ
resolution_key width height [] = (1280, 720)
resolution_key width height (item ∷ rest) =
    let later = resolution_key width height rest in
    if is_int width item.0 && is_int height item.1 then item else later

-- The resolution, or the default one if it is not in the list.
unfoldable pub fit_resolution : ℤ → ℤ → ℤ × ℤ
fit_resolution width height =
    let key = resolution_key width height resolutions in
    if is_int (pos key.0) 1280
      && is_int (pos key.1) 720
      && (not (is_int width 1280) || not (is_int height 720))
    then (pos 1280, pos 720)
    else (width, height)

abbrev pub fps_presets : List ℕ
fps_presets = 15 ∷ 30 ∷ 45 ∷ 60 ∷ 90 ∷ 120 ∷ []

abbrev pub quality_presets : List ℕ
quality_presets = 40 ∷ 55 ∷ 72 ∷ 85 ∷ []

abbrev pub bandwidth_presets : List ℕ
bandwidth_presets = 512 ∷ 1024 ∷ 2048 ∷ 4096 ∷ 8192 ∷ 12_288 ∷ 20_000 ∷ 50_000 ∷ []

abbrev pub static_presets : List ℕ
static_presets = 1 ∷ 3 ∷ 5 ∷ 10 ∷ 15 ∷ 30 ∷ []

abbrev pub positive_or : ℤ → ℕ → ℤ
positive_or n d = if ltb_ℤ (pos 0) n then n else pos d

-- `normalizeUISettings`.
unfoldable pub normalize_ui_settings : UiSettings → UiSettings
normalize_ui_settings s =
    let size = fit_resolution s.capture_max_width s.capture_max_height in
    record s {
      language = text_or s.language "zh-CN";
      server_address = text_or s.server_address "127.0.0.1:8443";
      transport = text_or s.transport "websocket";
      web_socket_path = text_or s.web_socket_path "/ws";
      device_name = text_or s.device_name "beacondesk-windows";
      role = text_or s.role "peer";
      request_mode = text_or s.request_mode "view-control";
      web_share_ttl_minutes = positive_or s.web_share_ttl_minutes 60;
      capture_fps = preset_int s.capture_fps 15 fps_presets;
      capture_max_width = size.0;
      capture_max_height = size.1;
      capture_quality = preset_int s.capture_quality 55 quality_presets;
      bandwidth_limit_kbps = preset_int s.bandwidth_limit_kbps 2048 bandwidth_presets;
      static_frame_seconds = preset_int s.static_frame_seconds 5 static_presets;
    }

-- `clientOptionsFromSettings`.
unfoldable pub client_options_from_settings : String → String → String → UiSettings → Options
client_options_from_settings identity_path trust_store_path audit_log_path s = record {
  server_address = s.server_address;
  transport = s.transport;
  use_tls = s.use_tls;
  web_socket_path = s.web_socket_path;
  tls_server_name = s.tls_server_name;
  tls_skip_verify = s.tls_skip_verify;
  tls_cert_sha256 = s.tls_cert_sha256;
  device_name = s.device_name;
  role = s.role;
  request_mode = s.request_mode;
  target_device_id = "";
  target_auth_code = "";
  token = s.token;
  identity_path = identity_path;
  trust_store_path = trust_store_path;
  audit_log_path = audit_log_path;
  auto_accept = s.auto_accept;
  enable_input = s.enable_input;
  send_mock_frames = s.send_mock_frames;
  send_screen_frames = s.send_screen_frames;
  capture_fps = s.capture_fps;
  capture_max_width = s.capture_max_width;
  capture_max_height = s.capture_max_height;
  capture_quality = s.capture_quality;
  bandwidth_limit_kbps = s.bandwidth_limit_kbps;
  static_frame_seconds = s.static_frame_seconds;
  heartbeat_interval = pos 0;
  reconnect_min_delay = pos 0;
  reconnect_max_delay = pos 0;
  disable_reconnect = false;
}
