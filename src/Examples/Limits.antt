-- ===== src/Examples/Limits.antt =====
-- Runs of the limiter and of the bounds.
use beacon_desk.Prelude.{
  ℕ, ◌+◌, ◌-◌, ◌*◌, ◌≡◌, ◌≢◌, ◌↔◌, ◌≤◌, ◌<◌, refl, inl, inr, true, false, List, [], ◌∷◌, ◌++◌, some,
  none, arith, length,
}
use beacon_desk.Prelude.Int.{pos}
use beacon_desk.Relay.Limiter.{BandwidthLimiter, Timers, on_time, billion, rate, unfinished, wait}
use beacon_desk.Relay.Limiter.Rate.{total_taken, total_taken_bounded, wait-total}
use beacon_desk.Relay.Limiter.Starvation.{is_granted, wait_oversize, wait_livelock}
use beacon_desk.Desktop.ChangeDetector.{
  Frame, ChangeDetector, observe, stream, stream-shown, observe-send,
}
use beacon_desk.ClientOptions.{Options, with_defaults, Usable, with_defaults-Usable}
use beacon_desk.Protocol.Payloads.{
  HeartbeatPayload, SessionRequestPayload, decode_session_request, encode_session_request,
}
use beacon_desk.Protocol.RoundTrip.{decode_session_request-encode_session_request}

-- 8 kbps are 1000 bytes a second; the bucket holds half a second's worth.
abbrev half_full : BandwidthLimiter
half_full = record { limit_kbps = 8; tokens = 500_000_000_000; last_fill = 0 }

abbrev late_timers : Timers
late_timers = record { late = λ _. 5; picks = λ _. true }

abbrev two_calls : List (ℕ × ℕ)
two_calls = (300, 0) ∷ (900, 1_000_000_000) ∷ []

total_taken_bounded_example :
    total_taken half_full two_calls * billion
    ≤ 500_000_000_000 + (2_000_000_000 - 0) * rate half_full + 2 * rate half_full
total_taken_bounded_example =
    total_taken_bounded half_full two_calls 2_000_000_000 (omega arith) (omega arith)

wait-total_example : wait (on_time (λ _. true)) half_full 700 0 (10 * billion) ≢ unfinished
wait-total_example = wait-total (on_time (λ _. true)) half_full 700 0 (10 * billion)

-- A message of 3000 bytes, where the burst is 2000.
wait_oversize_example :
    (wait late_timers half_full 3000 0 (10 * billion) ≢ unfinished)
    × (is_granted (wait late_timers half_full 3000 0 (10 * billion)) ≡ false)
wait_oversize_example =
    wait_oversize late_timers half_full 3000 0 (10 * billion) (omega arith) (omega arith)
      (omega arith)

-- A message of 1000 bytes, which half a second would be enough to pay for.
wait_livelock_example :
    (wait (on_time (λ _. true)) half_full 1000 0 (10 * billion) ≢ unfinished)
    × (is_granted (wait (on_time (λ _. true)) half_full 1000 0 (10 * billion)) ≡ false)
wait_livelock_example =
    wait_livelock (λ _. true) half_full 1000 500_000_000 500_000_000 (10 * billion) (omega arith)
      (omega arith) (omega arith) (omega arith) (omega arith) (omega arith)

abbrev still : Frame
still = record {
  id = pos 1;
  width = pos 2;
  height = pos 2;
  codec = "jpeg";
  keyframe = true;
  timestamp = pos 1_000;
  pixels = 7 ∷ [];
}

abbrev moved : Frame
moved = record still { timestamp = pos 2_000; pixels = 8 ∷ 9 ∷ [] }

abbrev by_length : Frame → ℕ
by_length frame = length frame.pixels

abbrev fresh : ChangeDetector
fresh = record {
  static_frame_interval = pos 0;
  initialized = false;
  last_hash = 0;
  last_sent_at = none;
}

stream-shown_example :
    (stream by_length fresh none (((0, still) ∷ (1, still) ∷ []) ++ (2, moved) ∷ [])).1 ≡ some 2
stream-shown_example = stream-shown by_length (pos 0) ((0, still) ∷ (1, still) ∷ []) 2 moved

-- A still picture that was sent at the instant 4, under the default interval.
abbrev watching : ChangeDetector
watching = record fresh { initialized = true; last_hash = 1; last_sent_at = some 4 }

observe-send_example : ((observe by_length watching 0 still).1.send ≡ false) ↔ (
    (watching.initialized ≡ true)
    × (by_length still ≡ watching.last_hash)
    × ((sent : ℕ) × (watching.last_sent_at ≡ some sent) × (1_000_000_000 < sent + 5_000_000_000)))
observe-send_example =
    observe-send by_length watching 0 still 0 1_000 5_000_000_000 1_000_000_000 refl
      (inr (refl, refl)) refl (inl (omega arith, refl))

abbrev pub no_options : Options
no_options = record {
  server_address = "";
  transport = "";
  use_tls = false;
  web_socket_path = "";
  tls_server_name = "";
  tls_skip_verify = false;
  tls_cert_sha256 = "";
  device_name = "";
  role = "";
  request_mode = "other";
  target_device_id = "";
  target_auth_code = "";
  token = "";
  identity_path = "";
  trust_store_path = "";
  audit_log_path = "";
  auto_accept = false;
  enable_input = false;
  send_mock_frames = false;
  send_screen_frames = false;
  capture_fps = pos 0;
  capture_max_width = pos 0;
  capture_max_height = pos 0;
  capture_quality = pos 0;
  bandwidth_limit_kbps = pos 0;
  static_frame_seconds = pos 0;
  heartbeat_interval = pos 0;
  reconnect_min_delay = pos 60_000_000_000;
  reconnect_max_delay = pos 0;
  disable_reconnect = false;
}

with_defaults-Usable_example : Usable (with_defaults no_options)
with_defaults-Usable_example = with_defaults-Usable no_options

abbrev beat : HeartbeatPayload
beat = record { sequence = pos 3; sent_at = pos 10_000 }

abbrev request : SessionRequestPayload
request = record {
  target_device_id = "bob";
  mode = "view";
  auth_code = "";
  requester_name = "Alice";
  requester_role = "";
  input_requested = false;
}

decode_session_request-encode_session_request_example :
    decode_session_request (some (encode_session_request request)) ≡ some request
decode_session_request-encode_session_request_example =
    decode_session_request-encode_session_request request
