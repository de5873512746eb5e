-- ===== src/Client/State.antt =====
-- internal/client/state.go and the `Client` of client.go: the state of a client, its connection, its
-- stream, and what it takes from the stores and from the texts that it prints.
use beacon_desk.Prelude.{ℕ, String, Bool, false, Option, none, List, []}
use beacon_desk.Prelude.Int.{ℤ, pos}
use beacon_desk.ClientOptions.{Options, with_defaults}
use beacon_desk.Desktop.ChangeDetector.{ChangeDetector}
use beacon_desk.Protocol.Message.{Envelope}
use beacon_desk.Protocol.Payloads.{WebSharePayload, InputMousePayload, InputKeyboardPayload}
use beacon_desk.Audit.{Entry}
use beacon_desk.Identity.{DeviceIdentity, IdentityError}

-- `connected_at` and `last_message_at` are `none` for the zero time.
pub record State : Type 0 where
  pub connected : Bool
  pub reconnecting : Bool
  pub reconnect_count : ℕ
  pub registered : Bool
  pub device_id : String
  pub device_name : String
  pub role : String
  pub session_id : String
  pub peer_id : String
  pub peer_name : String
  pub session_mode : String
  pub session_local_role : String
  pub should_send_view : Bool
  pub input_allowed : Bool
  pub pending_peer_id : String
  pub pending_peer_name : String
  pub pending_mode : String
  pub pending_input : Bool
  pub pending_trusted : Bool
  pub local_auth_code : String
  pub auth_code_expiry : ℤ
  pub web_share_links : List WebSharePayload
  pub last_event : String
  pub rtt_millis : ℤ
  pub packet_loss_permy : ℕ
  pub frames_sent : ℕ
  pub frames_received : ℕ
  pub bitrate_kbps : ℕ
  pub capture_quality : ℤ
  pub current_fps : ℤ
  pub last_frame_data : String
  pub last_frame_kind : String
  pub last_frame_status : String
  pub last_frame_error : String
  pub last_frame_width : ℤ
  pub last_frame_height : ℤ
  pub last_message_at : Option ℕ
  pub connected_at : Option ℕ

-- The events that the window is told of; `event_type` is the source's `Type`.
pub record Event : Type 0 where
  pub time : ℕ
  pub event_type : String
  pub message : String

-- A connection: what it has been given to write, and whether its next write succeeds.
pub record Conn : Type 0 where
  pub written : List Envelope
  pub writable : Bool

-- The events that reach the injector of the operating system.
pub data Injected : Type 0 where
  mouse : InputMousePayload → Injected
  keyboard : InputKeyboardPayload → Injected

-- The loop that sends frames, and what it keeps between its rounds. `opened` says whether the
-- screen's capturer has been made.
pub data StreamKind : Type 0 where
  screen : StreamKind
  mock : StreamKind

pub record Stream : Type 0 where
  pub kind : StreamKind
  pub session : String
  pub opened : Bool
  pub quality : ℤ
  pub fps : ℤ
  pub detector : ChangeDetector
  pub last_error_sent : Option ℕ
  pub frame_id : ℕ

-- `D` is the trust store with its file, `A` the audit log with its file. `status_due` holds the
-- sessions to which a goroutine is about to send a status frame; `heartbeats` says whether the
-- heartbeat loop is running.
pub record Client (D A : Type 0) : Type 0 where
  pub opts : Options
  pub conn : Option Conn
  pub identity : DeviceIdentity
  pub trust : D
  pub audit : A
  pub state : State
  pub events : List Event
  pub stream : Option Stream
  pub status_due : List String
  pub heartbeats : Bool
  pub closed : Bool
  pub injected : List Injected
  pub frames_sent : ℕ
  pub frames_received : ℕ
  pub bytes_sent : ℕ
  pub heartbeat_seq : ℕ
  pub heartbeat_pongs : ℕ
  pub reconnect_count : ℕ

-- What the client asks of its stores; a text is an error's.
pub record Stores (D A : Type 0) : Type 0 where
  pub is_trusted : D → String → Bool
  pub remember : D → String → String → ℕ → D × Option String
  pub touch : D → String → ℕ → D × Option String
  pub append : A → ℕ → Entry → A × Option String

-- The errors of the client's operations.
pub data Fault : Type 0 where
  not_connected : Fault
  write_failed : Fault
  dial_failed : Fault
  bad_payload : Fault
  no_active_session : Fault
  no_pending_request : Fault
  target_required : Fault
  share_required : Fault
  code_failed : Fault
  store_failed : String → Fault
  identity_failed : IdentityError → Fault
  no_injector : Fault
  injection_failed : Fault
  no_capturer : Fault
  capture_failed : Fault

-- How the client prints numbers, durations and errors (`%d`, `%s`, `Error`).
pub record Texts : Type 0 where
  pub show_int : ℤ → String
  pub show_duration : ℤ → String
  pub show_fault : Fault → String

-- What an operation takes from its surroundings: the clock, a new temporary code, and whether
-- there is an injector and it works.
pub record Env : Type 0 where
  pub now : ℕ
  pub new_code : Option String
  pub has_injector : Bool
  pub injects : Bool

abbrev pub Outcome : Type 0 → Type 0 → Type 0
Outcome D A = Client D A × Option Fault

abbrev pub blank_state : String → String → State
blank_state device_name role = record {
  connected = false;
  reconnecting = false;
  reconnect_count = 0;
  registered = false;
  device_id = "";
  device_name = device_name;
  role = role;
  session_id = "";
  peer_id = "";
  peer_name = "";
  session_mode = "";
  session_local_role = "";
  should_send_view = false;
  input_allowed = false;
  pending_peer_id = "";
  pending_peer_name = "";
  pending_mode = "";
  pending_input = false;
  pending_trusted = false;
  local_auth_code = "";
  auth_code_expiry = pos 0;
  web_share_links = [];
  last_event = "";
  rtt_millis = pos 0;
  packet_loss_permy = 0;
  frames_sent = 0;
  frames_received = 0;
  bitrate_kbps = 0;
  capture_quality = pos 0;
  current_fps = pos 0;
  last_frame_data = "";
  last_frame_kind = "";
  last_frame_status = "";
  last_frame_error = "";
  last_frame_width = pos 0;
  last_frame_height = pos 0;
  last_message_at = none;
  connected_at = none;
}

-- `New`; the identity and the stores come with `Start`.
unfoldable pub new_client : {D A : Type 0} → Options → D → A → Client D A
unfolding with_defaults
new_client opts trust audit = record {
  opts = with_defaults opts;
  conn = none;
  identity = record { device_id = ""; device_secret = ""; device_name = "" };
  trust = trust;
  audit = audit;
  state = blank_state (with_defaults opts).device_name (with_defaults opts).role;
  events = [];
  stream = none;
  status_due = [];
  heartbeats = false;
  closed = false;
  injected = [];
  frames_sent = 0;
  frames_received = 0;
  bytes_sent = 0;
  heartbeat_seq = 0;
  heartbeat_pongs = 0;
  reconnect_count = 0;
}
