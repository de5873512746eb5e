-- ===== src/Examples/Devices.antt =====
-- Runs of the client: a device that shares its screen, its connection, and its requests.
use beacon_desk.Prelude.{
  ℕ, String, Bool, true, false, ◌≡◌, ◌⊎◌, ◌≢◌, ◌<◌, ◌≤◌, inr, All, refl, arith, none, some, List,
  [], ◌∷◌, ◌++◌, ◌==◌, trim_space,
}
use beacon_desk.Prelude.Int.{pos}
use beacon_desk.ClientOptions.{Options, with_defaults}
use beacon_desk.Maps.{lookup}
use beacon_desk.Files.{Disk, write_file}
use beacon_desk.Identity.{
  DeviceIdentity, identified, load_or_create_device_identity, create_identity, save_device_identity,
}
use beacon_desk.Identity.Reloading.{load_again}
use beacon_desk.Protocol.Types.{normalize_session_mode, session_mode_allows_input}
use beacon_desk.Protocol.Json.{
  field, end, text, boolean, string_field, bool_field, scan_field, same_key,
}
use beacon_desk.Protocol.Message.{Envelope, must_envelope, new_envelope}
use beacon_desk.Protocol.Payloads.{
  WebSharePayload, no_share, encode_register, decode_session_ready, decode_session_confirm,
  encode_session_confirm,
}
use beacon_desk.Desktop.ChangeDetector.{Frame}
use beacon_desk.Relay.State.{Session}
use beacon_desk.Relay.Hub.{consume_pending_request}
use beacon_desk.Relay.Stable.Handlers.{accepted_session}
use beacon_desk.Relay.Consent.{Consented}
use beacon_desk.Client.State.{
  Conn, Injected, screen, Client, Stores, Texts, Env, not_connected, new_client,
}
use beacon_desk.Client.Basics.{emit, write, record_audit, upsert_web_share}
use beacon_desk.Client.Streams.{new_stream, start_configured_stream}
use beacon_desk.Client.Commands.{
  after, settle, register, approval, confirm_envelope, approve_session,
}
use beacon_desk.Client.Handlers.{
  with_payload, on_session_ready, ready_state, handle_session_request,
}
use beacon_desk.Client.Dispatch.{handle_message}
use beacon_desk.Client.Connection.{
  reading, retrying, start, connect, connected_state, keep_registered, read_round, read_message,
  heartbeat_tick,
}
use beacon_desk.Client.Steps.{Step, here, read}
use beacon_desk.Client.Refinement.{Fits, Refined, Step-Refined}
use beacon_desk.Client.Invariant.{Step-injects, lost_heartbeat}
use beacon_desk.Client.Races.{
  closed, ending_parts, run_parts, operation, announced, raced, ending_race,
}
use beacon_desk.Client.Consent.{
  handle_session_request-waits, Accepted, approve_session-Accepted, input_needs_both,
}
use beacon_desk.Client.Backoff.{failed_rounds, failed_rounds_lem}
use beacon_desk.Client.Media.{adjust_capture_fps, adjust_capture_quality}
use beacon_desk.Client.Rates.{Within, adjusted-Within}
use beacon_desk.Client.Shares.{Names, FirstReplaced, upsert_web_share_lem}
use beacon_desk.Examples.Data.{at_ten, busy, message}
use beacon_desk.Examples.Limits.{no_options}

-- Stores that trust everybody or nobody, and that keep nothing else.
abbrev stores : Stores Bool Bool
stores = record {
  is_trusted = λ trust id. trust;
  remember = λ trust id mode now. (true, none);
  touch = λ trust id now. (trust, none);
  append = λ audit now entry. (true, none);
}

abbrev texts : Texts
texts = record { show_int = λ n. "n"; show_duration = λ n. "n"; show_fault = λ e. "error" }

abbrev now : Env
now = record { now = 10_000_000_000; new_code = some "123456"; has_injector = true; injects = true }

abbrev sharing : Options
sharing = record no_options { enable_input = true; send_screen_frames = true }

abbrev bob : DeviceIdentity
bob = record { device_id = "bob"; device_secret = "s"; device_name = "Bob" }

abbrev line : Conn
line = record { written = []; writable = true }

abbrev hash : Frame → ℕ
hash frame = 1

abbrev encode : List ℕ → String
encode pixels = "AA=="

abbrev begun : Client Bool Bool
begun = (start 10_000_000_000 (identified bob) (some line) (new_client sharing false false)).0

abbrev ready : Envelope
ready =
    message "session.ready" "bob"
      (field "session_id" (text "s1") (field "should_send_view" (boolean true) end))

abbrev reading_ready :
    Step stores texts hash encode begun reading
      (read_round stores texts now (some ready) "" begun).0
      (read_round stores texts now (some ready) "" begun).1
reading_ready = read now (some ready) ""

reading-Fits : Fits begun reading
reading-Fits = record { apart = λ e. ground arith }

Step-Refined_example :
    Refined begun
      (read_round stores texts now (some ready) "" begun).0
      (read_round stores texts now (some ready) "" begun).1
Step-Refined_example = Step-Refined stores texts hash encode reading-Fits reading_ready

abbrev in_session : Client Bool Bool
in_session = (read_round stores texts now (some ready) "" begun).0

-- The session is in the state, and its view is to be sent.
in_session_named : in_session.state.session_id ≢ ""
unfolding start connect new_client with_defaults register encode_register must_envelope new_envelope
    emit write after keep_registered connected_state read_round read_message settle handle_message
    on_session_ready with_payload decode_session_ready string_field bool_field scan_field same_key
    record_audit ready_state start_configured_stream
in_session_named = λ e. cc

in_session_shown : in_session.state.should_send_view ≡ true
unfolding start connect new_client with_defaults register encode_register must_envelope new_envelope
    emit write after keep_registered connected_state read_round read_message settle handle_message
    on_session_ready with_payload decode_session_ready string_field bool_field scan_field same_key
    record_audit ready_state start_configured_stream
in_session_shown = refl

abbrev one_part : ℕ
one_part = 1

-- The session is over, but the options come after its stream was stopped.
ending_race_example :
    (announced closed 20_000_000_000 (run_parts (ending_parts closed) in_session)
      ≡ operation closed 20_000_000_000 in_session)
    × ((raced closed 1 20_000_000_000 sharing in_session).state.session_id ≡ "")
    × ((raced closed 1 20_000_000_000 sharing in_session).state.should_send_view ≡ false)
    × (((0 < 1)
          × (1 < 2)
          × ((raced closed 1 20_000_000_000 sharing in_session).stream
              ≡ some (new_stream screen in_session.state.session_id)))
        ⊎ (((one_part ≡ 0) ⊎ (2 ≤ 1))
            × ((raced closed 1 20_000_000_000 sharing in_session).stream ≡ none)))
ending_race_example =
    ending_race closed 1 20_000_000_000 sharing in_session in_session_named in_session_shown refl

Step-injects_example :
    (in_session.injected ≡ begun.injected)
    ⊎ ((begun.opts.enable_input ≡ true)
        × ((event : Injected) × (in_session.injected ≡ begun.injected ++ event ∷ [])))
Step-injects_example = Step-injects stores texts hash encode reading-Fits reading_ready

-- A connection that is gone, and a heartbeat.
abbrev cut : Client Bool Bool
cut = record begun { conn = none; heartbeats = true }

cut-Fits : Fits (heartbeat_tick texts 20_000_000_000 cut) reading
cut-Fits = record { apart = λ e. ground arith }

lost_heartbeat_example :
    heartbeat_tick texts 30_000_000_000 (heartbeat_tick texts 20_000_000_000 cut)
    ≡ heartbeat_tick texts 20_000_000_000 cut
lost_heartbeat_example =
    lost_heartbeat stores texts hash encode 20_000_000_000 30_000_000_000 not_connected cut refl
      cut-Fits here

abbrev request : Envelope
request = message "session.request" "bob" (field "mode" (text "view-control") end)

stranger : stores.is_trusted cut.trust request.from ≡ false
unfolding start connect new_client with_defaults register emit write after keep_registered
stranger = refl

asks : cut.opts.auto_accept ≡ false
unfolding start connect new_client with_defaults register emit write after keep_registered
asks = refl

handle_session_request-waits_example :
    (handle_session_request stores 10_000_000_000 request cut).0.conn ≡ none
handle_session_request-waits_example =
    handle_session_request-waits stores 10_000_000_000 request cut stranger asks

-- Bob is asked by alice for her input.
abbrev asked : Client Bool Bool
asked = record begun {
  conn = some line;
  state = record begun.state {
    pending_peer_id = "alice";
    pending_mode = "view-control";
    pending_input = true;
  };
}

approve_session-Accepted_example :
    Accepted stores asked line (approve_session stores 10_000_000_000 true asked)
approve_session-Accepted_example =
    approve_session-Accepted stores 10_000_000_000 true asked (λ e. cc) refl refl (inr refl)

abbrev granted : Session
granted = accepted_session busy at_ten 2 "alice" (approval asked)

given : Consented busy at_ten 2 (confirm_envelope 10_000_000_000 (approval asked) asked) granted
unfolding must_envelope new_envelope decode_session_confirm encode_session_confirm string_field
    bool_field scan_field same_key start connect new_client with_defaults register encode_register
    emit write after keep_registered connected_state
given = record {
  confirms = refl;
  payload = approval asked;
  decoded = refl;
  accepted = refl;
  registered = refl;
  made = record {
    same_id = refl;
    same_controller = refl;
    same_controlled = refl;
    same_mode = refl;
    same_input = refl;
  };
}

input_granted : granted.input_allowed ≡ true
unfolding consume_pending_request lookup normalize_session_mode session_mode_allows_input start
    connect new_client with_defaults register encode_register must_envelope new_envelope emit write
    after keep_registered connected_state
input_granted = refl

input_needs_both_example : (asked.state.pending_input ≡ true) × (asked.opts.enable_input ≡ true)
input_needs_both_example =
    input_needs_both at_ten 2 10_000_000_000 asked granted given input_granted

abbrev patient : Client Bool Bool
patient = record cut { opts = record cut.opts { reconnect_max_delay = pos 30_000_000_000 } }

failed_rounds_lem_example :
    (failed_rounds texts 10_000_000_000 3 (patient, retrying (pos 1_000_000_000))).1
    ≡ retrying (pos 8_000_000_000)
failed_rounds_lem_example =
    failed_rounds_lem texts 10_000_000_000 3 1_000_000_000 30_000_000_000 patient (omega arith)
      (omega arith) refl

abbrev link : WebSharePayload
link = record no_share { id = "w1"; token = "t1" }

abbrev renamed : WebSharePayload
renamed = record link { label = "old" }

upsert_web_share_lem_example :
    ((link.id ≡ "") × (link.token ≡ "") × (upsert_web_share link (renamed ∷ []) ≡ renamed ∷ []))
    ⊎ (((link.id ≢ "") ⊎ (link.token ≢ ""))
        × All (λ x. ¬ Names link x) (renamed ∷ [])
        × (upsert_web_share link (renamed ∷ []) ≡ link ∷ renamed ∷ []))
    ⊎ FirstReplaced link (renamed ∷ []) (upsert_web_share link (renamed ∷ []))
upsert_web_share_lem_example = upsert_web_share_lem link (renamed ∷ [])

-- A disk on which an identity is its own text.
abbrev disk : Disk DeviceIdentity
disk = record { contents = none; readable = true; writable = true; torn = none }

abbrev first_start : Disk DeviceIdentity
first_start =
    (load_or_create_device_identity (λ i. some i) (λ i. i) "device.json" "Bob" "01" "02" disk).0

abbrev made : DeviceIdentity
made = record { device_id = "dev_01"; device_secret = "02"; device_name = "Bob" }

named : (trim_space "Bob" == "") ≡ ("Bob" == "")
unfolding trim_space
named = refl

loaded :
    (load_or_create_device_identity (λ i. some i) (λ i. i) "device.json" "Bob" "01" "02" disk).1
    ≡ identified made
unfolding load_or_create_device_identity create_identity save_device_identity write_file trim_space
loaded = refl

load_again_example :
    load_or_create_device_identity (λ i. some i) (λ i. i) "device.json" "Bob" "03" "04" first_start
    ≡ (first_start, identified made)
load_again_example =
    load_again (λ i. some i) (λ i. i) "device.json" "Bob" "01" "02" "03" "04" disk made (λ i. refl)
      refl refl named loaded

adjusted-Within_example :
    Within 1 2 (adjust_capture_fps texts 20_000_000_000 (pos 2) patient).1
    × Within 21 56 (adjust_capture_quality texts 20_000_000_000 (pos 54) patient).1
unfolding start connect new_client with_defaults register emit write after keep_registered
adjusted-Within_example =
    adjusted-Within texts 20_000_000_000 2 55 2 54 patient refl refl (omega arith) (omega arith)
      (omega arith) (omega arith)
