-- ===== src/Client/Basics.antt =====
-- client.go: what all operations of the client are made of: events, writes, the audit log, and the
-- parts of the state that are cleared together.
use beacon_desk.Prelude.{
  ℕ, ◌-◌, ◌*◌, ◌/◌, String, Bool, true, false, not, ◌&&◌, ◌||◌, Option, none, some, List, [], ◌∷◌,
  ◌++◌, ltb, leb, ◌==◌, if◌then◌else◌, length,
}
use beacon_desk.Prelude.Int.{pos}
use beacon_desk.Protocol.Message.{Envelope}
use beacon_desk.Protocol.Payloads.{WebSharePayload}
use beacon_desk.Audit.{Entry}
use beacon_desk.Client.State.{
  State, Event, Conn, Client, Stores, Fault, Outcome, not_connected, write_failed,
}

abbrev pub event_capacity : ℕ
event_capacity = 256

abbrev pub show_bool : Bool → String
show_bool true = "true"
show_bool false = "false"

-- `clearPending` and `clearSession`.
unfoldable pub clear_pending : State → State
clear_pending s = record s {
  pending_peer_id = "";
  pending_peer_name = "";
  pending_mode = "";
  pending_input = false;
  pending_trusted = false;
}

unfoldable pub clear_session : State → State
clear_session s = record s {
  session_id = "";
  peer_id = "";
  peer_name = "";
  session_mode = "";
  session_local_role = "";
  should_send_view = false;
  input_allowed = false;
  last_frame_data = "";
  last_frame_kind = "";
  last_frame_status = "";
  last_frame_error = "";
  last_frame_width = pos 0;
  last_frame_height = pos 0;
}

-- Is this the share that the other names, by its id or by its token?
abbrev pub same_share : String → String → WebSharePayload → Bool
same_share id token share =
    (not (id == "") && share.id == id) || (not (token == "") && share.token == token)

-- The loop of `upsertWebShare`: the first share that is the same is replaced.
unfoldable pub replace_share :
    WebSharePayload → List WebSharePayload → Option (List WebSharePayload)
replace_share share [] = none
replace_share share (x ∷ xs) =
    let later = replace_share share xs in
    if same_share share.id share.token x
    then some (share ∷ xs)
    else elim later [ none ↦ none | some ys ↦ some (x ∷ ys) ]

unfoldable pub upsert_web_share : WebSharePayload → List WebSharePayload → List WebSharePayload
upsert_web_share share links =
    if share.id == "" && share.token == ""
    then links
    else elim (replace_share share links) [ none ↦ share ∷ links | some replaced ↦ replaced ]

unfoldable pub remove_web_share : String → String → List WebSharePayload → List WebSharePayload
remove_web_share id token [] = []
remove_web_share id token (x ∷ xs) =
    let rest = remove_web_share id token xs in if same_share id token x then rest else x ∷ rest

-- `packetLossPermyriad` and `estimatedBitrateKbpsSince`, the latter exact where the source rounds a
-- float64.
unfoldable pub packet_loss : ℕ → ℕ → ℕ
packet_loss sent pongs = if leb sent 0 then 0 else (sent - pongs) * 10_000 / sent

unfoldable pub estimated_bitrate : Option ℕ → ℕ → ℕ → ℕ
estimated_bitrate none now bytes = 0
estimated_bitrate (some since) now bytes =
    if leb (now - since) 0 then 0 else bytes * 8 * 1_000_000 / (now - since)

-- What `conn.Write` does to a connection.
abbrev pub write_conn : Conn → Envelope → Conn
write_conn k msg = if k.writable then record k { written = k.written ++ msg ∷ [] } else k

abbrev pub written_fault : Option Conn → Option Fault
written_fault none = some not_connected
written_fault (some k) = if k.writable then none else some write_failed

abbrev pub conn_after : Option Conn → Envelope → Option Conn
conn_after none msg = none
conn_after (some k) msg = some (write_conn k msg)

module _ {D A : Type 0} where
  abbrev pub set_state : (State → State) → Client D A → Client D A
  set_state f c = record c { state = f c.state }

  -- An event, unless too many wait to be read.
  unfoldable pub emit : ℕ → String → String → Client D A → Client D A
  emit now event_type message c =
      let event : Event = record { time = now; event_type = event_type; message = message } in
      record c {
        state = record c.state { last_event = message };
        events = if ltb (length c.events) event_capacity then c.events ++ event ∷ [] else c.events;
      }

  unfoldable pub write : Client D A → Envelope → Outcome D A
  write c msg = (record c { conn = conn_after c.conn msg }, written_fault c.conn)

  abbrev pub close_conn : Client D A → Client D A
  close_conn c = record c { conn = none }

  -- `stopStreamLoop`: the loop is cancelled, and over.
  abbrev pub stop_stream : Client D A → Client D A
  stop_stream c = record c { stream = none }

  -- The audit log after an entry; an error is told.
  abbrev pub keep_audit : ℕ → A → Option String → Client D A → Client D A
  keep_audit now audit none c = record c { audit = audit }
  keep_audit now audit (some e) c = emit now "audit.error" e (record c { audit = audit })

  module _ (stores : Stores D A) where
    -- An entry without a session or a mode is of those of the moment.
    unfoldable pub record_audit :
        ℕ → String → String → String → String → String → Client D A → Client D A
    record_audit now event peer session mode detail c =
        let entry : Entry = record {
          time = pos 0;
          event = event;
          local_id = c.identity.device_id;
          peer_id = peer;
          session_id = if session == "" then c.state.session_id else session;
          mode = if mode == "" then c.state.session_mode else mode;
          detail = detail;
        } in
        let appended = stores.append c.audit now entry in keep_audit now appended.0 appended.1 c

-- `State`: the state with the counters.
unfoldable pub snapshot : {D A : Type 0} → ℕ → Client D A → State
snapshot now c = record c.state {
  frames_sent = c.frames_sent;
  frames_received = c.frames_received;
  bitrate_kbps = estimated_bitrate c.state.connected_at now c.bytes_sent;
  reconnect_count = c.reconnect_count;
  packet_loss_permy = packet_loss c.heartbeat_seq c.heartbeat_pongs;
}
