-- ===== src/Client/Connection.antt =====
-- client.go: the connection to the relay, from `Start` to `Close`: dialling, registering, reading
-- (`readLoop`), losing the connection and coming back (`reconnect`), heartbeats and telemetry.
use Prim.Native.String.{◌++◌ as append}
use beacon_desk.Prelude.{ℕ, ◌+◌, String, true, false, Option, none, some, ◌==◌, if◌then◌else◌}
use beacon_desk.Prelude.Int.{ℤ, pos, ltb_ℤ, scale, wrap64}
use beacon_desk.Protocol.Types.{type_heartbeat_ping, type_telemetry_stats}
use beacon_desk.Protocol.Message.{Envelope, must_envelope, unix_milli}
use beacon_desk.Protocol.Payloads.{encode_heartbeat, encode_telemetry}
use beacon_desk.Identity.{Identified, identified, unidentified, unsaved}
use beacon_desk.Client.State.{
  State, Conn, Client, Stores, dial_failed, identity_failed, Texts, Env, Outcome,
}
use beacon_desk.Client.Basics.{
  clear_pending, clear_session, set_state, emit, write, close_conn, stop_stream, snapshot,
}
use beacon_desk.Client.Commands.{register, session_envelope, after, settle}
use beacon_desk.Client.Dispatch.{handle_message}

-- Where the goroutine of `readLoop` is: it reads, it is about to try again after a delay, it waits
-- for that delay, or it has returned.
pub data ReadLoop : Type 0 where
  reading : ReadLoop
  retrying : ℤ → ReadLoop
  waiting : ℤ → ReadLoop
  ended : ReadLoop

-- The delay after a failed attempt.
unfoldable pub next_delay : ℤ → ℤ → ℤ
next_delay longest delay =
    let doubled = wrap64 (scale delay 2) in if ltb_ℤ longest doubled then longest else doubled

unfoldable pub connected_state : ℕ → State → State
connected_state now s = record s {
  connected = true;
  reconnecting = false;
  registered = false;
  connected_at = some now;
  last_message_at = some now;
}

unfoldable pub reconnecting_state : ℕ → State → State
reconnecting_state count s = clear_pending (
    clear_session (record s {
      connected = false;
      reconnecting = true;
      reconnect_count = count;
      registered = false;
    }))

unfoldable pub disconnected_state : State → State
disconnected_state s = clear_session (record s { connected = false; registered = false })

-- The relay that the client is connected to, for its events.
abbrev pub relay_name : {D A : Type 0} → Client D A → String
relay_name c = append c.opts.server_address (append " via " c.opts.transport)

module _ {D A : Type 0} where
  -- A connection on which the client cannot register is closed.
  unfoldable pub keep_registered : Outcome D A → Outcome D A
  keep_registered (c, none) = (c, none)
  keep_registered (c, some e) = (close_conn c, some e)

  -- `connect`; the old connection is closed only if there is a new one.
  unfoldable pub connect : ℕ → Option Conn → Client D A → Outcome D A
  connect now dialled c = elim dialled [
    | none ↦ (c, some dial_failed)
    | some k ↦ keep_registered (
        register now (
          emit now "transport.connected" (append "connected to relay " (relay_name c))
            (set_state (connected_state now) (record c { conn = some k }))))
  ]

  -- `Start`, with the identity that was loaded or made.
  unfoldable pub start : ℕ → Identified → Option Conn → Client D A → Outcome D A
  start now (identified identity) dialled c =
      let known =
        set_state
          (λ s. record s {
            device_id = identity.device_id;
            device_name = identity.device_name;
            role = c.opts.role;
          })
          (record c { identity = identity }) in
      after (connect now dialled known) (λ d. record d { heartbeats = true })
  start now (unidentified e) dialled c = (c, some (identity_failed e))
  start now (unsaved identity e) dialled c = (c, some (identity_failed e))

  -- `Close`: the loops that its cancellation ends are over.
  unfoldable pub close : Client D A → Client D A
  close c =
      if c.closed
      then c
      else record (close_conn (stop_stream c)) { heartbeats = false; closed = true }

  -- `markDisconnected`.
  unfoldable pub mark_disconnected : Client D A → Client D A
  mark_disconnected c = set_state disconnected_state (close_conn (stop_stream c))

  -- One round of the loop of `reconnect`, up to its wait.
  unfoldable pub announce_reconnect : Texts → ℕ → ℤ → Client D A → Client D A
  announce_reconnect texts now delay c =
      let count = c.reconnect_count + 1 in
      emit now "transport.reconnecting" (append "reconnecting in " (texts.show_duration delay))
        (set_state (reconnecting_state count) (record c { reconnect_count = count }))

  -- What follows the attempt: the loop reads again, or tries again later.
  unfoldable pub resume : Texts → ℕ → ℤ → Outcome D A → Client D A × ReadLoop
  resume texts now delay (c, none) =
      (emit now "transport.reconnected" (append "reconnected to relay " (relay_name c)) c, reading)
  resume texts now delay (c, some e) = (
    emit now "transport.reconnect_failed" (texts.show_fault e) c,
    retrying (next_delay c.opts.reconnect_max_delay delay),
  )

  -- The rest of the round: the attempt to connect.
  unfoldable pub retry : Texts → ℕ → ℤ → Option Conn → Client D A → Client D A × ReadLoop
  retry texts now delay dialled c = resume texts now delay (connect now dialled c)

  -- A failed read: the connection is lost, and the client goes, or tries again.
  unfoldable pub lose_connection : ℕ → String → Client D A → Client D A × ReadLoop
  lose_connection now reason c =
      let lost = mark_disconnected (emit now "transport.closed" reason c) in
      if lost.opts.disable_reconnect
      then (close lost, ended)
      else (lost, retrying lost.opts.reconnect_min_delay)

  module _ (stores : Stores D A) (texts : Texts) where
    -- A message that was read.
    unfoldable pub read_message : Env → Envelope → Client D A → Client D A
    read_message env msg c =
        settle
          (handle_message stores texts env msg
            (set_state (λ s. record s { last_message_at = some env.now }) c))
          (λ d. d) (λ e d. emit env.now "client.error" (texts.show_fault e) d)

    -- One round of `readLoop`: without a connection it reconnects; a read gives a message, or the
    -- text of its error.
    unfoldable pub read_round : Env → Option Envelope → String → Client D A → Client D A × ReadLoop
    read_round env message reason c = elim c.conn [
      | none ↦ (c, retrying c.opts.reconnect_min_delay)
      | some k ↦ elim message [
        | none ↦ lose_connection env.now reason c
        | some msg ↦ (read_message env msg c, reading)
      ]
    ]

  -- A tick of `heartbeatLoop`, which returns when it cannot write.
  unfoldable pub heartbeat_tick : Texts → ℕ → Client D A → Client D A
  heartbeat_tick texts now c =
      let seq = c.heartbeat_seq + 1 in
      let written =
        write (record c { heartbeat_seq = seq })
          (must_envelope now type_heartbeat_ping c.identity.device_id "relay"
            (encode_heartbeat (record { sequence = pos seq; sent_at = pos (unix_milli now) }))) in
      if c.heartbeats
      then settle written (λ d. d)
          (λ e d. record (emit now "heartbeat.error" (texts.show_fault e) d) { heartbeats = false })
      else c

  -- A tick of `telemetryLoop`, which goes on.
  unfoldable pub telemetry_tick : Texts → ℕ → Client D A → Client D A
  telemetry_tick texts now c =
      let s = snapshot now c in
      let written = write c (
        session_envelope now type_telemetry_stats c.state.session_id
          (encode_telemetry (record {
            rtt_millis = s.rtt_millis;
            frames_sent = pos s.frames_sent;
            frames_received = pos s.frames_received;
            bitrate_kbps = pos s.bitrate_kbps;
            packet_loss_permy = pos s.packet_loss_permy;
          }))
          c) in
      if c.state.session_id == ""
      then c
      else settle written (λ d. d) (λ e d. emit now "telemetry.error" (texts.show_fault e) d)
