-- ===== src/Lib.antt =====
-- BeaconDesk is a remote desktop: a relay server (internal/relay, cmd/relay-server) connects
-- devices and browsers, and a client (internal/client, cmd/client-windows) captures and controls
-- screens. The development models the relay as a whole, and the client without its window: its
-- session engine, its identity, its options, its trust store, its audit log, and the detector of
-- changed frames.
--
-- The parts and how they interact. Connections read messages of internal/protocol; the relay's
-- `handleMessage` dispatches each to a handler; handlers change the maps of the server (clients,
-- web peers, sessions, pending requests, shares) and put messages into the queues of
-- connections, from which their write loops send them through a bandwidth limiter. Browsers come
-- by a share link and are web peers. A reaper closes silent clients. A client dials the relay,
-- registers, answers requests for sessions by its trust store, its options or its user, sends
-- frames while it is to send its view, injects the input of its peer, and reconnects when the
-- connection is lost.
--
-- Files and sources:
-- - Prelude (Tests, Lists, Text, Int): tests, lists, texts and Go's int64 over the native
--   numbers. Maps: Go's maps as association lists, in which a loop sees the entries in some
--   order.
-- - Config, Auth: internal/config/config.go (the record, its defaults, and in Parser the
--   parser of its files), internal/auth/token.go.
-- - Protocol: internal/protocol. Types is types.go; Message and Payloads are message.go;
--   Codec is codec.go; Json is what they use of encoding/json; RoundTrip has proofs.
-- - Relay/State: the structs of internal/relay. Clients and web peers are shared objects, so
--   they stand in heaps under the number of their connection, and the maps hold those
--   numbers.
-- - Relay/Limiter: limiter.go. Its children Rate and Starvation have proofs.
-- - Relay/Client: client.go and the sending functions of server.go. Relay/Hub: hub.go and the
--   closing of connections. Relay/Server: the handlers of server.go, by what they are about.
--   Relay/WebShare: webshare.go. Relay/WebPeer: webpeer.go. Relay/Dispatch: `handleMessage`
--   and the loops of client.go.
-- - Relay/Steps: the relay as a transition system. Each round of a goroutine is a step, in
--   any interleaving; the clock, random names, late timers and the choices of `select`, and
--   whether a write succeeds are chosen by the environment.
-- - Relay/Stable: what a property of the server has to survive to be kept by every handler
--   and every step, proved once for all such properties. Relay/Invariant and Relay/Consent
--   apply it. Relay/Kept has rules for outcomes.
-- - Relay/Forwarding, Purge, Registration, Sharing, AuthCode: proofs on the handlers.
-- - Files, Trust, Audit: the JSON files, internal/trust/store.go, internal/audit/store.go.
--   Desktop/ChangeDetector: internal/desktop/change_detector.go. ClientOptions:
--   internal/client/options.go.
-- - Identity: internal/auth/device.go, with proofs in Reloading.
-- - Client/State, Basics: the structs of internal/client, and what all its operations are
--   made of. Client/Media: the options of the stream, its quality and rate. Client/Streams:
--   starting and stopping the stream. Client/Commands: the calls of the window.
--   Client/Handlers and Dispatch: `handleMessage`. Client/Connection: Start, Close, connect,
--   reconnect, the read, heartbeat and telemetry loops. Client/Frames: the loops that send
--   frames. All are client.go.
-- - Client/Steps: the client as a transition system, as for the relay. Client/Core: the
--   session, stream, heartbeats and input of a client as a small machine, and in Core/Lasting
--   what its steps keep. Client/Refinement: each operation, and each step, is a step of that
--   machine. Client/Invariant applies it to every run of whole steps. Client/Races: the end
--   of a session, part by part, against a change of the options.
-- - Client/Consent, Backoff, Shares, Rates: proofs on the handlers, the reconnects, the list
--   of shares, and the adjusted numbers.
-- - Injection: internal/input/input_windows.go, up to the calls of Windows. Updates:
--   internal/updatecheck/checker.go, after the request.
-- - Settings: the settings in cmd/client-windows/app.go, with proofs in Normal.
-- - Examples: runs of the model and the theorems at concrete inputs.
--
-- How the code corresponds. A Go function `fooBar` is `foo_bar`. A handler takes the server,
-- what it draws from its surroundings (`Env`: one instant for the whole call, and random names),
-- the connection and the message, and returns the server and its error. A handler is one step:
-- the moments between two locks of one handler are not interleaved with other handlers.
-- Client/Races alone looks into such moments, at the end of a session. A step that reads a
-- message covers `Touch`, the handler, and the error reply. `trySend` may choose either case of
-- its `select` when the queue has room and the client is closed; `picks_send` is that choice.
-- `conn.Write` succeeds or fails by `writable`.
--
-- The client. `Client D A` has the trust store as `D` and the audit log as `A`, which `Stores`
-- operates on; it is the state of a client that has been started, with the loops that run as
-- data: the stream that is on, if any, and whether heartbeats are sent. The read loop is a value
-- of `ReadLoop`. `Start` takes the identity that was loaded. A round of a goroutine and a call
-- of the window are each one step here, too, except in Client/Races. A stream that is stopped is
-- over at once, where the source waits up to two seconds for it; the status frame that a
-- goroutine sends on its own waits in `status_due`. `Texts` prints numbers, durations and
-- errors.
--
-- Bounds and fuel. Durations are wrapped to 64 bits where the source multiplies; instants are
-- natural numbers of nanoseconds. The loop of `Wait` has the nanoseconds to its deadline, and
-- one more, as fuel, which is enough since each round waits for a nanosecond at least. Where the
-- timer and the context are both ready, its `select` may take either, by `picks`; only in a
-- round that starts after the end of its context is the context taken, since the timer has not
-- fired yet. All other loops are structural recursion.
--
-- Parameters: `share_url`, `render` and `size` (the text of a link, the text of an error, the
-- length of a payload), the hash of a frame, and for the files and the line codec the type of
-- texts with `marshal` and `unmarshal`, which lose nothing.
--
-- Not modelled: listeners, TLS and WebSocket connections, HTML pages, logging, screen capture,
-- the calls of Windows and the window of the client but for its settings (I/O). The client does
-- not stop where Go would panic in the injector; Injection says where that is. The limiter and
-- the bitrate are exact where the source rounds a float64; `slices.SortFunc` and `sort.Slice`
-- are insertion sorts, which is one of the orders that these allow among equal elements.
mod Prelude
pub mod Maps
pub mod Config
pub mod Auth
pub mod Protocol
pub mod Files
pub mod Trust
pub mod Audit
pub mod Desktop
pub mod ClientOptions
pub mod Identity
pub mod Injection
pub mod Updates
pub mod Settings
pub mod Client
pub mod Relay
mod Examples
