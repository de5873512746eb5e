-- ===== src/Protocol/Message.antt =====
-- internal/protocol/message.go: the envelope.
use beacon_desk.Prelude.{ℕ, ◌/◌, String, Option, some}
use beacon_desk.Prelude.Int.{ℤ, pos}
use beacon_desk.Protocol.Types.{protocol_version}
use beacon_desk.Protocol.Json.{Json}

pub record Envelope : Type 0 where
  pub version : ℤ
  pub type : String
  pub request_id : String
  pub session_id : String
  pub from : String
  pub to : String
  pub timestamp : ℤ
  pub payload : Option Json

-- Instants are nanoseconds since the epoch; `UnixMilli` drops the rest of a millisecond.
abbrev pub unix_milli : ℕ → ℕ
unix_milli now = now / 1_000_000

-- The payloads of the program always marshal, so `NewEnvelope` does not fail and `MustEnvelope`
-- does not panic.
unfoldable pub new_envelope : ℕ → String → String → String → Json → Envelope
new_envelope now message_type from to payload = record {
  version = pos protocol_version;
  type = message_type;
  request_id = "";
  session_id = "";
  from = from;
  to = to;
  timestamp = pos (unix_milli now);
  payload = some payload;
}

unfoldable pub must_envelope : ℕ → String → String → String → Json → Envelope
unfolding new_envelope
must_envelope now message_type from to payload = new_envelope now message_type from to payload
