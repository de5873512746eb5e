-- ===== src/Examples/Codec.antt =====
-- A run of the line codec, on lines that are the messages themselves.
use beacon_desk.Prelude.{ℕ, ◌≡◌, ◌≢◌, refl, Option, some, arith, eq_iff, inl}
use beacon_desk.Prelude.Int.{pos}
use beacon_desk.Protocol.Message.{Envelope}
use beacon_desk.Protocol.Codec.{message, read_message, written_line, read_message-written_line}
use beacon_desk.Examples.Data.{mouse}

abbrev size_of : Envelope → ℕ
size_of msg = 200

abbrev same_message : Envelope → Envelope
same_message msg = msg

abbrev understood : Envelope → Option Envelope
understood msg = some msg

abbrev unversioned : Envelope
unversioned = record mouse { version = pos 0 }

mouse_typed : mouse.type ≢ ""
mouse_typed h = ground (arith, eq_iff mouse.type "")

read_message-written_line_example :
    read_message size_of understood same_message
      (some (written_line size_of understood same_message unversioned))
    ≡ message mouse
read_message-written_line_example =
    read_message-written_line size_of understood same_message unversioned (λ m. refl) (omega arith)
      (inl refl) mouse_typed

mouse_read : read_message size_of understood same_message (some mouse) ≡ message mouse
unfolding read_message
mouse_read = refl
