-- ===== src/Protocol/Codec.antt =====
-- internal/protocol/codec.go: an envelope as one line of JSON. `T` is the type of lines, `size` their
-- length in bytes, the end of the line included, and `unmarshal` and `marshal` are encoding/json
-- with the end of the line taken off and put on.
use beacon_desk.Prelude.{
  ℕ, ◌*◌, ◌≤◌, ◌≡◌, ◌≢◌, ap, subst, ◌⊎◌, Bool, true, not, ◌&&◌, Option, none, some, ltb, ◌=ℕ◌, ◌==◌,
  eq_iff, arith, if◌then◌else◌, inl, inr, option_rule, if_rule,
}
use beacon_desk.Prelude.Int.{ℤ, pos, negsuc, pos_part, neg_part}
use beacon_desk.Protocol.Types.{protocol_version}
use beacon_desk.Protocol.Message.{Envelope}

abbrev pub max_line_bytes : ℕ
max_line_bytes = 8 * 1024 * 1024

pub data CodecError : Type 0 where
  read_failed : CodecError
  line_too_long : CodecError
  bad_json : CodecError
  unsupported_version : ℤ → CodecError
  type_required : CodecError

-- A message, or why there is none.
pub data ReadResult : Type 0 where
  message : Envelope → ReadResult
  failure : CodecError → ReadResult

abbrev is_version : ℤ → ℕ → Bool
is_version v n = (pos_part v =ℕ n) && (neg_part v =ℕ 0)

failure≢message : {e : CodecError} {m : Envelope} → failure e ≢ message m
failure≢message h = cc

message_inj : {m n : Envelope} → message m ≡ message n → m ≡ n
message_inj {m} h = ap (λ r. elim r [ message x ↦ x | failure _ ↦ m ]) h

is_version_sound : (v : ℤ) (n : ℕ) → is_version v n ≡ true → v ≡ pos n
is_version_sound (pos k) n h = ap pos (ground arith)
is_version_sound (negsuc k) n h = absurd (ground arith)

module _ {T : Type 0} (size : T → ℕ) (unmarshal : T → Option Envelope)
    (marshal : Envelope → T) where
  -- `Read`, from a reader that gives a line or fails.
  unfoldable pub read_message : Option T → ReadResult
  read_message none = failure read_failed
  read_message (some line) =
      if ltb max_line_bytes (size line) then failure line_too_long else elim (unmarshal line) [
        | none ↦ failure bad_json
        | some msg ↦
            if not (is_version msg.version protocol_version)
            then failure (unsupported_version msg.version)
            else if msg.type == ""
            then failure type_required
            else message msg
      ]

  -- `Write`: the line that goes to the writer.
  unfoldable pub written_line : Envelope → T
  written_line msg =
      marshal
        (if is_version msg.version 0 then record msg { version = pos protocol_version } else msg)

  -- Whatever is read is of this version and has a type.
  pub read_message_sound :
      (line : Option T) (msg : Envelope)
      → read_message line ≡ message msg
      → (msg.version ≡ pos protocol_version) × (msg.type ≢ "")
  unfolding read_message
  read_message_sound none msg = λ h. absurd (failure≢message h)
  read_message_sound (some line) msg =
      let Sound : ReadResult → Type 0 =
        λ r. r ≡ message msg → (msg.version ≡ pos protocol_version) × (msg.type ≢ "") in
      if_rule Sound (ltb max_line_bytes (size line)) _ _ (λ _ h. absurd (failure≢message h))
        (λ _.
          option_rule Sound (unmarshal line) _ _ (λ _ h. absurd (failure≢message h))
            (λ m _.
              if_rule Sound (not (is_version m.version protocol_version)) _ _
                (λ _ h. absurd (failure≢message h))
                (λ v.
                  if_rule Sound (m.type == "") _ _ (λ _ h. absurd (failure≢message h))
                    (λ n h.
                      subst (λ (x : Envelope). (x.version ≡ pos protocol_version) × (x.type ≢ ""))
                        (message_inj h)
                        (
                          is_version_sound m.version protocol_version (ground arith),
                          λ e. ground (arith, eq_iff m.type ""),
                        )))))

  -- A message without a version, or of this version, that has a type is read back as it was
  -- written, with this version, if its line is no longer than allowed and `marshal` loses nothing.
  pub read_message-written_line :
      (msg : Envelope)
      → ((m : Envelope) → unmarshal (marshal m) ≡ some m)
      → size (written_line msg) ≤ max_line_bytes
      → (msg.version ≡ pos 0) ⊎ (msg.version ≡ pos protocol_version)
      → msg.type ≢ ""
      → read_message (some (written_line msg))
        ≡ message (record msg { version = pos protocol_version })
  unfolding read_message written_line
  read_message-written_line msg faithful fits version typed = elim version [
    | inl v ↦
        ground (arith, faithful (record msg { version = pos protocol_version }), eq_iff msg.type "")
    | inr v ↦ ground (arith, faithful msg, eq_iff msg.type "")
  ]
