-- ===== src/Relay/Server/Codes.antt =====
-- server.go: the temporary codes that a device publishes and a request gives.
use Prim.Native.String.{len}
use beacon_desk.Prelude.{
  ℕ, ◌*◌, String, Bool, true, false, not, ◌&&◌, none, some, List, [], ◌∷◌, ◌=ℕ◌, ◌==◌,
  if◌then◌else◌, codes, is_digit,
}
use beacon_desk.Prelude.Int.{ℤ, pos, ltb_ℤ, scale, wrap64}
use beacon_desk.Config.{minute}
use beacon_desk.Protocol.Types.{type_auth_code_published}
use beacon_desk.Protocol.Message.{Envelope, must_envelope, unix_milli}
use beacon_desk.Protocol.Payloads.{
  AuthCodePublishPayload, decode_auth_code_publish, encode_auth_code_published,
}
use beacon_desk.Relay.State.{
  Server, Env, Outcome, bad_payload, not_registered, auth_code_required, auth_code_not_six_digits,
  set_client, time_add,
}
use beacon_desk.Relay.Client.{conn_write}

-- Go's durations are signed 64-bit nanoseconds.
abbrev pub from_millis : ℤ → ℤ
from_millis ms = wrap64 (scale ms 1_000_000)

abbrev pub all_digits : List ℕ → Bool
all_digits [] = true
all_digits (c ∷ cs) = is_digit c && all_digits cs

-- `len` counts bytes, the loop goes over code points.
unfoldable pub is_six_digit_code : String → Bool
unfolding is_digit
is_six_digit_code code = if not (len code =ℕ 6) then false else all_digits (codes code)

-- The lifetime of a published code.
unfoldable pub auth_code_ttl : ℤ → ℤ
auth_code_ttl ttl_millis =
    let ttl = from_millis ttl_millis in
    let ttl' = if ltb_ℤ (pos 0) ttl then ttl else pos (10 * minute) in
    if ltb_ℤ (pos (30 * minute)) ttl' then pos (30 * minute) else ttl'

unfoldable pub publish_auth_code : Server → Env → ℕ → AuthCodePublishPayload → Outcome
unfolding auth_code_ttl conn_write
publish_auth_code s env c payload =
    let client = s.client_at c in
    let expires_at = time_add env.now (auth_code_ttl payload.ttl_millis) in
    let published = must_envelope env.now type_auth_code_published "relay" client.device_id (
      encode_auth_code_published (record {
        expires_at = pos (unix_milli expires_at);
        message = "temporary code published";
      })) in
    if payload.code == ""
    then (s, some auth_code_required)
    else if not (is_six_digit_code payload.code)
    then (s, some auth_code_not_six_digits)
    else conn_write
        (set_client s c (record client { auth_code = payload.code; auth_expiry = expires_at })) c
        published

unfoldable pub handle_auth_code_publish : Server → Env → ℕ → Envelope → Outcome
unfolding publish_auth_code
handle_auth_code_publish s env c msg =
    if (s.client_at c).device_id == ""
    then (s, some not_registered)
    else elim (decode_auth_code_publish msg.payload) [
      | none ↦ (s, some bad_payload)
      | some payload ↦ publish_auth_code s env c payload
    ]
