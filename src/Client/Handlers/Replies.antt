-- ===== src/Client/Handlers/Replies.antt =====
-- client.go, `handleMessage`: the answers of the relay to this device.
use Prim.Native.String.{◌++◌ as append}
use beacon_desk.Prelude.{ℕ, ◌+◌, true, Option, none, some, ◌==◌, if◌then◌else◌, length}
use beacon_desk.Prelude.Int.{pos, sub_ℤ, wrap64}
use beacon_desk.Protocol.Message.{Envelope, unix_milli}
use beacon_desk.Protocol.Payloads.{
  RegisteredPayload, decode_registered, decode_auth_code_published, decode_web_share_created,
  decode_web_share_list_result, decode_web_share_revoked, decode_web_share_status, decode_heartbeat,
  decode_error,
}
use beacon_desk.Client.State.{State, Client, Texts, Outcome, bad_payload}
use beacon_desk.Client.Basics.{set_state, emit, upsert_web_share, remove_web_share}
use beacon_desk.Client.Commands.{request_session_with_code}

-- A registered client goes by the name that the relay gives it, if it gives one.
unfoldable pub registered_state : RegisteredPayload → State → State
registered_state p s = record s {
  registered = true;
  device_id = p.device_id;
  device_name = if p.device_name == "" then s.device_name else p.device_name;
}

module _ {D A : Type 0} where
  -- `payload, err := DecodePayload(msg); if err != nil { return err }`
  unfoldable pub with_payload :
      {P : Type 0} → Option P → Client D A → (P → Outcome D A) → Outcome D A
  with_payload decoded c f = elim decoded [ none ↦ (c, some bad_payload) | some p ↦ f p ]

  unfoldable pub on_registered : ℕ → Envelope → Client D A → Outcome D A
  on_registered now msg c = with_payload (decode_registered msg.payload) c (λ p.
      let c' =
        emit now "device.registered" (append "registered as " p.device_id)
          (set_state (registered_state p) c) in
      if c.opts.target_device_id == ""
      then (c', none)
      else request_session_with_code now c.opts.target_device_id c.opts.target_auth_code c')

  unfoldable pub on_auth_code_published : ℕ → Envelope → Client D A → Outcome D A
  on_auth_code_published now msg c = with_payload (decode_auth_code_published msg.payload) c (λ p. (
    emit now "auth.code.published" p.message
        (set_state (λ s. record s { auth_code_expiry = p.expires_at }) c),
    none,
  ))

  unfoldable pub on_web_share_created : ℕ → Envelope → Client D A → Outcome D A
  on_web_share_created now msg c = with_payload (decode_web_share_created msg.payload) c (λ p. (
    emit now "web.share.created" p.message (
        set_state (λ s. record s { web_share_links = upsert_web_share p.share s.web_share_links })
          c),
    none,
  ))

  unfoldable pub on_web_share_list : Texts → ℕ → Envelope → Client D A → Outcome D A
  on_web_share_list texts now msg c =
      with_payload (decode_web_share_list_result msg.payload) c (λ p. (
        emit now "web.share.list"
            (append (texts.show_int (pos (length p.shares))) " web control links")
            (set_state (λ s. record s { web_share_links = p.shares }) c),
        none,
      ))

  unfoldable pub on_web_share_revoked : ℕ → Envelope → Client D A → Outcome D A
  on_web_share_revoked now msg c = with_payload (decode_web_share_revoked msg.payload) c (λ p. (
    emit now "web.share.revoked" p.message (
        set_state
          (λ s. record s { web_share_links = remove_web_share p.id p.token s.web_share_links }) c),
    none,
  ))

  unfoldable pub on_web_share_status : ℕ → Envelope → Client D A → Outcome D A
  on_web_share_status now msg c = with_payload (decode_web_share_status msg.payload) c (λ p. (
    emit now (append "web.share." p.status) (if p.message == "" then p.status else p.message) c,
    none,
  ))

  unfoldable pub on_heartbeat_pong : Texts → ℕ → Envelope → Client D A → Outcome D A
  on_heartbeat_pong texts now msg c = with_payload (decode_heartbeat msg.payload) c (λ p.
      let rtt = wrap64 (sub_ℤ (pos (unix_milli now)) p.sent_at) in
      let counted = record c { heartbeat_pongs = c.heartbeat_pongs + 1 } in
      (
        emit now "heartbeat.pong"
            (append "rtt="
              (append (texts.show_int rtt) (append "ms seq=" (texts.show_int p.sequence))))
            (set_state (λ s. record s { rtt_millis = rtt }) counted),
        none,
      ))

  unfoldable pub on_error : ℕ → Envelope → Client D A → Outcome D A
  on_error now msg c =
      with_payload (decode_error msg.payload) c
        (λ p. (emit now "relay.error" (append p.code (append ": " p.message)) c, none))
