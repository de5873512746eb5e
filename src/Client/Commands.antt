-- ===== src/Client/Commands.antt =====
-- client.go: what the window asks of the client.
use Prim.Native.String.{◌++◌ as append}
use beacon_desk.Prelude.{
  ℕ, ◌+◌, ◌*◌, ◌/◌, String, Bool, true, false, ◌&&◌, none, some, ◌==◌, if◌then◌else◌,
}
use beacon_desk.Prelude.Int.{ℤ, pos, pos_part, ltb_ℤ}
use beacon_desk.Config.{second}
use beacon_desk.Protocol.Types.{
  type_stream_control, type_session_request, type_auth_code_publish, type_web_share_create,
  type_web_share_list, type_web_share_revoke, type_session_confirm, type_input_mouse,
  type_input_keyboard, type_device_register, normalize_session_mode, session_mode_allows_input,
}
use beacon_desk.Protocol.Json.{Json, object, end}
use beacon_desk.Protocol.Message.{Envelope, must_envelope, unix_milli}
use beacon_desk.Protocol.Payloads.{
  StreamControlPayload, InputMousePayload, InputKeyboardPayload, encode_stream_control,
  encode_session_request, encode_auth_code_publish, encode_web_share_create,
  encode_web_share_revoke, encode_session_confirm, encode_input_mouse, encode_input_keyboard,
  encode_register, SessionConfirmPayload,
}
use beacon_desk.Client.State.{
  Client, Stores, Fault, no_active_session, no_pending_request, target_required, share_required,
  code_failed, store_failed, Texts, Env, Outcome,
}
use beacon_desk.Client.Basics.{show_bool, clear_pending, set_state, emit, write, record_audit}

-- The lifetime of a code, and of a web share.
abbrev pub ttl_or : ℤ → ℕ → ℕ
ttl_or ttl default = if ltb_ℤ (pos 0) ttl then pos_part ttl else default

-- `GenerateTemporaryCode`; the code is the one of `env`, and then in the state.
abbrev pub refusal : String → SessionConfirmPayload
refusal reason = record {
  accepted = false;
  reason = reason;
  accepted_mode = "";
  input_allowed = false;
}

module _ {D A : Type 0} where
  -- What follows a write that did not fail.
  unfoldable pub after : Outcome D A → (Client D A → Client D A) → Outcome D A
  after o f = elim o.1 [ none ↦ (f o.0, none) | some e ↦ (o.0, some e) ]

  -- What follows a write, whether or not it failed.
  unfoldable pub settle :
      Outcome D A → (Client D A → Client D A) → (Fault → Client D A → Client D A) → Client D A
  settle o done failed = elim o.1 [ none ↦ done o.0 | some e ↦ failed e o.0 ]

  -- A message of this device, in its session.
  abbrev pub session_envelope : ℕ → String → String → Json → Client D A → Envelope
  session_envelope now message_type session payload c =
      record (must_envelope now message_type c.identity.device_id "" payload) {
        session_id = session;
      }

  -- The shared part of `SendStreamControl`, `SendMouse` and `SendKeyboard`.
  unfoldable pub send_in_session : ℕ → String → Json → Client D A → Outcome D A
  send_in_session now message_type payload c =
      if c.state.session_id == ""
      then (c, some no_active_session)
      else write c (session_envelope now message_type c.state.session_id payload c)

  abbrev pub send_stream_control : ℕ → StreamControlPayload → Client D A → Outcome D A
  send_stream_control now payload c =
      send_in_session now type_stream_control (encode_stream_control payload) c

  abbrev pub send_mouse : ℕ → InputMousePayload → Client D A → Outcome D A
  send_mouse now payload c = send_in_session now type_input_mouse (encode_input_mouse payload) c

  abbrev pub send_keyboard : ℕ → InputKeyboardPayload → Client D A → Outcome D A
  send_keyboard now payload c =
      send_in_session now type_input_keyboard (encode_input_keyboard payload) c

  unfoldable pub request_session_with_code : ℕ → String → String → Client D A → Outcome D A
  request_session_with_code now target code c =
      let msg = must_envelope now type_session_request c.identity.device_id target (
        encode_session_request (record {
          target_device_id = target;
          mode = c.opts.request_mode;
          auth_code = code;
          requester_name = c.identity.device_name;
          requester_role = c.opts.role;
          input_requested = session_mode_allows_input c.opts.request_mode;
        })) in
      if target == ""
      then (c, some target_required)
      else write (emit now "session.request" (append "requesting session with " target) c) msg

  unfoldable pub generate_temporary_code : Env → ℤ → Client D A → Outcome D A
  generate_temporary_code env ttl c =
      let lasting = ttl_or ttl (10 * 60 * second) in
      elim env.new_code [
        | none ↦ (c, some code_failed)
        | some code ↦
            after
              (write c (
                must_envelope env.now type_auth_code_publish c.identity.device_id "relay" (
                  encode_auth_code_publish
                    (record { code = code; ttl_millis = pos (lasting / 1_000_000) }))))
              (λ c'. emit env.now "auth.code.generated" "temporary code generated" (
                set_state
                  (λ s. record s {
                    local_auth_code = code;
                    auth_code_expiry = pos (unix_milli (env.now + lasting));
                  })
                  c'))
      ]

  unfoldable pub create_web_share : Texts → ℕ → ℤ → String → String → Client D A → Outcome D A
  create_web_share texts now ttl mode label c =
      let lasting = ttl_or ttl (60 * 60 * second) in
      let mode' = normalize_session_mode mode in
      let msg = must_envelope now type_web_share_create c.identity.device_id "relay" (
        encode_web_share_create
          (record { ttl_millis = pos (lasting / 1_000_000); mode = mode'; label = label })) in
      let creating =
        append "creating web control link ttl="
          (append (texts.show_duration (pos lasting)) (append " mode=" mode')) in
      write (emit now "web.share.create" creating c) msg

  unfoldable pub refresh_web_shares : ℕ → Client D A → Outcome D A
  refresh_web_shares now c =
      write c (must_envelope now type_web_share_list c.identity.device_id "relay" (object end))

  unfoldable pub revoke_web_share : ℕ → String → String → Client D A → Outcome D A
  revoke_web_share now id token c =
      if id == "" && token == ""
      then (c, some share_required)
      else write c (
          must_envelope now type_web_share_revoke c.identity.device_id "relay"
            (encode_web_share_revoke (record { id = id; token = token })))

  unfoldable pub register : ℕ → Client D A → Outcome D A
  register now c = write c (
      must_envelope now type_device_register c.identity.device_id "relay" (
        encode_register (record {
          device_id = c.identity.device_id;
          device_name = c.identity.device_name;
          role = c.opts.role;
          token = c.opts.token;
        })))

  -- May the peer that is waiting have input?
  abbrev pub grants_input : Client D A → Bool
  grants_input c = c.state.pending_input && c.opts.enable_input

  abbrev pub approval : Client D A → SessionConfirmPayload
  approval c = record {
    accepted = true;
    reason = "";
    accepted_mode = c.state.pending_mode;
    input_allowed = grants_input c;
  }

  abbrev pub confirm_envelope : ℕ → SessionConfirmPayload → Client D A → Envelope
  confirm_envelope now payload c =
      must_envelope now type_session_confirm c.identity.device_id c.state.pending_peer_id
        (encode_session_confirm payload)

  module _ (stores : Stores D A) where
    -- What `approveSession` does once the request may be accepted.
    unfoldable pub confirm_session : ℕ → Bool → Client D A → Outcome D A
    confirm_session now remember c =
        let peer = c.state.pending_peer_id in
        let detail =
          append "remember="
            (append (show_bool remember) (append " input_allowed=" (show_bool (grants_input c)))) in
        let message =
          if remember
          then append "accepted and remembered request from " peer
          else append "accepted request from " peer in
        after (write c (confirm_envelope now (approval c) c)) (λ c'.
          emit now "session.accepted" message (
            set_state clear_pending
              (record_audit stores now "session.accepted" peer "" c.state.pending_mode detail c')))

    -- `approveSession`.
    unfoldable pub approve_session : ℕ → Bool → Client D A → Outcome D A
    approve_session now remember c =
        let remembered = stores.remember c.trust c.state.pending_peer_id c.state.pending_mode now in
        let c' = record c { trust = remembered.0 } in
        if c.state.pending_peer_id == ""
        then (c, some no_pending_request)
        else if remember
        then elim remembered.1 [
          | none ↦ confirm_session now true c'
          | some e ↦ (c', some (store_failed e))
        ]
        else confirm_session now false c

    unfoldable pub reject_session : ℕ → String → Client D A → Outcome D A
    reject_session now reason c =
        let peer = c.state.pending_peer_id in
        let why = if reason == "" then "rejected by user" else reason in
        if peer == ""
        then (c, some no_pending_request)
        else after (write c (confirm_envelope now (refusal why) c)) (λ c'.
          emit now "session.rejected" (append "rejected request from " peer) (
            set_state clear_pending
              (record_audit stores now "session.rejected" peer "" c.state.pending_mode why c')))
