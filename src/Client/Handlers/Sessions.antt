-- ===== src/Client/Handlers/Sessions.antt =====
-- client.go, `handleMessage`: requests for a session, its announcement, and its end.
use Prim.Native.String.{◌++◌ as append}
use beacon_desk.Prelude.{
  ℕ, String, Bool, true, false, not, ◌&&◌, ◌||◌, Option, none, some, ◌==◌, if◌then◌else◌,
}
use beacon_desk.Prelude.Int.{pos}
use beacon_desk.Protocol.Types.{normalize_session_mode}
use beacon_desk.Protocol.Message.{Envelope}
use beacon_desk.Protocol.Payloads.{
  SessionRequestPayload, SessionReadyPayload, decode_session_request, decode_session_confirm,
  decode_session_ready,
}
use beacon_desk.ClientOptions.{Options}
use beacon_desk.Client.State.{State, Client, Stores, Outcome}
use beacon_desk.Client.Basics.{show_bool, clear_session, set_state, emit, stop_stream, record_audit}
use beacon_desk.Client.Streams.{start_configured_stream}
use beacon_desk.Client.Commands.{approve_session}
use beacon_desk.Client.Handlers.Replies.{with_payload}

-- A request waits for its answer.
unfoldable pub pending_state : String → SessionRequestPayload → Bool → State → State
pending_state peer p trusted s = record s {
  pending_peer_id = peer;
  pending_peer_name = p.requester_name;
  pending_mode = normalize_session_mode p.mode;
  pending_input = p.input_requested;
  pending_trusted = trusted;
}

-- Does this side send its screen? A relay that does not tell roles leaves it to the options.
abbrev pub sends_view : SessionReadyPayload → Options → Bool
sends_view p o =
    if p.local_role == "" && (o.send_screen_frames || o.send_mock_frames)
    then true
    else p.should_send_view

unfoldable pub ready_state : SessionReadyPayload → Bool → State → State
ready_state p view s = record s {
  session_id = p.session_id;
  peer_id = p.peer_id;
  peer_name = p.peer_name;
  session_mode = p.mode;
  session_local_role = p.local_role;
  should_send_view = view;
  input_allowed = p.input_allowed;
  last_frame_data = "";
  last_frame_kind = "";
  last_frame_status = "";
  last_frame_error = "";
  last_frame_width = pos 0;
  last_frame_height = pos 0;
}

module _ {D A : Type 0} where
  unfoldable pub on_session_confirm : ℕ → Envelope → Client D A → Outcome D A
  on_session_confirm now msg c =
      with_payload (decode_session_confirm msg.payload) c
        (λ p. if p.accepted then (c, none) else (emit now "session.declined" p.reason c, none))

  unfoldable pub on_session_close : ℕ → Client D A → Outcome D A
  on_session_close now c =
      (emit now "session.close" "session closed" (set_state clear_session (stop_stream c)), none)

  abbrev pub keep_trust : ℕ → D → Option String → Client D A → Client D A
  keep_trust now trust none c = record c { trust = trust }
  keep_trust now trust (some e) c = emit now "trust.error" e (record c { trust = trust })

  module _ (stores : Stores D A) where
    -- The date of its last use is noted for a trusted device.
    unfoldable pub touch_trusted : ℕ → String → Client D A → Client D A
    touch_trusted now peer c =
        let touched = stores.touch c.trust peer now in keep_trust now touched.0 touched.1 c

    -- A request that waits: it is accepted at once if the device is trusted, or if all are.
    unfoldable pub answer_request : ℕ → String → Bool → Client D A → Outcome D A
    answer_request now peer trusted c =
        if trusted
        then approve_session stores now false (
            emit now "session.trusted" (append "auto-accepting trusted device " peer)
              (touch_trusted now peer c))
        else if not c.opts.auto_accept
        then (emit now "session.waiting" (append "waiting for local approval from " peer) c, none)
        else approve_session stores now false c

    -- `handleSessionRequest`.
    unfoldable pub handle_session_request : ℕ → Envelope → Client D A → Outcome D A
    handle_session_request now msg c =
        let incoming = emit now "session.incoming" (append "incoming request from " msg.from) c in
        with_payload (decode_session_request msg.payload) incoming (λ p.
          let recorded =
            record_audit stores now "session.incoming" msg.from "" (normalize_session_mode p.mode)
              (append "name=" (
                append p.requester_name (append " input_requested=" (show_bool p.input_requested))))
              incoming in
          let trusted = stores.is_trusted recorded.trust msg.from in
          answer_request now msg.from trusted
            (set_state (pending_state msg.from p trusted) recorded))

    unfoldable pub on_session_ready : ℕ → Envelope → Client D A → Outcome D A
    on_session_ready now msg c = with_payload (decode_session_ready msg.payload) c (λ p.
        let view = sends_view p c.opts in
        let recorded =
          record_audit stores now "session.ready" p.peer_id p.session_id p.mode
            (append "input_allowed=" (show_bool p.input_allowed))
            (set_state (ready_state p view) c) in
        let told =
          emit now "session.ready"
            (append "session ready with " (
              append p.peer_id (
                append " mode=" (
                  append p.mode (
                    append " input="
                      (append (show_bool p.input_allowed) (append " role=" p.local_role)))))))
            recorded in
        if view
        then (start_configured_stream now p.session_id told, none)
        else (stop_stream told, none))
