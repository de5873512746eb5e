-- ===== src/Client/Consent.antt =====
-- Who gives consent to a session: client.go, `handleSessionRequest` and `approveSession`, and what
-- the relay makes of their answer.
use beacon_desk.Prelude.{
  ℕ, ◌≡◌, refl, sym, ap, ◌∙◌, ◌≢◌, ◌⊎◌, String, Bool, ◌&&◌, [], ◌∷◌, ◌++◌, if◌then◌else◌, true,
  false, not, Option, none, some, ◌==◌, if_rule, option_rule, arith, eq_iff,
}
use beacon_desk.Protocol.Json.{scan_field, same_key, string_field, bool_field}
use beacon_desk.Protocol.Message.{Envelope, must_envelope, new_envelope}
use beacon_desk.Protocol.Payloads.{
  SessionConfirmPayload, decode_session_request, decode_session_confirm, encode_session_confirm,
}
use beacon_desk.Relay.State.{Session, Server, Env}
use beacon_desk.Relay.Consent.{Consented}
use beacon_desk.Client.State.{Conn, Client, Stores, Fault, Outcome}
use beacon_desk.Client.Basics.{
  emit, record_audit, keep_audit, clear_pending, conn_after, write_conn, written_fault, write,
}
use beacon_desk.Client.Commands.{
  approval, confirm_envelope, grants_input, after, confirm_session, approve_session,
}
use beacon_desk.Client.Handlers.{
  with_payload, handle_session_request, answer_request, pending_state,
}

-- What a device writes of its answer, the relay reads.
confirm_round_trip :
    (p : SessionConfirmPayload) → decode_session_confirm (some (encode_session_confirm p)) ≡ some p
unfolding decode_session_confirm encode_session_confirm string_field bool_field scan_field same_key
confirm_round_trip p = ground (arith, eq_iff p.reason "", eq_iff p.accepted_mode "")

-- What is written to a connection that takes it.
write_conn_open :
    (k : Conn) (msg : Envelope)
    → k.writable ≡ true
    → write_conn k msg ≡ record k { written = k.written ++ msg ∷ [] }
write_conn_open k msg h = ap (λ b. if b then record k { written = k.written ++ msg ∷ [] } else k) h

open_fault : (k : Conn) → k.writable ≡ true → written_fault (some k) ≡ none
open_fault k h = ground arith

module _ {D A : Type 0} where
  keep_audit-conn :
      (now : ℕ) (audit : A) (e : Option String) (c : Client D A)
      → (keep_audit now audit e c).conn ≡ c.conn
  unfolding emit
  keep_audit-conn now audit none c = refl
  keep_audit-conn now audit (some e) c = refl

  keep_audit-trust :
      (now : ℕ) (audit : A) (e : Option String) (c : Client D A)
      → (keep_audit now audit e c).trust ≡ c.trust
  unfolding emit
  keep_audit-trust now audit none c = refl
  keep_audit-trust now audit (some e) c = refl

  keep_audit-accepts :
      (now : ℕ) (audit : A) (e : Option String) (c : Client D A)
      → (keep_audit now audit e c).opts.auto_accept ≡ c.opts.auto_accept
  unfolding emit
  keep_audit-accepts now audit none c = refl
  keep_audit-accepts now audit (some e) c = refl

  after-conn :
      (o : Outcome D A) (f : Client D A → Client D A)
      → ((d : Client D A) → (f d).conn ≡ d.conn)
      → (after o f).0.conn ≡ o.0.conn
  unfolding after
  after-conn (c, none) f h = h c
  after-conn (c, some e) f h = refl

  after-done :
      (o : Outcome D A) (f : Client D A → Client D A) → o.1 ≡ none → after o f ≡ (f o.0, none)
  unfolding after
  after-done (c, none) f h = refl
  after-done (c, some e) f h = ground arith

  -- What a client has been given to write.
  SameConn : Client D A → Outcome D A → Type 0
  SameConn c o = o.0.conn ≡ c.conn

  module _ (stores : Stores D A) where
    answer_request-waits :
        (now : ℕ) (peer : String) (trusted : Bool) (c : Client D A)
        → trusted ≡ false
        → c.opts.auto_accept ≡ false
        → (answer_request stores now peer trusted c).0.conn ≡ c.conn
    unfolding answer_request emit SameConn
    answer_request-waits now peer trusted c h k =
        if_rule (SameConn c) trusted _ _ (λ e. ground arith)
          (λ _. if_rule (SameConn c) (not c.opts.auto_accept) _ _ (λ _. refl) (λ e. ground arith))

    -- A request of a device that is not trusted is not answered, unless all requests are accepted.
    pub handle_session_request-waits :
        (now : ℕ) (msg : Envelope) (c : Client D A)
        → stores.is_trusted c.trust msg.from ≡ false
        → c.opts.auto_accept ≡ false
        → (handle_session_request stores now msg c).0.conn ≡ c.conn
    unfolding handle_session_request with_payload record_audit emit pending_state SameConn
    handle_session_request-waits now msg c h k =
        option_rule (SameConn c) (decode_session_request msg.payload) _ _ (λ _. refl)
          (λ p _.
            answer_request-waits now msg.from _ _
              (ap (λ t. stores.is_trusted t msg.from) (keep_audit-trust now _ _ _) ∙ h)
              (keep_audit-accepts now _ _ _ ∙ k)
            ∙ keep_audit-conn now _ _ _)

    -- The answer to the request that waits has been written, and nothing waits any more.
    pub record Accepted (c : Client D A) (k : Conn) (o : Outcome D A) : Type 0 where
      pub answer : Envelope
      pub written : o.0.conn ≡ some (record k { written = k.written ++ answer ∷ [] })
      pub confirms : answer.type ≡ "session.confirm"
      pub from_device : answer.from ≡ c.identity.device_id
      pub to_peer : answer.to ≡ c.state.pending_peer_id
      pub says :
          decode_session_confirm answer.payload
          ≡ some (record {
            accepted = true;
            reason = "";
            accepted_mode = c.state.pending_mode;
            input_allowed = c.state.pending_input && c.opts.enable_input;
          })
      pub succeeds : o.1 ≡ none
      pub waits_no_more : o.0.state.pending_peer_id ≡ ""

    confirm_session-Accepted :
        (now : ℕ) (remember : Bool) (c : Client D A) {k : Conn}
        → c.conn ≡ some k
        → k.writable ≡ true
        → Accepted c k (confirm_session stores now remember c)
    unfolding confirm_session write record_audit emit clear_pending must_envelope new_envelope
    confirm_session-Accepted now remember c {k} on takes =
        let msg = confirm_envelope now (approval c) c in
        let wrote : written_fault c.conn ≡ none = ap written_fault on ∙ open_fault k takes in
        record {
          answer = msg;
          written =
              after-conn (write c msg) _ (λ d. keep_audit-conn now _ _ _)
              ∙ ap (λ o. conn_after o msg) on
              ∙ ap some (write_conn_open k msg takes);
          confirms = refl;
          from_device = refl;
          to_peer = refl;
          says = confirm_round_trip (approval c);
          succeeds = ap snd_of (after-done (write c msg) _ wrote);
          waits_no_more = ap waiting_of (after-done (write c msg) _ wrote);
        }
      where
        snd_of : Outcome D A → Option Fault
        snd_of o = o.1

        waiting_of : Outcome D A → String
        waiting_of o = o.0.state.pending_peer_id

    -- The store of trusted devices is no part of an answer.
    remembering :
        {c : Client D A} {k : Conn} {o : Outcome D A} (trust : D)
        → Accepted (record c { trust = trust }) k o
        → Accepted c k o
    remembering trust h = record {
      answer = h.answer;
      written = h.written;
      confirms = h.confirms;
      from_device = h.from_device;
      to_peer = h.to_peer;
      says = h.says;
      succeeds = h.succeeds;
      waits_no_more = h.waits_no_more;
    }

    -- If a request waits, the connection takes what is written, and either the device is not to be
    -- remembered or the store keeps it, then approving succeeds: it writes one message, from this
    -- device to the one whose request waits, which reads as a confirmation that accepts, with the mode
    -- of the request, and with input exactly if the request asks for it and the options enable it; and
    -- no request waits after it.
    pub approve_session-Accepted :
        (now : ℕ) (remember : Bool) (c : Client D A) {k : Conn}
        → c.state.pending_peer_id ≢ ""
        → c.conn ≡ some k
        → k.writable ≡ true
        → (remember ≡ false)
          ⊎ ((stores.remember c.trust c.state.pending_peer_id c.state.pending_mode now).1 ≡ none)
        → Accepted c k (approve_session stores now remember c)
    unfolding approve_session
    approve_session-Accepted now remember c {k} waits on takes kept =
        let remembered = stores.remember c.trust c.state.pending_peer_id c.state.pending_mode now in
        let c' = record c { trust = remembered.0 } in
        if_rule (Accepted c k) (c.state.pending_peer_id == "") _ _
          (λ e. absurd (waits ((eq_iff c.state.pending_peer_id "").0 e)))
          (λ _.
            if_rule (Accepted c k) remember _ _
              (λ yes.
                option_rule (Accepted c k) remembered.1 _ _
                  (λ _. remembering remembered.0 (confirm_session-Accepted now true c' on takes))
                  (λ e failed. ground arith))
              (λ _. confirm_session-Accepted now false c on takes))

  -- A session that the relay makes of an approval allows input only if the request asked for it and
  -- the options of the controlled side enable it.
  pub input_needs_both :
      {s : Server} (env : Env) (peer now : ℕ) (c : Client D A) (x : Session)
      → Consented s env peer (confirm_envelope now (approval c) c) x
      → x.input_allowed ≡ true
      → (c.state.pending_input ≡ true) × (c.opts.enable_input ≡ true)
  unfolding must_envelope new_envelope
  input_needs_both env peer now c x given allowed =
      let read : given.payload.input_allowed ≡ grants_input c =
        ap input_of (sym given.decoded ∙ confirm_round_trip (approval c)) in
      ground arith
    where
      input_of : Option SessionConfirmPayload → Bool
      input_of none = false
      input_of (some p) = p.input_allowed
