-- ===== src/Client/Refinement/Commands.antt =====
-- The calls of the window, which write to the relay, leave the core of a client alone.
use beacon_desk.Prelude.{ℕ, ◌≡◌, refl, String, Bool, true, false, ◌&&◌, Option, none, some, ◌==◌}
use beacon_desk.Prelude.Int.{ℤ}
use beacon_desk.Protocol.Json.{Json}
use beacon_desk.Client.State.{Client, Stores, store_failed, Texts, Env}
use beacon_desk.Client.Basics.{emit, set_state, clear_pending, record_audit}
use beacon_desk.Client.Commands.{
  send_in_session, request_session_with_code, generate_temporary_code, create_web_share,
  refresh_web_shares, revoke_web_share, register, confirm_session, approve_session, reject_session,
}
use beacon_desk.Client.Steps.{
  Command, ask_session, make_code, make_share, list_shares, revoke_share, approve, reject, control,
  move_mouse, press_key, run_command,
}
use beacon_desk.Client.Core.{core}
use beacon_desk.Client.Refinement.Basics.{
  core-record_audit, Same, Same-pair, Same-if, Same-option, Same-write, Same-after,
}

module _ {D A : Type 0} where
  send_in_session-Same :
      (now : ℕ) (message_type : String) (payload : Json) (c : Client D A)
      → Same c (send_in_session now message_type payload c)
  unfolding send_in_session
  send_in_session-Same now message_type payload c =
      Same-if (c.state.session_id == "") _ _ (Same-pair _ refl) (Same-write c _ refl)

  pub request_session_with_code-Same :
      (now : ℕ) (target code : String) (c : Client D A)
      → Same c (request_session_with_code now target code c)
  unfolding request_session_with_code emit
  request_session_with_code-Same now target code c =
      Same-if (target == "") _ _ (Same-pair _ refl) (Same-write _ _ refl)

  code-Same : (env : Env) (ttl : ℤ) (c : Client D A) → Same c (generate_temporary_code env ttl c)
  unfolding generate_temporary_code emit
  code-Same env ttl c =
      Same-option env.new_code _ _ (Same-pair _ refl)
        (λ code. Same-after _ _ (Same-write c _ refl) (λ d. refl))

  pub register-Same : (now : ℕ) (c d : Client D A) → core d ≡ core c → Same c (register now d)
  unfolding register
  register-Same now c d h = Same-write d _ h

  module _ (stores : Stores D A) where
    -- What follows the confirmation of a request.
    core-answered :
        (now : ℕ) (event message entry peer mode detail : String) (c : Client D A)
        → core (
            emit now event message
              (set_state clear_pending (record_audit stores now entry peer "" mode detail c)))
          ≡ core c
    unfolding emit clear_pending
    core-answered now event message entry peer mode detail c =
        core-record_audit stores now entry peer "" mode detail c

    confirm_session-Same :
        (now : ℕ) (remember : Bool) (c d : Client D A)
        → core d ≡ core c
        → Same c (confirm_session stores now remember d)
    unfolding confirm_session
    confirm_session-Same now remember c d h =
        Same-after _ _ (Same-write d _ h) (λ e. core-answered now _ _ _ _ _ _ e)

    -- The two ends of `Remember`.
    remembered-Same :
        (now : ℕ) (c d : Client D A) (r : D × Option String)
        → core d ≡ core c
        → Same c (elim r.1 [
          | none ↦ confirm_session stores now true (record d { trust = r.0 })
          | some e ↦ (record d { trust = r.0 }, some (store_failed e))
        ])
    remembered-Same now c d (trust, none) h = confirm_session-Same now true c _ h
    remembered-Same now c d (trust, some e) h = Same-pair _ h

    pub approve_session-Same :
        (now : ℕ) (remember : Bool) (c d : Client D A)
        → core d ≡ core c
        → Same c (approve_session stores now remember d)
    unfolding approve_session
    approve_session-Same now remember c d h =
        Same-if (d.state.pending_peer_id == "") _ _ (Same-pair _ h) (
          Same-if remember _ _
            (remembered-Same now c d
              (stores.remember d.trust d.state.pending_peer_id d.state.pending_mode now) h)
            (confirm_session-Same now false c d h))

    reject_session-Same :
        (now : ℕ) (reason : String) (c : Client D A) → Same c (reject_session stores now reason c)
    unfolding reject_session
    reject_session-Same now reason c =
        Same-if (c.state.pending_peer_id == "") _ _ (Same-pair _ refl)
          (Same-after _ _ (Same-write c _ refl) (λ d. core-answered now _ _ _ _ _ _ d))

    pub run_command-Same :
        (texts : Texts) (env : Env) (command : Command) (c : Client D A)
        → Same c (run_command stores texts env command c)
    unfolding run_command create_web_share refresh_web_shares revoke_web_share emit
    run_command-Same texts env (ask_session target code) c =
        request_session_with_code-Same env.now target code c
    run_command-Same texts env (make_code ttl) c = code-Same env ttl c
    run_command-Same texts env (make_share ttl mode label) c = Same-write _ _ refl
    run_command-Same texts env list_shares c = Same-write c _ refl
    run_command-Same texts env (revoke_share id token) c =
        Same-if (id == "" && token == "") _ _ (Same-pair _ refl) (Same-write c _ refl)
    run_command-Same texts env (approve remember) c = approve_session-Same env.now remember c c refl
    run_command-Same texts env (reject reason) c = reject_session-Same env.now reason c
    run_command-Same texts env (control payload) c = send_in_session-Same env.now _ _ c
    run_command-Same texts env (move_mouse payload) c = send_in_session-Same env.now _ _ c
    run_command-Same texts env (press_key payload) c = send_in_session-Same env.now _ _ c
