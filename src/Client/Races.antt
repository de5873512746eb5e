-- ===== src/Client/Races.antt =====
-- The end of a session on one goroutine of the client and `UpdateOptions` on another: client.go,
-- `markDisconnected` and the case of `TypeSessionClose` stop the stream first and clear the session
-- later, and no lock is held from the one to the other.
use beacon_desk.Prelude.{
  ℕ, zero, suc, ◌≤◌, ◌<◌, ◌≡◌, ◌≢◌, refl, ap, ◌∙◌, ◌⊎◌, inl, inr, true, false, not, ◌||◌, none,
  some, List, [], ◌∷◌, ◌==◌, if◌then◌else◌, if_rule, arith, eq_iff,
}
use beacon_desk.ClientOptions.{Options, with_defaults}
use beacon_desk.Client.State.{screen, Client}
use beacon_desk.Client.Basics.{set_state, close_conn, stop_stream, clear_session, emit}
use beacon_desk.Client.Streams.{new_stream, start_configured_stream, restart_stream, update_options}
use beacon_desk.Client.Handlers.{on_session_close}
use beacon_desk.Client.Connection.{disconnected_state, mark_disconnected}

-- How a session ends for the client: its connection is lost, or the relay closes the session.
pub data Ending : Type 0 where
  lost : Ending
  closed : Ending

-- How many parts there are.
abbrev pub parts_of : Ending → ℕ
parts_of lost = 3
parts_of closed = 2

module _ {D A : Type 0} where
  -- The parts that take effect one after the other.
  abbrev pub ending_parts : Ending → List (Client D A → Client D A)
  ending_parts lost = stop_stream ∷ close_conn ∷ set_state disconnected_state ∷ []
  ending_parts closed = stop_stream ∷ set_state clear_session ∷ []

  abbrev pub run_parts : List (Client D A → Client D A) → Client D A → Client D A
  run_parts [] c = c
  run_parts (part ∷ parts) c = run_parts parts (part c)

  -- A call that comes after so many parts.
  abbrev pub insert_at :
      (Client D A → Client D A)
      → List (Client D A → Client D A)
      → ℕ
      → List (Client D A → Client D A)
  insert_at call [] n = call ∷ []
  insert_at call (part ∷ parts) zero = call ∷ part ∷ parts
  insert_at call (part ∷ parts) (suc n) = part ∷ insert_at call parts n

  -- The operation whose parts they are, and the event that it ends with.
  abbrev pub operation : Ending → ℕ → Client D A → Client D A
  operation lost now c = mark_disconnected c
  operation closed now c = (on_session_close now c).0

  abbrev pub announced : Ending → ℕ → Client D A → Client D A
  announced lost now c = c
  announced closed now c = emit now "session.close" "session closed" c

  parts-operation :
      (ending : Ending) (now : ℕ) (c : Client D A)
      → announced ending now (run_parts (ending_parts ending) c) ≡ operation ending now c
  unfolding mark_disconnected on_session_close
  parts-operation lost now c = refl
  parts-operation closed now c = refl

  -- What `UpdateOptions` does before it looks at the session.
  abbrev renamed : Options → Client D A → Client D A
  renamed options c =
      let opts = with_defaults options in
      set_state (λ s. record s { device_name = opts.device_name; role = opts.role })
        (record c { opts = opts })

  update_options-idle :
      (now : ℕ) (options : Options) (c : Client D A)
      → c.state.session_id ≡ ""
      → update_options now options c ≡ stop_stream (renamed options c)
  unfolding update_options restart_stream
  update_options-idle now options c h =
      let idle : (c.state.session_id == "" || not c.state.should_send_view) ≡ true =
        ground (arith, eq_iff c.state.session_id "") in
      ap
        (λ b.
          if b
          then stop_stream (renamed options c)
          else start_configured_stream now c.state.session_id (renamed options c))
        idle

  update_options-starts :
      (now : ℕ) (options : Options) (c : Client D A)
      → c.state.session_id ≢ ""
      → c.state.should_send_view ≡ true
      → options.send_screen_frames ≡ true
      → (update_options now options c).stream ≡ some (new_stream screen c.state.session_id)
  unfolding update_options restart_stream start_configured_stream with_defaults
  update_options-starts now options c h view sends =
      if_rule Starts (c.state.session_id == "" || not c.state.should_send_view) _ _
        (λ off. ground (arith, eq_iff c.state.session_id ""))
        (λ _.
          if_rule Starts (c.state.session_id == "") _ _
            (λ unnamed. ground (arith, eq_iff c.state.session_id ""))
            (λ _. if_rule Starts options.send_screen_frames _ _ (λ _. refl) (λ off. ground arith)))
    where
      Starts : Client D A → Type 0
      Starts d = d.stream ≡ some (new_stream screen c.state.session_id)

  -- What is left when a session ends while the window calls `UpdateOptions`, after `n` parts.
  abbrev pub raced : Ending → ℕ → ℕ → Options → Client D A → Client D A
  raced ending n now options c =
      run_parts (insert_at (update_options now options) (ending_parts ending) n) c

  -- There is no session, and no stream.
  abbrev IsOver : Client D A → Type 0
  IsOver d = (d.state.session_id ≡ "") × (d.state.should_send_view ≡ false) × (d.stream ≡ none)

  update_options-IsOver :
      (now : ℕ) (options : Options) (c : Client D A)
      → c.state.session_id ≡ ""
      → c.state.should_send_view ≡ false
      → IsOver (update_options now options c)
  update_options-IsOver now options c h view =
      let same = update_options-idle now options c h in
      (
        ap (λ (d : Client D A). d.state.session_id) same ∙ h,
        ap (λ (d : Client D A). d.state.should_send_view) same ∙ view,
        ap (λ (d : Client D A). d.stream) same,
      )

  -- What is left, but for the operation that the parts make up.
  Left : Ending → ℕ → ℕ → Options → Client D A → Type 0
  Left ending n now options c =
      ((raced ending n now options c).state.session_id ≡ "")
      × ((raced ending n now options c).state.should_send_view ≡ false)
      × (((0 < n)
            × (n < parts_of ending)
            × ((raced ending n now options c).stream ≡ some (new_stream screen c.state.session_id)))
          ⊎ (((n ≡ 0) ⊎ (parts_of ending ≤ n)) × ((raced ending n now options c).stream ≡ none)))

  raced-Left :
      (ending : Ending) (n now : ℕ) (options : Options) (c : Client D A)
      → c.state.session_id ≢ ""
      → c.state.should_send_view ≡ true
      → options.send_screen_frames ≡ true
      → Left ending n now options c
  unfolding Left clear_session disconnected_state
  raced-Left lost zero now options c h view sends = (refl, refl, inr (inl refl, refl))
  raced-Left lost (suc zero) now options c h view sends =
      (refl, refl, inl (omega arith, omega arith, update_options-starts now options _ h view sends))
  raced-Left lost (suc (suc zero)) now options c h view sends =
      (refl, refl, inl (omega arith, omega arith, update_options-starts now options _ h view sends))
  raced-Left lost (suc (suc (suc n))) now options c h view sends =
      let over = update_options-IsOver now options (run_parts (ending_parts lost) c) refl refl in
      (over.0, over.1, inr (inr (omega arith), over.2))
  raced-Left closed zero now options c h view sends = (refl, refl, inr (inl refl, refl))
  raced-Left closed (suc zero) now options c h view sends =
      (refl, refl, inl (omega arith, omega arith, update_options-starts now options _ h view sends))
  raced-Left closed (suc (suc n)) now options c h view sends =
      let over = update_options-IsOver now options (run_parts (ending_parts closed) c) refl refl in
      (over.0, over.1, inr (inr (omega arith), over.2))

  -- A client in a session that has a name, whose view is to be sent, loses its connection or is told
  -- that the session is over, and the window updates the options, with screen frames on, after `n` of
  -- the parts that this ending has. (With nothing in between they are the whole operation, but for the
  -- event at its end.) When both are done, there is no session and no view to send. But a
  -- stream for the old session runs on exactly if the call came after the stream was stopped and
  -- before the session was cleared; if it came first or last, there is none.
  pub ending_race :
      (ending : Ending) (n now : ℕ) (options : Options) (c : Client D A)
      → c.state.session_id ≢ ""
      → c.state.should_send_view ≡ true
      → options.send_screen_frames ≡ true
      → (announced ending now (run_parts (ending_parts ending) c) ≡ operation ending now c)
        × ((raced ending n now options c).state.session_id ≡ "")
        × ((raced ending n now options c).state.should_send_view ≡ false)
        × (((0 < n)
              × (n < parts_of ending)
              × ((raced ending n now options c).stream
                  ≡ some (new_stream screen c.state.session_id)))
            ⊎ (((n ≡ 0) ⊎ (parts_of ending ≤ n)) × ((raced ending n now options c).stream ≡ none)))
  unfolding Left
  ending_race ending n now options c h view sends =
      let over = raced-Left ending n now options c h view sends in
      (parts-operation ending now c, over.0, over.1, over.2)
