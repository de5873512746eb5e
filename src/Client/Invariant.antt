-- ===== src/Client/Invariant.antt =====
-- What holds of a client in every run in which each round of a goroutine and each call of the window
-- runs alone, with no other between its parts. (Client/Races looks at what comes between.)
use beacon_desk.Prelude.{
  ℕ, ◌≡◌, refl, sym, ap, subst, ◌⊎◌, inl, String, Bool, true, false, Option, none, some, List, [],
  ◌∷◌, ◌++◌, arith, if_rule,
}
use beacon_desk.ClientOptions.{Options}
use beacon_desk.Desktop.ChangeDetector.{Frame}
use beacon_desk.Identity.{Identified, identified, unidentified, unsaved}
use beacon_desk.Client.State.{
  Injected, Stream, Conn, Client, Stores, Fault, Texts, Outcome, new_client,
}
use beacon_desk.Client.Basics.{emit, write, written_fault}
use beacon_desk.Client.Commands.{after, settle}
use beacon_desk.Client.Connection.{
  ReadLoop, reading, keep_registered, connect, connected_state, start, heartbeat_tick,
}
use beacon_desk.Client.Steps.{Step, Reach, here, next}
use beacon_desk.Client.Core.{Core, core, stream_session, CoreStep, Sound}
use beacon_desk.Client.Core.Lasting.{
  without_stream, CoreStep-Sound, CoreStep-faints, CoreStep-injects,
}
use beacon_desk.Client.Refinement.{Fits, Step-Refined, register-Same}

-- A core without a session and a stream.
IsBlank : Core → Type 0
IsBlank k = (k.streaming ≡ none) × (k.session ≡ "")

module _ {D A : Type 0} where
  settle_failed :
      (o : Outcome D A) (done : Client D A → Client D A) (failed : Fault → Client D A → Client D A)
      (e : Fault)
      → o.1 ≡ some e
      → settle o done failed ≡ failed e o.0
  unfolding settle
  settle_failed (c, none) done failed e h = ground (arith)
  settle_failed (c, some x) done failed e h = ap (λ y. failed y c) (ground (arith))

  -- A heartbeat that cannot be written is the last one.
  heartbeat_tick-faints :
      (texts : Texts) (now : ℕ) (c : Client D A) {fault : Fault}
      → written_fault c.conn ≡ some fault
      → (heartbeat_tick texts now c).heartbeats ≡ false
  unfolding heartbeat_tick write
  heartbeat_tick-faints texts now c {fault} h =
      if_rule (λ x. beats x ≡ false) c.heartbeats _ _ (λ _. ap beats (settle_failed _ _ _ fault h))
        (λ off. off)
    where
      beats : Client D A → Bool
      beats x = x.heartbeats

  keep_registered-IsBlank :
      (o : Outcome D A) → IsBlank (core o.0) → IsBlank (core (keep_registered o).0)
  unfolding keep_registered IsBlank
  keep_registered-IsBlank (c, none) h = h
  keep_registered-IsBlank (c, some e) h = h

  connect-IsBlank :
      (now : ℕ) (dialled : Option Conn) (c : Client D A)
      → IsBlank (core c)
      → IsBlank (core (connect now dialled c).0)
  unfolding connect emit connected_state IsBlank
  connect-IsBlank now none c h = h
  connect-IsBlank now (some k) c h =
      keep_registered-IsBlank _
        (subst IsBlank (sym (register-Same now (record c { conn = some k }) _ refl).same) h)

  begin-IsBlank :
      (o : Outcome D A)
      → IsBlank (core o.0)
      → IsBlank (core (after o (λ d. record d { heartbeats = true })).0)
  unfolding after IsBlank
  begin-IsBlank (c, none) h = h
  begin-IsBlank (c, some e) h = h

  start-IsBlank :
      (now : ℕ) (identity : Identified) (dialled : Option Conn) (c : Client D A)
      → IsBlank (core c)
      → IsBlank (core (start now identity dialled c).0)
  unfolding start IsBlank
  start-IsBlank now (identified i) dialled c h = begin-IsBlank _ (connect-IsBlank now dialled _ h)
  start-IsBlank now (unidentified e) dialled c h = h
  start-IsBlank now (unsaved i e) dialled c h = h

module _ {D A : Type 0} (stores : Stores D A) (texts : Texts) (hash : Frame → ℕ)
    (encode : List ℕ → String) where
  -- What holds of a core and lasts, step by step, lasts as long as the client runs.
  pub Reach-lasts :
      (P : Core → Type 0)
      → ((k l : Core) → P k → CoreStep k l → P l)
      → {c : Client D A} {l : ReadLoop} {d : Client D A} {m : ReadLoop} → P (core c)
      → Fits c l
      → Reach stores texts hash encode c l d m
      → P (core d) × Fits d m
  Reach-lasts P lasts h fits here = (h, fits)
  Reach-lasts P lasts h fits (next run step) =
      let before = Reach-lasts P lasts h fits run in
      let refined = Step-Refined stores texts hash encode before.1 step in
      (lasts _ _ before.0 refined.step, refined.fits)

  -- From a read loop that fits, a step injects nothing, or one event, and that only while input is enabled in the options.
  pub Step-injects :
      {c d : Client D A} {l m : ReadLoop}
      → Fits c l
      → Step stores texts hash encode c l d m
      → (d.injected ≡ c.injected)
        ⊎ ((c.opts.enable_input ≡ true)
            × ((event : Injected) × (d.injected ≡ c.injected ++ event ∷ [])))
  Step-injects fits step = CoreStep-injects (Step-Refined stores texts hash encode fits step).step

  -- Once a heartbeat could not be written, no later tick of the heartbeat loop writes or changes
  -- anything, whatever the client does between, reconnections included, from a read loop that fits.
  pub lost_heartbeat :
      (now later : ℕ) (fault : Fault) (c : Client D A) {d : Client D A} {l m : ReadLoop}
      → written_fault c.conn ≡ some fault
      → Fits (heartbeat_tick texts now c) l
      → Reach stores texts hash encode (heartbeat_tick texts now c) l d m
      → heartbeat_tick texts later d ≡ d
  unfolding heartbeat_tick
  lost_heartbeat now later fault c {d} failed fits run =
      let faint_now : (core (heartbeat_tick texts now c)).beating ≡ false =
        heartbeat_tick-faints texts now c failed in
      let faint_after =
        Reach-lasts (λ k. k.beating ≡ false) (λ k l. CoreStep-faints) faint_now fits run in
      if_rule (λ x. x ≡ d) d.heartbeats _ _ (λ on. ground (arith)) (λ _. refl)

  -- In every run of whole steps from the start of a client: if a stream runs, the view is to be sent,
  -- and the stream is one of the session that the client is in, or that session has no name.
  pub running_stream :
      (opts : Options) (trust : D) (audit : A) (now : ℕ) (identity : Identified)
      (dialled : Option Conn) (stream : Stream) {d : Client D A} {m : ReadLoop}
      → Reach stores texts hash encode
          (start now identity dialled (new_client opts trust audit)).0
          reading
          d
          m
      → d.stream ≡ some stream
      → (d.state.should_send_view ≡ true)
        × ((stream.session ≡ d.state.session_id) ⊎ (d.state.session_id ≡ ""))
  unfolding new_client IsBlank
  running_stream opts trust audit now identity dialled stream {d} run h =
      let begun = start-IsBlank now identity dialled (new_client opts trust audit) (refl, refl) in
      let sound =
        (Reach-lasts Sound (λ k l. CoreStep-Sound) (without_stream _ begun.0 (λ _. inl begun.1))
          (record { apart = λ e. ground (arith) }) run).0 in
      (sound.sends_view (ap stream_session h), sound.fits (ap stream_session h))
