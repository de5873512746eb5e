-- ===== src/Client/Core/Lasting.antt =====
-- What steps of the core keep: a sound core, heartbeats that are over, and input that is injected only
-- while it is enabled.
use beacon_desk.Prelude.{
  ◌≡◌, refl, ◌⊎◌, inl, inr, String, Bool, true, false, Option, none, some, ◌∷◌, [], ◌++◌, arith,
  eq_iff, if◌then◌else◌, if_rule,
}
use beacon_desk.Client.State.{Injected}
use beacon_desk.Client.Core.{
  Core, runs, is_shown, CoreStep, stay, enter, control, reset, media, leave, clear, attach, finish,
  faint, quit, depart, inject, Sound,
}

-- A core without a stream is sound if it has no session, or a connection, or is closed.
pub without_stream :
    (k : Core)
    → k.streaming ≡ none
    → (k.attached ≡ false → (k.session ≡ "") ⊎ (k.closed ≡ true))
    → Sound k
without_stream k h off = record {
  sends_view = λ e. ground (arith);
  fits = λ e. ground (arith);
  detached = λ _. h;
  unnamed = off;
}

-- A client that has turned to a session runs its stream, or that session has no name.
runs_fits :
    (sends : Bool) (before : Option String) (session : String) {x : String}
    → runs sends before session ≡ some x
    → (x ≡ session) ⊎ (session ≡ "")
runs_fits sends before session e = ground (arith, eq_iff session "")

-- A stream that starts again is one of the session that is shown.
resent_own :
    (k : Core) (sends : Bool) {x : String}
    → (if is_shown k then runs sends k.streaming k.session else none) ≡ some x
    → (k.view ≡ true) × (x ≡ k.session)
resent_own k sends e = ground (arith, eq_iff k.session "")

-- Without a name, no session is shown.
resent_unnamed :
    (k : Core) (sends : Bool) (idle : Option String)
    → k.session ≡ ""
    → (if is_shown k then runs sends k.streaming k.session else idle) ≡ idle
resent_unnamed k sends idle e = ground (arith, eq_iff k.session "")

-- The viewer's controls leave a stream that was running, or one of the session that is shown.
resent_kept :
    {k : Core} (sends : Bool) {x : String}
    → Sound k
    → (if is_shown k then runs sends k.streaming k.session else k.streaming) ≡ some x
    → (k.view ≡ true) × ((x ≡ k.session) ⊎ (k.session ≡ ""))
resent_kept {k} sends {x} v e =
    if_rule Kept (is_shown k) (runs sends k.streaming k.session) k.streaming
      (λ shown e. (ground (arith), runs_fits sends k.streaming k.session e))
      (λ _ e. (v.sends_view e, v.fits e)) e
  where
    Kept : Option String → Type 0
    Kept o = o ≡ some x → (k.view ≡ true) × ((x ≡ k.session) ⊎ (k.session ≡ ""))

pub CoreStep-Sound : {k l : Core} → Sound k → CoreStep k l → Sound l
CoreStep-Sound v stay = v
CoreStep-Sound v (enter session false on) = without_stream _ refl (λ off. ground (arith))
CoreStep-Sound {k} v (enter session true on) = record {
  sends_view = λ e. refl;
  fits = λ e. runs_fits k.sends k.streaming session e;
  detached = λ off. ground (arith);
  unnamed = λ off. ground (arith);
}
CoreStep-Sound {k} v (control sends on) = record {
  sends_view = λ e. (resent_kept sends v e).0;
  fits = λ e. (resent_kept sends v e).1;
  detached = λ off. ground (arith);
  unnamed = λ off. ground (arith);
}
CoreStep-Sound {k} v (reset enabled sends opened) = record {
  sends_view = λ e. (resent_own k sends e).0;
  fits = λ e. inl (resent_own k sends e).1;
  detached = λ off. elim (v.unnamed off) [
    | inl e ↦ resent_unnamed k sends none e
    | inr e ↦ ground (arith)
  ];
  unnamed = v.unnamed;
}
CoreStep-Sound v (media sends) = record {
  sends_view = v.sends_view;
  fits = v.fits;
  detached = v.detached;
  unnamed = v.unnamed;
}
CoreStep-Sound v (leave attached on) = without_stream _ refl (λ _. inl refl)
CoreStep-Sound v (clear off) = without_stream _ (v.detached off) (λ _. inl refl)
CoreStep-Sound v (attach off) = record {
  sends_view = v.sends_view;
  fits = v.fits;
  detached = λ off. ground (arith);
  unnamed = λ off. ground (arith);
}
CoreStep-Sound v (finish running) = without_stream _ refl v.unnamed
CoreStep-Sound v (faint on) = record {
  sends_view = v.sends_view;
  fits = v.fits;
  detached = v.detached;
  unnamed = v.unnamed;
}
CoreStep-Sound v (quit opened) = without_stream _ refl (λ _. inr refl)
CoreStep-Sound v (depart on opened) = without_stream _ refl (λ _. inl refl)
CoreStep-Sound v (inject event h) = record {
  sends_view = v.sends_view;
  fits = v.fits;
  detached = v.detached;
  unnamed = v.unnamed;
}

-- No step of the core starts the heartbeats.
pub CoreStep-faints : {k l : Core} → k.beating ≡ false → CoreStep k l → l.beating ≡ false
CoreStep-faints h stay = h
CoreStep-faints h (enter session view on) = h
CoreStep-faints h (control sends on) = h
CoreStep-faints h (reset enabled sends opened) = h
CoreStep-faints h (media sends) = h
CoreStep-faints h (leave attached on) = h
CoreStep-faints h (clear off) = h
CoreStep-faints h (attach off) = h
CoreStep-faints h (finish running) = h
CoreStep-faints h (faint on) = refl
CoreStep-faints h (quit opened) = refl
CoreStep-faints h (depart on opened) = refl
CoreStep-faints h (inject event on) = h

-- What a step may add to the input that was injected.
pub CoreStep-injects :
    {k l : Core}
    → CoreStep k l
    → (l.injected ≡ k.injected)
      ⊎ ((k.enabled ≡ true) × ((event : Injected) × (l.injected ≡ k.injected ++ event ∷ [])))
CoreStep-injects stay = inl refl
CoreStep-injects (enter session view on) = inl refl
CoreStep-injects (control sends on) = inl refl
CoreStep-injects (reset enabled sends opened) = inl refl
CoreStep-injects (media sends) = inl refl
CoreStep-injects (leave attached on) = inl refl
CoreStep-injects (clear off) = inl refl
CoreStep-injects (attach off) = inl refl
CoreStep-injects (finish running) = inl refl
CoreStep-injects (faint on) = inl refl
CoreStep-injects (quit opened) = inl refl
CoreStep-injects (depart on opened) = inl refl
CoreStep-injects (inject event on) = inr (on, (event, refl))
