-- ===== src/Client/Core.antt =====
-- What a client does, seen from outside: its session, its stream, its heartbeats, and the input that
-- it injects; and whether its options let it send frames. `Client.Refinement` shows that client.go does nothing else.
pub mod Lasting
use beacon_desk.Prelude.{
  ◌≡◌, subst, ◌⊎◌, String, Bool, true, false, Option, none, some, List, [], ◌∷◌, ◌++◌, is_some,
  ◌==◌, ◌||◌, not, if◌then◌else◌,
}
use beacon_desk.Client.State.{Injected, Stream, Client}

pub record Core : Type 0 where
  pub attached : Bool
  pub streaming : Option String
  pub session : String
  pub view : Bool
  pub beating : Bool
  pub enabled : Bool
  pub sends : Bool
  pub closed : Bool
  pub injected : List Injected

abbrev pub stream_session : Option Stream → Option String
stream_session none = none
stream_session (some stream) = some stream.session

abbrev pub core : {D A : Type 0} → Client D A → Core
core c = record {
  attached = is_some c.conn;
  streaming = stream_session c.stream;
  session = c.state.session_id;
  view = c.state.should_send_view;
  beating = c.heartbeats;
  enabled = c.opts.enable_input;
  sends = c.opts.send_screen_frames || c.opts.send_mock_frames;
  closed = c.closed;
  injected = c.injected;
}

abbrev pub with_streaming : Option String → Core → Core
with_streaming streaming k = record k { streaming = streaming }

abbrev pub attached_of : Core → Bool
attached_of k = k.attached

abbrev pub with_attached : Core → Bool → Core
with_attached k attached = record k { attached = attached }

abbrev pub fainted : Core → Core
fainted k = record k { beating = false }

abbrev pub with_injected : Injected → Core → Core
with_injected event k = record k { injected = k.injected ++ event ∷ [] }

-- The stream of a client that turns to a session: the session's own, if frames are sent, and else
-- none; for a session without a name, the one that was running.
abbrev pub runs : Bool → Option String → String → Option String
runs sends before session = if session == "" then before else if sends then some session else none

abbrev pub turned : String → Core → Core
turned session k = record k { streaming = runs k.sends k.streaming session }

-- Is there a session with a name, whose view is to be sent?
abbrev pub is_shown : Core → Bool
is_shown k = not (k.session == "" || not k.view)

-- The options let frames be sent or not, and the stream follows: that of the session that is shown
-- starts again, and where none is shown, there is `idle`.
abbrev pub resent : Core → Bool → Option String → Bool → Core
resent k sends idle shown = record k {
  sends = sends;
  streaming = if shown then runs sends k.streaming k.session else idle;
}

abbrev pub with_enabled : Bool → Core → Core
with_enabled enabled k = record k { enabled = enabled }

pub data CoreStep (k : Core) : Core → Type 0 where
  stay : CoreStep k k
  -- A session, and the stream that goes with it, or none if the view is not sent.
  enter :
      (session : String) (view : Bool)
      → k.attached ≡ true
      → CoreStep k (record k {
        session = session;
        view = view;
        streaming = if view then runs k.sends k.streaming session else none;
      })
  -- The viewer's controls: without a session that is shown, the stream is left alone.
  control :
      (sends : Bool) → k.attached ≡ true → CoreStep k (resent k sends k.streaming (is_shown k))
  -- The options of the window: without a session that is shown, there is no stream.
  reset :
      (enabled sends : Bool)
      → k.closed ≡ false
      → CoreStep k (with_enabled enabled (resent k sends none (is_shown k)))
  -- The media options of the window leave the stream alone.
  media : (sends : Bool) → CoreStep k (record k { sends = sends })
  -- The session is over; the connection may be, too.
  leave :
      (attached : Bool)
      → k.attached ≡ true
      → CoreStep k (record k { attached = attached; session = ""; view = false; streaming = none })
  -- Without a connection there is no session.
  clear : k.attached ≡ false → CoreStep k (record k { session = ""; view = false })
  attach : k.attached ≡ false → CoreStep k (record k { attached = true })
  finish :
      {session : String} → k.streaming ≡ some session → CoreStep k (record k { streaming = none })
  faint : k.beating ≡ true → CoreStep k (record k { beating = false })
  quit :
      k.closed ≡ false
      → CoreStep k (record k { attached = false; streaming = none; beating = false; closed = true })
  depart :
      k.attached ≡ true
      → k.closed ≡ false
      → CoreStep k (record k {
        attached = false;
        session = "";
        view = false;
        streaming = none;
        beating = false;
        closed = true;
      })
  inject :
      (event : Injected)
      → k.enabled ≡ true
      → CoreStep k (record k { injected = k.injected ++ event ∷ [] })

-- Steps to a state that is known by an equation.
pub to_core : {k l m : Core} → l ≡ m → CoreStep k l → CoreStep k m
to_core {k} e step = subst (CoreStep k) e step

pub same_core : {k l : Core} → k ≡ l → CoreStep k l
same_core e = to_core e stay

-- A stream sends the view of the session, unless the session has no name; without a connection there
-- is neither.
pub record Sound (k : Core) : Type 0 where
  pub sends_view : {session : String} → k.streaming ≡ some session → k.view ≡ true
  pub fits :
      {session : String} → k.streaming ≡ some session → (session ≡ k.session) ⊎ (k.session ≡ "")
  pub detached : k.attached ≡ false → k.streaming ≡ none
  pub unnamed : k.attached ≡ false → (k.session ≡ "") ⊎ (k.closed ≡ true)
