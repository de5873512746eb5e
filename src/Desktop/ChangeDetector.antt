-- ===== src/Desktop/ChangeDetector.antt =====
-- internal/desktop/change_detector.go, and the frame of capture.go: which of the captured frames
-- are sent. `hash_frame` is the parameter `hash` (FNV-1a of hash/fnv over the size, the codec and
-- the data of a frame).
use beacon_desk.Prelude.{
  ℕ, ◌+◌, ◌*◌, ◌<◌, ◌≡◌, refl, sym, ap, ◌∙◌, ◌↔◌, ◌⊎◌, String, Bool, true, false, not, ◌||◌, Option,
  none, some, List, [], ◌∷◌, ◌++◌, ◌=ℕ◌, if◌then◌else◌, arith,
}
use beacon_desk.Prelude.Int.{ℤ, pos, pos_part, sub_ℕ, ltb_ℤ}
use beacon_desk.Config.{second}

-- `pixels` is the source's `Data`.
pub record Frame : Type 0 where
  pub id : ℤ
  pub width : ℤ
  pub height : ℤ
  pub codec : String
  pub keyframe : Bool
  pub timestamp : ℤ
  pub pixels : List ℕ

-- `last_sent_at` is `none` for the zero time; instants are nanoseconds since the epoch.
pub record ChangeDetector : Type 0 where
  pub static_frame_interval : ℤ
  pub initialized : Bool
  pub last_hash : ℕ
  pub last_sent_at : Option ℕ

pub record ChangeDecision : Type 0 where
  pub send : Bool
  pub changed : Bool

-- The time of a frame; `now` is the clock.
abbrev pub frame_time : ℕ → Frame → ℕ
frame_time now frame =
    if ltb_ℤ (pos 0) frame.timestamp then pos_part frame.timestamp * 1_000_000 else now

-- Is it time for another frame of a still picture?
abbrev pub is_due : Option ℕ → ℕ → ℤ → Bool
is_due none now interval = true
is_due (some sent) now interval = not (ltb_ℤ (sub_ℕ now sent) interval)

-- The interval between frames of a still picture, with its default.
abbrev pub interval_of : ChangeDetector → ℤ
interval_of d =
    if ltb_ℤ (pos 0) d.static_frame_interval then d.static_frame_interval else pos (5 * second)

-- The detector starts with its interval written out.
abbrev pub with_interval : ChangeDetector → ChangeDetector
with_interval d = record d { static_frame_interval = interval_of d }

module _ (hash : Frame → ℕ) where
  -- Does this frame differ from the last one?
  abbrev pub is_changed : ChangeDetector → Frame → Bool
  is_changed d frame = not d.initialized || not (hash frame =ℕ d.last_hash)

  unfoldable pub observe : ChangeDetector → ℕ → Frame → ChangeDetector × ChangeDecision
  observe d now frame =
      let at = frame_time now frame in
      let d' = with_interval d in
      if is_changed d frame
      then (
        record d' { initialized = true; last_hash = hash frame; last_sent_at = some at },
        record { send = true; changed = true },
      )
      else if is_due d.last_sent_at at (interval_of d)
      then (record d' { last_sent_at = some at }, record { send = true; changed = false })
      else (d', record { send = false; changed = false })

  -- What a viewer shows: the hash of the last frame that was sent.
  abbrev pub shown_after : Option ℕ → ChangeDecision → Frame → Option ℕ
  shown_after shown decision frame = if decision.send then some (hash frame) else shown

  -- The frames of a stream, each with the clock at its observation.
  unfoldable pub stream : ChangeDetector → Option ℕ → List (ℕ × Frame) → ChangeDetector × Option ℕ
  unfolding observe
  stream d shown [] = (d, shown)
  stream d shown ((now, frame) ∷ rest) =
      let seen = observe d now frame in stream seen.0 (shown_after shown seen.1 frame) rest

  -- The viewer shows what the detector has seen last.
  abbrev InStep : ChangeDetector → Option ℕ → Type 0
  InStep d shown = d.initialized ≡ true → shown ≡ some d.last_hash

  observe-InStep :
      (d : ChangeDetector) (shown : Option ℕ) (now : ℕ) (frame : Frame)
      → InStep d shown
      → InStep (observe d now frame).0 (shown_after shown (observe d now frame).1 frame)
        × ((observe d now frame).0.initialized ≡ true)
        × ((observe d now frame).0.last_hash ≡ hash frame)
  unfolding observe
  observe-InStep d shown now frame h = ground arith

  stream-InStep :
      (frames : List (ℕ × Frame)) (d : ChangeDetector) (shown : Option ℕ) (now : ℕ) (frame : Frame)
      → InStep d shown
      → (stream d shown (frames ++ (now, frame) ∷ [])).1 ≡ some (hash frame)
  unfolding stream
  stream-InStep [] d shown now frame h = ground (arith, observe-InStep d shown now frame h)
  stream-InStep ((now', f) ∷ rest) d shown now frame h =
      stream-InStep rest _ _ now frame (observe-InStep d shown now' f h).0

  -- Although frames without a change are left out, after any stream of frames that a new detector
  -- has watched, the last frame that was sent has the hash of the last frame that was captured.
  pub stream-shown :
      (interval : ℤ) (frames : List (ℕ × Frame)) (now : ℕ) (frame : Frame)
      → (stream
          (record {
            static_frame_interval = interval;
            initialized = false;
            last_hash = 0;
            last_sent_at = none;
          })
          none
          (frames ++ (now, frame) ∷ [])).1
        ≡ some (hash frame)
  stream-shown interval frames now frame = stream-InStep frames _ none now frame (λ h. cc)

  interval_is :
      (d : ChangeDetector) (i wait : ℕ)
      → d.static_frame_interval ≡ pos i
      → ((0 < i) × (wait ≡ i)) ⊎ ((i ≡ 0) × (wait ≡ 5_000_000_000))
      → interval_of d ≡ pos wait
  interval_is d i wait h waits = ground arith

  time_is :
      (now : ℕ) (frame : Frame) (t at : ℕ)
      → frame.timestamp ≡ pos t
      → ((0 < t) × (at ≡ t * 1_000_000)) ⊎ ((t ≡ 0) × (at ≡ now))
      → frame_time now frame ≡ at
  time_is now frame t at h ats = ground arith

  -- A frame that was sent is not due again while it is younger than the interval.
  young :
      (last : Option ℕ) (at wait : ℕ)
      → (is_due last at (pos wait) ≡ false) ↔ ((sent : ℕ) × (last ≡ some sent) × (at < sent + wait))
  young none at wait = (λ h. ground arith, λ h. ground arith)
  young (some sent) at wait = (λ h. (sent, refl, ground arith), λ h. ground arith)

  -- For a detector whose interval `i` and a frame whose timestamp `t` are not negative: the frame is
  -- left out exactly if a frame was seen before, the hash of the last one is that of this frame, and
  -- the last frame that was sent is younger than `wait`. `wait` is `i` nanoseconds, or 5 seconds for
  -- the interval 0; the age is that at `t` milliseconds, or at `now` for the timestamp 0.
  pub observe-send :
      (d : ChangeDetector) (now : ℕ) (frame : Frame) (i t wait at : ℕ)
      → d.static_frame_interval ≡ pos i
      → ((0 < i) × (wait ≡ i)) ⊎ ((i ≡ 0) × (wait ≡ 5_000_000_000))
      → frame.timestamp ≡ pos t
      → ((0 < t) × (at ≡ t * 1_000_000)) ⊎ ((t ≡ 0) × (at ≡ now))
      → ((observe d now frame).1.send ≡ false) ↔ (
          (d.initialized ≡ true)
          × (hash frame ≡ d.last_hash)
          × ((sent : ℕ) × (d.last_sent_at ≡ some sent) × (at < sent + wait)))
  unfolding observe
  observe-send d now frame i t wait at hi waits ht ats =
      let lasts : interval_of d ≡ pos wait = interval_is d i wait hi waits in
      let timed : frame_time now frame ≡ at = time_is now frame t at ht ats in
      let due = young d.last_sent_at at wait in
      (
        λ h. (
          ground arith,
          ground arith,
          due.0 (
              ap (λ a. is_due d.last_sent_at a (pos wait)) (sym timed)
              ∙ ap (is_due d.last_sent_at (frame_time now frame)) (sym lasts)
              ∙ ground arith),
        ),
        λ h.
            let old : is_due d.last_sent_at (frame_time now frame) (interval_of d) ≡ false =
              ap (is_due d.last_sent_at (frame_time now frame)) lasts
              ∙ ap (λ a. is_due d.last_sent_at a (pos wait)) timed
              ∙ due.1 h.2 in
            ground arith,
      )
