-- ===== src/Injection.antt =====
-- internal/input/input_windows.go: what the injector asks Windows for. The size of the screen, the
-- letter case of texts and the scan codes are arguments; `SendInput` itself is not modelled.
use Prim.Native.String.{◌++◌ as append}
use beacon_desk.Prelude.{
  ℕ, ◌+◌, ◌-◌, ◌/◌, ◌%◌, String, Bool, true, not, ◌||◌, ◌&&◌, Option, none, some, List, [], ◌∷◌,
  ◌==◌, ◌=ℕ◌, ltb, if◌then◌else◌, codes, suc, ◌>>=◌, ◌≤◌, ◌≡◌, ◌↔◌, ◌⊎◌, arith,
}
use beacon_desk.Prelude.Int.{ℤ, pos, negsuc, pos_part, neg_part, ltb_ℤ, scale, wrap64, sub_ℤ}
use beacon_desk.Protocol.Payloads.{InputMousePayload, InputKeyboardPayload}

-- The bits of `int32(v)`, and the number that they stand for.
unfoldable pub bits32 : ℤ → ℕ
bits32 (pos n) = n % 0x100000000
bits32 (negsuc n) = 0xffffffff - n % 0x100000000

unfoldable pub wrap32 : ℤ → ℤ
wrap32 v = if ltb (bits32 v) 0x80000000 then pos (bits32 v) else negsuc (0xffffffff - bits32 v)

-- The quotient, towards zero; there is none by zero, where Go panics.
abbrev pub quotient : ℤ → ℕ → Option ℤ
quotient (pos n) d = if d =ℕ 0 then none else some (pos (n / d))
quotient (negsuc n) d = if d =ℕ 0 then none else some (sub_ℤ (pos 0) (pos (suc n / d)))

-- The width, or height, of the source: that of the screen if it is not given, and one at least.
abbrev pub source_size : ℤ → ℤ → ℕ
source_size given screen =
    let size = if ltb_ℤ (pos 0) given then given else screen in
    if ltb_ℤ (pos 1) size then pos_part size else 1

-- One coordinate of `normalizeAbsolute`.
unfoldable pub absolute : ℤ → ℤ → ℤ → Option ℤ
absolute v given screen = elim (quotient (wrap64 (scale v 65_535)) (source_size given screen - 1)) [
  | none ↦ none
  | some q ↦ some (wrap32 q)
]

abbrev pub mouseeventf_move : ℕ
mouseeventf_move = 0x0001

abbrev pub mouseeventf_wheel : ℕ
mouseeventf_wheel = 0x0800

abbrev pub mouseeventf_absolute : ℕ
mouseeventf_absolute = 0x8000

pub record MouseInput : Type 0 where
  pub dx : ℤ
  pub dy : ℤ
  pub mouse_data : ℕ
  pub flags : ℕ

pub record KeyboardInput : Type 0 where
  pub scan : ℕ
  pub flags : ℕ

-- A byte at the end of a name like "KeyA", from the codes of the text.
abbrev pub last_of_four : List ℕ → ℕ
last_of_four (k ∷ e ∷ y ∷ c ∷ []) =
    if k =ℕ b'K' && e =ℕ b'E' && y =ℕ b'Y' && ltb c 0x80 then c else 0
last_of_four _ = 0

-- "DigitN", likewise.
abbrev pub last_of_six : List ℕ → ℕ
last_of_six (d ∷ i ∷ g ∷ j ∷ t ∷ c ∷ []) =
    if d =ℕ b'D' && i =ℕ b'I' && g =ℕ b'G' && j =ℕ b'I' && t =ℕ b'T' && ltb c 0x80 then c else 0
last_of_six _ = 0

-- The keys that go by their names.
abbrev pub named_key : String → ℕ
named_key name =
    if name == "ENTER"
    then 0x0d
    else if name == "ESCAPE"
    then 0x1b
    else if name == "BACKSPACE"
    then 0x08
    else if name == "TAB"
    then 0x09
    else if name == "SPACE"
    then 0x20
    else if name == "ARROWLEFT"
    then 0x25
    else if name == "ARROWUP"
    then 0x26
    else if name == "ARROWRIGHT"
    then 0x27
    else if name == "ARROWDOWN"
    then 0x28
    else if name == "DELETE"
    then 0x2e
    else if name == "HOME"
    then 0x24
    else if name == "END"
    then 0x23
    else if name == "PAGEUP"
    then 0x21
    else if name == "PAGEDOWN"
    then 0x22
    else 0

-- Does this event move the mouse?
abbrev pub moves : InputMousePayload → Bool
moves event =
    event.action == "move"
    || not (pos_part event.x + neg_part event.x + (pos_part event.y + neg_part event.y) =ℕ 0)

-- `lower` and `upper` are `strings.ToLower` and `strings.ToUpper`.
module _ (lower upper : String → String) where
  unfoldable pub mouse_flags : String → String → ℕ
  mouse_flags button action =
      let name = append (lower button) (append ":" (lower action)) in
      if name == "left:down"
      then 0x0002
      else if name == "left:up"
      then 0x0004
      else if name == "right:down"
      then 0x0008
      else if name == "right:up"
      then 0x0010
      else if name == "middle:down"
      then 0x0020
      else if name == "middle:up"
      then 0x0040
      else 0

  unfoldable pub virtual_key : InputKeyboardPayload → ℕ
  virtual_key event =
      let name = upper event.code in
      let letter = last_of_four (codes name) in
      let digit = last_of_six (codes name) in
      if ltb_ℤ (pos 0) event.key_code
      then pos_part event.key_code % 0x10000
      else if not (letter =ℕ 0)
      then letter
      else if not (digit =ℕ 0)
      then digit
      else named_key name

  abbrev pub mouse_event : ℤ → ℤ → ℕ → ℕ → MouseInput
  mouse_event dx dy mouse_data flags = record {
    dx = dx;
    dy = dy;
    mouse_data = mouse_data;
    flags = flags;
  }

  -- The buttons and the wheel.
  unfoldable pub button_inputs : InputMousePayload → List MouseInput
  button_inputs event =
      let flags = mouse_flags event.button event.action in
      let wheel =
        if event.action == "wheel"
          && not (pos_part event.wheel_delta + neg_part event.wheel_delta =ℕ 0)
        then mouse_event (pos 0) (pos 0) (bits32 event.wheel_delta) mouseeventf_wheel ∷ []
        else [] in
      if flags =ℕ 0 then wheel else mouse_event (pos 0) (pos 0) 0 flags ∷ wheel

  -- The inputs of a mouse event; there are none if Go panics.
  unfoldable pub mouse_inputs : ℤ → ℤ → InputMousePayload → Option (List MouseInput)
  mouse_inputs screen_width screen_height event =
      if moves event
      then (do
        x ← absolute event.x event.source_width screen_width
        y ← absolute event.y event.source_height screen_height
        some (mouse_event x y 0 (mouseeventf_move + mouseeventf_absolute) ∷ button_inputs event))
      else some (button_inputs event)

  -- The input of a keyboard event, if its key is supported; `scan` is `MapVirtualKeyW`.
  unfoldable pub keyboard_inputs : (ℕ → ℕ) → InputKeyboardPayload → Option KeyboardInput
  keyboard_inputs scan event =
      let vk = virtual_key event in
      if vk =ℕ 0
      then none
      else some (record {
        scan = scan vk % 0x10000;
        flags = 0x0008 + (if event.action == "up" then 0x0002 else 0);
      })

-- A coordinate is lost exactly if the source is one wide.
absolute-panics :
    (v given : ℤ) (screen : ℕ)
    → 2 ≤ screen
    → (absolute v given (pos screen) ≡ none) ↔ (given ≡ pos 1)
unfolding absolute
absolute-panics v given screen h =
    (λ e. lost (wrap64 (scale v 65_535)) e, λ e. found (wrap64 (scale v 65_535)) e)
  where
    lost :
        (z : ℤ)
        → elim (quotient z (source_size given (pos screen) - 1)) [
          | none ↦ none
          | some q ↦ some (wrap32 q)
        ]
          ≡ none
        → given ≡ pos 1
    lost z e = ground arith

    found :
        (z : ℤ)
        → given ≡ pos 1
        → elim (quotient z (source_size given (pos screen) - 1)) [
          | none ↦ none
          | some q ↦ some (wrap32 q)
        ]
          ≡ none
    found z e = ground arith

-- A mouse event panics exactly if it moves the mouse and its source is one wide or one high, on a
-- screen that is wider and higher than that.
pub mouse_inputs-panics :
    (lower upper : String → String) (screen_width screen_height : ℕ) (event : InputMousePayload)
    → 2 ≤ screen_width
    → 2 ≤ screen_height
    → (mouse_inputs lower upper (pos screen_width) (pos screen_height) event ≡ none)
      ↔ ((moves event ≡ true) × ((event.source_width ≡ pos 1) ⊎ (event.source_height ≡ pos 1)))
unfolding mouse_inputs
mouse_inputs-panics lower upper screen_width screen_height event h k = ground (
  arith,
  absolute-panics event.x event.source_width screen_width h,
  absolute-panics event.y event.source_height screen_height k,
)
