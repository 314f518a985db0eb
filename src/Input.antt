-- ===== src/Input.antt =====
-- src/spice.c and src/session.c: what clients do with keyboard and pointer, and the input that the
-- X server is given for it. The 8-bit and 32-bit values are numbers in their range.
pub mod Laws
pub mod Buttons
mod Tests
use x11spice.Prelude.{
  ℕ, zero, suc, ◌+◌, ◌*◌, ◌/◌, ◌%◌, ◌^◌, Bool, true, false, not, ◌||◌, List, [], ◌∷◌, ◌++◌, leb,
  ◌==◌, if◌then◌else◌,
}
use x11spice.Prelude.Int.{ℤ, pos, ltb_ℤ}

-- `xcb_test_fake_input`, by its type and its detail.
pub data FakeInput : Type 0 where
  key_press key_release button_press button_release : ℕ → FakeInput
  motion_notify : ℤ → ℤ → FakeInput

-- `escape` and `buttons_state` of `spice_t`, `options.allow_control`, and what was sent.
pub record Input : Type 0 where
  pub escape : ℕ
  pub buttons_state : ℕ
  pub allow_control : Bool
  pub sent : List FakeInput

-- MIN_KEYCODE
abbrev pub min_keycode : ℕ
min_keycode = 8

abbrev pub escaped_codes : List (ℕ × ℕ)
escaped_codes =
    (0x1c, 104)
    ∷ (0x1d, 105)
    ∷ (0x2a, 0)
    ∷ (0x35, 106)
    ∷ (0x36, 0)
    ∷ (0x37, 107)
    ∷ (0x38, 108)
    ∷ (0x46, 127)
    ∷ (0x47, 110)
    ∷ (0x48, 111)
    ∷ (0x49, 112)
    ∷ (0x4b, 113)
    ∷ (0x4d, 114)
    ∷ (0x4f, 115)
    ∷ (0x50, 116)
    ∷ (0x51, 117)
    ∷ (0x52, 118)
    ∷ (0x53, 119)
    ∷ (0x5b, 133)
    ∷ (0x5c, 134)
    ∷ (0x5d, 135)
    ∷ []

-- The entries that the initializer does not name are 0.
unfoldable pub lookup_code : ℕ → List (ℕ × ℕ) → ℕ
lookup_code frag [] = 0
lookup_code frag ((code, key) ∷ rest) =
    let later = lookup_code frag rest in if frag == code then key else later

unfoldable pub escaped_map : ℕ → ℕ
unfolding lookup_code
escaped_map frag = lookup_code frag escaped_codes

abbrev pub send : Input → List FakeInput → Input
send s out = record s { sent = s.sent ++ out }

unfoldable pub session_handle_key : Input → ℕ → Bool → Input
session_handle_key s keycode is_press =
    if s.allow_control
    then send s ((if is_press then key_press keycode else key_release keycode) ∷ [])
    else s

unfoldable pub kbd_push_key : Input → ℕ → Input
unfolding session_handle_key escaped_map
kbd_push_key s frag =
    let is_down = not (leb 128 frag) in
    let low = frag % 128 in
    if frag == 224
    then record s { escape = 224 }
    else if s.escape == 224
    then session_handle_key (record s { escape = 0 }) (escaped_map low) is_down
    else session_handle_key s (low + min_keycode) is_down

unfoldable pub session_handle_mouse_position : Input → ℤ → ℤ → Input
session_handle_mouse_position s x y = if s.allow_control then send s (motion_notify x y ∷ []) else s

-- `state & (1 << i)`, not 0
abbrev pub bit : ℕ → ℕ → Bool
bit state i = (state / 2 ^ i) % 2 == 1

abbrev pub differ : Bool → Bool → Bool
differ true b = not b
differ false b = b

-- One round of the loop of `session_handle_button_change`.
unfoldable pub button_round : ℕ → ℕ → ℕ → List FakeInput
button_round old new i =
    if differ (bit new i) (bit old i)
    then (if bit new i then button_press (i + 1) else button_release (i + 1)) ∷ []
    else []

unfoldable pub button_rounds : ℕ → ℕ → ℕ → ℕ → List FakeInput
unfolding button_round
button_rounds old new i zero = []
button_rounds old new i (suc left) = button_round old new i ++ button_rounds old new (i + 1) left

-- BUTTONS
abbrev pub buttons : ℕ
buttons = 5

unfoldable pub session_handle_button_change : Input → ℕ → Input
unfolding button_rounds
session_handle_button_change s state =
    if s.allow_control
    then record s {
      buttons_state = state;
      sent = s.sent ++ button_rounds s.buttons_state state 0 buttons;
    }
    else s

abbrev pub weight : Bool → ℕ
weight true = 1
weight false = 0

-- The left, middle and right button of Spice are bits 0, 1 and 2; the wheel sets bit 4 or bit 3.
unfoldable pub convert_spice_buttons : ℤ → ℕ → ℕ
convert_spice_buttons wheel state =
    weight (bit state 0)
    + 2 * weight (bit state 2)
    + 4 * weight (bit state 1)
    + 8 * weight (bit state 3 || ltb_ℤ wheel (pos 0))
    + 16 * weight (bit state 4 || ltb_ℤ (pos 0) wheel)
    + 32 * (state / 32)

unfoldable pub session_handle_mouse_wheel : Input → ℤ → ℕ → Input
unfolding session_handle_button_change convert_spice_buttons
session_handle_mouse_wheel s wheel_motion state =
    session_handle_button_change s (convert_spice_buttons wheel_motion state)

unfoldable pub session_handle_mouse_buttons : Input → ℕ → Input
unfolding session_handle_button_change convert_spice_buttons
session_handle_mouse_buttons s state =
    session_handle_button_change s (convert_spice_buttons (pos 0) state)

-- A call of one of the callbacks: `kbd_push_key`, `tablet_position`, `tablet_wheel` and
-- `tablet_buttons`.
pub data Event : Type 0 where
  push_scan_freg : ℕ → Event
  position : ℤ → ℤ → Event
  wheel : ℤ → ℕ → Event
  buttons_changed : ℕ → Event

unfoldable pub handle : Input → Event → Input
unfolding kbd_push_key session_handle_mouse_position session_handle_mouse_wheel
    session_handle_mouse_buttons
handle s (push_scan_freg frag) = kbd_push_key s frag
handle s (position x y) = session_handle_mouse_position s x y
handle s (wheel motion state) = session_handle_mouse_wheel s motion state
handle s (buttons_changed state) = session_handle_mouse_buttons s state

unfoldable pub handle_all : Input → List Event → Input
unfolding handle
handle_all s [] = s
handle_all s (e ∷ es) = handle_all (handle s e) es
