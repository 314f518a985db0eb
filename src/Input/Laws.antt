-- ===== src/Input/Laws.antt =====
-- src/spice.c and src/session.c: input from clients that have no control, and the keyboard.
use x11spice.Prelude.{
  ℕ, ◌+◌, ◌%◌, ◌<◌, ◌≡◌, ◌≢◌, refl, ap, Bool, true, false, List, [], ◌∷◌, ◌++◌, append_assoc, arith,
  ◌==◌, leb,
}
use x11spice.Input.{
  FakeInput, key_press, key_release, Input, Event, push_scan_freg, position, wheel, buttons_changed,
  min_keycode, escaped_map, session_handle_key, kbd_push_key, session_handle_mouse_position,
  session_handle_mouse_wheel, session_handle_mouse_buttons, session_handle_button_change, handle,
  handle_all,
}

-- Without control, a call sends nothing, and control is not gained.
abbrev pub Silent : Input → Input → Type 0
Silent s t = (t.sent ≡ s.sent) × (t.allow_control ≡ false)

session_handle_key-Silent :
    (s : Input) (k : ℕ) (down : Bool)
    → s.allow_control ≡ false
    → Silent s (session_handle_key s k down)
unfolding session_handle_key
session_handle_key-Silent s k down h = ground arith

pub handle-Silent : (s : Input) (e : Event) → s.allow_control ≡ false → Silent s (handle s e)
unfolding handle kbd_push_key session_handle_mouse_position session_handle_mouse_wheel
    session_handle_mouse_buttons session_handle_button_change session_handle_key
handle-Silent s (push_scan_freg frag) h = ground arith
handle-Silent s (position x y) h = ground arith
handle-Silent s (wheel motion state) h = ground arith
handle-Silent s (buttons_changed state) h = ground arith

-- What the two bytes of a key without an escape do.
key_down :
    (s : Input) (code : ℕ)
    → s.allow_control ≡ true
    → s.escape ≢ 224
    → code < 128
    → kbd_push_key s code ≡ record s { sent = s.sent ++ key_press (code + min_keycode) ∷ [] }
unfolding kbd_push_key session_handle_key
key_down s code h ne lt = ground arith

key_up :
    (s : Input) (code : ℕ)
    → s.allow_control ≡ true
    → s.escape ≢ 224
    → code < 128
    → code ≢ 96
    → kbd_push_key s (code + 128)
      ≡ record s { sent = s.sent ++ key_release (code + min_keycode) ∷ [] }
unfolding kbd_push_key session_handle_key
key_up s code h ne lt ne' = ground arith

-- A key without an escape: its byte and the byte with bit 7 set are one press and one release of the
-- same key code, unless the byte is 96, whose release is the escape.
pub kbd_push_key-press_release :
    (s : Input) (code : ℕ)
    → s.allow_control ≡ true
    → s.escape ≢ 224
    → code < 128
    → code ≢ 96
    → handle_all s (push_scan_freg code ∷ push_scan_freg (code + 128) ∷ []) ≡ record s {
      sent = s.sent ++ key_press (code + min_keycode) ∷ key_release (code + min_keycode) ∷ [];
    }
unfolding handle_all handle
kbd_push_key-press_release s code h ne lt ne' =
    let down = key_down s code h ne lt in
    let pressed = key_press (code + min_keycode) ∷ [] in
    let t : Input = record s { sent = s.sent ++ pressed } in
    let up = key_up t code h ne lt ne' in
    rw (down, up)
      (ap (λ (out : List FakeInput). record s { sent = out })
        (append_assoc s.sent pressed (key_release (code + min_keycode) ∷ [])))

escaped_down :
    (s : Input) (code : ℕ)
    → s.allow_control ≡ true
    → code < 128
    → kbd_push_key (kbd_push_key s 224) code
      ≡ record s { escape = 0; sent = s.sent ++ key_press (escaped_map code) ∷ [] }
unfolding kbd_push_key session_handle_key
escaped_down s code h lt = ground arith

escaped_up :
    (s : Input) (code : ℕ)
    → s.allow_control ≡ true
    → code < 128
    → code ≢ 96
    → kbd_push_key (kbd_push_key s 224) (code + 128)
      ≡ record s { escape = 0; sent = s.sent ++ key_release (escaped_map code) ∷ [] }
unfolding kbd_push_key session_handle_key
escaped_up s code h lt ne =
    let low : (code + 128) % 128 ≡ code = omega arith in
    let release : leb 128 (code + 128) ≡ true = ground arith in
    let not_escape : ((code + 128) == 224) ≡ false = ground arith in
    rw (not_escape, low, release, h) refl

-- With the escape before each of the two bytes, they are the press and the release of the key in
-- `escaped_map`, and no escape is pending behind them.
pub kbd_push_key-escaped :
    (s : Input) (code : ℕ)
    → s.allow_control ≡ true
    → code < 128
    → code ≢ 96
    → handle_all s (
        push_scan_freg 224
        ∷ push_scan_freg code
        ∷ push_scan_freg 224
        ∷ push_scan_freg (code + 128)
        ∷ [])
      ≡ record s {
        escape = 0;
        sent = s.sent ++ key_press (escaped_map code) ∷ key_release (escaped_map code) ∷ [];
      }
unfolding handle_all handle
kbd_push_key-escaped s code h lt ne =
    let down = escaped_down s code h lt in
    let pressed = key_press (escaped_map code) ∷ [] in
    let t : Input = record s { escape = 0; sent = s.sent ++ pressed } in
    let up = escaped_up t code h lt ne in
    rw (down, up)
      (ap (λ (out : List FakeInput). record s { escape = 0; sent = out })
        (append_assoc s.sent pressed (key_release (escaped_map code) ∷ [])))
