-- ===== src/Agent/Uinput.antt =====
-- src/agent.c: `uinput_read_cb`, which cuts the bytes of the fifo into events, and the handlers of
-- the events. linux/input.h, which lays out an event and names the codes, is a parameter.
pub mod Laws
mod Control
mod Tests
use x11spice.Prelude.{
  ℕ, zero, suc, ◌+◌, ◌-◌, ◌*◌, ◌^◌, Bool, true, false, Option, none, some, List, [], ◌∷◌, ◌++◌, leb,
  ◌==◌, if◌then◌else◌, length, take, drop,
}
use x11spice.Prelude.Int.{ℤ, pos, ltb_ℤ}
use x11spice.Input.{Input, bit, session_handle_mouse_buttons, session_handle_mouse_position}
use x11spice.Agent.{Agent, log, closed}

-- `struct input_event`
pub record InputEvent : Type 0 where
  pub type : ℕ
  pub code : ℕ
  pub value : ℤ

-- What linux/input.h defines: the size and the layout of an event, and the codes.
pub record LinuxInput : Type 0 where
  pub size : ℕ
  pub event : List ℕ → InputEvent
  pub ev_key : ℕ
  pub ev_rel : ℕ
  pub ev_abs : ℕ
  pub btn_left : ℕ
  pub btn_middle : ℕ
  pub btn_right : ℕ
  pub abs_x : ℕ
  pub abs_y : ℕ

-- What `agent_t` keeps for the fifo, beside its descriptors. `uinput_buffer` has the first
-- `uinput_offset` bytes of the array, and its length is the offset.
pub record Uinput : Type 0 where
  pub agent : Agent
  pub uinput_buffer : List ℕ
  pub uinput_buttons_state : ℕ
  pub uinput_x : ℤ
  pub uinput_y : ℤ
  pub input : Input

-- `state | (1 << i)` and `state & ~(1 << i)`
abbrev pub set_bit : ℕ → ℕ → ℕ
set_bit state i = if bit state i then state else state + 2 ^ i

abbrev pub clear_bit : ℕ → ℕ → ℕ
clear_bit state i = if bit state i then state - 2 ^ i else state

-- The bit of a button, if the code is one of the three.
abbrev pub button_bit : LinuxInput → ℕ → Option ℕ
button_bit L code =
    if code == L.btn_left
    then some 0
    else if code == L.btn_middle
    then some 2
    else if code == L.btn_right
    then some 1
    else none

abbrev pub change_button : Bool → Option ℕ → ℕ → ℕ
change_button down none state = state
change_button true (some i) state = set_bit state i
change_button false (some i) state = clear_bit state i

abbrev pub send_buttons : Uinput → ℕ → Uinput
send_buttons u state = record u {
  uinput_buttons_state = state;
  input = session_handle_mouse_buttons u.input state;
}

unfoldable pub uinput_handle_key : LinuxInput → Uinput → InputEvent → Uinput
uinput_handle_key L u ev =
    send_buttons u
      (change_button (ltb_ℤ (pos 0) ev.value) (button_bit L ev.code) u.uinput_buttons_state)

abbrev pub is_one : ℤ → Bool
is_one n = if ltb_ℤ (pos 0) n then ltb_ℤ n (pos 2) else false

-- The bit of the button that stands for a turn of the wheel.
abbrev pub wheel_bit : ℤ → ℕ
wheel_bit value = if is_one value then 3 else 4

unfoldable pub uinput_handle_relative : Uinput → InputEvent → Uinput
uinput_handle_relative u ev =
    let pressed = send_buttons u (set_bit u.uinput_buttons_state (wheel_bit ev.value)) in
    send_buttons pressed (clear_bit pressed.uinput_buttons_state (wheel_bit ev.value))

abbrev pub move : Uinput → ℤ → ℤ → Uinput
move u x y = record u {
  uinput_x = x;
  uinput_y = y;
  input = session_handle_mouse_position u.input x y;
}

unfoldable pub uinput_handle_absolute : LinuxInput → Uinput → InputEvent → Uinput
uinput_handle_absolute L u ev =
    if ev.code == L.abs_x
    then move u ev.value u.uinput_y
    else if ev.code == L.abs_y
    then move u u.uinput_x ev.value
    else u

-- The `switch` on the type.
unfoldable pub handle_event : LinuxInput → Uinput → InputEvent → Uinput
unfolding uinput_handle_key uinput_handle_relative uinput_handle_absolute
handle_event L u ev =
    if ev.type == L.ev_key
    then uinput_handle_key L u ev
    else if ev.type == L.ev_rel
    then uinput_handle_relative u ev
    else if ev.type == L.ev_abs
    then uinput_handle_absolute L u ev
    else u

-- The bytes at the start of the array once `memmove` has moved those behind the event there.
abbrev pub moved : ℕ → List ℕ → List ℕ
moved size bytes = drop size bytes ++ drop (length (drop size bytes)) bytes

-- The loop, for at most `rounds` events.
unfoldable pub handle_events : LinuxInput → ℕ → Uinput → Uinput
unfolding handle_event
handle_events L zero u = u
handle_events L (suc rounds) u =
    let rest : Uinput = record u { uinput_buffer = drop L.size u.uinput_buffer } in
    let ev = L.event (take L.size (moved L.size u.uinput_buffer)) in
    let later = handle_events L rounds (handle_event L rest ev) in
    if leb L.size (length u.uinput_buffer) then later else u

-- `read` answers at most as many bytes as the array has room for, or `none` for -1. An event is
-- at least one byte, so that there are no more rounds than bytes.
unfoldable pub uinput_read_cb : LinuxInput → Option (List ℕ) → Uinput → Uinput
unfolding handle_events
uinput_read_cb L none u = u
uinput_read_cb L (some []) u =
    let u' = handle_events L (length u.uinput_buffer) u in
    record u' { agent = log u'.agent (closed u'.agent.uinput_fd ∷ []) }
uinput_read_cb L (some (byte ∷ bytes)) u =
    let filled : Uinput = record u { uinput_buffer = u.uinput_buffer ++ byte ∷ bytes } in
    handle_events L (length filled.uinput_buffer) filled

-- The callback for one answer of `read` after the other.
unfoldable pub read_all : LinuxInput → List (Option (List ℕ)) → Uinput → Uinput
unfolding uinput_read_cb
read_all L [] u = u
read_all L (answer ∷ answers) u = read_all L answers (uinput_read_cb L answer u)
