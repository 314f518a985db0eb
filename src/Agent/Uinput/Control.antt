-- ===== src/Agent/Uinput/Control.antt =====
-- src/session.c with src/spice.c and src/agent.c: every way in which a client's input gets to the
-- X server asks whether clients are allowed control.
use x11spice.Prelude.{
  ℕ, zero, suc, ◌≡◌, refl, ◌∙◌, false, Option, none, some, List, [], ◌∷◌, arith, length, drop, take,
}
use x11spice.Input.{
  Event, handle, session_handle_mouse_position, session_handle_mouse_buttons,
  session_handle_button_change,
}
use x11spice.Input.Laws.{Silent, handle-Silent}
use x11spice.Agent.Uinput.{
  LinuxInput, InputEvent, Uinput, uinput_handle_key, uinput_handle_relative, uinput_handle_absolute,
  handle_event, handle_events, uinput_read_cb, moved,
}

-- A call of a callback of the Spice server, or of the callback of the fifo with what `read` answers.
pub data ClientInput : Type 0 where
  from_spice : Event → ClientInput
  from_agent : Option (List ℕ) → ClientInput

abbrev pub receive : LinuxInput → Uinput → ClientInput → Uinput
receive L u (from_spice e) = record u { input = handle u.input e }
receive L u (from_agent answer) = uinput_read_cb L answer u

-- One call after the other, on the one session that both have.
unfoldable pub receive_all : LinuxInput → Uinput → List ClientInput → Uinput
unfolding handle uinput_read_cb
receive_all L u [] = u
receive_all L u (c ∷ cs) = receive_all L (receive L u c) cs

module _ (L : LinuxInput) where
  handle_event-Silent :
      (u : Uinput) (ev : InputEvent)
      → u.input.allow_control ≡ false
      → Silent u.input (handle_event L u ev).input
  unfolding handle_event uinput_handle_key uinput_handle_relative uinput_handle_absolute
      session_handle_mouse_position session_handle_mouse_buttons session_handle_button_change
  handle_event-Silent u ev h = ground arith

  handle_events-Silent :
      (rounds : ℕ) (u : Uinput)
      → u.input.allow_control ≡ false
      → Silent u.input (handle_events L rounds u).input
  unfolding handle_events
  handle_events-Silent zero u h = (refl, h)
  handle_events-Silent (suc rounds) u h =
      let rest : Uinput = record u { uinput_buffer = drop L.size u.uinput_buffer } in
      let ev = L.event (take L.size (moved L.size u.uinput_buffer)) in
      let (same, still) = handle_event-Silent rest ev h in
      let (same', still') = handle_events-Silent rounds (handle_event L rest ev) still in
      ground (arith, same' ∙ same, still')

  uinput_read_cb-Silent :
      (answer : Option (List ℕ)) (u : Uinput)
      → u.input.allow_control ≡ false
      → Silent u.input (uinput_read_cb L answer u).input
  unfolding uinput_read_cb
  uinput_read_cb-Silent none u h = (refl, h)
  uinput_read_cb-Silent (some []) u h = handle_events-Silent (length u.uinput_buffer) u h
  uinput_read_cb-Silent (some (byte ∷ bytes)) u h = handle_events-Silent _ _ h

  receive-Silent :
      (u : Uinput) (c : ClientInput)
      → u.input.allow_control ≡ false
      → Silent u.input (receive L u c).input
  receive-Silent u (from_spice e) h = handle-Silent u.input e h
  receive-Silent u (from_agent answer) h = uinput_read_cb-Silent answer u h

  -- Whatever the callbacks of the Spice server and the fifo of the agent get, in any order, nothing
  -- is sent to the X server unless clients are allowed control.
  pub receive_all-needs_control :
      (u : Uinput) (cs : List ClientInput)
      → u.input.allow_control ≡ false
      → (receive_all L u cs).input.sent ≡ u.input.sent
  unfolding receive_all
  receive_all-needs_control u [] h = refl
  receive_all-needs_control u (c ∷ cs) h =
      let (same, still) = receive-Silent u c h in
      receive_all-needs_control (receive L u c) cs still ∙ same
