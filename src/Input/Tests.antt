-- ===== src/Input/Tests.antt =====
-- src/spice.c and src/session.c: input at concrete values.
use x11spice.Prelude.{◌≡◌, refl, true, not, [], ◌∷◌, arith, at_of_passes_below, passes_below}
use x11spice.Input.{
  button_press, button_release, Input, escaped_map, bit, session_handle_button_change,
}
use x11spice.Input.Buttons.{IsInSync, session_handle_button_change-IsInSync}

abbrev idle : Input
idle = record { escape = 0; buttons_state = 0; allow_control = true; sent = [] }

home_key : escaped_map 71 ≡ 110
unfolding escaped_map
home_key = refl

idle-IsInSync : IsInSync idle
unfolding passes_below
idle-IsInSync i lt =
    let zero_bit : not (bit 0 i) ≡ true = at_of_passes_below (λ k. not (bit 0 k)) 5 i lt refl in
    ground arith

session_handle_button_change-IsInSync_example : IsInSync (session_handle_button_change idle 5)
session_handle_button_change-IsInSync_example =
    session_handle_button_change-IsInSync idle 5 idle-IsInSync

left_and_third_pressed :
    (session_handle_button_change (session_handle_button_change idle 5) 4).sent
    ≡ button_press 1 ∷ button_press 3 ∷ button_release 1 ∷ []
unfolding session_handle_button_change
left_and_third_pressed = refl
