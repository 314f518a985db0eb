-- ===== src/Agent/Uinput/Tests.antt =====
-- src/agent.c: the reading of the fifo at a concrete input.
use x11spice.Prelude.{◌≡◌, true, false, some, none, List, [], ◌∷◌, refl, arith, get_or}
use x11spice.Prelude.Int.{pos, minus_one}
use x11spice.Agent.Uinput.{LinuxInput, Uinput, read_all, uinput_read_cb}
use x11spice.Agent.Uinput.Laws.{feed, read_all-feed}
use x11spice.Agent.Uinput.Control.{
  ClientInput, from_spice, from_agent, receive_all, receive_all-needs_control,
}
use x11spice.Input.{push_scan_freg, position}

-- Events of three bytes: type, code and value.
abbrev linux : LinuxInput
linux = record {
  size = 3;
  event = λ bytes. record {
    type = get_or bytes 0 0;
    code = get_or bytes 1 0;
    value = pos (get_or bytes 2 0);
  };
  ev_key = 1;
  ev_rel = 2;
  ev_abs = 3;
  btn_left = 272;
  btn_middle = 274;
  btn_right = 273;
  abs_x = 0;
  abs_y = 1;
}

abbrev idle : Uinput
idle = record {
  agent = record {
    virtio_listen_fd = minus_one;
    virtio_client_fd = minus_one;
    uinput_fd = pos 8;
    connected = false;
    virtio_listen_watch = false;
    virtio_client_watch = false;
    uinput_watch = true;
    calls = [];
  };
  uinput_buffer = [];
  uinput_buttons_state = 0;
  uinput_x = pos 0;
  uinput_y = pos 0;
  input = record { escape = 0; buttons_state = 0; allow_control = true; sent = [] };
}

-- A press of the left button and a move to column 40, in three pieces and a read that fails.
read_all-feed_example :
    read_all linux (some (1 ∷ []) ∷ none ∷ some (272 ∷ 1 ∷ []) ∷ some (3 ∷ 0 ∷ 40 ∷ []) ∷ []) idle
    ≡ feed linux (1 ∷ 272 ∷ 1 ∷ 3 ∷ 0 ∷ 40 ∷ []) idle
unfolding uinput_read_cb
read_all-feed_example =
    read_all-feed linux (some (1 ∷ []) ∷ none ∷ some (272 ∷ 1 ∷ []) ∷ some (3 ∷ 0 ∷ 40 ∷ []) ∷ [])
      idle (omega arith)
      (omega arith, omega arith, (omega arith, omega arith, (omega arith, omega arith, tt)))

-- Clients that may only watch: a key, a press of the left button through the agent, and a move.
abbrev watching : Uinput
watching = record idle { input = record idle.input { allow_control = false } }

abbrev attempts : List ClientInput
attempts =
    from_spice (push_scan_freg 30)
    ∷ from_agent (some (1 ∷ 272 ∷ 1 ∷ []))
    ∷ from_spice (position (pos 5) (pos 6))
    ∷ []

receive_all-needs_control_example : (receive_all linux watching attempts).input.sent ≡ []
receive_all-needs_control_example = receive_all-needs_control linux watching attempts refl
