-- ===== src/Agent.antt =====
-- src/agent.c and agent.h: the sockets and the fifo of the agent, with the watches on them. The
-- answers of the system are arguments; its calls go to a log. A file descriptor is an `int`.
mod Balance
pub mod Uinput
mod Tests
use x11spice.Prelude.{
  ℕ, Bool, true, false, Option, none, some, List, [], ◌∷◌, ◌++◌, ◌&&◌, ◌==◌, if◌then◌else◌,
}
use x11spice.Prelude.Int.{ℤ, pos, negsuc, ◌+ℤ◌, ltb_ℤ, minus_one, is_minus_one, is_zero}
use x11spice.Options.{Text, Options}

pub data AgentCall : Type 0 where
  opened closed watch_add : ℤ → AgentCall
  watch_remove add_interface remove_interface char_device_wakeup : AgentCall

-- `agent_t`, without what the reading of the fifo keeps. A watch is there or NULL.
pub record Agent : Type 0 where
  pub virtio_listen_fd : ℤ
  pub virtio_client_fd : ℤ
  pub uinput_fd : ℤ
  pub connected : Bool
  pub virtio_listen_watch : Bool
  pub virtio_client_watch : Bool
  pub uinput_watch : Bool
  pub calls : List AgentCall

-- X11SPICE_ERR_NO_SOCKET, X11SPICE_ERR_BIND, X11SPICE_ERR_LISTEN
abbrev pub err_no_socket : ℤ
err_no_socket = pos 14

abbrev pub err_bind : ℤ
err_bind = pos 15

abbrev pub err_listen : ℤ
err_listen = pos 16

abbrev pub log : Agent → List AgentCall → Agent
log a out = record a { calls = a.calls ++ out }

abbrev pub unwatch : Bool → List AgentCall
unwatch true = watch_remove ∷ []
unwatch false = []

abbrev pub close_fd : ℤ → List AgentCall
close_fd fd = if is_minus_one fd then [] else closed fd ∷ []

abbrev pub close_client : ℤ → List AgentCall
close_client fd = if is_minus_one fd then [] else remove_interface ∷ closed fd ∷ []

-- What `mkfifo` and `open` answer.
unfoldable pub start_uinput : Bool → ℤ → Agent → ℤ × Agent
start_uinput made fd a =
    if made
    then if is_minus_one fd then (minus_one, record a { uinput_fd = fd }) else (
      pos 0,
      record a {
        uinput_fd = fd;
        uinput_watch = true;
        calls = a.calls ++ opened fd ∷ watch_add fd ∷ [];
      },
    )
    else (minus_one, a)

unfoldable pub stop_uinput : Agent → Agent
stop_uinput a = record a {
  uinput_watch = false;
  uinput_fd = minus_one;
  calls = a.calls ++ (unwatch a.uinput_watch ++ close_fd a.uinput_fd);
}

-- The last assignment is `virtio_client_fd = virtio_listen_fd - 1`.
unfoldable pub stop_virtio : Agent → Agent
stop_virtio a = record a {
  virtio_client_watch = false;
  virtio_listen_watch = false;
  virtio_client_fd = a.virtio_listen_fd +ℤ minus_one;
  calls =
      a.calls
      ++ (unwatch a.virtio_client_watch
          ++ (unwatch a.virtio_listen_watch
              ++ (close_client a.virtio_client_fd ++ close_fd a.virtio_listen_fd)));
}

-- `sent` is what `send` returns.
unfoldable pub agent_char_write : ℤ → Agent → ℤ
agent_char_write sent a = if is_minus_one a.virtio_client_fd then pos 0 else sent

-- What `recv` returns, and whether errno is EAGAIN, EWOULDBLOCK or EINTR.
unfoldable pub agent_char_read : ℤ → Bool → Agent → ℤ × Agent
unfolding stop_virtio stop_uinput
agent_char_read nbytes again a =
    if is_minus_one a.virtio_client_fd
    then (pos 0, a)
    else if ltb_ℤ (pos 0) nbytes
    then (nbytes, a)
    else if again
    then (pos 0, a)
    else (nbytes, stop_uinput (stop_virtio a))

unfoldable pub agent_char_state : Bool → Agent → Agent
agent_char_state connected a = record a { connected = connected }

unfoldable pub on_read_available : Agent → Agent
on_read_available a = if is_minus_one a.virtio_client_fd then a else log a (char_device_wakeup ∷ [])

-- What `accept` and the two calls of `fcntl` answer; `fd` is the descriptor watched.
unfoldable pub on_accept : ℤ → Bool → Bool → ℤ → Agent → Agent
on_accept accepted got_flags set_flags fd a =
    if is_minus_one a.virtio_client_fd
    then if is_minus_one accepted
      then record a { virtio_client_fd = accepted }
      else if got_flags && set_flags
      then record a {
        virtio_client_fd = accepted;
        virtio_client_watch = true;
        calls = a.calls ++ opened accepted ∷ watch_add accepted ∷ add_interface ∷ [];
      }
      else record a {
        virtio_client_fd = accepted;
        calls = a.calls ++ opened accepted ∷ closed accepted ∷ [];
      }
    else log a (closed fd ∷ [])

-- What `socket`, `bind` and `listen` answer.
unfoldable pub start_virtio : ℤ → Bool → Bool → Agent → ℤ × Agent
start_virtio fd bound listening a =
    let a' : Agent = record a { virtio_listen_fd = fd } in
    if is_minus_one fd
    then (err_no_socket, a')
    else if bound
    then if listening
      then (
        pos 0,
        record a' { virtio_listen_watch = true; calls = a.calls ++ opened fd ∷ watch_add fd ∷ [] },
      )
      else (err_listen, log a' (opened fd ∷ []))
    else (err_bind, log a' (opened fd ∷ []))

-- The agent after `memset` and the assignments behind it.
abbrev pub cleared : Agent
cleared = record {
  virtio_listen_fd = minus_one;
  virtio_client_fd = minus_one;
  uinput_fd = minus_one;
  connected = false;
  virtio_listen_watch = false;
  virtio_client_watch = false;
  uinput_watch = false;
  calls = [];
}

pub record StartAnswers : Type 0 where
  pub socket : ℤ
  pub bind : Bool
  pub listen : Bool
  pub mkfifo : Bool
  pub uinput : ℤ

-- What follows a successful `start_virtio`.
unfoldable pub then_start_uinput : StartAnswers → Agent → ℤ × Agent
unfolding start_uinput stop_virtio
then_start_uinput os a =
    let (rc, a') = start_uinput os.mkfifo os.uinput a in
    if is_zero rc then (pos 0, a') else (rc, stop_virtio a')

unfoldable pub start_both : StartAnswers → ℤ × Agent
unfolding start_virtio then_start_uinput
start_both os =
    let (rc, a) = start_virtio os.socket os.bind os.listen cleared in
    if is_zero rc then then_start_uinput os a else (rc, a)

abbrev pub start_with : StartAnswers → Option Text → Option Text → ℤ × Agent
start_with os none uinput_path = (pos 0, cleared)
start_with os (some virtio_path) none = (pos 0, cleared)
start_with os (some virtio_path) (some uinput_path) = start_both os

unfoldable pub agent_start : StartAnswers → Options → ℤ × Agent
unfolding start_both
agent_start os o = start_with os o.virtio_path o.uinput_path

unfoldable pub agent_stop : Agent → Agent
unfolding stop_virtio stop_uinput
agent_stop a = stop_virtio (stop_uinput a)
