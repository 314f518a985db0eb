-- ===== src/Agent/Balance.antt =====
-- src/agent.c: which file descriptors the agent opens and closes.
pub mod Start
use x11spice.Prelude.{
  ℕ, zero, suc, ◌+◌, ◌*◌, ◌≡◌, ◌≢◌, refl, sym, ap, ◌∙◌, Bool, true, false, ◌&&◌, Option, none, some,
  List, [], ◌∷◌, ◌++◌, ◌==◌, if◌then◌else◌, arith, Bool-cases, inl, inr,
}
use x11spice.Prelude.Int.{ℤ, pos, negsuc, ◌+ℤ◌, minus_one, is_minus_one, is_zero}
use x11spice.Options.{Options, Text}
use x11spice.Agent.{
  AgentCall, opened, closed, watch_add, watch_remove, add_interface, remove_interface,
  char_device_wakeup, Agent, unwatch, close_fd, close_client, start_uinput, stop_uinput,
  stop_virtio, on_accept, start_virtio, cleared, StartAnswers, then_start_uinput, start_both,
  start_with, agent_start, agent_stop,
}

abbrev pub same_fd : ℤ → ℤ → Bool
same_fd (pos a) (pos b) = a == b
same_fd (negsuc a) (negsuc b) = a == b
same_fd (pos a) (negsuc b) = false
same_fd (negsuc a) (pos b) = false

unfoldable pub one : ℤ → ℤ → ℕ
one k fd = if same_fd k fd then 1 else 0

-- How often a descriptor was opened, and how often closed.
abbrev pub opens : ℤ → List AgentCall → ℕ
opens k [] = 0
opens k (opened fd ∷ out) = one k fd + opens k out
opens k (c ∷ out) = opens k out

abbrev pub closes : ℤ → List AgentCall → ℕ
closes k [] = 0
closes k (closed fd ∷ out) = one k fd + closes k out
closes k (c ∷ out) = closes k out

-- Whether a field holds the descriptor, which is not -1 then.
unfoldable pub owns : ℤ → ℤ → ℕ
unfolding one
owns k fd = if is_minus_one fd then 0 else one k fd

-- Each descriptor was opened as often as it was closed, and once more for each field that holds it.
abbrev pub IsBalanced : Agent → Type 0
IsBalanced a =
    (k : ℤ)
    → opens k a.calls
      ≡ closes k a.calls
        + (owns k a.virtio_listen_fd + owns k a.virtio_client_fd + owns k a.uinput_fd)

pub opens-append : (k : ℤ) (a b : List AgentCall) → opens k (a ++ b) ≡ opens k a + opens k b
opens-append k [] b = omega arith
opens-append k (opened fd ∷ a) b = omega (arith, opens-append k a b)
opens-append k (closed fd ∷ a) b = opens-append k a b
opens-append k (watch_add fd ∷ a) b = opens-append k a b
opens-append k (watch_remove ∷ a) b = opens-append k a b
opens-append k (add_interface ∷ a) b = opens-append k a b
opens-append k (remove_interface ∷ a) b = opens-append k a b
opens-append k (char_device_wakeup ∷ a) b = opens-append k a b

pub closes-append : (k : ℤ) (a b : List AgentCall) → closes k (a ++ b) ≡ closes k a + closes k b
closes-append k [] b = omega arith
closes-append k (opened fd ∷ a) b = closes-append k a b
closes-append k (closed fd ∷ a) b = omega (arith, closes-append k a b)
closes-append k (watch_add fd ∷ a) b = closes-append k a b
closes-append k (watch_remove ∷ a) b = closes-append k a b
closes-append k (add_interface ∷ a) b = closes-append k a b
closes-append k (remove_interface ∷ a) b = closes-append k a b
closes-append k (char_device_wakeup ∷ a) b = closes-append k a b

-- What the two parts of a stop close.
opens-unwatch : (k : ℤ) (w : Bool) → opens k (unwatch w) ≡ 0
opens-unwatch k true = refl
opens-unwatch k false = refl

pub closes-unwatch : (k : ℤ) (w : Bool) → closes k (unwatch w) ≡ 0
closes-unwatch k true = refl
closes-unwatch k false = refl

closes-close_fd : (k fd : ℤ) → closes k (close_fd fd) ≡ owns k fd
unfolding owns
closes-close_fd k fd = elim (Bool-cases (is_minus_one fd)) [
  | inl unset ↦ rw unset refl
  | inr set ↦ rw set (omega arith)
]

opens-close_fd : (k fd : ℤ) → opens k (close_fd fd) ≡ 0
opens-close_fd k fd = elim (Bool-cases (is_minus_one fd)) [
  | inl unset ↦ rw unset refl
  | inr set ↦ rw set refl
]

closes-close_client : (k fd : ℤ) → closes k (close_client fd) ≡ owns k fd
unfolding owns
closes-close_client k fd = elim (Bool-cases (is_minus_one fd)) [
  | inl unset ↦ rw unset refl
  | inr set ↦ rw set (omega arith)
]

opens-close_client : (k fd : ℤ) → opens k (close_client fd) ≡ 0
opens-close_client k fd = elim (Bool-cases (is_minus_one fd)) [
  | inl unset ↦ rw unset refl
  | inr set ↦ rw set refl
]

-- The calls that `stop_virtio` adds, and those of `stop_uinput`.
abbrev virtio_calls : Agent → List AgentCall
virtio_calls a =
    unwatch a.virtio_client_watch
    ++ (unwatch a.virtio_listen_watch
        ++ (close_client a.virtio_client_fd ++ close_fd a.virtio_listen_fd))

abbrev uinput_calls : Agent → List AgentCall
uinput_calls a = unwatch a.uinput_watch ++ close_fd a.uinput_fd

closes-virtio_calls :
    (k : ℤ) (a : Agent)
    → closes k (virtio_calls a) ≡ owns k a.virtio_client_fd + owns k a.virtio_listen_fd
closes-virtio_calls k a =
    let rest = close_client a.virtio_client_fd ++ close_fd a.virtio_listen_fd in
    omega (
      arith,
      closes-append k (unwatch a.virtio_client_watch) (unwatch a.virtio_listen_watch ++ rest),
      closes-append k (unwatch a.virtio_listen_watch) rest,
      closes-append k (close_client a.virtio_client_fd) (close_fd a.virtio_listen_fd),
      closes-unwatch k a.virtio_client_watch,
      closes-unwatch k a.virtio_listen_watch,
      closes-close_client k a.virtio_client_fd,
      closes-close_fd k a.virtio_listen_fd,
    )

opens-virtio_calls : (k : ℤ) (a : Agent) → opens k (virtio_calls a) ≡ 0
opens-virtio_calls k a =
    let rest = close_client a.virtio_client_fd ++ close_fd a.virtio_listen_fd in
    omega (
      arith,
      opens-append k (unwatch a.virtio_client_watch) (unwatch a.virtio_listen_watch ++ rest),
      opens-append k (unwatch a.virtio_listen_watch) rest,
      opens-append k (close_client a.virtio_client_fd) (close_fd a.virtio_listen_fd),
      opens-unwatch k a.virtio_client_watch,
      opens-unwatch k a.virtio_listen_watch,
      opens-close_client k a.virtio_client_fd,
      opens-close_fd k a.virtio_listen_fd,
    )

pub stop_virtio-closes :
    (k : ℤ) (a : Agent)
    → (opens k (stop_virtio a).calls ≡ opens k a.calls)
      × (closes k (stop_virtio a).calls
          ≡ closes k a.calls + (owns k a.virtio_client_fd + owns k a.virtio_listen_fd))
unfolding stop_virtio
stop_virtio-closes k a = (
  omega (arith, opens-append k a.calls (virtio_calls a), opens-virtio_calls k a),
  omega (arith, closes-append k a.calls (virtio_calls a), closes-virtio_calls k a),
)

pub stop_uinput-closes :
    (k : ℤ) (a : Agent)
    → (opens k (stop_uinput a).calls ≡ opens k a.calls)
      × (closes k (stop_uinput a).calls ≡ closes k a.calls + owns k a.uinput_fd)
unfolding stop_uinput
stop_uinput-closes k a = (
  omega (
    arith,
    opens-append k a.calls (uinput_calls a),
    opens-append k (unwatch a.uinput_watch) (close_fd a.uinput_fd),
    opens-unwatch k a.uinput_watch,
    opens-close_fd k a.uinput_fd,
  ),
  omega (
    arith,
    closes-append k a.calls (uinput_calls a),
    closes-append k (unwatch a.uinput_watch) (close_fd a.uinput_fd),
    closes-unwatch k a.uinput_watch,
    closes-close_fd k a.uinput_fd,
  ),
)

-- After `agent_stop`, every descriptor has been closed as often as it was opened, if before it each
-- that was open stood in one of the three fields.
pub agent_stop-closes_all :
    (a : Agent) (k : ℤ)
    → IsBalanced a
    → opens k (agent_stop a).calls ≡ closes k (agent_stop a).calls
unfolding agent_stop
agent_stop-closes_all a k balanced =
    let (o, c) = stop_uinput-closes k a in
    let (o', c') = stop_virtio-closes k (stop_uinput a) in
    let fields : (owns k (stop_uinput a).virtio_client_fd ≡ owns k a.virtio_client_fd)
        × (owns k (stop_uinput a).virtio_listen_fd ≡ owns k a.virtio_listen_fd) =
      unfold stop_uinput in (refl, refl) in
    omega (arith, o, c, o', c', fields.0, fields.1, balanced k)

-- A second `stop_virtio`, such as that of `agent_stop` after a read that failed, closes the
-- listening descriptor again, and the one before it.
pub stop_virtio-closes_twice :
    (a : Agent) (k : ℤ)
    → closes k (stop_virtio (stop_virtio a)).calls
      ≡ closes k (stop_virtio a).calls
        + (owns k (a.virtio_listen_fd +ℤ minus_one) + owns k a.virtio_listen_fd)
stop_virtio-closes_twice a k =
    let (o, c) = stop_virtio-closes k (stop_virtio a) in
    let fields : (owns k (stop_virtio a).virtio_client_fd
          ≡ owns k (a.virtio_listen_fd +ℤ minus_one))
        × (owns k (stop_virtio a).virtio_listen_fd ≡ owns k a.virtio_listen_fd) =
      unfold stop_virtio in (refl, refl) in
    omega (arith, c, fields.0, fields.1)
