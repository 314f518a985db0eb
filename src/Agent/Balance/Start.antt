-- ===== src/Agent/Balance/Start.antt =====
-- src/agent.c: the descriptors that are open after `agent_start` and `on_accept`.
use x11spice.Prelude.{
  ◌+◌, ◌≡◌, refl, ap, ◌∙◌, Bool, true, false, Option, none, some, List, [], ◌∷◌, ◌++◌, arith,
  Bool-cases, inl, inr,
}
use x11spice.Prelude.Int.{ℤ, minus_one, is_minus_one}
use x11spice.Options.{Options, Text}
use x11spice.Agent.{
  AgentCall, opened, closed, watch_add, add_interface, Agent, start_uinput, stop_uinput, on_accept,
  start_virtio, cleared, StartAnswers, then_start_uinput, start_both, start_with, agent_start,
  agent_stop,
}
use x11spice.Agent.Balance.{
  one, owns, opens, closes, IsBalanced, opens-append, closes-append, stop_uinput-closes,
  stop_virtio-closes,
}

owns-minus_one : (k : ℤ) → owns k minus_one ≡ 0
unfolding owns
owns-minus_one k = refl

owns-set : (k fd : ℤ) → is_minus_one fd ≡ false → owns k fd ≡ one k fd
unfolding owns
owns-set k fd h = rw h refl

owns-unset : (k fd : ℤ) → is_minus_one fd ≡ true → owns k fd ≡ 0
unfolding owns
owns-unset k fd h = rw h refl

-- The agent with its first client.
abbrev with_client : ℤ → Agent → Agent
with_client fd a = record a {
  virtio_client_fd = fd;
  virtio_client_watch = true;
  calls = a.calls ++ opened fd ∷ watch_add fd ∷ add_interface ∷ [];
}

with_client-IsBalanced :
    (fd : ℤ) (a : Agent)
    → a.virtio_client_fd ≡ minus_one
    → is_minus_one fd ≡ false
    → IsBalanced a
    → IsBalanced (with_client fd a)
with_client-IsBalanced fd a free set balanced k =
    let out = opened fd ∷ watch_add fd ∷ add_interface ∷ [] in
    let before : owns k a.virtio_client_fd ≡ 0 = ap (owns k) free ∙ owns-minus_one k in
    omega (
      arith,
      opens-append k a.calls out,
      closes-append k a.calls out,
      owns-set k fd set,
      before,
      balanced k,
    )

-- Accepting a client keeps that, if there is none yet and the flags of its socket can be set.
pub on_accept-IsBalanced :
    (accepted fd : ℤ) (a : Agent)
    → a.virtio_client_fd ≡ minus_one
    → IsBalanced a
    → IsBalanced (on_accept accepted true true fd a)
unfolding on_accept
on_accept-IsBalanced accepted fd a free balanced = elim (Bool-cases (is_minus_one accepted)) [
  | inl refused ↦
      rw (ap is_minus_one free, refused)
        (λ k.
          let before : owns k a.virtio_client_fd ≡ 0 = ap (owns k) free ∙ owns-minus_one k in
          omega (arith, before, owns-unset k accepted refused, balanced k))
  | inr ok ↦ rw (ap is_minus_one free, ok) (with_client-IsBalanced accepted a free ok balanced)
]

-- What `agent_start` returns, unless the fifo failed.
abbrev Started : ℤ × Agent → Type 0
Started (rc, a) = is_minus_one rc ≡ false → IsBalanced a

-- The agent that listens.
abbrev with_socket : ℤ → List AgentCall → Bool → Agent
with_socket fd out watched = record cleared {
  virtio_listen_fd = fd;
  virtio_listen_watch = watched;
  calls = out;
}

cleared-IsBalanced : IsBalanced cleared
cleared-IsBalanced k = omega (arith, owns-minus_one k)

no_socket-IsBalanced : (fd : ℤ) → is_minus_one fd ≡ true → IsBalanced (with_socket fd [] false)
no_socket-IsBalanced fd unset k = omega (arith, owns-minus_one k, owns-unset k fd unset)

socket-IsBalanced :
    (fd : ℤ) (watched : Bool)
    → is_minus_one fd ≡ false
    → IsBalanced (with_socket fd (opened fd ∷ []) watched)
socket-IsBalanced fd watched set k = omega (arith, owns-minus_one k, owns-set k fd set)

then_start_uinput-Started :
    (os : StartAnswers)
    → is_minus_one os.socket ≡ false
    → Started (
        then_start_uinput os
          (with_socket os.socket (opened os.socket ∷ watch_add os.socket ∷ []) true))
unfolding then_start_uinput start_uinput
then_start_uinput-Started os set = elim (Bool-cases os.mkfifo) [
  | inr failed ↦ rw failed (λ h. absurd (ground arith))
  | inl made ↦ elim (Bool-cases (is_minus_one os.uinput)) [
    | inl unset ↦ rw (made, unset) (λ h. absurd (ground arith))
    | inr ok ↦
        rw (made, ok)
          (λ h k.
            omega (arith, owns-minus_one k, owns-set k os.socket set, owns-set k os.uinput ok))
  ]
]

start_both-Started : (os : StartAnswers) → Started (start_both os)
unfolding start_both start_virtio
start_both-Started os = elim (Bool-cases (is_minus_one os.socket)) [
  | inl unset ↦ rw unset (λ h. no_socket-IsBalanced os.socket unset)
  | inr set ↦ elim (Bool-cases os.bind) [
    | inr failed ↦ rw (set, failed) (λ h. socket-IsBalanced os.socket false set)
    | inl bound ↦ elim (Bool-cases os.listen) [
      | inr failed ↦ rw (set, bound, failed) (λ h. socket-IsBalanced os.socket false set)
      | inl listening ↦ rw (set, bound, listening) (then_start_uinput-Started os set)
    ]
  ]
]

-- Unless it is the fifo that fails, each descriptor that `agent_start` leaves open stands in a
-- field of the agent, so that `agent_stop` closes it.
pub agent_start-IsBalanced :
    (os : StartAnswers) (o : Options)
    → is_minus_one (agent_start os o).0 ≡ false
    → IsBalanced (agent_start os o).1
unfolding agent_start
agent_start-IsBalanced os o = go o.virtio_path o.uinput_path
  where
    go : (v u : Option Text) → Started (start_with os v u)
    go none u = λ h. cleared-IsBalanced
    go (some v) none = λ h. cleared-IsBalanced
    go (some v) (some u) = start_both-Started os

-- What `agent_stop` closes of an agent.
agent_stop-closes :
    (k : ℤ) (a : Agent)
    → (opens k (agent_stop a).calls ≡ opens k a.calls)
      × (closes k (agent_stop a).calls
          ≡ closes k a.calls
            + (owns k a.virtio_listen_fd + owns k a.virtio_client_fd + owns k a.uinput_fd))
unfolding agent_stop
agent_stop-closes k a =
    let (o, c) = stop_uinput-closes k a in
    let (o', c') = stop_virtio-closes k (stop_uinput a) in
    let fields : (owns k (stop_uinput a).virtio_client_fd ≡ owns k a.virtio_client_fd)
        × (owns k (stop_uinput a).virtio_listen_fd ≡ owns k a.virtio_listen_fd) =
      unfold stop_uinput in (refl, refl) in
    (omega (arith, o, o'), omega (arith, c, c', fields.0, fields.1))

-- A second client makes `on_accept` close the descriptor that it is called with, which is the
-- listening one: `agent_stop` then closes that again.
pub on_accept-closes_listener :
    (accepted : ℤ) (got_flags set_flags : Bool) (a : Agent) (k : ℤ)
    → is_minus_one a.virtio_client_fd ≡ false
    → IsBalanced a
    → let b = agent_stop (on_accept accepted got_flags set_flags a.virtio_listen_fd a) in
      closes k b.calls ≡ opens k b.calls + one k a.virtio_listen_fd
unfolding on_accept
on_accept-closes_listener accepted got_flags set_flags a k busy balanced = rw busy (
    let out = closed a.virtio_listen_fd ∷ [] in
    let (o, c) = agent_stop-closes k (record a { calls = a.calls ++ out }) in
    omega (arith, o, c, opens-append k a.calls out, closes-append k a.calls out, balanced k))
