-- ===== src/Listen/Port.antt =====
-- src/listen.c: `try_port` and `listen_find_open_port`. What the resolver and the sockets answer is
-- an argument: for a port, the addresses found, each with what `socket`, `bind` and `listen` return.
pub mod Laws
mod Tests
use x11spice.Prelude.{
  ℕ, zero, suc, ◌+◌, ◌-◌, Bool, true, false, Option, none, some, List, [], ◌∷◌, ◌++◌, leb,
  if◌then◌else◌,
}
use x11spice.Prelude.Int.{ℤ, pos, ◌+ℤ◌, pos_part, neg_part, is_minus_one}

-- One address of `res`.
pub record Address : Type 0 where
  pub socket : Option ℕ
  pub bind : Bool
  pub listen : Bool

pub data SocketCall : Type 0 where
  opened : ℕ → SocketCall
  closed : ℕ → SocketCall

-- The label `listen` of `try_port`.
abbrev pub listen_on : ℕ → Bool → Option ℕ × List SocketCall
listen_on sock true = (some sock, opened sock ∷ [])
listen_on sock false = (none, opened sock ∷ closed sock ∷ [])

abbrev pub bind_to : ℕ → Bool → Bool → Option ℕ × List SocketCall
bind_to sock true listen = listen_on sock listen
bind_to sock false listen = (none, opened sock ∷ closed sock ∷ [])

abbrev pub try_socket : Option ℕ → Address → Option ℕ × List SocketCall → Option ℕ × List SocketCall
try_socket none e next = next
try_socket (some sock) e next = bind_to sock e.bind e.listen

-- The loop over the addresses: the first that gives a socket decides.
unfoldable pub try_addresses : List Address → Option ℕ × List SocketCall
try_addresses [] = (none, [])
try_addresses (e ∷ es) = try_socket e.socket e (try_addresses es)

abbrev pub try_resolved : Option (List Address) → Option ℕ × List SocketCall
try_resolved none = (none, [])
try_resolved (some es) = try_addresses es

-- `getaddrinfo` answers `none` where it fails. The socket is `none` for -1.
unfoldable pub try_port : (ℤ → Option (List Address)) → ℤ → Option ℕ × List SocketCall
unfolding try_addresses
try_port resolve port = try_resolved (resolve port)

-- The number of rounds of `for (i = start; i <= end; i++)`.
abbrev pub rounds : ℤ → ℤ → ℕ
rounds start end = pos_part end + neg_part start + 1 - (pos_part start + neg_part end)

pub record Found : Type 0 where
  pub port : ℤ
  pub sock : ℕ

-- The test of `rc`, with what the later rounds find.
abbrev pub or_next :
    ℤ → Option ℕ × List SocketCall → Option Found × List SocketCall → Option Found × List SocketCall
or_next i (some sock, out) later = (some (record { port = i; sock = sock }), out)
or_next i (none, out) later = (later.0, out ++ later.1)

-- The loop, with `left` rounds to come.
unfoldable pub find_from : (ℤ → Option (List Address)) → ℤ → ℕ → Option Found × List SocketCall
unfolding try_port
find_from resolve i zero = (none, [])
find_from resolve i (suc left) =
    or_next i (try_port resolve i) (find_from resolve (i +ℤ pos 1) left)

abbrev pub first_port : ℤ → ℤ → ℤ
first_port start end = if is_minus_one start then end else start

abbrev pub last_port : ℤ → ℤ → ℤ
last_port start end = if is_minus_one end then start else end

-- `none` for -1.
unfoldable pub listen_find_open_port :
    (ℤ → Option (List Address)) → ℤ → ℤ → Option Found × List SocketCall
unfolding find_from
listen_find_open_port resolve start end =
    let first = first_port start end in find_from resolve first (rounds first (last_port first end))
