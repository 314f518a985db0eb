-- ===== src/Listen/Port/Laws.antt =====
-- src/listen.c: which port `listen_find_open_port` opens, and that it leaves no socket behind.
use x11spice.Prelude.{
  ℕ, zero, suc, ◌<◌, ◌≡◌, refl, Bool, true, false, Option, none, some, List, [], ◌∷◌, ◌++◌, arith,
  ◌==◌, if◌then◌else◌,
}
use x11spice.Prelude.Int.{ℤ, pos, ◌+ℤ◌}
use x11spice.Listen.Port.{
  Address, SocketCall, opened, closed, try_addresses, try_port, rounds, Found, find_from,
  first_port, bind_to, try_socket, try_resolved, or_next, last_port, listen_find_open_port,
}

-- The descriptors without the first that is `fd`.
abbrev pub without : ℕ → List ℕ → List ℕ
without fd [] = []
without fd (s ∷ fds) = if s == fd then fds else s ∷ without fd fds

-- The sockets opened and not closed since, the one opened last first.
abbrev pub still_open : List ℕ → List SocketCall → List ℕ
still_open fds [] = fds
still_open fds (opened s ∷ out) = still_open (s ∷ fds) out
still_open fds (closed s ∷ out) = still_open (without s fds) out

abbrev pub returned : Option Found → List ℕ
returned none = []
returned (some f) = f.sock ∷ []

abbrev sock_list : Option ℕ → List ℕ
sock_list none = []
sock_list (some s) = s ∷ []

pub still_open-append :
    (fds : List ℕ) (a b : List SocketCall)
    → still_open fds (a ++ b) ≡ still_open (still_open fds a) b
still_open-append fds [] b = refl
still_open-append fds (opened s ∷ a) b = still_open-append (s ∷ fds) a b
still_open-append fds (closed s ∷ a) b = still_open-append (without s fds) a b

-- A socket that is opened and closed is not open.
pub without_self : (s : ℕ) (fds : List ℕ) → without s (s ∷ fds) ≡ fds
without_self s fds = let test : (s == s) ≡ true = ground arith in rw test refl

-- One call of `try_port` leaves open what it returns.
abbrev LeavesReturned : Option ℕ × List SocketCall → Type 0
LeavesReturned (rc, out) = still_open [] out ≡ sock_list rc

bind_to-LeavesReturned : (sock : ℕ) (bind listen : Bool) → LeavesReturned (bind_to sock bind listen)
bind_to-LeavesReturned sock true true = refl
bind_to-LeavesReturned sock true false = without_self sock []
bind_to-LeavesReturned sock false listen = without_self sock []

try_socket-LeavesReturned :
    (socket : Option ℕ) (e : Address) (next : Option ℕ × List SocketCall)
    → LeavesReturned next
    → LeavesReturned (try_socket socket e next)
try_socket-LeavesReturned none e next h = h
try_socket-LeavesReturned (some sock) e next h = bind_to-LeavesReturned sock e.bind e.listen

try_addresses-LeavesReturned : (es : List Address) → LeavesReturned (try_addresses es)
unfolding try_addresses
try_addresses-LeavesReturned [] = refl
try_addresses-LeavesReturned (e ∷ es) =
    try_socket-LeavesReturned e.socket e (try_addresses es) (try_addresses-LeavesReturned es)

try_port-LeavesReturned :
    (resolve : ℤ → Option (List Address)) (i : ℤ) → LeavesReturned (try_port resolve i)
unfolding try_port
try_port-LeavesReturned resolve i = go (resolve i)
  where
    go : (found : Option (List Address)) → LeavesReturned (try_resolved found)
    go none = refl
    go (some es) = try_addresses-LeavesReturned es

or_next-still_open :
    (i : ℤ) (this : Option ℕ × List SocketCall) (later : Option Found × List SocketCall)
    → LeavesReturned this
    → still_open [] later.1 ≡ returned later.0
    → still_open [] (or_next i this later).1 ≡ returned (or_next i this later).0
or_next-still_open i (some sock, out) later h h' = h
or_next-still_open i (none, out) later h h' = rw (still_open-append [] out later.1, h) h'

find_from-still_open :
    (resolve : ℤ → Option (List Address)) (i : ℤ) (left : ℕ)
    → still_open [] (find_from resolve i left).1 ≡ returned (find_from resolve i left).0
unfolding find_from
find_from-still_open resolve i zero = refl
find_from-still_open resolve i (suc left) =
    or_next-still_open i (try_port resolve i) _ (try_port-LeavesReturned resolve i)
      (find_from-still_open resolve (i +ℤ pos 1) left)

-- Whatever the system answers, the only socket that `listen_find_open_port` leaves open is the one
-- that it returns: none if it fails.
pub listen_find_open_port-still_open :
    (resolve : ℤ → Option (List Address)) (start end : ℤ)
    → let (found, out) = listen_find_open_port resolve start end in
      still_open [] out ≡ returned found
unfolding listen_find_open_port
listen_find_open_port-still_open resolve start end = find_from-still_open resolve _ _

-- All the ports before the `k`th fail.
abbrev pub FailBelow : (ℤ → Option (List Address)) → ℤ → ℕ → Type 0
FailBelow resolve i zero = Unit
FailBelow resolve i (suc k) = ((try_port resolve i).0 ≡ none) × FailBelow resolve (i +ℤ pos 1) k

-- `port` is the `k`th from `i` on.
abbrev pub IsNth : ℤ → ℕ → ℤ → Type 0
IsNth i zero port = port ≡ i
IsNth i (suc k) port = IsNth (i +ℤ pos 1) k port

-- The `k`th port of the range is the one found, and all before it fail.
abbrev pub FoundAt : (ℤ → Option (List Address)) → ℤ → ℕ → Found → ℕ → Type 0
FoundAt resolve i left f k =
    (k < left)
    × IsNth i k f.port
    × FailBelow resolve i k
    × ((try_port resolve f.port).0 ≡ some f.sock)

-- What the loop makes of a range: the first port that opens, or none of them opens.
abbrev pub Search : (ℤ → Option (List Address)) → ℤ → ℕ → Option Found → Type 0
Search resolve i left none = FailBelow resolve i left
Search resolve i left (some f) = (k : ℕ) × FoundAt resolve i left f k

Search-suc :
    (resolve : ℤ → Option (List Address)) (i : ℤ) (left : ℕ) (found : Option Found)
    → (try_port resolve i).0 ≡ none
    → Search resolve (i +ℤ pos 1) left found
    → Search resolve i (suc left) found
Search-suc resolve i left none nothing h = (nothing, h)
Search-suc resolve i left (some f) nothing (k, (lt, nth, fail, ok)) =
    (suc k, (omega arith, nth, (nothing, fail), ok))

or_next-Search :
    (resolve : ℤ → Option (List Address)) (i : ℤ) (left : ℕ) (this : Option ℕ × List SocketCall)
    (later : Option Found × List SocketCall)
    → (try_port resolve i).0 ≡ this.0
    → Search resolve (i +ℤ pos 1) left later.0
    → Search resolve i (suc left) (or_next i this later).0
or_next-Search resolve i left (some sock, out) later e h = (0, (omega arith, refl, tt, e))
or_next-Search resolve i left (none, out) later e h = Search-suc resolve i left later.0 e h

find_from-Search :
    (resolve : ℤ → Option (List Address)) (i : ℤ) (left : ℕ)
    → Search resolve i left (find_from resolve i left).0
unfolding find_from
find_from-Search resolve i zero = tt
find_from-Search resolve i (suc left) =
    or_next-Search resolve i left (try_port resolve i) _ refl
      (find_from-Search resolve (i +ℤ pos 1) left)

-- The ports are tried in order from `start` (from `end` if there is no start) to `end`, both
-- included: the first that opens is returned with its socket, and nothing is returned only if all
-- of them fail.
pub listen_find_open_port-Search :
    (resolve : ℤ → Option (List Address)) (start end : ℤ)
    → let first = first_port start end in
      Search resolve first
        (rounds first (last_port first end))
        (listen_find_open_port resolve start end).0
unfolding listen_find_open_port
listen_find_open_port-Search resolve start end = find_from-Search resolve _ _
