-- ===== src/Spice/Server/Probe.antt =====
-- src/spice.c: what `try_listen` does to the server, and the socket that it looks for a port with.
use x11spice.Prelude.{
  ◌≡◌, ◌≢◌, refl, ap, ◌∙◌, Bool, true, false, Option, none, some, List, [], ◌∷◌, ◌++◌, arith,
  if◌then◌else◌,
}
use x11spice.Prelude.Int.{ℤ, is_minus_one}
use x11spice.Options.{Text, SslOptions}
use x11spice.Listen.Parse.{Spec, listen_parse}
use x11spice.Listen.Port.{Address, SocketCall, closed, Found, listen_find_open_port}
use x11spice.Listen.Port.Laws.{
  still_open, returned, without_self, still_open-append, listen_find_open_port-still_open,
}
use x11spice.Spice.Server.{
  set_addr, set_tls, set_port, err_spice_init_failed, given, Listening, set_listen, take_port,
  listen_to, try_listen,
}
use x11spice.Spice.Server.Laws.{
  creations, destructions, IsNeutral, IsNeutral-append, given-IsNeutral,
}

-- What `try_listen` returns is no failed start, and creates no piece.
abbrev pub IsListening : Listening → Type 0
IsListening l = (l.rc ≢ err_spice_init_failed) × IsNeutral l.calls

port-IsNeutral :
    (ssl : SslOptions) (port : ℤ)
    → IsNeutral ((if ssl.enabled then set_tls port ssl else set_port port) ∷ [])
unfolding creations destructions
port-IsNeutral ssl port p = go ssl.enabled
  where
    go :
        (tls : Bool)
        → (creations p ((if tls then set_tls port ssl else set_port port) ∷ []) ≡ 0)
          × (destructions p ((if tls then set_tls port ssl else set_port port) ∷ []) ≡ 0)
    go true = (refl, refl)
    go false = (refl, refl)

nothing-IsNeutral : IsNeutral []
unfolding creations destructions
nothing-IsNeutral p = (refl, refl)

addr-IsNeutral : (addr : Option Text) (unix : Bool) → IsNeutral (given addr (λ a. set_addr a unix))
unfolding creations destructions
addr-IsNeutral addr unix = given-IsNeutral addr (λ a. set_addr a unix) (λ a p. (refl, refl))

set_listen-IsListening :
    (ssl : SslOptions) (spec : Spec) (port : ℤ) (sockets : List SocketCall)
    → IsListening (set_listen ssl spec port sockets)
set_listen-IsListening ssl spec port sockets = (
  λ e. absurd (omega (arith, e)),
  IsNeutral-append (given spec.addr (λ a. set_addr a spec.unix_only))
      ((if ssl.enabled then set_tls port ssl else set_port port) ∷ [])
      (addr-IsNeutral spec.addr spec.unix_only) (port-IsNeutral ssl port),
)

take_port-IsListening :
    (ssl : SslOptions) (spec : Spec) (found : Option Found × List SocketCall)
    → IsListening (take_port ssl spec found)
take_port-IsListening ssl spec (none, sockets) = (λ e. absurd (omega (arith, e)), nothing-IsNeutral)
take_port-IsListening ssl spec (some found, sockets) =
    set_listen-IsListening ssl spec found.port (sockets ++ closed found.sock ∷ [])

either-IsListening :
    (b : Bool) (l m : Listening) → IsListening l → IsListening m → IsListening (if b then l else m)
either-IsListening true l m left right = left
either-IsListening false l m left right = right

module _ (resolve : Option Text → ℤ → Option (List Address)) (ssl : SslOptions) where
  listen_to-IsListening : (spec : Option Spec) → IsListening (listen_to resolve ssl spec)
  unfolding listen_to
  listen_to-IsListening none = (λ e. absurd (omega (arith, e)), nothing-IsNeutral)
  listen_to-IsListening (some spec) =
      either-IsListening (is_minus_one spec.port_start) (set_listen ssl spec spec.port_end [])
        (take_port ssl spec
          (listen_find_open_port (resolve spec.addr) spec.port_start spec.port_end))
        (set_listen-IsListening ssl spec spec.port_end [])
        (take_port-IsListening ssl spec
          (listen_find_open_port (resolve spec.addr) spec.port_start spec.port_end))

  pub try_listen-IsListening : (listen : Text) → IsListening (try_listen resolve ssl listen)
  unfolding try_listen
  try_listen-IsListening listen = listen_to-IsListening (listen_parse listen)

take_port-closes :
    (ssl : SslOptions) (spec : Spec) (found : Option Found × List SocketCall)
    → still_open [] found.1 ≡ returned found.0
    → still_open [] (take_port ssl spec found).sockets ≡ []
take_port-closes ssl spec (none, sockets) e = e
take_port-closes ssl spec (some found, sockets) e =
    still_open-append [] sockets (closed found.sock ∷ [])
    ∙ (ap (λ fds. still_open fds (closed found.sock ∷ [])) e ∙ without_self found.sock [])

either-closes :
    (b : Bool) (l m : Listening)
    → still_open [] l.sockets ≡ []
    → still_open [] m.sockets ≡ []
    → still_open [] (if b then l else m).sockets ≡ []
either-closes true l m left right = left
either-closes false l m left right = right

-- Whatever the resolver and the sockets answer, no socket that `try_listen` opens to find a port is
-- open when it returns.
pub try_listen-closes_all :
    (resolve : Option Text → ℤ → Option (List Address)) (ssl : SslOptions) (listen : Text)
    → still_open [] (try_listen resolve ssl listen).sockets ≡ []
unfolding try_listen listen_to
try_listen-closes_all resolve ssl listen = go (listen_parse listen)
  where
    go : (spec : Option Spec) → still_open [] (listen_to resolve ssl spec).sockets ≡ []
    go none = refl
    go (some spec) =
        let found = listen_find_open_port (resolve spec.addr) spec.port_start spec.port_end in
        either-closes (is_minus_one spec.port_start) (set_listen ssl spec spec.port_end [])
          (take_port ssl spec found) refl
          (take_port-closes ssl spec found
            (listen_find_open_port-still_open (resolve spec.addr) spec.port_start spec.port_end))
