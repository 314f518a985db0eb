-- ===== src/Spice/Server.antt =====
-- src/spice.c: `spice_start` and `spice_end` with what they call, and `session_disconnect_client` of
-- src/session.c. The calls of the Spice server go to a log; what they answer is an argument.
pub mod Laws
pub mod Probe
pub mod Start
mod Tests
use x11spice.Prelude.{
  ℕ, Bool, true, false, Option, none, some, List, [], ◌∷◌, ◌++◌, ◌==◌, not, ◌||◌, if◌then◌else◌,
}
use x11spice.Prelude.Int.{ℤ, pos, ltb_ℤ, is_minus_one}
use x11spice.Options.{Text, Options, SslOptions, err_parse}
use x11spice.Listen.Parse.{Spec, listen_parse}
use x11spice.Listen.Port.{Address, SocketCall, closed, Found, listen_find_open_port}
use x11spice.Display.Image.{ShmImage}

-- What the server is made of.
pub data Piece : Type 0 where
  server display keyboard tablet primary_surface : Piece

pub data ServerCall : Type 0 where
  created destroyed : Piece → ServerCall
  set_noauth vm_start streaming_video_all : ServerCall
  set_ticket : Option Text → Bool → ServerCall
  set_video_codecs : Text → ServerCall
  set_exit_on_disconnect : Bool → ServerCall
  set_addr : Text → Bool → ServerCall
  set_tls : ℤ → SslOptions → ServerCall
  set_port : ℤ → ServerCall
  monitors_config : ℕ → ℕ → ServerCall

-- `spice_t`, as far as these calls change it.
pub record Spice : Type 0 where
  pub width : ℕ
  pub height : ℕ
  pub calls : List ServerCall

-- X11SPICE_ERR_SPICE_INIT_FAILED, X11SPICE_ERR_MALLOC, X11SPICE_ERR_AUTO_FAILED
abbrev pub err_spice_init_failed : ℕ
err_spice_init_failed = 4

abbrev pub err_malloc : ℕ
err_malloc = 7

abbrev pub err_auto_failed : ℕ
err_auto_failed = 9

abbrev pub log : Spice → List ServerCall → Spice
log s out = record s { calls = s.calls ++ out }

-- `calloc` says whether there is memory for the configuration.
unfoldable pub send_monitors_config : Bool → ℕ → ℕ → Spice → ℕ × Spice
send_monitors_config calloc w h s =
    if calloc then (0, log s (monitors_config w h ∷ [])) else (err_malloc, s)

unfoldable pub spice_create_primary : Bool → ℕ → ℕ → Spice → ℕ × Spice
unfolding send_monitors_config
spice_create_primary calloc w h s =
    send_monitors_config calloc w h
      (record s { width = w; height = h; calls = s.calls ++ created primary_surface ∷ [] })

unfoldable pub spice_destroy_primary : Spice → Spice
spice_destroy_primary s = log s (destroyed primary_surface ∷ [])

abbrev pub given : Option Text → (Text → ServerCall) → List ServerCall
given none call = []
given (some text) call = call text ∷ []

abbrev pub when : Bool → ServerCall → List ServerCall
when b call = if b then call ∷ [] else []

unfoldable pub set_options : Options → List ServerCall
set_options o =
    when o.disable_ticketing set_noauth
    ++ (given o.spice_password (λ password. set_ticket (some password) false)
        ++ (given o.codecs set_video_codecs
            ++ (when (ltb_ℤ (pos 0) o.full_screen_fps) streaming_video_all
                ++ set_exit_on_disconnect o.exit_on_disconnect ∷ [])))

-- The value returned, the calls of the server and those of sockets.
pub record Listening : Type 0 where
  pub rc : ℕ
  pub calls : List ServerCall
  pub sockets : List SocketCall

-- What follows the search: the port, and the calls of sockets so far.
abbrev pub set_listen : SslOptions → Spec → ℤ → List SocketCall → Listening
set_listen ssl spec port sockets = record {
  rc = 0;
  calls =
      given spec.addr (λ addr. set_addr addr spec.unix_only)
      ++ (if ssl.enabled then set_tls port ssl else set_port port) ∷ [];
  sockets = sockets;
}

-- What follows `listen_find_open_port`.
abbrev pub take_port : SslOptions → Spec → Option Found × List SocketCall → Listening
take_port ssl spec (none, sockets) = record { rc = err_auto_failed; calls = []; sockets = sockets }
take_port ssl spec (some found, sockets) =
    set_listen ssl spec found.port (sockets ++ closed found.sock ∷ [])

-- What follows `listen_parse`; `resolve` answers for an address and a port.
unfoldable pub listen_to :
    (Option Text → ℤ → Option (List Address)) → SslOptions → Option Spec → Listening
unfolding listen_find_open_port
listen_to resolve ssl none = record { rc = err_parse; calls = []; sockets = [] }
listen_to resolve ssl (some spec) =
    if is_minus_one spec.port_start
    then set_listen ssl spec spec.port_end []
    else take_port ssl spec
        (listen_find_open_port (resolve spec.addr) spec.port_start spec.port_end)

-- `listen` is the text that `options->listen` points to.
unfoldable pub try_listen :
    (Option Text → ℤ → Option (List Address)) → SslOptions → Text → Listening
unfolding listen_to listen_parse
try_listen resolve ssl listen = listen_to resolve ssl (listen_parse listen)

-- What the server answers: whether each call succeeds.
pub record StartAnswers : Type 0 where
  pub server_new : Bool
  pub server_init : Bool
  pub add_display : Bool
  pub add_keyboard : Bool
  pub add_tablet : Bool
  pub calloc : Bool

abbrev pub destroy_server : Spice → ℕ × Spice
destroy_server s = (err_spice_init_failed, log s (destroyed server ∷ []))

-- What follows the last interface.
unfoldable pub start_vm : StartAnswers → ShmImage → Spice → ℕ × Spice
unfolding spice_create_primary
start_vm os primary s = spice_create_primary os.calloc primary.w primary.h (log s (vm_start ∷ []))

unfoldable pub add_tablet_interface : StartAnswers → ShmImage → Spice → ℕ × Spice
unfolding start_vm
add_tablet_interface os primary s =
    if os.add_tablet then start_vm os primary (log s (created tablet ∷ [])) else destroy_server s

unfoldable pub add_keyboard_interface : StartAnswers → ShmImage → Spice → ℕ × Spice
unfolding add_tablet_interface
add_keyboard_interface os primary s =
    if os.add_keyboard
    then add_tablet_interface os primary (log s (created keyboard ∷ []))
    else destroy_server s

unfoldable pub add_display_interface : StartAnswers → ShmImage → Spice → ℕ × Spice
unfolding add_keyboard_interface
add_display_interface os primary s =
    if os.add_display
    then add_keyboard_interface os primary (log s (created display ∷ []))
    else destroy_server s

-- What follows `try_listen`.
unfoldable pub init_server : StartAnswers → ShmImage → Listening → Spice → ℕ × Spice
unfolding add_display_interface
init_server os primary l s =
    if l.rc == 0
    then if os.server_init
      then add_display_interface os primary (log s l.calls)
      else destroy_server (log s l.calls)
    else (l.rc, log s l.calls)

unfoldable pub spice_start :
    StartAnswers → (Option Text → ℤ → Option (List Address)) → Options → Text → ShmImage → ℕ × Spice
unfolding init_server set_options try_listen
spice_start os resolve o listen primary =
    if os.server_new
    then init_server os primary (try_listen resolve o.ssl listen)
        (record { width = 0; height = 0; calls = created server ∷ set_options o })
    else (err_spice_init_failed, record { width = 0; height = 0; calls = [] })

unfoldable pub spice_end : Spice → Spice
unfolding spice_destroy_primary
spice_end s =
    let undone = spice_destroy_primary (log s (destroyed tablet ∷ destroyed keyboard ∷ [])) in
    log undone (destroyed display ∷ destroyed server ∷ [])

abbrev pub is_null : Option Text → Bool
is_null none = true
is_null (some text) = false

unfoldable pub session_disconnect_client : Options → Spice → Spice
session_disconnect_client o s = log s (
    set_ticket o.spice_password true
    ∷ when (is_null o.spice_password || o.disable_ticketing) set_noauth)
