-- ===== src/Spice/Server/Tests.antt =====
-- src/spice.c: starting the server at concrete answers.
use x11spice.Prelude.{◌+◌, ◌≡◌, refl, true, false, Option, none, some, List, [], ◌∷◌, codes, arith}
use x11spice.Prelude.Int.{ℤ}
use x11spice.Options.{Text, Options, options_init}
use x11spice.Listen.Parse.{listen_parse}
use x11spice.Listen.Port.{Address, listen_find_open_port}
use x11spice.Listen.Port.Laws.{still_open}
use x11spice.Scan.Draw.Sample.{image}
use x11spice.Spice.Server.{server, keyboard, StartAnswers, try_listen, spice_start, spice_end}
use x11spice.Spice.Server.Laws.{creations, destructions}
use x11spice.Spice.Server.Probe.{try_listen-closes_all}
use x11spice.Spice.Server.Start.{spice_end-destroys_all, spice_start-leaves_server}

abbrev works : StartAnswers
works = record {
  server_new = true;
  server_init = true;
  add_display = true;
  add_keyboard = true;
  add_tablet = true;
  calloc = true;
}

-- Every port can be listened on, or none.
abbrev free_ports : Option Text → ℤ → Option (List Address)
free_ports addr port = some (record { socket = some 5; bind = true; listen = true } ∷ [])

abbrev no_ports : Option Text → ℤ → Option (List Address)
no_ports addr port = none

abbrev options : Options
options = record options_init { disable_ticketing = true }

try_listen-closes_all_example :
    still_open [] (try_listen free_ports options.ssl (codes "5900-5910")).sockets ≡ []
try_listen-closes_all_example = try_listen-closes_all free_ports options.ssl (codes "5900-5910")

spice_end-destroys_all_example :
    creations keyboard
      (spice_end (spice_start works free_ports options (codes "5900-5910") (image 64 48)).1).calls
    ≡ destructions keyboard
        (spice_end (spice_start works free_ports options (codes "5900-5910") (image 64 48)).1).calls
unfolding options_init spice_start listen_parse listen_find_open_port
spice_end-destroys_all_example =
    spice_end-destroys_all works free_ports options (codes "5900-5910") (image 64 48) keyboard refl

abbrev no_tablet : StartAnswers
no_tablet = record works { add_tablet = false }

spice_start-leaves_server_example :
    creations server (spice_start works no_ports options (codes "5900-5910") (image 64 48)).1.calls
    ≡ destructions server
        (spice_start works no_ports options (codes "5900-5910") (image 64 48)).1.calls
      + 1
unfolding options_init spice_start try_listen listen_parse listen_find_open_port
spice_start-leaves_server_example =
    spice_start-leaves_server works no_ports options (codes "5900-5910") (image 64 48) refl
      (λ e. absurd (omega (arith, e)))
