-- ===== src/Session/Clients/Tests.antt =====
-- src/session.c: notices of two connections, at concrete answers.
use x11spice.Prelude.{refl, true, false, some, List, [], ◌∷◌, codes}
use x11spice.Prelude.Int.{ℤ, pos}
use x11spice.Session.Clients.{
  Clients, Answer, initialized, disconnected, Address, Happening, channel_events,
}
use x11spice.Session.Clients.Notices.{IsShown, shown, channel_events-IsShown}

abbrev idle : Clients
idle = record {
  on_connect = some (codes "hello");
  on_disconnect = some (codes "bye");
  audited = true;
  is_global = true;
  connected = false;
  connect_pid = pos 0;
  disconnect_pid = pos 0;
  calls = [];
}

abbrev answer : ℤ → Answer
answer pid = record { gone = λ _. false; fork = pid; calloc = true }

abbrev anywhere : Address
anywhere = record { addr_ext = true; name = some (codes "host", codes "5900") }

-- A client comes and goes, and another comes.
abbrev visits : List Happening
visits =
    record { os = answer (pos 40); event = initialized; is_main = true; address = anywhere }
    ∷ record { os = answer (pos 41); event = disconnected; is_main = true; address = anywhere }
    ∷ record { os = answer (pos 42); event = initialized; is_main = true; address = anywhere }
    ∷ []

channel_events-IsShown_example : IsShown (channel_events visits idle)
unfolding shown
channel_events-IsShown_example = channel_events-IsShown visits idle (refl, (refl, (refl, tt))) refl
