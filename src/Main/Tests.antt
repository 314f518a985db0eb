-- ===== src/Main/Tests.antt =====
-- src/main.c at concrete outcomes.
use x11spice.Prelude.{◌≡◌, refl, true, false, some, []}
use x11spice.Prelude.Int.{pos}
use x11spice.Main.{Outcomes, main}
use x11spice.Main.Undo.{standing, main-undoes}
use x11spice.Main.Joining.{IsQuiet, main-IsQuiet}

abbrev works : Outcomes
works = record {
  options_load = pos 0;
  session_create = pos 0;
  display_open = pos 0;
  gui_create = pos 0;
  impossible_config = false;
  spice_start = pos 0;
  threads = record { scanner_create = pos 0; event_thread = pos 0 };
  on_disconnect = true;
  audit = false;
}

abbrev no_spice : Outcomes
no_spice = record works { spice_start = pos 9 }

main-undoes_example : standing [] (main no_spice).calls ≡ some []
main-undoes_example = main-undoes no_spice

main-IsQuiet_example : IsQuiet (main works).threads
main-IsQuiet_example = main-IsQuiet works refl

abbrev no_event_thread : Outcomes
no_event_thread = record works {
  threads = record { scanner_create = pos 0; event_thread = pos 11 };
}

abbrev no_password : Outcomes
no_password = record works { impossible_config = true }
