-- ===== src/Main.antt =====
-- src/main.c: `main`, the order in which it starts the parts and how it undoes them on its way out.
-- What each part returns is an argument; the session's threads are those of Session/Threads.
mod Undo
mod Joining
mod Tests
use x11spice.Prelude.{Bool, true, false, ◌||◌, List, [], ◌∷◌, ◌++◌, if◌then◌else◌}
use x11spice.Prelude.Int.{ℤ, pos, is_zero}
use x11spice.Session.Threads.{Threads, ThreadAnswers, session_start, session_end}

pub data Part : Type 0 where
  options session display gui spice agent running_session : Part

-- A part that was started or undone, the report of an impossible configuration, and the calls
-- before and during the main loop.
pub data MainCall : Type 0 where
  started undone : Part → MainCall
  report_error handle_sigterm atexit_disconnected gui_run : MainCall

pub record Outcomes : Type 0 where
  pub options_load : ℤ
  pub session_create : ℤ
  pub display_open : ℤ
  pub gui_create : ℤ
  pub impossible_config : Bool
  pub spice_start : ℤ
  pub threads : ThreadAnswers
  pub on_disconnect : Bool
  pub audit : Bool

pub record Run : Type 0 where
  pub rc : ℤ
  pub display_opened : Bool
  pub spice_started : Bool
  pub gui_created : Bool
  pub session_created : Bool
  pub session_started : Bool
  pub calls : List MainCall
  pub threads : Threads

abbrev pub log : Run → List MainCall → Run
log r out = record r { calls = r.calls ++ out }

abbrev pub undo : Bool → List MainCall → List MainCall
undo flag calls = if flag then calls else []

-- The label `exit`.
unfoldable pub exit : Run → Run
unfolding session_end
exit r = record r {
  threads = if r.session_started then session_end r.threads else r.threads;
  calls =
      r.calls
      ++ (undo r.session_started (undone running_session ∷ [])
          ++ (undo r.spice_started (undone agent ∷ undone spice ∷ [])
              ++ (undo r.gui_created (undone gui ∷ [])
                  ++ (undo r.display_opened (undone display ∷ [])
                      ++ (undo r.session_created (undone session ∷ []) ++ undone options ∷ [])))));
}

-- What follows `session_start`.
unfoldable pub run_gui : Outcomes → ℤ × Threads → Run → Run
unfolding exit
run_gui os (rc, t) r =
    let begun : Run = record r { rc = rc; threads = t } in
    let looped : Run = record begun {
      session_started = true;
      calls =
          r.calls
          ++ (started running_session ∷ handle_sigterm ∷ []
              ++ (undo (os.on_disconnect || os.audit) (atexit_disconnected ∷ []) ++ gui_run ∷ []));
    } in
    if is_zero rc then exit looped else exit begun

-- What follows `spice_start`.
unfoldable pub start_session : Outcomes → Run → Run
unfolding run_gui session_start
start_session os r = run_gui os (session_start os.threads r.threads) r

-- From the test of the configuration on.
unfoldable pub start_spice : Outcomes → Run → Run
unfolding start_session exit
start_spice os r =
    if os.impossible_config
    then exit (log r (report_error ∷ []))
    else if is_zero os.spice_start
    then start_session os (record r {
      rc = os.spice_start;
      spice_started = true;
      calls = r.calls ++ started spice ∷ started agent ∷ [];
    })
    else exit (record r { rc = os.spice_start })

unfoldable pub create_gui : Outcomes → Run → Run
unfolding start_spice exit
create_gui os r =
    if is_zero os.gui_create
    then start_spice os
        (record r { rc = os.gui_create; gui_created = true; calls = r.calls ++ started gui ∷ [] })
    else exit (record r { rc = os.gui_create })

unfoldable pub open_display : Outcomes → Run → Run
unfolding create_gui exit
open_display os r =
    if is_zero os.display_open
    then create_gui os (record r {
      rc = os.display_open;
      display_opened = true;
      calls = r.calls ++ started display ∷ [];
    })
    else exit (record r { rc = os.display_open })

unfoldable pub create_session : Outcomes → Run → Run
unfolding open_display exit
create_session os r =
    if is_zero os.session_create
    then open_display os (record r {
      rc = os.session_create;
      session_created = true;
      calls = r.calls ++ started session ∷ [];
    })
    else exit (record r { rc = os.session_create })

-- `session` is all 0, and so are the flags.
abbrev pub first : Run
first = record {
  rc = pos 0;
  display_opened = false;
  spice_started = false;
  gui_created = false;
  session_created = false;
  session_started = false;
  calls = started options ∷ [];
  threads = record {
    running = false;
    is_global = false;
    scanner = false;
    events = false;
    calls = [];
  };
}

unfoldable pub main : Outcomes → Run
unfolding create_session exit
main os =
    if is_zero os.options_load
    then create_session os (record first { rc = os.options_load })
    else exit (record first { rc = os.options_load })
