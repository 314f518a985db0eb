-- ===== src/Main/Joining.antt =====
-- src/main.c with src/session.c: which threads still run when `main` has freed what they use.
use x11spice.Prelude.{◌≡◌, refl, true, false, List, [], ◌∷◌, Bool-cases, inl, inr, arith}
use x11spice.Prelude.Int.{ℤ, is_zero}
use x11spice.Session.Threads.{
  Threads, ThreadAnswers, session_start, session_end, display_start_event_thread,
  display_stop_event_thread,
}
use x11spice.Main.{
  options, session, display, gui, spice, agent, MainCall, started, undone, Outcomes, Run, exit,
  run_gui, start_session, start_spice, create_gui, open_display, create_session, first, main,
}

-- No thread runs.
abbrev pub IsQuiet : Threads → Type 0
IsQuiet t = (t.scanner ≡ false) × (t.events ≡ false) × (t.running ≡ false)

-- A session whose event thread can be created is either up, or quiet again.
session_start-outcome :
    (os : ThreadAnswers) (t : Threads)
    → is_zero os.event_thread ≡ true
    → is_zero (session_start os t).0 ≡ false
    → IsQuiet (session_start os t).1
unfolding session_start display_start_event_thread session_end display_stop_event_thread
session_start-outcome os t ok failed = elim (Bool-cases (is_zero os.scanner_create)) [
  | inl created ↦ absurd (ground (arith, created, ok, failed))
  | inr none_created ↦ rw none_created (refl, refl, refl)
]

run_gui-IsQuiet :
    (os : Outcomes) (begun : ℤ × Threads) (r : Run)
    → r.session_started ≡ false
    → (is_zero begun.0 ≡ false → IsQuiet begun.1)
    → IsQuiet (run_gui os begun r).threads
unfolding run_gui exit session_end display_stop_event_thread
run_gui-IsQuiet os (rc, t) r down quiet = elim (Bool-cases (is_zero rc)) [
  | inl up ↦ rw up (refl, refl, refl)
  | inr failed ↦ rw (failed, down) (quiet failed)
]

-- `main` before it starts the session.
abbrev before_session : Outcomes → Run
before_session os = record first {
  rc = os.spice_start;
  display_opened = true;
  spice_started = true;
  gui_created = true;
  session_created = true;
  calls =
      started options
      ∷ started session
      ∷ started display
      ∷ started gui
      ∷ started spice
      ∷ started agent
      ∷ [];
}

-- If the event thread can be created, no thread runs any more when `main` returns.
pub main-IsQuiet :
    (os : Outcomes) → is_zero os.threads.event_thread ≡ true → IsQuiet (main os).threads
unfolding main create_session open_display create_gui start_spice start_session exit
main-IsQuiet os ok = elim (Bool-cases (is_zero os.options_load)) [
  | inr a ↦ rw a idle
  | inl a ↦ elim (Bool-cases (is_zero os.session_create)) [
    | inr b ↦ rw (a, b) idle
    | inl b ↦ elim (Bool-cases (is_zero os.display_open)) [
      | inr c ↦ rw (a, b, c) idle
      | inl c ↦ elim (Bool-cases (is_zero os.gui_create)) [
        | inr d ↦ rw (a, b, c, d) idle
        | inl d ↦ elim (Bool-cases os.impossible_config) [
          | inl e ↦ rw (a, b, c, d, e) idle
          | inr e ↦ elim (Bool-cases (is_zero os.spice_start)) [
            | inr f ↦ rw (a, b, c, d, e, f) idle
            | inl f ↦
                rw (a, b, c, d, e, f)
                  (run_gui-IsQuiet os (session_start os.threads first.threads) (before_session os)
                    refl (session_start-outcome os.threads first.threads ok))
          ]
        ]
      ]
    ]
  ]
]
  where
    idle : IsQuiet first.threads
    idle = (refl, refl, refl)

-- All that was started by the time the session fails to start, and is undone in the reverse order.
abbrev pub failed_calls : List MainCall
failed_calls =
    started options
    ∷ started session
    ∷ started display
    ∷ started gui
    ∷ started spice
    ∷ started agent
    ∷ undone agent
    ∷ undone spice
    ∷ undone gui
    ∷ undone display
    ∷ undone session
    ∷ undone options
    ∷ []

-- With an impossible configuration `main` returns 0, as after a session.
pub main-impossible :
    (os : Outcomes)
    → is_zero os.options_load ≡ true
    → is_zero os.session_create ≡ true
    → is_zero os.display_open ≡ true
    → is_zero os.gui_create ≡ true
    → os.impossible_config ≡ true
    → (is_zero (main os).rc ≡ true) × ((main os).spice_started ≡ false)
unfolding main create_session open_display create_gui start_spice exit
main-impossible os a b c d e = rw (a, b, c, e) (rw d (d, refl))
