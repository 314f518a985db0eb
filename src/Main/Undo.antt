-- ===== src/Main/Undo.antt =====
-- src/main.c: what `main` has undone when it returns.
use x11spice.Prelude.{
  ◌≡◌, refl, Bool, true, false, ◌||◌, Option, none, some, List, [], ◌∷◌, if◌then◌else◌, Bool-cases,
  inl, inr,
}
use x11spice.Prelude.Int.{is_zero}
use x11spice.Session.Threads.{session_start}
use x11spice.Main.{
  Part, options, session, display, gui, spice, agent, running_session, MainCall, started, undone,
  report_error, handle_sigterm, atexit_disconnected, gui_run, Outcomes, exit, run_gui,
  start_session, start_spice, create_gui, open_display, create_session, first, main,
}

abbrev same_part : Part → Part → Bool
same_part options options = true
same_part session session = true
same_part display display = true
same_part gui gui = true
same_part spice spice = true
same_part agent agent = true
same_part running_session running_session = true
same_part p q = false

-- The parts that stand after the calls, the last first, if each part that was undone was the last
-- to stand.
abbrev pub standing : List Part → List MainCall → Option (List Part)
standing held [] = some held
standing held (started p ∷ out) = standing (p ∷ held) out
standing [] (undone p ∷ out) = none
standing (q ∷ held) (undone p ∷ out) = if same_part q p then standing held out else none
standing held (report_error ∷ out) = standing held out
standing held (handle_sigterm ∷ out) = standing held out
standing held (atexit_disconnected ∷ out) = standing held out
standing held (gui_run ∷ out) = standing held out

-- Whatever fails, `main` undoes each part that it has started, once and in the reverse order.
pub main-undoes : (os : Outcomes) → standing [] (main os).calls ≡ some []
unfolding main create_session open_display create_gui start_spice start_session run_gui exit
main-undoes os = elim (Bool-cases (is_zero os.options_load)) [
  | inr a ↦ rw a refl
  | inl a ↦ elim (Bool-cases (is_zero os.session_create)) [
    | inr b ↦ rw (a, b) refl
    | inl b ↦ elim (Bool-cases (is_zero os.display_open)) [
      | inr c ↦ rw (a, b, c) refl
      | inl c ↦ elim (Bool-cases (is_zero os.gui_create)) [
        | inr d ↦ rw (a, b, c, d) refl
        | inl d ↦ elim (Bool-cases os.impossible_config) [
          | inl e ↦ rw (a, b, c, d, e) refl
          | inr e ↦ elim (Bool-cases (is_zero os.spice_start)) [
            | inr f ↦ rw (a, b, c, d, e, f) refl
            | inl f ↦ elim (Bool-cases (is_zero (session_start os.threads first.threads).0)) [
              | inr g ↦ rw (a, b, c, d, e, f, g) refl
              | inl g ↦ elim (Bool-cases (os.on_disconnect || os.audit)) [
                | inl h ↦ rw (a, b, c, d, e, f, g, h) refl
                | inr h ↦ rw (a, b, c, d, e, f, g, h) refl
              ]
            ]
          ]
        ]
      ]
    ]
  ]
]
