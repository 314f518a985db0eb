-- ===== src/Session/Resize/Tests.antt =====
-- src/session.c: a resize at concrete answers.
use x11spice.Prelude.{ℕ, ◌≡◌, true, some, [], arith}
use x11spice.Display.Image.{Answers, create_shm_image}
use x11spice.Display.Screens.{display_create_screen_images}
use x11spice.Scan.Draw.Sample.{display}
use x11spice.Session.Resize.{Screen, ResizeAnswers, session_recreate_primary, session_handle_resize}
use x11spice.Session.Resize.Laws.{
  Outcome, session_recreate_primary-Outcome, session_handle_resize-settles,
}

abbrev answers : ℕ → Answers
answers id = record {
  calloc = true;
  shm_id = λ _. some id;
  shm_addr = λ _. some id;
  xcb_id = id;
  attached = true;
}

abbrev os : ResizeAnswers
os = record { primary = answers 1; fullscreen = answers 2; scanline = answers 3; calloc = true }

-- The display has become 64 by 48, the server shows 32 by 24.
abbrev small : Screen
small = record { display = display []; spice = record { width = 32; height = 24; calls = [] } }

session_recreate_primary-Outcome_example :
    Outcome true small.spice (session_recreate_primary os small)
session_recreate_primary-Outcome_example = session_recreate_primary-Outcome os small

session_handle_resize-settles_example :
    session_handle_resize os (session_handle_resize os small) ≡ session_handle_resize os small
unfolding session_recreate_primary display_create_screen_images create_shm_image
session_handle_resize-settles_example =
    session_handle_resize-settles os os small (λ e. absurd (omega (arith, e)))
