-- ===== src/Session/Resize.antt =====
-- src/session.c: `session_recreate_primary` and `session_handle_resize`; src/display.c:
-- `handle_configure_notify`. Meanwhile the session's lock is held and no drawable is with the worker.
pub mod Sizes
pub mod Laws
mod Tests
use x11spice.Prelude.{ℕ, Bool, true, false, Option, none, some, ◌&&◌, ◌==◌, if◌then◌else◌}
use x11spice.Display.Image.{ShmImage, Display, Answers}
use x11spice.Display.Screens.{display_create_screen_images, display_destroy_screen_images}
use x11spice.Spice.Server.{Spice, spice_create_primary, spice_destroy_primary}

pub record Screen : Type 0 where
  pub display : Display
  pub spice : Spice

-- What the system answers for the three images, and for the configuration of the monitors.
pub record ResizeAnswers : Type 0 where
  pub primary : Answers
  pub fullscreen : Answers
  pub scanline : Answers
  pub calloc : Bool

-- The surface for the primary image, which is not NULL where the images were made.
abbrev pub create_surface : Bool → Option ShmImage → Spice → ℕ × Spice
create_surface calloc none s = (0, s)
create_surface calloc (some f) s = spice_create_primary calloc f.w f.h s

-- What follows `display_create_screen_images`.
unfoldable pub show_primary : Bool → ℕ × Display → Spice → ℕ × Screen
unfolding spice_create_primary
show_primary calloc (rc, d) s =
    let (rc', s') = create_surface calloc d.primary s in
    if rc == 0
    then (rc', record { display = d; spice = s' })
    else (rc, record { display = d; spice = s })

unfoldable pub session_recreate_primary : ResizeAnswers → Screen → ℕ × Screen
unfolding show_primary display_create_screen_images display_destroy_screen_images
    spice_destroy_primary
session_recreate_primary os s =
    show_primary os.calloc
      (display_create_screen_images os.primary os.fullscreen os.scanline
        (display_destroy_screen_images s.display))
      (spice_destroy_primary s.spice)

unfoldable pub session_handle_resize : ResizeAnswers → Screen → Screen
unfolding session_recreate_primary
session_handle_resize os s =
    if (s.display.width == s.spice.width) && (s.display.height == s.spice.height)
    then s
    else (session_recreate_primary os s).1

-- `is_root` says that the event is about the root window.
unfoldable pub handle_configure_notify : ResizeAnswers → Bool → ℕ → ℕ → Screen → Screen
unfolding session_handle_resize
handle_configure_notify os is_root width height s =
    if is_root
    then session_handle_resize os
        (record s { display = record s.display { width = width; height = height } })
    else s
