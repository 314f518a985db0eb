-- ===== src/Scan/Periodic/Tests.antt =====
-- src/scan.c: the periodic scan at concrete inputs.
use x11spice.Prelude.{
  ℕ, some, none, true, ◌+◌, ◌*◌, ◌<◌, refl, [], ◌∷◌, arith, ◌==◌, ◌&&◌, if◌then◌else◌,
}
use x11spice.Scan.{num_scanlines}
use x11spice.Scan.Pace.{next_offset}
use x11spice.Scan.Queue.Laws.{Reported}
use x11spice.Scan.Periodic.{Line, periodic_reports}
use x11spice.Scan.Periodic.Pixel.{periodic_reports-changed_pixel}
use x11spice.Scan.Periodic.Eventually.{after, changed_pixel-within_32_scans}
use x11spice.Scan.Report.{one_tile, vertical_tiles, push_tiles_report}
use x11spice.Scan.Periodic.Full.{
  full_scan, full_reports, full_scan-changed_pixel, full_scan-misses_line,
}
use x11spice.Display.Image.{ShmImage, Display, Answers, create_shm_image}
use x11spice.Display.ShmCache.{ShmSegment}
use x11spice.Display.Compare.{Pixels, y_start, same, display_scan_whole_screen}

abbrev black : Pixels
black k = 0

-- One white pixel, at column 40 of line 48.
abbrev lines : ℕ → Line
lines y = record { read_ok = true; pixels = λ x. if (y == 48) && (x == 40) then 1 else 0 }

periodic_reports-changed_pixel_example : Reported (periodic_reports lines black 64 70 [] 1) 40 48
unfolding next_offset
periodic_reports-changed_pixel_example =
    periodic_reports-changed_pixel lines black 64 70 [] 1 40 48 (omega arith) (omega arith) refl
      (λ y on. refl) (omega arith) (omega arith) refl (λ e. absurd (omega arith))

-- Screens that change from scan to scan, each with a copy in the colour of the screen before it.
abbrev varying : ℕ → ℕ → Line
varying k y = record { read_ok = true; pixels = λ x. if (y == 48) && (x == 40) then k + 1 else 0 }

changed_pixel-within_32_scans_example :
    (k : ℕ) × ((k < num_scanlines)
      × Reported (periodic_reports (varying k) (λ i. k) 64 70 [] (after k 0)) 40 48)
changed_pixel-within_32_scans_example =
    changed_pixel-within_32_scans varying (λ k i. k) (λ k. []) 64 70 0 40 48 (omega arith)
      (omega arith) (omega arith) refl (omega arith) (omega arith) (λ k lt y on. refl)
      (λ k lt e. absurd (omega (arith, e)))

-- A screen of 64 by 64 pixels, of which the pixel at column 40 of line 48 has changed.
abbrev segment : ShmSegment
segment = record { shmid = none; size = 20000; shmseg = 6; shmaddr = 7 }

abbrev screen : ShmImage
screen = record { segment = segment; w = 64; h = 64; bytes_per_line = 256; drawable_ptr = none }

abbrev display : Display
display = record {
  formats = (24, 32) ∷ [];
  width = 64;
  height = 64;
  depth = 24;
  primary = none;
  fullscreen = none;
  scanline = none;
  shm_cache = [];
  calls = [];
}

abbrev answers : Answers
answers = record {
  calloc = true;
  shm_id = λ _. some 3;
  shm_addr = λ _. some 4;
  xcb_id = 5;
  attached = true;
}

abbrev one_white : Pixels
one_white k = if k == 48 * 64 + 40 then 1 else 0

full_scan-changed_pixel_example :
    Reported (full_reports screen (full_scan answers true black one_white screen display)) 40 48
unfolding display_scan_whole_screen create_shm_image same
full_scan-changed_pixel_example =
    full_scan-changed_pixel answers true black one_white screen display 1 40 48 (omega arith)
      (omega arith) refl refl refl (omega arith) (omega arith) (omega arith)
      (λ e. absurd (omega arith))

full_scan-misses_line_example :
    y_start 1080 (vertical_tiles 1080) 17 < (push_tiles_report 1920 1080 (one_tile 17 3)).y
full_scan-misses_line_example =
    full_scan-misses_line 1920 1080 17 3 (omega arith) (omega arith) (omega arith) (omega arith)
