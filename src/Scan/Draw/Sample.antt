-- ===== src/Scan/Draw/Sample.antt =====
-- A screen of 64 by 48 pixels with one cached segment, for the tests.
use x11spice.Prelude.{ℕ, ◌*◌, true, false, none, some, List, [], ◌∷◌}
use x11spice.Scan.Report.{ScanReport, scanline_scan_report}
use x11spice.Scan.Draw.{Scene, Drawing}
use x11spice.Display.ShmCache.{ShmSegment}
use x11spice.Display.Image.{ShmImage, Display}

abbrev pub segment : ShmSegment
segment = record { shmid = some 5; size = 9000; shmseg = 6; shmaddr = 7 }

abbrev pub image : ℕ → ℕ → ShmImage
image w h = record { segment = segment; w = w; h = h; bytes_per_line = 4 * w; drawable_ptr = none }

abbrev pub display : List ShmSegment → Display
display cache = record {
  formats = (24, 32) ∷ [];
  width = 64;
  height = 48;
  depth = 24;
  primary = none;
  fullscreen = none;
  scanline = none;
  shm_cache = cache;
  calls = [];
}

abbrev pub scene : Scene
scene = record { display = display (segment ∷ []); f = image 64 48; kept = λ k. 0; draw_queue = [] }

abbrev pub drawing : Drawing
drawing = record {
  os = record {
    calloc = true;
    shm_id = λ _. none;
    shm_addr = λ _. none;
    xcb_id = 0;
    attached = false;
  };
  image = record { read_ok = true; pixels = λ k. k };
  calloc = some 99;
  malloc = true;
}

abbrev pub report : ScanReport
report = record { type = scanline_scan_report; x = 10; y = 8; w = 20; h = 16 }
