-- ===== src/Scan.antt =====
-- src/scan.c and scan.h: which parts of the screen to read again, and how often to look.
pub mod Pace
pub mod Grow
pub mod Spans
pub mod Coverage
pub mod Report
pub mod Pixman
pub mod Queue
pub mod Periodic
pub mod Draw
pub mod Thread
mod Tests
use x11spice.Prelude.{ℕ, ◌/◌}

-- `NUM_SCANLINES`, `NUM_HORIZONTAL_TILES`, `MAX_SCAN_FPS`, `MIN_SCAN_FPS`
abbrev pub num_scanlines : ℕ
num_scanlines = 32

abbrev pub num_horizontal_tiles : ℕ
num_horizontal_tiles = num_scanlines

abbrev pub max_scan_fps : ℕ
max_scan_fps = 30

abbrev pub min_scan_fps : ℕ
min_scan_fps = 1

-- `SCAN_ROW_THRESHOLD`
abbrev pub scan_row_threshold : ℕ
scan_row_threshold = num_horizontal_tiles / 2
