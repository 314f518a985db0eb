-- ===== src/Scan/Tests.antt =====
-- src/scan.c at concrete inputs.
use x11spice.Prelude.{◌+◌, ◌≤◌, ◌<◌, ◌≡◌, refl, true, false, List, [], ◌∷◌, arith}
use x11spice.Scan.Grow.{Row, grow_changed_tiles}
use x11spice.Scan.Spans.{TileRect, push_changed_tiles}
use x11spice.Scan.Spans.Laws.{covered, push_changed_tiles-covered}
use x11spice.Scan.Report.{push_tiles_report, push_tiles_report-on_screen}

abbrev rows : List Row
rows =
    record { changed = 0; tiles = false ∷ false ∷ false ∷ [] }
    ∷ record { changed = 2; tiles = true ∷ false ∷ true ∷ [] }
    ∷ record { changed = 32; tiles = true ∷ [] }
    ∷ []

push_changed_tiles-covered_example : covered (push_changed_tiles rows) 2 7 ≡ true
push_changed_tiles-covered_example = push_changed_tiles-covered rows 2 7 (omega arith)

-- A gap of one tile is filled, and the row is one report.
gap_is_filled :
    push_changed_tiles (grow_changed_tiles rows)
    ≡ record { start_row = 2; start_col = 0; end_row = 2; end_col = 31 }
      ∷ record { start_row = 1; start_col = 0; end_row = 1; end_col = 2 }
      ∷ []
unfolding push_changed_tiles grow_changed_tiles
gap_is_filled = refl

abbrev tiles : TileRect
tiles = record { start_row = 1; start_col = 3; end_row = 2; end_col = 31 }

on_screen_example :
    let r = push_tiles_report 1366 70 tiles in
    (r.x + r.w ≤ 1366) × (r.y + r.h ≤ 70) × (0 < r.w) × (0 < r.h)
on_screen_example =
    push_tiles_report-on_screen 1366 70 tiles (omega arith) (omega arith) (omega arith)
      (omega arith)
