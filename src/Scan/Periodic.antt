-- ===== src/Scan/Periodic.antt =====
-- src/scan.c: `scanner_periodic` and `scan_full_screen`, which the scanner's thread calls. Both hold
-- the session's lock, so that the screen's images do not change meanwhile.
pub mod Lines
pub mod Pixel
pub mod Eventually
pub mod Screen
pub mod Full
mod Tests
use x11spice.Prelude.{
  ℕ, zero, suc, ◌+◌, Bool, true, false, Option, none, some, List, [], ◌∷◌, leb, if◌then◌else◌, map,
}
use x11spice.Scan.{num_scanlines, num_horizontal_tiles}
use x11spice.Scan.Pace.{next_offset}
use x11spice.Scan.Grow.{Row, grow_changed_tiles}
use x11spice.Scan.Spans.{push_changed_tiles}
use x11spice.Scan.Report.{ScanReport, push_tiles_report, vertical_tiles}
use x11spice.Scan.Pixman.{Pixman}
use x11spice.Scan.Queue.{Scanner, scanner_push}
use x11spice.Display.Image.{ShmImage, Display, Answers}
use x11spice.Display.Compare.{Pixels, Whole, display_find_changed_tiles, display_scan_whole_screen}

-- What reading a line of the screen answers.
pub record Line : Type 0 where
  pub read_ok : Bool
  pub pixels : Pixels

abbrev pub row_of : Option ℕ × List Bool → Option Row
row_of (none, tiles) = none
row_of (some n, tiles) = some (record { changed = n; tiles = tiles })

-- One round of the loop. Behind the last line nothing is written to the row's tiles, which keep
-- the contents `stale` of the stack.
unfoldable pub find_row : (ℕ → Line) → Pixels → ℕ → ℕ → List Bool → ℕ → Option Row
unfolding display_find_changed_tiles
find_row lines kept w h stale y =
    if leb h y
    then some (record { changed = 0; tiles = stale })
    else row_of (
        display_find_changed_tiles (lines y).read_ok kept (lines y).pixels w y num_horizontal_tiles)

abbrev pub cons_row : Option Row → Option (List Row) → Option (List Row)
cons_row none rows = none
cons_row (some r) none = none
cons_row (some r) (some rows) = some (r ∷ rows)

-- The loop from line `y` on, with `left` rows to come; `none` for its `return`.
unfoldable pub find_rows : (ℕ → Line) → Pixels → ℕ → ℕ → List Bool → ℕ → ℕ → Option (List Row)
unfolding find_row
find_rows lines kept w h stale y zero = some []
find_rows lines kept w h stale y (suc left) =
    cons_row (find_row lines kept w h stale y)
      (find_rows lines kept w h stale (y + num_scanlines) left)

-- The calls of `scanner_push` for the rows found, in their order.
unfoldable pub row_reports : ℕ → ℕ → List Row → List ScanReport
unfolding push_tiles_report push_changed_tiles grow_changed_tiles
row_reports w h rows = map (push_tiles_report w h) (push_changed_tiles (grow_changed_tiles rows))

abbrev pub found_reports : ℕ → ℕ → Option (List Row) → List ScanReport
found_reports w h none = []
found_reports w h (some rows) = row_reports w h rows

unfoldable pub periodic_reports : (ℕ → Line) → Pixels → ℕ → ℕ → List Bool → ℕ → List ScanReport
unfolding find_rows row_reports next_offset
periodic_reports lines kept w h stale current =
    found_reports w h (find_rows lines kept w h stale (next_offset current).0 (vertical_tiles h))

abbrev pub whole_reports : ℕ → ℕ → Option ℕ → List Row → List ScanReport
whole_reports w h none rows = []
whole_reports w h (some n) rows = row_reports w h rows

module _ (P : Pixman) where
  open P use {Region}

  -- The calls of `scanner_push`, whose results are not looked at; `malloc` says which of them can
  -- allocate the report.
  unfoldable pub push_all : (ScanReport → Bool) → Scanner Region → List ScanReport → Scanner Region
  unfolding scanner_push
  push_all malloc s [] = s
  push_all malloc s (r ∷ rs) = push_all malloc (scanner_push P (malloc r) s r).1 rs

  unfoldable pub scanner_periodic :
      (ScanReport → Bool)
      → (ℕ → Line)
      → Pixels
      → ℕ
      → ℕ
      → List Bool
      → Scanner Region
      → Scanner Region
  unfolding push_all periodic_reports next_offset
  scanner_periodic malloc lines kept w h stale s =
      push_all malloc (record s { current_scanline = (next_offset s.current_scanline).1 })
        (periodic_reports lines kept w h stale s.current_scanline)

  -- `os`, `read_ok` and `fresh` are what reading the whole screen answers, `f` is `d->fullscreen`.
  unfoldable pub scan_full_screen :
      (ScanReport → Bool)
      → Answers
      → Bool
      → Pixels
      → Pixels
      → ShmImage
      → Display
      → Scanner Region
      → Scanner Region × Display
  unfolding push_all row_reports display_scan_whole_screen
  scan_full_screen malloc os read_ok kept fresh f d s =
      let whole =
        display_scan_whole_screen os read_ok kept fresh f d (vertical_tiles f.h)
          num_horizontal_tiles in
      (push_all malloc s (whole_reports f.w f.h whole.ret whole.rows), whole.display)
