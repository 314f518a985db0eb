-- ===== src/Scan/Coverage.antt =====
-- src/scan.c: `grow_changed_tiles` followed by `push_changed_tiles`, as `scanner_periodic` and
-- `scan_full_screen` call them.
use x11spice.Prelude.{ℕ, zero, suc, ◌<◌, ◌≡◌, refl, true, false, ◌||◌, List, [], ◌∷◌, arith, get_or}
use x11spice.Scan.{num_horizontal_tiles}
use x11spice.Scan.Grow.{Row, grow_row, grow_changed_tiles}
use x11spice.Scan.Grow.Laws.{grow_row-IsSettled, grow_row-keeps, grow_row_zero}
use x11spice.Scan.Spans.{push_changed_tiles}
use x11spice.Scan.Spans.Laws.{
  covered, row_at, is_whole, is_partial_tile, push_changed_tiles-covered,
}

row_at-grow_changed_tiles :
    (rows : List Row) (r : ℕ) → row_at (grow_changed_tiles rows) r ≡ grow_row (row_at rows r)
unfolding grow_changed_tiles
row_at-grow_changed_tiles [] r = refl
row_at-grow_changed_tiles (x ∷ rows) zero = refl
row_at-grow_changed_tiles (x ∷ rows) (suc r) = row_at-grow_changed_tiles rows r

covered_after_grow :
    (rows : List Row) (r c : ℕ)
    → c < num_horizontal_tiles
    → covered (push_changed_tiles (grow_changed_tiles rows)) r c
      ≡ (is_whole (grow_row (row_at rows r)) || is_partial_tile c (grow_row (row_at rows r)))
covered_after_grow rows r c h =
    rw (← row_at-grow_changed_tiles rows r)
      (push_changed_tiles-covered (grow_changed_tiles rows) r c h)

-- A tile that is set, in a row whose count is not 0, is in one of the reports.
pub changed_tile_reported :
    (rows : List Row) (r c : ℕ)
    → c < num_horizontal_tiles
    → get_or (row_at rows r).tiles c false ≡ true
    → 0 < (row_at rows r).changed
    → covered (push_changed_tiles (grow_changed_tiles rows)) r c ≡ true
changed_tile_reported rows r c h set busy = ground (
  arith,
  covered_after_grow rows r c h,
  grow_row-IsSettled (row_at rows r),
  grow_row-keeps (row_at rows r) c set,
  (grow_row_zero (row_at rows r)).0,
)

-- No tile of a row whose count is 0 is in a report.
pub unchanged_row_not_reported :
    (rows : List Row) (r c : ℕ)
    → c < num_horizontal_tiles
    → (row_at rows r).changed ≡ 0
    → covered (push_changed_tiles (grow_changed_tiles rows)) r c ≡ false
unchanged_row_not_reported rows r c h idle =
    ground (arith, covered_after_grow rows r c h, (grow_row_zero (row_at rows r)).1)
