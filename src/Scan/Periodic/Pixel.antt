-- ===== src/Scan/Periodic/Pixel.antt =====
-- src/scan.c: what becomes of one pixel that `scanner_periodic` finds changed, from the comparison of
-- its line to the reports.
use x11spice.Prelude.{
  ℕ, zero, suc, ◌+◌, ◌-◌, ◌*◌, ◌/◌, ◌%◌, ◌^◌, ◌≤◌, ◌<◌, ◌≡◌, ◌≢◌, refl, ◌∙◌, Bool, true, false,
  List, [], ◌∷◌, map, arith, All, get_or, Bool-cases, inl, inr,
}
use x11spice.Scan.{num_scanlines, num_horizontal_tiles}
use x11spice.Scan.Grow.{Row}
use x11spice.Scan.Grow.Laws.{number}
use x11spice.Scan.Pace.{next_offset}
use x11spice.Scan.Spans.{TileRect}
use x11spice.Scan.Spans.Laws.{covered, in_rect, row_at}
use x11spice.Scan.Spans.Grid.{grown_reports-InGrid}
use x11spice.Scan.Coverage.{changed_tile_reported}
use x11spice.Scan.Report.{
  InGrid, vertical_tiles, tile_start, tile_end, push_tiles_report, push_tiles_report-holds_columns,
  push_tiles_report-holds_lines,
}
use x11spice.Scan.Queue.Laws.{Reported}
use x11spice.Scan.Periodic.{Line, row_reports, periodic_reports}
use x11spice.Scan.Periodic.Lines.{
  Readable, line_rows, find_rows-line_rows, length-line_rows, line_rows-Fits, row_at-line_rows,
  line_row-on_screen,
}
use x11spice.Display.Compare.{Pixels, tile_len, compare_line}
use x11spice.Display.Compare.Laws.{TileEqual, compare_line-get_or, compare_line-number}

-- The pixels of a tile that a report holds are in it, where the width is a multiple of 32.
pub covered-Reported :
    (W H nv r c px py : ℕ) (ts : List TileRect)
    → nv ≡ vertical_tiles H
    → W < 2 ^ 16
    → H < 2 ^ 16
    → W % num_horizontal_tiles ≡ 0
    → tile_start W c ≤ px
    → px < tile_end W c
    → r * num_scanlines ≤ py
    → py < (r + 1) * num_scanlines
    → py < H
    → All (InGrid nv) ts
    → covered ts r c ≡ true
    → Reported (map (push_tiles_report W H) ts) px py
covered-Reported W H nv r c px py [] e sw sh al l l' u u' on grid cov = absurd (ground arith)
covered-Reported W H nv r c px py (t ∷ ts) e sw sh al l l' u u' on grid cov =
    elim (Bool-cases (in_rect t r c)) [
      | inl here ↦
          let g : InGrid (vertical_tiles H) t = rw e at grid.0 in
          let rows : (t.start_row ≤ r) × (r ≤ t.end_row) = (ground arith, ground arith) in
          let cols : (t.start_col ≤ c) × (c ≤ t.end_col) = (ground arith, ground arith) in
          let (x, x') = push_tiles_report-holds_columns W H t c sw al g cols.0 cols.1 in
          let (y, y') =
            push_tiles_report-holds_lines W H t py sh g (omega (arith, rows.0))
              (omega (arith, rows.1)) on in
          inl (omega (arith, x), omega (arith, x'), y, y')
      | inr later ↦
          inr (covered-Reported W H nv r c px py ts e sw sh al l l' u u' on grid.1 (ground arith))
    ]

quotient_below : (x l : ℕ) → x < 32 * l → x / l < 32
quotient_below x l h = grind arith

quotient_start : (x l : ℕ) → x / l * l ≤ x
quotient_start x l = grind arith

quotient_end : (x l : ℕ) → 0 < l → x < x / l * l + l
quotient_end x l h = grind arith

number-positive : (ts : List Bool) (c : ℕ) → get_or ts c false ≡ true → 0 < number ts
number-positive [] c h = absurd (ground arith)
number-positive (true ∷ ts) c h = omega arith
number-positive (false ∷ ts) zero h = absurd (ground arith)
number-positive (false ∷ ts) (suc c) h = number-positive ts c h

-- The column of tiles that holds the pixel `x` of a line.
abbrev pub tile_of : ℕ → ℕ → ℕ
tile_of W x = x / (W / num_horizontal_tiles)

pub tile_of-holds :
    (W x : ℕ)
    → W % num_horizontal_tiles ≡ 0
    → x < W
    → (tile_of W x < num_horizontal_tiles)
      × (tile_start W (tile_of W x) ≤ x)
      × (x < tile_start W (tile_of W x) + tile_len W num_horizontal_tiles (tile_of W x))
      × (x < tile_end W (tile_of W x))
tile_of-holds W x al lt =
    let l = W / 32 in
    let whole : W ≡ 32 * l = omega arith in
    let below = quotient_below x l (omega arith) in
    let lo = quotient_start x l in
    let hi = quotient_end x l (omega arith) in (below, lo, ground (arith, hi), ground (arith, hi))

-- A pixel that differs sets its tile.
pub changed_pixel-set :
    (kept fresh : Pixels) (W old new x : ℕ)
    → W % num_horizontal_tiles ≡ 0
    → x < W
    → kept (old + x) ≢ fresh (new + x)
    → let row = compare_line kept fresh W num_horizontal_tiles old new in
      (get_or row.tiles (tile_of W x) false ≡ true) × (0 < row.changed)
changed_pixel-set kept fresh W old new x al lt differ = (set, counted)
  where
    row : Row
    row = compare_line kept fresh W num_horizontal_tiles old new

    c : ℕ
    c = tile_of W x

    s : ℕ
    s = tile_start W c

    equal_pixel :
        TileEqual kept fresh W num_horizontal_tiles old new c → kept (old + x) ≡ fresh (new + x)
    equal_pixel same =
        let (below, lo, hi, hi') = tile_of-holds W x al lt in
        let p : old + s + (x - s) ≡ old + x = omega arith in
        let q : new + s + (x - s) ≡ new + x = omega arith in
        rw (p, q) at (same (x - s) (omega arith))

    set : get_or row.tiles c false ≡ true
    set = elim (Bool-cases (get_or row.tiles c false)) [
      | inl yes_set ↦ yes_set
      | inr clear ↦
          let (below, _, _, _) = tile_of-holds W x al lt in
          absurd (
            differ (
              equal_pixel
                ((compare_line-get_or kept fresh W num_horizontal_tiles old new c below).0 clear)))
    ]

    counted : 0 < row.changed
    counted =
        rw (compare_line-number kept fresh W num_horizontal_tiles old new)
          (number-positive row.tiles c set)

zero_add : (x : ℕ) → 0 + x ≡ x
zero_add x = omega arith

-- A scan that can read its lines reports every pixel that differs from the one kept on the lines
-- that it reads, which are those at its offset in each row of tiles, if the width is a multiple of
-- 32: one of the reports that it pushes has the pixel.
pub periodic_reports-changed_pixel :
    (lines : ℕ → Line) (kept : Pixels) (W H : ℕ) (stale : List Bool) (current x y : ℕ)
    → W < 2 ^ 16
    → H < 2 ^ 16
    → W % num_horizontal_tiles ≡ 0
    → Readable lines H
    → x < W
    → y < H
    → y % num_scanlines ≡ (next_offset current).0
    → kept (y * W + x) ≢ (lines y).pixels x
    → Reported (periodic_reports lines kept W H stale current) x y
unfolding periodic_reports row_reports
periodic_reports-changed_pixel lines kept W H stale current x y sw sh al ok on on' line differ =
    rw (find_rows-line_rows lines kept W H stale offset nv ok) (
      covered-Reported W H nv r (tile_of W x) x y _ refl sw sh al lo hi (omega arith) (omega arith)
        on'
        (grown_reports-InGrid nv rows (length-line_rows lines kept W H stale offset nv)
          (line_rows-Fits lines kept W H stale offset nv))
        (changed_tile_reported rows r (tile_of W x) below set.0 set.1))
  where
    offset : ℕ
    offset = (next_offset current).0

    nv : ℕ
    nv = vertical_tiles H

    r : ℕ
    r = y / num_scanlines

    rows : List Row
    rows = line_rows lines kept W H stale offset nv

    below : tile_of W x < num_horizontal_tiles
    below = (tile_of-holds W x al on).0

    lo : tile_start W (tile_of W x) ≤ x
    lo = (tile_of-holds W x al on).1

    hi : x < tile_end W (tile_of W x)
    hi = (tile_of-holds W x al on).3

    row : row_at rows r ≡ compare_line kept (lines y).pixels W num_horizontal_tiles (y * W) 0
    row =
        let e : offset + r * num_scanlines ≡ y = omega arith in
        row_at-line_rows lines kept W H stale offset nv r (omega arith)
        ∙ rw e (line_row-on_screen lines kept W H stale y on')

    set : (get_or (row_at rows r).tiles (tile_of W x) false ≡ true) × (0 < (row_at rows r).changed)
    set =
        rw row
          (changed_pixel-set kept (lines y).pixels W (y * W) 0 x al on (rw (zero_add x) differ))
