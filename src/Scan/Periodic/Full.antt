-- ===== src/Scan/Periodic/Full.antt =====
-- src/scan.c and src/display.c: `scan_full_screen` from the pixels to the reports, where the width and
-- the height are multiples of 32; and which line its reports miss at other heights.
use x11spice.Prelude.{
  ℕ, ◌+◌, ◌-◌, ◌*◌, ◌/◌, ◌%◌, ◌^◌, ◌≤◌, ◌<◌, ◌≡◌, ◌≢◌, refl, ap, ◌∙◌, Bool, Option, none, some,
  List, arith, ◌==◌, ◌&&◌, Bool-cases, dec_lt, inl, inr,
}
use x11spice.Scan.{num_scanlines, num_horizontal_tiles}
use x11spice.Scan.Spans.Laws.{row_at}
use x11spice.Scan.Spans.Grid.{grown_reports-InGrid}
use x11spice.Scan.Coverage.{changed_tile_reported}
use x11spice.Scan.Report.{ScanReport, one_tile, vertical_tiles, push_tiles_report}
use x11spice.Scan.Queue.Laws.{Reported}
use x11spice.Scan.Periodic.{row_reports, whole_reports}
use x11spice.Scan.Periodic.Lines.{length-replicate}
use x11spice.Scan.Periodic.Pixel.{tile_of, tile_of-holds, changed_pixel-set, covered-Reported}
use x11spice.Scan.Periodic.Screen.{
  Seen, tiles_row, rows_from, line_at, lines_from-finds, length-rows_from, rows_from-Fits,
  row_at-rows_from,
}
use x11spice.Display.Image.{ShmImage, Display, Answers, create_shm_image}
use x11spice.Display.Compare.{
  Pixels, Whole, compare_rows, no_tiles, y_start, scan_image, display_scan_whole_screen,
}

quotient_exact : (q n : ℕ) → 0 < n → q * n / n ≡ q
quotient_exact q n pos = grind arith

times_assoc : (v l n : ℕ) → v * (l * n) ≡ v * l * n
times_assoc v l n = grind arith

-- With `l` lines in each row of tiles, row `v` starts at line `v * l`.
y_start-whole : (h nv l v : ℕ) → 0 < nv → h ≡ l * nv → y_start h nv v ≡ v * l
y_start-whole h nv l v pos e = rw (e, times_assoc v l nv) (quotient_exact (v * l) nv pos)

-- The scan of the whole screen as `scan_full_screen` calls it, and the reports that it pushes.
abbrev pub full_scan : Answers → Bool → Pixels → Pixels → ShmImage → Display → Whole
full_scan os read_ok kept fresh f d =
    display_scan_whole_screen os read_ok kept fresh f d (vertical_tiles f.h) num_horizontal_tiles

abbrev pub full_reports : ShmImage → Whole → List ScanReport
full_reports f whole = whole_reports f.w f.h whole.ret whole.rows

zero_add : (x : ℕ) → 0 + x ≡ x
zero_add x = omega arith

module _ (kept fresh : Pixels) (w h : ℕ) where
  tiles_row-Seen :
      (v c y : ℕ)
      → h % num_scanlines ≡ 0
      → y < h
      → v ≡ y / num_scanlines
      → Seen (line_at kept fresh w h y) c
      → Seen (tiles_row kept fresh w h (vertical_tiles h) v) c
  unfolding tiles_row
  tiles_row-Seen v c y al on e seen =
      let nv = vertical_tiles h in
      let whole : h ≡ 32 * nv = omega arith in
      let lo : y_start h nv v ≡ v * 32 = y_start-whole h nv 32 v (omega arith) whole in
      let hi : y_start h nv (v + 1) ≡ (v + 1) * 32 =
        y_start-whole h nv 32 (v + 1) (omega arith) whole in
      lines_from-finds kept fresh w h (no_tiles num_horizontal_tiles) (y_start h nv v)
        (y_start h nv (v + 1) - y_start h nv v) c y (omega (arith, lo)) (omega (arith, lo, hi)) on
        (length-replicate num_horizontal_tiles) seen

  rows-changed_pixel :
      (x y : ℕ)
      → w < 2 ^ 16
      → h < 2 ^ 16
      → w % num_horizontal_tiles ≡ 0
      → h % num_scanlines ≡ 0
      → x < w
      → y < h
      → kept (y * w + x) ≢ fresh (y * w + x)
      → Reported
          (row_reports w h (rows_from kept fresh w h (vertical_tiles h) 0 (vertical_tiles h)))
          x
          y
  unfolding row_reports line_at
  rows-changed_pixel x y sw sh al al' on on' differ =
      let nv = vertical_tiles h in
      let r = y / num_scanlines in
      let rows = rows_from kept fresh w h nv 0 nv in
      let (below, lo, _, hi) = tile_of-holds w x al on in
      let same : row_at rows r ≡ tiles_row kept fresh w h nv r =
        row_at-rows_from kept fresh w h nv 0 nv r (omega arith)
        ∙ ap (tiles_row kept fresh w h nv) (zero_add r) in
      let seen : Seen (row_at rows r) (tile_of w x) = rw same (
        tiles_row-Seen r (tile_of w x) y al' on' refl
          (changed_pixel-set kept fresh w (y * w) (y * w) x al on differ)) in
      covered-Reported w h nv r (tile_of w x) x y _ refl sw sh al lo hi (omega arith) (omega arith)
        on'
        (grown_reports-InGrid nv rows (length-rows_from kept fresh w h nv 0 nv)
          (rows_from-Fits kept fresh w h nv 0 nv))
        (changed_tile_reported rows r (tile_of w x) below seen.0 seen.1)

-- A scan of the whole screen that counts changes has compared the two images.
counted-rows :
    (os : Answers) (read_ok : Bool) (kept fresh : Pixels) (f : ShmImage) (d : Display) (nv n : ℕ)
    → let whole = display_scan_whole_screen os read_ok kept fresh f d nv num_horizontal_tiles in
      whole.ret ≡ some n → 0 < n → whole.rows ≡ rows_from kept fresh f.w f.h nv 0 nv
unfolding display_scan_whole_screen rows_from scan_image
counted-rows os read_ok kept fresh f d nv n = scanned (create_shm_image os d 0 0)
  where
    scanned :
        (image : Option ShmImage × Display)
        → (scan_image read_ok kept fresh f nv num_horizontal_tiles image).ret ≡ some n
        → 0 < n
        → (scan_image read_ok kept fresh f nv num_horizontal_tiles image).rows
          ≡ compare_rows kept fresh f.w f.h nv num_horizontal_tiles 0 nv
    scanned (none, d') e pos = absurd (ground arith)
    scanned (some i, d') e pos = elim (Bool-cases read_ok) [
      | inr failed ↦ absurd (ground arith)
      | inl ok ↦ elim (Bool-cases ((f.h == i.h) && (f.w == i.w))) [
        | inl fits ↦ rw (ok, fits) refl
        | inr other ↦ absurd (ground arith)
      ]
    ]

-- On a screen whose width and height are multiples of 32, a scan of the whole screen that counts
-- changes reports every pixel that differs from the one kept.
pub full_scan-changed_pixel :
    (os : Answers) (read_ok : Bool) (kept fresh : Pixels) (f : ShmImage) (d : Display) (n x y : ℕ)
    → f.w < 2 ^ 16
    → f.h < 2 ^ 16
    → f.w % num_horizontal_tiles ≡ 0
    → f.h % num_scanlines ≡ 0
    → (full_scan os read_ok kept fresh f d).ret ≡ some n
    → 0 < n
    → x < f.w
    → y < f.h
    → kept (y * f.w + x) ≢ fresh (y * f.w + x)
    → Reported (full_reports f (full_scan os read_ok kept fresh f d)) x y
full_scan-changed_pixel os read_ok kept fresh f d n x y sw sh al al' counted pos on on' differ =
    rw (counted, counted-rows os read_ok kept fresh f d (vertical_tiles f.h) n counted pos)
      (rows-changed_pixel kept fresh f.w f.h x y sw sh al al' on on' differ)

quotient_start : (x l : ℕ) → x / l * l ≤ x
quotient_start x l = grind arith

scaled : (a b l : ℕ) → a ≤ b → a * l ≤ b * l
scaled a b l le = grind arith

quotient_below : (x l k : ℕ) → x < k * l → x / l < k
quotient_below x l k lt = elim (dec_lt (x / l) k) [
  | yes below ↦ below
  | no above ↦ absurd (omega (arith, quotient_start x l, scaled k (x / l) l (omega arith)))
]

product_less : (v a b : ℕ) → 0 < v → a < b → v * a < v * b
product_less v a b pos lt = grind arith

swap : (v n : ℕ) → v * (32 * n) ≡ 32 * v * n
swap v n = grind arith

quotient_less : (v H n : ℕ) → 0 < v → H < 32 * n → v * H / n < 32 * v
quotient_less v H n pos lt =
    quotient_below (v * H) n (32 * v) (omega (arith, product_less v H (32 * n) pos lt, swap v n))

-- At a height that is no multiple of 32, the first line that a scan of the whole screen compares
-- for a row of tiles but the first lies above the report of the row.
pub full_scan-misses_line :
    (W H v c : ℕ)
    → H < 2 ^ 16
    → H % num_scanlines ≢ 0
    → 0 < v
    → v < vertical_tiles H
    → y_start H (vertical_tiles H) v < (push_tiles_report W H (one_tile v c)).y
unfolding push_tiles_report
full_scan-misses_line W H v c sh odd pos lt =
    ground (arith, quotient_less v H (vertical_tiles H) pos (omega arith))
