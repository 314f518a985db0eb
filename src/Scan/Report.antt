-- ===== src/Scan/Report.antt =====
-- src/scan.c: `push_tiles_report`, from tiles to pixels. `W` and `H` are the width and height of
-- the full screen image, which are `unsigned`, so the products and differences with them wrap.
use x11spice.Prelude.{
  ℕ, ◌+◌, ◌-◌, ◌*◌, ◌/◌, ◌%◌, ◌^◌, ◌≤◌, ◌<◌, ◌≡◌, arith, ap, ltb, ◌==◌, if◌then◌else◌,
}
use x11spice.Scan.{num_horizontal_tiles, num_scanlines}
use x11spice.Scan.Spans.{TileRect}

-- `scan_report_t`
pub data ScanType : Type 0 where
  damage_scan_report scanline_scan_report exit_scan_report fullscreen_scan_request : ScanType

pub record ScanReport : Type 0 where
  pub type : ScanType
  pub x : ℕ
  pub y : ℕ
  pub w : ℕ
  pub h : ℕ

abbrev pub u32 : ℕ → ℕ
u32 n = n % 2 ^ 32

abbrev pub sub32 : ℕ → ℕ → ℕ
sub32 a b = (a + 2 ^ 32 - b) % 2 ^ 32

-- The width of the tiles, rounded up.
abbrev tiles_width : ℕ → ℕ → ℕ
tiles_width W columns =
    let total = u32 (columns * W) in
    if total % num_horizontal_tiles == 0
    then total / num_horizontal_tiles
    else total / num_horizontal_tiles + 1

unfoldable pub push_tiles_report : ℕ → ℕ → TileRect → ScanReport
push_tiles_report W H t =
    let x = u32 (t.start_col * W) / num_horizontal_tiles in
    let w = tiles_width W (t.end_col - t.start_col + 1) in
    let y = t.start_row * num_scanlines in
    let h = (t.end_row - t.start_row + 1) * num_scanlines in
    record {
      type = scanline_scan_report;
      x = x;
      y = y;
      w = if ltb W (u32 (x + w)) then sub32 W x else w;
      h = if ltb H (u32 (y + h)) then sub32 H y else h;
    }

-- A rectangle of tiles that lies in the grid of a screen.
pub record InGrid (nv : ℕ) (t : TileRect) : Type 0 where
  pub rows : t.start_row ≤ t.end_row
  pub last_row : t.end_row < nv
  pub cols : t.start_col ≤ t.end_col
  pub last_col : t.end_col < num_horizontal_tiles

-- `num_vertical_tiles`
abbrev pub vertical_tiles : ℕ → ℕ
vertical_tiles H = (H + num_scanlines - 1) / num_scanlines

-- The products of `push_tiles_report`, for columns of the grid.
products :
    (s e W : ℕ)
    → s ≤ e
    → e < num_horizontal_tiles
    → (s * W + (e - s + 1) * W ≤ 32 * W) × (W ≤ (e - s + 1) * W)
products s e W h h' = (
  omega (arith, scale (s + (e - s + 1)) 32 (omega arith)),
  omega (arith, scale 1 (e - s + 1) (omega arith)),
)
  where
    scale : (a b : ℕ) → a ≤ b → a * W ≤ b * W
    scale a b p = grind arith

-- The report of tiles in the grid stays on the screen and is not empty.
pub push_tiles_report-on_screen :
    (W H : ℕ) (t : TileRect)
    → 0 < W
    → W < 2 ^ 16
    → H < 2 ^ 16
    → InGrid (vertical_tiles H) t
    → let r = push_tiles_report W H t in (r.x + r.w ≤ W) × (r.y + r.h ≤ H) × (0 < r.w) × (0 < r.h)
unfolding push_tiles_report
push_tiles_report-on_screen W H t pos small_w small_h g =
    ground (arith, products t.start_col t.end_col W g.cols g.last_col)

-- The pixels that `display_find_changed_tiles` compares for the tile at column `c`.
abbrev pub tile_start : ℕ → ℕ → ℕ
tile_start W c = c * (W / num_horizontal_tiles)

abbrev pub tile_end : ℕ → ℕ → ℕ
tile_end W c =
    if c == num_horizontal_tiles - 1 then W else tile_start W c + W / num_horizontal_tiles

scale : (a b l : ℕ) → a ≤ b → a * l ≤ b * l
scale a b l p = grind arith

-- `c * W` in terms of the quotient and the rest of W by 32.
split_product :
    (W c : ℕ) → c * W ≡ 32 * (c * (W / num_horizontal_tiles)) + c * (W % num_horizontal_tiles)
split_product W c =
    let e : W ≡ 32 * (W / 32) + W % 32 = omega arith in omega (arith, ap (λ (n : ℕ). c * n) e)

aligned_product :
    (W c : ℕ) → W % num_horizontal_tiles ≡ 0 → c * W ≡ 32 * (c * (W / num_horizontal_tiles))
aligned_product W c h =
    let e : W ≡ 32 * (W / 32) = omega arith in omega (arith, ap (λ (n : ℕ). c * n) e)

-- Multiples of the tile width `l`, for columns s ≤ c ≤ e of the grid.
tile_products :
    (s c e l : ℕ)
    → s ≤ c
    → c ≤ e
    → e < num_horizontal_tiles
    → (s * l ≤ c * l)
      × (c * l + l ≤ s * l + (e - s + 1) * l)
      × (s * l + (e - s + 1) * l ≤ 32 * l)
      × (c ≡ 31 → s * l + (e - s + 1) * l ≡ 32 * l)
tile_products s c e l lo hi grid = (
  scale s c l lo,
  omega (arith, scale (c + 1) (s + (e - s + 1)) l (omega arith)),
  omega (arith, scale (s + (e - s + 1)) 32 l (omega arith)),
  λ last. let all : s + (e - s + 1) ≡ 32 = omega arith in omega (arith, ap (λ (n : ℕ). n * l) all),
)

-- Where the width is a multiple of 32, the report holds all pixels of each of its tiles.
pub push_tiles_report-holds_columns :
    (W H : ℕ) (t : TileRect) (c : ℕ)
    → W < 2 ^ 16
    → W % num_horizontal_tiles ≡ 0
    → InGrid (vertical_tiles H) t
    → t.start_col ≤ c
    → c ≤ t.end_col
    → let r = push_tiles_report W H t in (r.x ≤ tile_start W c) × (tile_end W c ≤ r.x + r.w)
unfolding push_tiles_report
push_tiles_report-holds_columns W H t c small aligned g lo hi =
    let l = W / num_horizontal_tiles in
    let (p₁, p₂, p₃, p₄) = tile_products t.start_col c t.end_col l lo hi g.last_col in
    ground (
      arith,
      aligned_product W t.start_col aligned,
      aligned_product W (t.end_col - t.start_col + 1) aligned,
      p₁,
      p₂,
      p₃,
      p₄,
    )

-- The lines of its rows are in the report at every height.
pub push_tiles_report-holds_lines :
    (W H : ℕ) (t : TileRect) (line : ℕ)
    → H < 2 ^ 16
    → InGrid (vertical_tiles H) t
    → t.start_row * num_scanlines ≤ line
    → line < (t.end_row + 1) * num_scanlines
    → line < H
    → let r = push_tiles_report W H t in (r.y ≤ line) × (line < r.y + r.h)
unfolding push_tiles_report
push_tiles_report-holds_lines W H t line small g lo hi on = ground arith

abbrev pub one_tile : ℕ → ℕ → TileRect
one_tile row c = record { start_row = row; start_col = c; end_row = row; end_col = c }

-- At other widths the first pixel column of a tile can lie left of the report for that tile.
pub push_tiles_report-misses_column :
    (W H row c : ℕ)
    → W < 2 ^ 16
    → c < num_horizontal_tiles
    → num_horizontal_tiles ≤ c * (W % num_horizontal_tiles)
    → tile_start W c < (push_tiles_report W H (one_tile row c)).x
unfolding push_tiles_report
push_tiles_report-misses_column W H row c small grid far =
    omega (arith, split_product W c, scale c 32 W (omega arith))
