-- ===== src/Display/Compare.antt =====
-- src/display.c: comparing the screen with the copy kept of it, and writing to that copy. The
-- pixels of an image are a function from their index in its shared memory; `memcmp` and `memcpy`
-- of n pixels look at n indices. `kept` is `d->fullscreen`, `fresh` the image just read.
pub mod Laws
pub mod Copy
mod Tests
use x11spice.Prelude.{
  ℕ, zero, suc, ◌+◌, ◌-◌, ◌*◌, ◌/◌, Bool, true, false, ◌&&◌, ◌||◌, not, Option, none, some, List,
  [], ◌∷◌, ltb, leb, ◌==◌, if◌then◌else◌, get_or, replicate,
}
use x11spice.Display.Image.{ShmImage, Display, Answers, create_shm_image, destroy_shm_image}
use x11spice.Scan.Grow.{Row}

abbrev pub Pixels : Type 0
Pixels = ℕ → ℕ

-- `memcmp(a + i, b + j, n pixels) == 0`
unfoldable pub same : Pixels → ℕ → Pixels → ℕ → ℕ → Bool
same a i b j zero = true
same a i b j (suc n) = (a i == b j) && same a (i + 1) b (j + 1) n

-- The pixels of tile `i` of a line: from `i * len` on, and the last tile has the rest.
abbrev pub tile_len : ℕ → ℕ → ℕ → ℕ
tile_len w across i = let len = w / across in if i == across - 1 then w - i * len else len

-- The loop over the tiles of a line, from tile `i` on, with `left` tiles to come.
unfoldable pub compare_tiles : Pixels → Pixels → ℕ → ℕ → ℕ → ℕ → ℕ → ℕ → Row
compare_tiles kept fresh w across i old new zero = record { changed = 0; tiles = [] }
compare_tiles kept fresh w across i old new (suc left) =
    let changed = not (same kept old fresh new (tile_len w across i)) in
    let len = w / across in
    let rest = compare_tiles kept fresh w across (i + 1) (old + len) (new + len) left in
    record {
      changed = if changed then suc rest.changed else rest.changed;
      tiles = changed ∷ rest.tiles;
    }

abbrev pub no_tiles : ℕ → Row
no_tiles across = record { changed = 0; tiles = replicate across false }

-- A line of the kept image from `old` on against one of a fresh image from `new` on.
unfoldable pub compare_line : Pixels → Pixels → ℕ → ℕ → ℕ → ℕ → Row
unfolding compare_tiles
compare_line kept fresh w across old new =
    if same kept old fresh new w
    then no_tiles across
    else compare_tiles kept fresh w across 0 old new across

-- `display_find_changed_tiles`: `read_ok` says whether the line could be read; the value returned
-- is `none` for -1. Both images are `w` pixels wide.
unfoldable pub display_find_changed_tiles :
    Bool → Pixels → Pixels → ℕ → ℕ → ℕ → Option ℕ × List Bool
unfolding compare_line
display_find_changed_tiles read_ok kept fresh w row across =
    let found = compare_line kept fresh w across (row * w) 0 in
    if read_ok then (some found.changed, found.tiles) else (none, replicate across false)

-- `tiles[v][h] = true` for the tiles of one more line, and `tiles_changed_in_row[v]++` for each.
unfoldable pub merge : List Bool → List Bool → List Bool
merge [] ys = ys
merge (x ∷ xs) [] = x ∷ xs
merge (x ∷ xs) (y ∷ ys) = (x || y) ∷ merge xs ys

abbrev pub add_line : Row → Row → Row
add_line acc line = record {
  changed = acc.changed + line.changed;
  tiles = merge acc.tiles line.tiles;
}

-- The lines of one row of tiles: `left` lines from `y` on, and none at `h` or below it.
unfoldable pub compare_lines : Pixels → Pixels → ℕ → ℕ → ℕ → Row → ℕ → ℕ → Row
unfolding compare_line merge
compare_lines kept fresh w h across acc y zero = acc
compare_lines kept fresh w h across acc y (suc left) =
    let next = add_line acc (compare_line kept fresh w across (y * w) (y * w)) in
    let rest = compare_lines kept fresh w h across next (y + 1) left in
    if ltb y h then rest else acc

-- `ystart` and `yend` of a row of tiles
abbrev pub y_start : ℕ → ℕ → ℕ → ℕ
y_start h nv v = (v * h) / nv

-- The loop over the rows of tiles, from `v` on.
unfoldable pub compare_rows : Pixels → Pixels → ℕ → ℕ → ℕ → ℕ → ℕ → ℕ → List Row
unfolding compare_lines
compare_rows kept fresh w h nv across v zero = []
compare_rows kept fresh w h nv across v (suc left) =
    compare_lines kept fresh w h across (no_tiles across) (y_start h nv v)
      (y_start h nv (v + 1) - y_start h nv v)
    ∷ compare_rows kept fresh w h nv across (v + 1) left

abbrev pub total : List Row → ℕ
total [] = 0
total (r ∷ rs) = r.changed + total rs

-- What `display_scan_whole_screen` returns, with the rows that it fills in.
pub record Whole : Type 0 where
  pub ret : Option ℕ
  pub rows : List Row
  pub display : Display

-- What follows `create_shm_image`. `f` is the image that `d->fullscreen` points to.
unfoldable pub scan_image :
    Bool → Pixels → Pixels → ShmImage → ℕ → ℕ → Option ShmImage × Display → Whole
unfolding compare_rows
scan_image read_ok kept fresh f nv across (none, d) = record {
  ret = some 0;
  rows = replicate nv (no_tiles across);
  display = d;
}
scan_image read_ok kept fresh f nv across (some i, d) =
    let d' = destroy_shm_image d i in
    let rows = compare_rows kept fresh f.w f.h nv across 0 nv in
    let none_found = replicate nv (no_tiles across) in
    if read_ok
    then if (f.h == i.h) && (f.w == i.w)
      then record { ret = some (total rows); rows = rows; display = d' }
      else record { ret = some 0; rows = none_found; display = d' }
    else record { ret = none; rows = none_found; display = d' }

unfoldable pub display_scan_whole_screen :
    Answers → Bool → Pixels → Pixels → ShmImage → Display → ℕ → ℕ → Whole
unfolding scan_image
display_scan_whole_screen os read_ok kept fresh f d nv across =
    scan_image read_ok kept fresh f nv across (create_shm_image os d 0 0)

-- `memcpy(to + i, from + j, n pixels)`
unfoldable pub copy_pixels : Pixels → ℕ → Pixels → ℕ → ℕ → Pixels
copy_pixels to i from j n k = if leb i k && ltb k (i + n) then from (j + (k - i)) else to k

-- The loop of `display_copy_image_into_fullscreen`: `left` lines are to come.
unfoldable pub copy_lines : Pixels → ℕ → ℕ → Pixels → ℕ → ℕ → ℕ → Pixels
unfolding copy_pixels
copy_lines to W i from w j zero = to
copy_lines to W i from w j (suc left) =
    copy_lines (copy_pixels to i from j w) W (i + W) from w (j + w) left

-- The screen is `W` by `H`, the image `w` by `h`, and it is to lie at `x`, `y`.
unfoldable pub display_copy_image_into_fullscreen : Pixels → ℕ → ℕ → Pixels → ℕ → ℕ → ℕ → ℕ → Pixels
unfolding copy_lines
display_copy_image_into_fullscreen to W H from w h x y =
    if ltb W (x + w)
    then to
    else if ltb H (y + h)
    then to
    else copy_lines to W (y * W + x) from w 0 h
