-- ===== src/Scan/Grow.antt =====
-- src/scan.c: `grow_changed_tiles`. A row of tiles is a list of Booleans, with a count beside it.
pub mod Laws
use x11spice.Prelude.{
  ℕ, ◌+◌, ◌-◌, Bool, true, false, ◌&&◌, ◌||◌, not, List, [], ◌∷◌, ltb, ◌==◌, if◌then◌else◌, get_or,
}
use x11spice.Scan.{num_horizontal_tiles, scan_row_threshold}

-- A row: `tiles_changed_in_row[i]` and `tiles_changed[i]`.
pub record Row : Type 0 where
  pub changed : ℕ
  pub tiles : List Bool

-- The value of `grow` for a tile `j` that is not set: `before` is tile j - 1 as the loop left it,
-- and the list holds the tiles behind `j`.
abbrev pub grows : ℕ → Bool → List Bool → Bool
grows j before rest =
    if j == 0
    then get_or rest 0 false
    else if j == num_horizontal_tiles - 1
    then before
    else before && get_or rest 0 false

-- The inner loop from tile `j` on; the count goes along.
unfoldable pub grow_tiles : ℕ → Bool → ℕ → List Bool → Row
grow_tiles j before n [] = record { changed = n; tiles = [] }
grow_tiles j before n (t ∷ ts) =
    let grow = not t && grows j before ts in
    let now = t || grow in
    let rest = grow_tiles (j + 1) now (if grow then n + 1 else n) ts in
    record { changed = rest.changed; tiles = now ∷ rest.tiles }

-- The recheck behind the loop.
abbrev pub recheck : Row → Row
recheck r =
    if ltb scan_row_threshold r.changed then record r { changed = num_horizontal_tiles } else r

-- One round of the outer loop.
unfoldable pub grow_row : Row → Row
unfolding grow_tiles
grow_row r =
    if r.changed == 0 || r.changed == num_horizontal_tiles
    then r
    else if ltb scan_row_threshold r.changed
    then record r { changed = num_horizontal_tiles }
    else recheck (grow_tiles 0 false r.changed r.tiles)

unfoldable pub grow_changed_tiles : List Row → List Row
unfolding grow_row
grow_changed_tiles [] = []
grow_changed_tiles (r ∷ rs) = grow_row r ∷ grow_changed_tiles rs
