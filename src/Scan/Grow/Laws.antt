-- ===== src/Scan/Grow/Laws.antt =====
-- src/scan.c: growing loses no changed tile, adds none to a row without changes, and leaves every
-- row either whole or with at most SCAN_ROW_THRESHOLD tiles.
use x11spice.Prelude.{
  ℕ, zero, suc, ◌+◌, ◌≤◌, ◌≡◌, ◌↔◌, refl, Bool, true, false, ◌&&◌, ◌||◌, ◌⊎◌, List, [], ◌∷◌, arith,
  if◌then◌else◌, get_or, not,
}
use x11spice.Scan.{num_horizontal_tiles, scan_row_threshold}
use x11spice.Scan.Grow.{Row, grows, grow_tiles, grow_row}

-- The number of set tiles, which `display_find_changed_tiles` returns.
abbrev pub number : List Bool → ℕ
number [] = 0
number (t ∷ ts) = if t then suc (number ts) else number ts

grow_tiles-keeps :
    (j : ℕ) (before : Bool) (n : ℕ) (ts : List Bool) (c : ℕ)
    → get_or ts c false ≡ true
    → get_or (grow_tiles j before n ts).tiles c false ≡ true
unfolding grow_tiles
grow_tiles-keeps j before n [] c h = h
grow_tiles-keeps j before n (t ∷ ts) zero h = ground arith
grow_tiles-keeps j before n (t ∷ ts) (suc c) h = grow_tiles-keeps (j + 1) _ _ ts c h

-- The count keeps up with the tiles that are set.
grow_tiles-number :
    (j : ℕ) (before : Bool) (n : ℕ) (ts : List Bool)
    → (grow_tiles j before n ts).changed + number ts ≡ n + number (grow_tiles j before n ts).tiles
unfolding grow_tiles
grow_tiles-number j before n [] = refl
grow_tiles-number j before n (t ∷ ts) =
    let g = not t && grows j before ts in
    ground (arith, grow_tiles-number (j + 1) (t || g) (if g then n + 1 else n) ts)

grow_tiles-le :
    (j : ℕ) (before : Bool) (n : ℕ) (ts : List Bool) → n ≤ (grow_tiles j before n ts).changed
unfolding grow_tiles
grow_tiles-le j before n [] = omega arith
grow_tiles-le j before n (t ∷ ts) =
    let g = not t && grows j before ts in
    ground (arith, grow_tiles-le (j + 1) (t || g) (if g then n + 1 else n) ts)

-- A row after growing: whole, or with at most SCAN_ROW_THRESHOLD changed tiles.
abbrev pub IsSettled : Row → Type 0
IsSettled r = (r.changed ≡ num_horizontal_tiles) ⊎ (r.changed ≤ scan_row_threshold)

pub grow_row-IsSettled : (r : Row) → IsSettled (grow_row r)
unfolding grow_row
grow_row-IsSettled r = ground arith

pub grow_row-keeps :
    (r : Row) (c : ℕ) → get_or r.tiles c false ≡ true → get_or (grow_row r).tiles c false ≡ true
unfolding grow_row
grow_row-keeps r c h = ground (arith, grow_tiles-keeps 0 false r.changed r.tiles c h)

pub grow_row_zero : (r : Row) → ((grow_row r).changed ≡ 0) ↔ (r.changed ≡ 0)
unfolding grow_row
grow_row_zero r = ground (arith, grow_tiles-le 0 false r.changed r.tiles)

-- Where the count was the number of set tiles it still is, unless the row is now whole.
pub grow_row-number :
    (r : Row)
    → r.changed ≡ number r.tiles
    → ((grow_row r).changed ≡ num_horizontal_tiles)
      ⊎ ((grow_row r).changed ≡ number (grow_row r).tiles)
unfolding grow_row
grow_row-number r h = ground (arith, grow_tiles-number 0 false r.changed r.tiles)
