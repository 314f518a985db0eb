-- ===== src/Scan/Spans/Laws.antt =====
-- src/scan.c: the reports cover exactly the tiles that they should.
use x11spice.Prelude.{
  ℕ, suc, ◌+◌, ◌-◌, ◌≤◌, ◌<◌, ◌≡◌, refl, Bool, true, false, ◌&&◌, ◌||◌, none, some, List, [], ◌∷◌,
  ◌++◌, arith, ltb, leb, ◌==◌, get_or,
}
use x11spice.Scan.{num_horizontal_tiles}
use x11spice.Scan.Grow.{Row}
use x11spice.Scan.Spans.{
  TileRect, Run, push_rows, push_changes_across_rows, push_tiles, push_changes_in_one_row,
  push_partial_rows, push_changed_tiles,
}

-- Does one of the reports hold the tile at row `r` and column `c`?
abbrev pub in_rect : TileRect → ℕ → ℕ → Bool
in_rect t r c = (leb t.start_row r && leb r t.end_row) && (leb t.start_col c && leb c t.end_col)

abbrev pub covered : List TileRect → ℕ → ℕ → Bool
covered [] r c = false
covered (t ∷ ts) r c = in_rect t r c || covered ts r c

or_assoc : (a b c : Bool) → (a || b || c) ≡ (a || (b || c))
or_assoc a b c = ground arith

covered-append :
    (xs ys : List TileRect) (r c : ℕ) → covered (xs ++ ys) r c ≡ (covered xs r c || covered ys r c)
covered-append [] ys r c = refl
covered-append (x ∷ xs) ys r c = ground (arith, covered-append xs ys r c)

-- A run of the loop at `i` is a stretch of tiles that ends just before `i`.
abbrev pub EndsAt : Run → ℕ → Type 0
EndsAt none i = Unit
EndsAt (some (start, current)) i = (start ≤ current) × (suc current ≡ i)

abbrev in_run : Run → ℕ → Bool
in_run none j = false
in_run (some (start, current)) j = leb start j && leb j current

-- The tile `j`, if it is not before `i`.
abbrev from : ℕ → List Bool → ℕ → Bool
from i ts j = leb i j && get_or ts (j - i) false

-- A list read at a distance from `i`, step by step.
module _ {A : Type 0} (d : A) (i j : ℕ) (x : A) (xs : List A) where
  get_or-sub_later : i < j → get_or (x ∷ xs) (j - i) d ≡ get_or xs (j - (i + 1)) d
  get_or-sub_later h = let e : j - i ≡ suc (j - (i + 1)) = omega arith in rw e

  get_or-sub_here : i ≡ j → get_or (x ∷ xs) (j - i) d ≡ x
  get_or-sub_here h = let e : j - i ≡ 0 = omega arith in rw e

from-step :
    (i j : ℕ) (t : Bool) (ts : List Bool)
    → from i (t ∷ ts) j ≡ (((i == j) && t) || from (i + 1) ts j)
from-step i j t ts = ground (arith, get_or-sub_later false i j t ts, get_or-sub_here false i j t ts)

push_tiles-covered :
    (row i : ℕ) (run : Run) (ts : List Bool) (r j : ℕ)
    → EndsAt run i
    → covered (push_tiles row i run ts) r j ≡ ((r == row) && (in_run run j || from i ts j))
unfolding push_tiles
push_tiles-covered row i none [] r j h = ground arith
push_tiles-covered row i (some (s, c)) [] r j h = ground arith
push_tiles-covered row i none (true ∷ ts) r j h =
    ground (arith, from-step i j true ts, push_tiles-covered row (i + 1) (some (i, i)) ts r j)
push_tiles-covered row i (some (s, c)) (true ∷ ts) r j h =
    ground (arith, from-step i j true ts, push_tiles-covered row (i + 1) (some (s, i)) ts r j)
push_tiles-covered row i none (false ∷ ts) r j h =
    ground (arith, from-step i j false ts, push_tiles-covered row (i + 1) none ts r j)
push_tiles-covered row i (some (s, c)) (false ∷ ts) r j h =
    ground (arith, from-step i j false ts, push_tiles-covered row (i + 1) none ts r j)

-- Within one row exactly the set tiles are reported.
push_changes_in_one_row-covered :
    (row : ℕ) (tiles : List Bool) (r c : ℕ)
    → covered (push_changes_in_one_row row tiles) r c ≡ ((r == row) && get_or tiles c false)
unfolding push_changes_in_one_row
push_changes_in_one_row-covered row tiles r c =
    ground (arith, push_tiles-covered row 0 none tiles r c)

abbrev pub no_row : Row
no_row = record { changed = 0; tiles = [] }

abbrev pub row_at : List Row → ℕ → Row
row_at rows r = get_or rows r no_row

abbrev pub is_whole : Row → Bool
is_whole r = r.changed == num_horizontal_tiles

abbrev pub is_partial : Row → Bool
is_partial r = ltb 0 r.changed && ltb r.changed num_horizontal_tiles

-- The row `r`, if it is not before `i`, passes a test.
abbrev row_from : (Row → Bool) → ℕ → List Row → ℕ → Bool
row_from test i rows r = leb i r && test (row_at rows (r - i))

row_from-step :
    (test : Row → Bool) (i r : ℕ) (x : Row) (rows : List Row)
    → row_from test i (x ∷ rows) r ≡ (((i == r) && test x) || row_from test (i + 1) rows r)
row_from-step test i r x rows =
    ground (arith, get_or-sub_later no_row i r x rows, get_or-sub_here no_row i r x rows)

push_rows-covered :
    (i : ℕ) (run : Run) (rows : List Row) (r c : ℕ)
    → EndsAt run i
    → covered (push_rows i run rows) r c
      ≡ (leb c 31 && (in_run run r || row_from is_whole i rows r))
unfolding push_rows
push_rows-covered i none [] r c h = ground arith
push_rows-covered i (some (s, e)) [] r c h = ground arith
push_rows-covered i none (x ∷ rows) r c h = ground (
  arith,
  row_from-step is_whole i r x rows,
  push_rows-covered (i + 1) (some (i, i)) rows r c,
  push_rows-covered (i + 1) none rows r c,
)
push_rows-covered i (some (s, e)) (x ∷ rows) r c h = ground (
  arith,
  row_from-step is_whole i r x rows,
  push_rows-covered (i + 1) (some (s, i)) rows r c,
  push_rows-covered (i + 1) none rows r c,
)

-- A tile of a row that is neither empty nor whole.
abbrev pub is_partial_tile : ℕ → Row → Bool
is_partial_tile c x = is_partial x && get_or x.tiles c false

push_partial_rows-covered :
    (i : ℕ) (rows : List Row) (r c : ℕ)
    → covered (push_partial_rows i rows) r c ≡ row_from (is_partial_tile c) i rows r
unfolding push_partial_rows
push_partial_rows-covered i [] r c = ground arith
push_partial_rows-covered i (x ∷ rows) r c = ground (
  arith,
  row_from-step (is_partial_tile c) i r x rows,
  push_partial_rows-covered (i + 1) rows r c,
  push_changes_in_one_row-covered i x.tiles r c,
  covered-append (push_changes_in_one_row i x.tiles) (push_partial_rows (i + 1) rows) r c,
)

-- The reports of `push_changed_tiles` hold exactly the tiles of the whole rows, and the set tiles
-- of the rows that are neither whole nor empty.
pub push_changed_tiles-covered :
    (rows : List Row) (r c : ℕ)
    → c < num_horizontal_tiles
    → covered (push_changed_tiles rows) r c
      ≡ (is_whole (row_at rows r) || is_partial_tile c (row_at rows r))
unfolding push_changed_tiles push_changes_across_rows
push_changed_tiles-covered rows r c h = ground (
  arith,
  covered-append (push_changes_across_rows rows) (push_partial_rows 0 rows) r c,
  push_rows-covered 0 none rows r c,
  push_partial_rows-covered 0 rows r c,
)
