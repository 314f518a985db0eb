-- ===== src/Scan/Spans.antt =====
-- src/scan.c: `push_changed_tiles` and what it calls. A call of `push_tiles_report` is its four
-- tile coordinates; the result is the calls in their order.
pub mod Laws
pub mod Grid
use x11spice.Prelude.{
  ℕ, ◌+◌, ◌-◌, Bool, true, false, ◌&&◌, Option, none, some, List, [], ◌∷◌, ◌++◌, ltb, ◌==◌,
  if◌then◌else◌,
}
use x11spice.Scan.{num_horizontal_tiles}
use x11spice.Scan.Grow.{Row}

pub record TileRect : Type 0 where
  pub start_row : ℕ
  pub start_col : ℕ
  pub end_row : ℕ
  pub end_col : ℕ

-- The two variables of a loop, `start` and `current`, which are both -1 or both set.
abbrev pub Run : Type 0
Run = Option (ℕ × ℕ)

-- `if (start == -1) start = i; current = i;`
abbrev pub extend : Run → ℕ → Run
extend none i = some (i, i)
extend (some (start, current)) i = some (start, i)

abbrev pub rows_rect : Run → List TileRect
rows_rect none = []
rows_rect (some (start, current)) =
    record {
      start_row = start;
      start_col = 0;
      end_row = current;
      end_col = num_horizontal_tiles - 1;
    }
    ∷ []

-- `push_changes_across_rows`, from row `i` on.
pub push_rows : ℕ → Run → List Row → List TileRect
push_rows i run [] = rows_rect run
push_rows i run (r ∷ rs) =
    let whole = push_rows (i + 1) (extend run i) rs in
    let other = rows_rect run ++ push_rows (i + 1) none rs in
    if r.changed == num_horizontal_tiles then whole else other

unfoldable pub push_changes_across_rows : List Row → List TileRect
unfolding push_rows
push_changes_across_rows rows = push_rows 0 none rows

abbrev pub tiles_rect : ℕ → Run → List TileRect
tiles_rect row none = []
tiles_rect row (some (start, current)) =
    record { start_row = row; start_col = start; end_row = row; end_col = current } ∷ []

-- `push_changes_in_one_row`, from tile `i` on.
pub push_tiles : ℕ → ℕ → Run → List Bool → List TileRect
push_tiles row i run [] = tiles_rect row run
push_tiles row i run (t ∷ ts) =
    let set = push_tiles row (i + 1) (extend run i) ts in
    let clear = tiles_rect row run ++ push_tiles row (i + 1) none ts in if t then set else clear

unfoldable pub push_changes_in_one_row : ℕ → List Bool → List TileRect
unfolding push_tiles
push_changes_in_one_row row tiles = push_tiles row 0 none tiles

-- The loop of `push_changed_tiles` over the rows that are neither empty nor whole.
pub push_partial_rows : ℕ → List Row → List TileRect
unfolding push_changes_in_one_row
push_partial_rows i [] = []
push_partial_rows i (r ∷ rs) =
    (if ltb 0 r.changed && ltb r.changed num_horizontal_tiles
      then push_changes_in_one_row i r.tiles
      else [])
    ++ push_partial_rows (i + 1) rs

unfoldable pub push_changed_tiles : List Row → List TileRect
unfolding push_changes_across_rows push_partial_rows
push_changed_tiles rows = push_changes_across_rows rows ++ push_partial_rows 0 rows
