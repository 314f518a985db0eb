-- ===== src/Scan/Spans/Grid.antt =====
-- src/scan.c: every report that `push_changed_tiles` makes lies in the grid of the tiles.
use x11spice.Prelude.{
  ℕ, suc, ◌+◌, ◌≤◌, ◌<◌, ◌≡◌, refl, ◌∙◌, ap, Bool, false, ◌&&◌, none, some, List, [], ◌∷◌, ◌++◌,
  arith, ltb, ◌==◌, All, length, Bool-cases, inl, inr,
}
use x11spice.Scan.{num_horizontal_tiles}
use x11spice.Scan.Grow.{Row, grow_tiles, grow_row, grow_changed_tiles}
use x11spice.Scan.Grow.Laws.{grow_row_zero}
use x11spice.Scan.Spans.{
  Run, rows_rect, tiles_rect, push_rows, push_changes_across_rows, push_tiles,
  push_changes_in_one_row, push_partial_rows, push_changed_tiles, extend,
}
use x11spice.Scan.Report.{InGrid}
use x11spice.Scan.Spans.Laws.{EndsAt}

All-append {ℓ} :
    {A : Type 0} (P : A → Type ℓ) (xs ys : List A) → All P xs → All P ys → All P (xs ++ ys)
All-append P [] ys hx hy = hy
All-append P (x ∷ xs) ys hx hy = (hx.0, All-append P xs ys hx.1 hy)

rows_rect-InGrid : (nv i : ℕ) (run : Run) → EndsAt run i → i ≤ nv → All (InGrid nv) (rows_rect run)
rows_rect-InGrid nv i none e le = tt
rows_rect-InGrid nv i (some (start, current)) e le =
    (record { rows = e.0; last_row = omega arith; cols = omega arith; last_col = omega arith }, tt)

extend-EndsAt : (run : Run) (i : ℕ) → EndsAt run i → EndsAt (extend run i) (i + 1)
extend-EndsAt none i e = (omega arith, omega arith)
extend-EndsAt (some (start, current)) i e = (omega arith, omega arith)

push_rows-InGrid :
    (nv i : ℕ) (run : Run) (rows : List Row)
    → EndsAt run i
    → i + length rows ≤ nv
    → All (InGrid nv) (push_rows i run rows)
unfolding push_rows
push_rows-InGrid nv i run [] e le = rows_rect-InGrid nv i run e (omega arith)
push_rows-InGrid nv i run (r ∷ rs) e le = elim (Bool-cases (r.changed == num_horizontal_tiles)) [
  | inl whole ↦
      rw whole (push_rows-InGrid nv (i + 1) (extend run i) rs (extend-EndsAt run i e) (omega arith))
  | inr other ↦ rw other (
      All-append (InGrid nv) (rows_rect run) (push_rows (i + 1) none rs)
        (rows_rect-InGrid nv i run e (omega arith))
        (push_rows-InGrid nv (i + 1) none rs tt (omega arith)))
]

tiles_rect-InGrid :
    (nv row i : ℕ) (run : Run)
    → row < nv
    → EndsAt run i
    → i ≤ num_horizontal_tiles
    → All (InGrid nv) (tiles_rect row run)
tiles_rect-InGrid nv row i none on e le = tt
tiles_rect-InGrid nv row i (some (start, current)) on e le =
    (record { rows = omega arith; last_row = on; cols = e.0; last_col = omega arith }, tt)

push_tiles-InGrid :
    (nv row i : ℕ) (run : Run) (ts : List Bool)
    → row < nv
    → EndsAt run i
    → i + length ts ≤ num_horizontal_tiles
    → All (InGrid nv) (push_tiles row i run ts)
unfolding push_tiles
push_tiles-InGrid nv row i run [] on e le = tiles_rect-InGrid nv row i run on e (omega arith)
push_tiles-InGrid nv row i run (t ∷ ts) on e le = elim (Bool-cases t) [
  | inl set ↦
      rw set (
        push_tiles-InGrid nv row (i + 1) (extend run i) ts on (extend-EndsAt run i e) (omega arith))
  | inr clear ↦ rw clear (
      All-append (InGrid nv) (tiles_rect row run) (push_tiles row (i + 1) none ts)
        (tiles_rect-InGrid nv row i run on e (omega arith))
        (push_tiles-InGrid nv row (i + 1) none ts on tt (omega arith)))
]

-- A row that counts changes has no more tiles than the screen.
abbrev pub Fits : Row → Type 0
Fits r = 0 < r.changed → length r.tiles ≤ num_horizontal_tiles

push_partial_rows-InGrid :
    (nv i : ℕ) (rows : List Row)
    → All Fits rows
    → i + length rows ≤ nv
    → All (InGrid nv) (push_partial_rows i rows)
unfolding push_partial_rows push_changes_in_one_row
push_partial_rows-InGrid nv i [] fits le = tt
push_partial_rows-InGrid nv i (r ∷ rs) fits le =
    let later = push_partial_rows-InGrid nv (i + 1) rs fits.1 (omega arith) in
    elim (Bool-cases (ltb 0 r.changed && ltb r.changed num_horizontal_tiles)) [
      | inl partial ↦ rw partial (
          All-append (InGrid nv) (push_tiles i 0 none r.tiles) (push_partial_rows (i + 1) rs)
            (push_tiles-InGrid nv i 0 none r.tiles (omega arith) tt
              (omega (arith, fits.0 (ground arith))))
            later)
      | inr other ↦ rw other later
    ]

push_changed_tiles-InGrid :
    (rows : List Row) → All Fits rows → All (InGrid (length rows)) (push_changed_tiles rows)
unfolding push_changed_tiles push_changes_across_rows
push_changed_tiles-InGrid rows fits =
    All-append (InGrid (length rows)) (push_rows 0 none rows) (push_partial_rows 0 rows)
      (push_rows-InGrid (length rows) 0 none rows tt (omega arith))
      (push_partial_rows-InGrid (length rows) 0 rows fits (omega arith))

-- Growing changes neither the number of rows nor that of the tiles in one.
length-grow_tiles :
    (j : ℕ) (before : Bool) (n : ℕ) (ts : List Bool)
    → length (grow_tiles j before n ts).tiles ≡ length ts
unfolding grow_tiles
length-grow_tiles j before n [] = refl
length-grow_tiles j before n (t ∷ ts) = ap suc (length-grow_tiles (j + 1) _ _ ts)

length-grow_row : (r : Row) → length (grow_row r).tiles ≡ length r.tiles
unfolding grow_row
length-grow_row r = ground (arith, length-grow_tiles 0 false r.changed r.tiles)

length-grow_changed_tiles : (rows : List Row) → length (grow_changed_tiles rows) ≡ length rows
unfolding grow_changed_tiles
length-grow_changed_tiles [] = refl
length-grow_changed_tiles (r ∷ rs) = ap suc (length-grow_changed_tiles rs)

grow_changed_tiles-Fits : (rows : List Row) → All Fits rows → All Fits (grow_changed_tiles rows)
unfolding grow_changed_tiles
grow_changed_tiles-Fits [] fits = tt
grow_changed_tiles-Fits (r ∷ rs) fits = (
  (λ busy.
      let counted : 0 < r.changed = ground (arith, grow_row_zero r) in
      omega (arith, length-grow_row r, fits.0 counted)),
  grow_changed_tiles-Fits rs fits.1,
)

-- The reports of grown tiles lie in the grid of the rows.
pub grown_reports-InGrid :
    (nv : ℕ) (rows : List Row)
    → length rows ≡ nv
    → All Fits rows
    → All (InGrid nv) (push_changed_tiles (grow_changed_tiles rows))
grown_reports-InGrid nv rows e fits =
    rw (length-grow_changed_tiles rows ∙ e) at
      (push_changed_tiles-InGrid (grow_changed_tiles rows) (grow_changed_tiles-Fits rows fits))
