-- ===== src/Scan/Periodic/Screen.antt =====
-- src/display.c: the rows that `display_scan_whole_screen` fills in.
use x11spice.Prelude.{
  ℕ, zero, suc, ◌+◌, ◌-◌, ◌*◌, ◌≤◌, ◌<◌, ◌≡◌, refl, ap, sym, ◌∙◌, Bool, true, false, List, [], ◌∷◌,
  arith, ltb, All, length, get_or, Bool-cases, inl, inr, dec_lt,
}
use x11spice.Scan.{num_horizontal_tiles}
use x11spice.Scan.Grow.{Row}
use x11spice.Scan.Spans.Laws.{row_at}
use x11spice.Scan.Spans.Grid.{Fits}
use x11spice.Scan.Periodic.Lines.{length-compare_line, length-replicate}
use x11spice.Display.Compare.{
  Pixels, compare_line, merge, add_line, compare_lines, compare_rows, no_tiles, y_start,
}

merge-left :
    (xs ys : List Bool) (c : ℕ) → get_or xs c false ≡ true → get_or (merge xs ys) c false ≡ true
unfolding merge
merge-left [] ys c h = absurd (ground arith)
merge-left (x ∷ xs) [] c h = h
merge-left (x ∷ xs) (y ∷ ys) zero h = ground arith
merge-left (x ∷ xs) (y ∷ ys) (suc c) h = merge-left xs ys c h

merge-right :
    (xs ys : List Bool) (c : ℕ)
    → length xs ≡ length ys
    → get_or ys c false ≡ true
    → get_or (merge xs ys) c false ≡ true
unfolding merge
merge-right [] ys c e h = h
merge-right (x ∷ xs) [] c e h = absurd (omega arith)
merge-right (x ∷ xs) (y ∷ ys) zero e h = ground arith
merge-right (x ∷ xs) (y ∷ ys) (suc c) e h = merge-right xs ys c (omega arith) h

length-merge : (xs ys : List Bool) → length xs ≡ length ys → length (merge xs ys) ≡ length xs
unfolding merge
length-merge [] ys e = sym e
length-merge (x ∷ xs) [] e = refl
length-merge (x ∷ xs) (y ∷ ys) e = ap suc (length-merge xs ys (omega arith))

-- The tile `c` of a row is set, and the row counts changes.
abbrev pub Seen : Row → ℕ → Type 0
Seen r c = (get_or r.tiles c false ≡ true) × (0 < r.changed)

module _ (kept fresh : Pixels) (w h : ℕ) where
  unfoldable pub line_at : ℕ → Row
  line_at y = compare_line kept fresh w num_horizontal_tiles (y * w) (y * w)

  unfoldable pub lines_from : Row → ℕ → ℕ → Row
  lines_from = compare_lines kept fresh w h num_horizontal_tiles

  length-line_at :
      (tiles : List Bool) (y : ℕ)
      → length tiles ≡ num_horizontal_tiles
      → length tiles ≡ length (line_at y).tiles
  unfolding line_at
  length-line_at tiles y e =
      e ∙ sym (length-compare_line kept fresh w num_horizontal_tiles (y * w) (y * w))

  length-add_line :
      (acc : Row) (y : ℕ)
      → length acc.tiles ≡ num_horizontal_tiles
      → length (add_line acc (line_at y)).tiles ≡ num_horizontal_tiles
  length-add_line acc y e =
      length-merge acc.tiles (line_at y).tiles (length-line_at acc.tiles y e) ∙ e

  length-lines_from :
      (acc : Row) (y left : ℕ)
      → length acc.tiles ≡ num_horizontal_tiles
      → length (lines_from acc y left).tiles ≡ num_horizontal_tiles
  unfolding compare_lines lines_from line_at
  length-lines_from acc y zero e = e
  length-lines_from acc y (suc left) e = elim (Bool-cases (ltb y h)) [
    | inr beyond ↦ rw beyond e
    | inl on ↦
        rw on (length-lines_from (add_line acc (line_at y)) (y + 1) left (length-add_line acc y e))
  ]

  lines_from-keeps : (acc : Row) (y left c : ℕ) → Seen acc c → Seen (lines_from acc y left) c
  unfolding compare_lines lines_from line_at
  lines_from-keeps acc y zero c seen = seen
  lines_from-keeps acc y (suc left) c seen = elim (Bool-cases (ltb y h)) [
    | inr beyond ↦ rw beyond seen
    | inl on ↦ rw on (
        lines_from-keeps (add_line acc (line_at y)) (y + 1) left c
          (merge-left acc.tiles (line_at y).tiles c seen.0, omega (arith, seen.1)))
  ]

  pub lines_from-finds :
      (acc : Row) (y left c line : ℕ)
      → y ≤ line
      → line < y + left
      → line < h
      → length acc.tiles ≡ num_horizontal_tiles
      → Seen (line_at line) c
      → Seen (lines_from acc y left) c
  unfolding compare_lines lines_from line_at
  lines_from-finds acc y zero c line lo hi on e seen = absurd (omega arith)
  lines_from-finds acc y (suc left) c line lo hi on e seen =
      let test : ltb y h ≡ true = ground arith in
      elim (dec_lt y line) [
        | yes later ↦ rw test (
            lines_from-finds (add_line acc (line_at y)) (y + 1) left c line (omega arith)
              (omega arith) on (length-add_line acc y e) seen)
        | no here ↦
            let same : y ≡ line = omega arith in
            rw (test, same)
              (lines_from-keeps (add_line acc (line_at line)) (line + 1) left c (
                merge-right acc.tiles (line_at line).tiles c (length-line_at acc.tiles line e)
                    seen.0,
                omega (arith, seen.1),
              ))
      ]

  unfoldable pub tiles_row : ℕ → ℕ → Row
  tiles_row nv v =
      lines_from (no_tiles num_horizontal_tiles) (y_start h nv v)
        (y_start h nv (v + 1) - y_start h nv v)

  unfoldable pub rows_from : ℕ → ℕ → ℕ → List Row
  rows_from nv = compare_rows kept fresh w h nv num_horizontal_tiles

  pub length-rows_from : (nv v left : ℕ) → length (rows_from nv v left) ≡ left
  unfolding compare_rows rows_from
  length-rows_from nv v zero = refl
  length-rows_from nv v (suc left) = ap suc (length-rows_from nv (v + 1) left)

  pub rows_from-Fits : (nv v left : ℕ) → All Fits (rows_from nv v left)
  unfolding compare_rows rows_from lines_from
  rows_from-Fits nv v zero = tt
  rows_from-Fits nv v (suc left) = (
    λ busy. omega (
      arith,
      length-lines_from (no_tiles num_horizontal_tiles) (y_start h nv v)
          (y_start h nv (v + 1) - y_start h nv v) (length-replicate num_horizontal_tiles),
    ),
    rows_from-Fits nv (v + 1) left,
  )

  pub row_at-rows_from :
      (nv v left i : ℕ) → i < left → row_at (rows_from nv v left) i ≡ tiles_row nv (v + i)
  unfolding compare_rows rows_from tiles_row lines_from
  row_at-rows_from nv v zero i lt = absurd (omega arith)
  row_at-rows_from nv v (suc left) zero lt = let e : v + 0 ≡ v = omega arith in rw e refl
  row_at-rows_from nv v (suc left) (suc i) lt =
      let e : v + suc i ≡ v + 1 + i = omega arith in
      rw e (row_at-rows_from nv (v + 1) left i (omega arith))
