-- ===== src/Scan/Periodic/Lines.antt =====
-- src/scan.c: the rows that the loop of `scanner_periodic` fills in, where every line can be read.
use x11spice.Prelude.{
  ℕ, zero, suc, ◌+◌, ◌*◌, ◌<◌, ◌≡◌, refl, Bool, true, false, some, List, [], ◌∷◌, arith, leb,
  if◌then◌else◌, All, length, replicate, Bool-cases, inl, inr, ap,
}
use x11spice.Scan.{num_scanlines, num_horizontal_tiles}
use x11spice.Scan.Grow.{Row}
use x11spice.Scan.Spans.Laws.{row_at}
use x11spice.Scan.Spans.Grid.{Fits}
use x11spice.Scan.Periodic.{Line, find_row, find_rows}
use x11spice.Display.Compare.{Pixels, compare_line, compare_tiles, display_find_changed_tiles}

pub length-replicate : (n : ℕ) → length (replicate n false) ≡ n
length-replicate zero = refl
length-replicate (suc n) = ap suc (length-replicate n)

length-compare_tiles :
    (kept fresh : Pixels) (w across i old new left : ℕ)
    → length (compare_tiles kept fresh w across i old new left).tiles ≡ left
unfolding compare_tiles
length-compare_tiles kept fresh w across i old new zero = refl
length-compare_tiles kept fresh w across i old new (suc left) =
    ap suc (length-compare_tiles kept fresh w across (i + 1) _ _ left)

pub length-compare_line :
    (kept fresh : Pixels) (w across old new : ℕ)
    → length (compare_line kept fresh w across old new).tiles ≡ across
unfolding compare_line
length-compare_line kept fresh w across old new =
    ground
      (arith, length-replicate across, length-compare_tiles kept fresh w across 0 old new across)

-- The row found at line `y`.
abbrev pub line_row : (ℕ → Line) → Pixels → ℕ → ℕ → List Bool → ℕ → Row
line_row lines kept w h stale y =
    if leb h y
    then record { changed = 0; tiles = stale }
    else compare_line kept (lines y).pixels w num_horizontal_tiles (y * w) 0

abbrev pub line_rows : (ℕ → Line) → Pixels → ℕ → ℕ → List Bool → ℕ → ℕ → List Row
line_rows lines kept w h stale y zero = []
line_rows lines kept w h stale y (suc left) =
    line_row lines kept w h stale y ∷ line_rows lines kept w h stale (y + num_scanlines) left

-- Every line of the screen can be read.
abbrev pub Readable : (ℕ → Line) → ℕ → Type 0
Readable lines h = (y : ℕ) → y < h → (lines y).read_ok ≡ true

module _ (lines : ℕ → Line) (kept : Pixels) (w h : ℕ) (stale : List Bool) where
  find_row-line_row :
      (y : ℕ)
      → Readable lines h
      → find_row lines kept w h stale y ≡ some (line_row lines kept w h stale y)
  unfolding find_row display_find_changed_tiles
  find_row-line_row y ok = elim (Bool-cases (leb h y)) [
    | inl beyond ↦ rw beyond refl
    | inr on ↦ rw (on, ok y (ground arith)) refl
  ]

  pub find_rows-line_rows :
      (y left : ℕ)
      → Readable lines h
      → find_rows lines kept w h stale y left ≡ some (line_rows lines kept w h stale y left)
  unfolding find_rows
  find_rows-line_rows y zero ok = refl
  find_rows-line_rows y (suc left) ok =
      rw (find_row-line_row y ok, find_rows-line_rows (y + num_scanlines) left ok) refl

  pub length-line_rows : (y left : ℕ) → length (line_rows lines kept w h stale y left) ≡ left
  length-line_rows y zero = refl
  length-line_rows y (suc left) = ap suc (length-line_rows (y + num_scanlines) left)

  pub line_row-on_screen :
      (y : ℕ)
      → y < h
      → line_row lines kept w h stale y
        ≡ compare_line kept (lines y).pixels w num_horizontal_tiles (y * w) 0
  line_row-on_screen y on = let test : leb h y ≡ false = ground arith in rw test refl

  line_row-Fits : (y : ℕ) → Fits (line_row lines kept w h stale y)
  line_row-Fits y busy =
      ground (arith, length-compare_line kept (lines y).pixels w num_horizontal_tiles (y * w) 0)

  pub line_rows-Fits : (y left : ℕ) → All Fits (line_rows lines kept w h stale y left)
  line_rows-Fits y zero = tt
  line_rows-Fits y (suc left) = (line_row-Fits y, line_rows-Fits (y + num_scanlines) left)

  pub row_at-line_rows :
      (y left r : ℕ)
      → r < left
      → row_at (line_rows lines kept w h stale y left) r
        ≡ line_row lines kept w h stale (y + r * num_scanlines)
  row_at-line_rows y zero r lt = absurd (omega arith)
  row_at-line_rows y (suc left) zero lt =
      let e : y + 0 * num_scanlines ≡ y = omega arith in rw e refl
  row_at-line_rows y (suc left) (suc r) lt =
      let e : y + suc r * num_scanlines ≡ y + num_scanlines + r * num_scanlines = omega arith in
      rw e (row_at-line_rows (y + num_scanlines) left r (omega arith))
