-- ===== src/Display/Compare/Copy.antt =====
-- src/display.c: `display_copy_image_into_fullscreen`, pixel by pixel.
use x11spice.Prelude.{
  ℕ, zero, suc, ◌+◌, ◌-◌, ◌*◌, ◌≤◌, ◌<◌, ◌≡◌, ◌∙◌, ap, Bool, true, false, ◌&&◌, ◌⊎◌, arith, ltb,
  leb, dec_lt, ◌==◌, if◌then◌else◌,
}
use x11spice.Display.Compare.{Pixels, copy_pixels, copy_lines, display_copy_image_into_fullscreen}

-- Rows of length W do not overlap: a pixel of another row is outside a stretch of this one.
scale : (a b l : ℕ) → a ≤ b → a * l ≤ b * l
scale a b l p = grind arith

module _ (W x w px : ℕ) (fits : x + w ≤ W) (on : px < W) where
  other_row_before : (r py : ℕ) → py < r → py * W + px < r * W + x
  other_row_before r py h = omega (arith, scale (py + 1) r W (omega arith))

  other_row_after : (r py : ℕ) → r < py → r * W + x + w ≤ py * W + px
  other_row_after r py h = omega (arith, scale (r + 1) py W (omega arith))

  -- One `memcpy` writes the pixels of its row between x and x + w.
  copy_one_row :
      (to from : Pixels) (i r j py : ℕ)
      → i ≡ r * W + x
      → copy_pixels to i from j w (py * W + px) ≡ (
          if (py == r) && (leb x px && ltb px (x + w))
          then from (j + (px - x))
          else to (py * W + px))
  unfolding copy_pixels
  copy_one_row to from i r j py e = elim (dec_lt py r) [
    | yes before ↦ ground (arith, other_row_before r py before)
    | no not_before ↦ elim (dec_lt r py) [
      | yes after ↦ ground (arith, other_row_after r py after)
      | no not_after ↦ let same : py ≡ r = omega arith in rw same (ground (arith, shift same))
    ]
  ]
    where
      shift : py ≡ r → x ≤ px → r * W + px - i ≡ px - x
      shift same le = omega arith

  -- The rows from `r` on, `left` of them, hold the pixel.
  copied : ℕ → ℕ → ℕ → Bool
  copied r left py = (leb r py && ltb py (r + left)) && (leb x px && ltb px (x + w))

  -- Where `py` lies against row `r`, of `suc left` rows.
  copied_before :
      (r left py : ℕ)
      → py < r
      → (copied r (suc left) py ≡ false) × (copied (r + 1) left py ≡ false) × ((py == r) ≡ false)
  unfolding copied
  copied_before r left py h = ground arith

  copied_here :
      (r left py : ℕ)
      → py ≡ r
      → (copied r (suc left) py ≡ (leb x px && ltb px (x + w)))
        × (copied (r + 1) left py ≡ false)
        × ((py == r) ≡ true)
  unfolding copied
  copied_here r left py h = ground arith

  copied_after :
      (r left py : ℕ)
      → r < py
      → (copied r (suc left) py ≡ copied (r + 1) left py) × ((py == r) ≡ false)
  unfolding copied
  copied_after r left py h = ground arith

  -- The two steps of the pixel index, in the row `r` and behind it.
  index_later :
      (j r py : ℕ) → r < py → j + w + (py - (r + 1)) * w + (px - x) ≡ j + (py - r) * w + (px - x)
  index_later j r py lt =
      let p : py - r ≡ py - (r + 1) + 1 = omega arith in omega (arith, ap (λ (n : ℕ). n * w) p)

  index_here : (j r py : ℕ) → py ≡ r → j + (py - r) * w + (px - x) ≡ j + (px - x)
  index_here j r py same =
      let p : py - r ≡ 0 = omega arith in omega (arith, ap (λ (n : ℕ). n * w) p)

  -- The pixel after row `r`, from what the rest of the loop makes of it.
  pixel_step :
      (to from : Pixels) (i r j py left value : ℕ)
      → i ≡ r * W + x
      → value ≡ (
          if copied (r + 1) left py
          then from (j + w + (py - (r + 1)) * w + (px - x))
          else copy_pixels to i from j w (py * W + px))
      → value
        ≡ (if copied r (suc left) py then from (j + (py - r) * w + (px - x)) else to (py * W + px))
  pixel_step to from i r j py left value e rest = elim (dec_lt py r) [
    | yes before ↦
        let (c, c', n) = copied_before r left py before in
        rw c ((rw c' at rest) ∙ (rw n at (copy_one_row to from i r j py e)))
    | no not_before ↦ elim (dec_lt r py) [
      | yes after ↦
          let (c, n) = copied_after r left py after in
          let kept : copy_pixels to i from j w (py * W + px) ≡ to (py * W + px) =
            rw n at (copy_one_row to from i r j py e) in
          rw (c, ← index_later j r py after, ← kept) rest
      | no not_after ↦
          let same : py ≡ r = omega arith in
          let (c, c', n) = copied_here r left py same in
          rw (c, index_here j r py same)
            ((rw c' at rest) ∙ (rw n at (copy_one_row to from i r j py e)))
    ]
  ]

  copy_lines-pixel :
      (to from : Pixels) (i r j py left : ℕ)
      → i ≡ r * W + x
      → copy_lines to W i from w j left (py * W + px)
        ≡ (if copied r left py then from (j + (py - r) * w + (px - x)) else to (py * W + px))
  unfolding copy_lines
  copy_lines-pixel to from i r j py zero e = rw (none_left r py)
    where
      none_left : (r py : ℕ) → copied r 0 py ≡ false
      none_left r py = unfold copied in ground arith
  copy_lines-pixel to from i r j py (suc left) e = pixel_step to from i r j py left _ e (
      copy_lines-pixel (copy_pixels to i from j w) from (i + W) (r + 1) (j + w) py left
        (omega arith))

-- After `display_copy_image_into_fullscreen` with an image that lies on the screen, the pixel at
-- (px, py) is that of the image where the image lies, and what it was everywhere else.
pub display_copy_image_into_fullscreen-pixel :
    (to from : Pixels) (W H w h x y px py : ℕ)
    → x + w ≤ W
    → y + h ≤ H
    → px < W
    → display_copy_image_into_fullscreen to W H from w h x y (py * W + px) ≡ (
        if (leb y py && ltb py (y + h)) && (leb x px && ltb px (x + w))
        then from ((py - y) * w + (px - x))
        else to (py * W + px))
unfolding display_copy_image_into_fullscreen copied
display_copy_image_into_fullscreen-pixel to from W H w h x y px py fits fits' on =
    ground (arith, copy_lines-pixel W x w px fits on to from (y * W + x) y 0 py h)

-- An image that would reach beyond the screen, as after a resize, changes nothing.
pub display_copy_image_into_fullscreen-refuses :
    (to from : Pixels) (W H w h x y : ℕ)
    → (W < x + w) ⊎ (H < y + h)
    → display_copy_image_into_fullscreen to W H from w h x y ≡ to
unfolding display_copy_image_into_fullscreen
display_copy_image_into_fullscreen-refuses to from W H w h x y out = ground arith
