-- ===== src/Display/Compare/Tests.antt =====
-- src/display.c: comparing and copying pixels at concrete inputs.
use x11spice.Prelude.{
  ◌+◌, ◌-◌, ◌*◌, ◌≡◌, ◌↔◌, refl, true, false, ◌&&◌, some, leb, ltb, get_or, arith, if◌then◌else◌,
}
use x11spice.Display.Compare.{
  Pixels, same, display_find_changed_tiles, display_copy_image_into_fullscreen,
}
use x11spice.Display.Compare.Laws.{TileEqual, display_find_changed_tiles-line}
use x11spice.Display.Compare.Copy.{display_copy_image_into_fullscreen-pixel}
use x11spice.Scan.Grow.Laws.{number}

abbrev black : Pixels
black k = 0

-- White from index 70 on.
abbrev edge : Pixels
edge k = if ltb k 70 then 0 else 1

display_find_changed_tiles-line_example :
    let (ret, tiles) = display_find_changed_tiles true black edge 100 0 32 in
    (ret ≡ some (number tiles))
    × ((get_or tiles 25 false ≡ false) ↔ TileEqual black edge 100 32 (0 * 100) 0 25)
display_find_changed_tiles-line_example =
    display_find_changed_tiles-line black edge 100 0 32 25 (omega arith)

-- Tiles of three pixels: tile 23 has the first white pixel.
first_changed_tile : get_or (display_find_changed_tiles true black edge 100 0 32).1 22 false ≡ false
unfolding display_find_changed_tiles same
first_changed_tile = refl

display_copy_image_into_fullscreen-pixel_example :
    display_copy_image_into_fullscreen black 40 30 edge 8 10 5 6 (15 * 40 + 12) ≡ (
      if (leb 6 15 && ltb 15 16) && (leb 5 12 && ltb 12 13)
      then edge ((15 - 6) * 8 + (12 - 5))
      else 0)
display_copy_image_into_fullscreen-pixel_example =
    display_copy_image_into_fullscreen-pixel black edge 40 30 8 10 5 6 12 15 (omega arith)
      (omega arith) (omega arith)
