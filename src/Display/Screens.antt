-- ===== src/Display/Screens.antt =====
-- src/display.c: the three images that the display keeps for the screen, made and destroyed.
pub mod Laws
use x11spice.Prelude.{ℕ, ◌++◌, Option, none, some}
use x11spice.Display.ShmCache.{shm_cache_destroy}
use x11spice.Display.Image.{ShmImage, Display, Answers, create_shm_image, destroy_shm_image}

-- `X11SPICE_ERR_NOSHM`
abbrev pub err_noshm : ℕ
err_noshm = 6

abbrev pub drop_primary : Display → Display
drop_primary d = elim d.primary [
  | none ↦ d
  | some i ↦ record (destroy_shm_image d i) { primary = none }
]

abbrev pub drop_fullscreen : Display → Display
drop_fullscreen d = elim d.fullscreen [
  | none ↦ d
  | some i ↦ record (destroy_shm_image d i) { fullscreen = none }
]

abbrev pub drop_scanline : Display → Display
drop_scanline d = elim d.scanline [
  | none ↦ d
  | some i ↦ record (destroy_shm_image d i) { scanline = none }
]

-- The end of `display_create_screen_images`: the scanline image, or both others are given up.
pub add_scanline : Option ShmImage × Display → ℕ × Display
add_scanline (some i, d) = (0, record d { scanline = some i })
add_scanline (none, d) = (err_noshm, drop_fullscreen (drop_primary (record d { scanline = none })))

pub add_fullscreen : Answers → Option ShmImage × Display → ℕ × Display
unfolding add_scanline create_shm_image
add_fullscreen os (some i, d) =
    let d' : Display = record d { fullscreen = some i } in add_scanline (create_shm_image os d' 0 1)
add_fullscreen os (none, d) = (err_noshm, drop_primary (record d { fullscreen = none }))

pub add_primary : Answers → Answers → Option ShmImage × Display → ℕ × Display
unfolding add_fullscreen create_shm_image
add_primary os os' (some i, d) =
    let d' : Display = record d { primary = some i } in
    add_fullscreen os' (create_shm_image os d' 0 0)
add_primary os os' (none, d) = (err_noshm, record d { primary = none })

-- One `Answers` for each of the three calls of `create_shm_image`.
unfoldable pub display_create_screen_images : Answers → Answers → Answers → Display → ℕ × Display
unfolding add_primary create_shm_image
display_create_screen_images os os' os'' d = add_primary os' os'' (create_shm_image os d 0 0)

unfoldable pub display_destroy_screen_images : Display → Display
display_destroy_screen_images d = drop_scanline (drop_fullscreen (drop_primary d))

-- The shared memory part of `display_close`, in its order: the cache goes first.
unfoldable pub display_close : Display → Display
unfolding display_destroy_screen_images shm_cache_destroy
display_close d =
    let (cache, out) = shm_cache_destroy d.shm_cache in
    let d' : Display = record d { shm_cache = cache; calls = d.calls ++ out } in
    display_destroy_screen_images d'
