-- ===== src/Display/Tests.antt =====
-- src/display.c at concrete inputs.
use mathlib.Core.List.{Perm}
use x11spice.Prelude.{
  ℕ, ◌+◌, ◌≤◌, ◌≡◌, refl, true, false, ◌⊎◌, none, some, List, [], ◌∷◌, ◌++◌, length,
}
use x11spice.Display.ShmCache.{ShmSegment, releases, shm_cache_get, shm_cache_add}
use x11spice.Display.ShmCache.Contents.{occupied}
use x11spice.Display.ShmCache.Get.{Fits, Smallest, shm_cache_get-best}
use x11spice.Display.ShmCache.Outcome.{Added, Replaced, all_releases, shm_cache_add-stores}
use x11spice.Display.Image.{ShmImage, Display, Answers, destroy_shm_image, free_drawable}
use x11spice.Display.Image.Laws.{destroy_shm_image-conserves}
use x11spice.Display.Screens.{
  err_noshm, display_create_screen_images, display_destroy_screen_images,
}
use x11spice.Display.Screens.Laws.{
  AllImages, NoImages, display_create_screen_images-all_or_none,
  display_destroy_screen_images-NoImages,
}

abbrev seg : ℕ → ℕ → ShmSegment
seg id size = record { shmid = some id; size = size; shmseg = id + 100; shmaddr = id + 200 }

abbrev hole : ShmSegment
hole = record { shmid = none; size = 0; shmseg = 0; shmaddr = 0 }

-- Two occupied entries and a free slot.
abbrev three : List ShmSegment
three = seg 1 8000 ∷ hole ∷ seg 2 5000 ∷ []

abbrev three_taken : List ShmSegment
three_taken = seg 1 8000 ∷ hole ∷ record (seg 2 5000) { shmid = none } ∷ []

shm_cache_get-best_example :
    Fits 4000 (seg 2 5000)
    × Smallest 4000 three (seg 2 5000)
    × Perm (occupied three) (seg 2 5000 ∷ occupied three_taken)
    × (length three_taken ≡ 3)
unfolding shm_cache_get
shm_cache_get-best_example = shm_cache_get-best three 4000 hole (seg 2 5000) three_taken refl

-- A full cache, whose smallest entry makes room.
abbrev two : List ShmSegment
two = seg 1 8000 ∷ seg 2 5000 ∷ []

abbrev two_after : List ShmSegment
two_after = seg 1 8000 ∷ seg 3 6000 ∷ []

shm_cache_add-stores_example :
    (length two_after ≡ 2)
    × (Added two (seg 3 6000) two_after (releases (seg 2 5000) 2)
        ⊎ Replaced two (seg 3 6000) two_after (releases (seg 2 5000) 2))
unfolding shm_cache_add
shm_cache_add-stores_example =
    shm_cache_add-stores two (seg 3 6000) two_after (releases (seg 2 5000) 2) refl refl

abbrev image : ℕ → ℕ → ShmImage
image id size = record {
  segment = seg id size;
  w = 10;
  h = 20;
  bytes_per_line = 40;
  drawable_ptr = some 77;
}

abbrev display : List ShmSegment → Display
display cache = record {
  formats = (1, 1) ∷ (24, 32) ∷ [];
  width = 64;
  height = 48;
  depth = 24;
  primary = none;
  fullscreen = none;
  scanline = none;
  shm_cache = cache;
  calls = [];
}

abbrev answers : ℕ → Answers
answers id = record {
  calloc = true;
  shm_id = λ _. some id;
  shm_addr = λ i. some (i + 200);
  xcb_id = id + 100;
  attached = true;
}

abbrev small_image : ShmImage
small_image = record {
  segment = seg 2 5000;
  w = 10;
  h = 20;
  bytes_per_line = 40;
  drawable_ptr = none;
}

destroy_shm_image-conserves_example :
    (released : List ShmSegment) × Perm
      (seg 3 6000 ∷ occupied two)
      (released ++ occupied (destroy_shm_image (display two) (image 3 6000)).shm_cache)
    × ((destroy_shm_image (display two) (image 3 6000)).calls
        ≡ [] ++ (all_releases released ++ free_drawable (image 3 6000)))
    × ((released ≡ []) ⊎ ((s : ShmSegment) × (released ≡ s ∷ []) × (s.size ≤ 6000)))
destroy_shm_image-conserves_example = destroy_shm_image-conserves (display two) (image 3 6000) refl

-- The third image cannot be allocated.
all_or_none_example :
    let (rc, d) =
      display_create_screen_images
        (answers 5)
        (answers 6)
        (record (answers 7) { calloc = false })
        (display three) in
    ((rc ≡ 0) × AllImages d) ⊎ ((rc ≡ err_noshm) × NoImages d)
all_or_none_example =
    display_create_screen_images-all_or_none (answers 5) (answers 6)
      (record (answers 7) { calloc = false }) (display three) (refl, refl, refl)

abbrev open_display : Display
open_display = record (display three) {
  primary = some (image 4 800);
  fullscreen = some (image 5 800);
  scanline = some (image 6 800);
}

display_destroy_screen_images-NoImages_example :
    NoImages (display_destroy_screen_images open_display)
display_destroy_screen_images-NoImages_example = display_destroy_screen_images-NoImages open_display
