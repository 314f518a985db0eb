-- ===== src/Spice/Release/Tests.antt =====
-- src/spice.c: segments that go round at concrete images.
use x11spice.Prelude.{◌≡◌, refl, true, none, some, [], ◌∷◌}
use x11spice.Display.ShmCache.{shm_cache_get}
use x11spice.Display.Image.{ShmImage, Answers, image_size, create_shm_image}
use x11spice.Scan.Draw.Sample.{segment, image, display}
use x11spice.Spice.Release.{release_shmi, release_resource}
use x11spice.Spice.Release.Circulation.{
  Circulation, Reach, begin, next, create, release, IsConserved, took, is_hit, Reach-IsConserved,
}

abbrev answers : Answers
answers = record {
  calloc = true;
  shm_id = λ _. some 8;
  shm_addr = λ _. some 9;
  xcb_id = 10;
  attached = true;
}

abbrev fresh : Circulation
fresh = record { display = display (segment ∷ []); used = []; attached = [] }

-- An image takes the cached segment, another one a new segment.
abbrev one : Circulation
one = took (is_hit fresh.display 20 16) (create_shm_image answers fresh.display 20 16) fresh

abbrev two : Circulation
two = took (is_hit one.display 10 10) (create_shm_image answers one.display 10 10) one

two_used : Reach fresh.display two
two_used = next (next begin (create answers 20 16)) (create answers 10 10)

-- The newer image.
abbrev newer : ShmImage
newer = record {
  segment = record { shmid = some 8; size = 400; shmseg = 10; shmaddr = 9 };
  w = 10;
  h = 10;
  bytes_per_line = 40;
  drawable_ptr = none;
}

-- Then the command of the older image is released, before that of the newer one.
abbrev three : Circulation
three = record two {
  display =
      release_resource (some (release_shmi (record (image 20 16) { drawable_ptr = some 99 })))
        two.display;
  used = newer ∷ [];
}

three_used : Reach fresh.display three
unfolding is_hit create_shm_image shm_cache_get image_size
three_used = next two_used (release (newer ∷ []) [] (image 20 16) (some 99) refl)

Reach-IsConserved_example : IsConserved fresh.display three
Reach-IsConserved_example = Reach-IsConserved fresh.display three_used

one_new : two.attached ≡ (record { shmid = some 8; size = 400; shmseg = 10; shmaddr = 9 } ∷ [])
unfolding is_hit create_shm_image shm_cache_get image_size
one_new = refl
