-- ===== src/Scan/Draw.antt =====
-- src/scan.c: `handle_scan_report` and `shm_image_to_drawable`, by which a report becomes a drawable
-- in the session's queue.
pub mod Laws
pub mod Sample
mod Tests
use x11spice.Prelude.{
  ℕ, ◌+◌, Bool, true, false, Option, none, some, List, [], ◌∷◌, ◌++◌, if◌then◌else◌,
}
use x11spice.Scan.Report.{ScanReport}
use x11spice.Scan.Periodic.{Line}
use x11spice.Display.Image.{ShmImage, Display, Answers, create_shm_image, destroy_shm_image}
use x11spice.Spice.Release.{Release, release_shmi, spice_create_release}
use x11spice.Display.Compare.{Pixels, display_copy_image_into_fullscreen}

pub record Rect : Type 0 where
  pub left : ℕ
  pub top : ℕ
  pub right : ℕ
  pub bottom : ℕ

-- `QXLDrawable` with its image, without the fields that are the same for all. `release` is
-- `release_info.id`: the record that `spice_create_release` makes, or 0 where there is no memory.
pub record Drawable : Type 0 where
  pub release : Option Release
  pub bbox : Rect
  pub src_area : Rect
  pub width : ℕ
  pub height : ℕ
  pub stride : ℕ
  pub data_ptr : ℕ

-- `drawable_at` is where `calloc` puts the drawable, which the image remembers. `malloc` says whether
-- there is memory for the record of the release, which the source does not test.
unfoldable pub drawable_of : Bool → ShmImage → ℕ → ℕ → ℕ → Drawable
unfolding spice_create_release
drawable_of malloc i drawable_at x y = record {
  release =
      spice_create_release malloc (release_shmi (record i { drawable_ptr = some drawable_at }));
  bbox = record { left = x; top = y; right = x + i.w; bottom = y + i.h };
  src_area = record { left = 0; top = 0; right = i.w; bottom = i.h };
  width = i.w;
  height = i.h;
  stride = i.bytes_per_line;
  data_ptr = i.segment.shmaddr;
}

unfoldable pub shm_image_to_drawable : Option ℕ → Bool → ShmImage → ℕ → ℕ → Option Drawable
unfolding drawable_of
shm_image_to_drawable none malloc i x y = none
shm_image_to_drawable (some drawable_at) malloc i x y = some (drawable_of malloc i drawable_at x y)

-- What a report changes: the display, the pixels that `d->fullscreen` keeps (`f` gives its size),
-- and the session's queue of drawables.
pub record Scene : Type 0 where
  pub display : Display
  pub f : ShmImage
  pub kept : Pixels
  pub draw_queue : List Drawable

-- What the system answers while a report is handled: `calloc` for the drawable, `malloc` for the
-- record of its release.
pub record Drawing : Type 0 where
  pub os : Answers
  pub image : Line
  pub calloc : Option ℕ
  pub malloc : Bool

abbrev pub copy_image : Scene → ShmImage → Pixels → ScanReport → Scene
copy_image s i fresh r = record s {
  kept = display_copy_image_into_fullscreen s.kept s.f.w s.f.h fresh i.w i.h r.x r.y;
}

-- What follows `shm_image_to_drawable`.
unfoldable pub push_drawable : Option Drawable → ShmImage → Scene → Scene
push_drawable none i s = record s { display = destroy_shm_image s.display i }
push_drawable (some d) i s = record s { draw_queue = s.draw_queue ++ d ∷ [] }

-- What follows `create_shm_image`.
unfoldable pub draw_image : Drawing → ScanReport → Scene → Option ShmImage × Display → Scene
unfolding push_drawable shm_image_to_drawable display_copy_image_into_fullscreen destroy_shm_image
draw_image dr r s (none, d) = record s { display = d }
draw_image dr r s (some i, d) =
    let s' : Scene = record s { display = d } in
    let copied = copy_image s' i dr.image.pixels r in
    if dr.image.read_ok
    then push_drawable (shm_image_to_drawable dr.calloc dr.malloc i r.x r.y) i copied
    else record s' { display = destroy_shm_image d i }

unfoldable pub handle_scan_report : Drawing → Scene → ScanReport → Scene
unfolding draw_image create_shm_image
handle_scan_report dr s r = draw_image dr r s (create_shm_image dr.os s.display r.w r.h)
