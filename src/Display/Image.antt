-- ===== src/Display/Image.antt =====
-- src/display.c and display.h: images in shared memory, and the three that the display keeps.
-- The state is `display_t`, as far as these functions use it, with the calls made so far.

pub mod Laws
use x11spice.Prelude.{
  ℕ, ◌*◌, ◌/◌, ◌%◌, ◌^◌, Bool, true, false, Option, none, some, List, [], ◌∷◌, ◌++◌, ◌==◌,
  if◌then◌else◌,
}
use x11spice.Display.ShmCache.{
  ShmSegment, SystemCall, shmget, shmat, shmctl_rmid, xcb_shm_attach, free, shm_segment_destroy,
  shm_cache_get, shm_cache_add,
}

-- `shm_image_t`; `drawable_ptr` is `none` for NULL.
pub record ShmImage : Type 0 where
  pub segment : ShmSegment
  pub w : ℕ
  pub h : ℕ
  pub bytes_per_line : ℕ
  pub drawable_ptr : Option ℕ

-- `display_t`. `formats` are the pixmap formats of the connection, as (depth, bits per pixel).
pub record Display : Type 0 where
  pub formats : List (ℕ × ℕ)
  pub width : ℕ
  pub height : ℕ
  pub depth : ℕ
  pub primary : Option ShmImage
  pub fullscreen : Option ShmImage
  pub scanline : Option ShmImage
  pub shm_cache : List ShmSegment
  pub calls : List SystemCall

-- What the system answers during one `create_shm_image`.
pub record Answers : Type 0 where
  pub calloc : Bool
  pub shm_id : ℕ → Option ℕ
  pub shm_addr : ℕ → Option ℕ
  pub xcb_id : ℕ
  pub attached : Bool

abbrev pub u32 : ℕ → ℕ
u32 n = n % 2 ^ 32

-- The loop of `bits_per_pixel` over the formats.
unfoldable pub bits_per_pixel : List (ℕ × ℕ) → ℕ → ℕ
bits_per_pixel [] depth = 0
bits_per_pixel ((d, bpp) ∷ rest) depth = if d == depth then bpp else bits_per_pixel rest depth

abbrev pub empty_segment : ShmSegment
empty_segment = record { shmid = some 0; size = 0; shmseg = 0; shmaddr = 0 }

-- The image before it has a segment: `calloc`, then the three fields. Products are `unsigned`.
unfoldable pub new_image : Display → ℕ → ℕ → ShmImage
unfolding bits_per_pixel
new_image d w h =
    let w' = if w == 0 then d.width else w in
    record {
      segment = empty_segment;
      w = w';
      h = if h == 0 then d.height else h;
      bytes_per_line = u32 (bits_per_pixel d.formats d.depth / 8 * w');
      drawable_ptr = none;
    }

unfoldable pub image_size : ShmImage → ℕ
image_size i = u32 (i.bytes_per_line * i.h)

abbrev pub log : Display → List SystemCall → Display
log d out = record d { calls = d.calls ++ out }

-- The attach that ends `create_shm_image`. Where it fails, nothing is given back.
unfoldable pub attach_image :
    Answers → Display → ShmImage → ShmSegment → ℕ → Option ShmImage × Display
attach_image os d i s id = (
  if os.attached then some (record i { segment = s }) else none,
  log d (shmget id ∷ shmat s.shmaddr ∷ shmctl_rmid id ∷ xcb_shm_attach s.shmseg id ∷ []),
)

-- A new segment: `shmget`, `shmat`, `shmctl`, then the attach to the X server.
unfoldable pub allocate : Answers → Display → ShmImage → Option ShmImage × Display
unfolding attach_image image_size
allocate os d i = elim (os.shm_id (image_size i)) [
  | none ↦ (none, d)
  | some id ↦ elim (os.shm_addr id) [
    | none ↦ (none, log d (shmget id ∷ []))
    | some addr ↦
        attach_image os d i
          (record { shmid = some id; size = image_size i; shmseg = os.xcb_id; shmaddr = addr }) id
  ]
]

-- The cache is asked first.
unfoldable pub fill_image :
    Answers → Display → ShmImage → Bool × ShmSegment × List ShmSegment → Option ShmImage × Display
fill_image os d i (true, s, cache) =
    (some (record i { segment = s }), record d { shm_cache = cache })
fill_image os d i (false, s, cache) = allocate os d i

unfoldable pub create_shm_image : Answers → Display → ℕ → ℕ → Option ShmImage × Display
unfolding new_image image_size fill_image allocate shm_cache_get
create_shm_image os d w h =
    let i = new_image d w h in
    if os.calloc
    then fill_image os d i (shm_cache_get d.shm_cache (image_size i) i.segment)
    else (none, d)

abbrev pub free_drawable : ShmImage → List SystemCall
free_drawable i = elim i.drawable_ptr [ none ↦ [] | some p ↦ free p ∷ [] ]

-- Keeps the segment in the cache, or destroys it.
unfoldable pub keep_or_destroy :
    Display → ShmImage → Bool × List ShmSegment × List SystemCall → Display
unfolding shm_segment_destroy
keep_or_destroy d i (true, cache, out) = record d { shm_cache = cache; calls = d.calls ++ out }
keep_or_destroy d i (false, cache, out) = record d {
  shm_cache = cache;
  calls = d.calls ++ (shm_segment_destroy i.segment).1;
}

unfoldable pub destroy_shm_image : Display → ShmImage → Display
unfolding keep_or_destroy shm_cache_add
destroy_shm_image d i =
    log (keep_or_destroy d i (shm_cache_add d.shm_cache i.segment)) (free_drawable i)
