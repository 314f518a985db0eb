-- ===== src/Display/Screens/Laws.antt =====
-- src/display.c: the screen's images stand or fall together, and what `display_close` leaves.
use mathlib.Core.List.{Perm}
use mathlib.Core.List.Perm
use x11spice.Prelude.{
  ℕ, ◌+◌, ◌≤◌, ◌<◌, ◌≡◌, refl, ◌∙◌, ap, true, false, ◌⊎◌, inl, inr, Bool, Option, none, some, List,
  [], ◌∷◌, ◌++◌, arith, length, Option-cases,
}
use x11spice.Display.ShmCache.{
  ShmSegment, SystemCall, is_empty, shm_cache_add, shm_cache_get, shm_cache_destroy,
}
use x11spice.Display.ShmCache.Contents.{occupied}
use x11spice.Display.ShmCache.Outcome.{all_releases, shm_cache_destroy-empties}
use x11spice.Display.ShmCache.Room.{length-perm, shm_cache_add-room}
use x11spice.Display.Image.{
  ShmImage, Display, Answers, create_shm_image, destroy_shm_image, keep_or_destroy, new_image,
  image_size, fill_image, allocate,
}
use x11spice.Display.Screens.{
  err_noshm, drop_primary, drop_fullscreen, drop_scanline, add_scanline, add_fullscreen,
  add_primary, display_create_screen_images, display_destroy_screen_images, display_close,
}

-- The three image pointers.
abbrev pub SamePointers : Display → Display → Type 0
SamePointers d d' =
    (d'.primary ≡ d.primary) × (d'.fullscreen ≡ d.fullscreen) × (d'.scanline ≡ d.scanline)

keep_or_destroy-SamePointers :
    (d : Display) (i : ShmImage) (got : Bool × List ShmSegment × List SystemCall)
    → SamePointers d (keep_or_destroy d i got)
unfolding keep_or_destroy
keep_or_destroy-SamePointers d i (true, cache, out) = (refl, refl, refl)
keep_or_destroy-SamePointers d i (false, cache, out) = (refl, refl, refl)

destroy_shm_image-SamePointers :
    (d : Display) (i : ShmImage) → SamePointers d (destroy_shm_image d i)
unfolding destroy_shm_image
destroy_shm_image-SamePointers d i =
    keep_or_destroy-SamePointers d i (shm_cache_add d.shm_cache i.segment)

fill_image-SamePointers :
    (os : Answers) (d : Display) (i : ShmImage) (got : Bool × ShmSegment × List ShmSegment)
    → SamePointers d (fill_image os d i got).1
unfolding fill_image allocate
fill_image-SamePointers os d i (true, s, cache) = (refl, refl, refl)
fill_image-SamePointers os d i (false, s, cache) = ground arith

pub create_shm_image-SamePointers :
    (os : Answers) (d : Display) (w h : ℕ) → SamePointers d (create_shm_image os d w h).1
unfolding create_shm_image
create_shm_image-SamePointers os d w h = ground (
  arith,
  fill_image-SamePointers os d (new_image d w h)
      (shm_cache_get d.shm_cache (image_size (new_image d w h)) (new_image d w h).segment),
)

drop_primary_pointers :
    (d : Display)
    → ((drop_primary d).primary ≡ none)
      × ((drop_primary d).fullscreen ≡ d.fullscreen)
      × ((drop_primary d).scanline ≡ d.scanline)
drop_primary_pointers d = elim (Option-cases d.primary) [
  | inl e ↦ ground arith
  | inr (i, e) ↦ ground (arith, destroy_shm_image-SamePointers d i)
]

drop_fullscreen_pointers :
    (d : Display)
    → ((drop_fullscreen d).primary ≡ d.primary)
      × ((drop_fullscreen d).fullscreen ≡ none)
      × ((drop_fullscreen d).scanline ≡ d.scanline)
drop_fullscreen_pointers d = elim (Option-cases d.fullscreen) [
  | inl e ↦ ground arith
  | inr (i, e) ↦ ground (arith, destroy_shm_image-SamePointers d i)
]

drop_scanline_pointers :
    (d : Display)
    → ((drop_scanline d).primary ≡ d.primary)
      × ((drop_scanline d).fullscreen ≡ d.fullscreen)
      × ((drop_scanline d).scanline ≡ none)
drop_scanline_pointers d = elim (Option-cases d.scanline) [
  | inl e ↦ ground arith
  | inr (i, e) ↦ ground (arith, destroy_shm_image-SamePointers d i)
]

-- Either all three images are there, or none.
abbrev pub AllImages : Display → Type 0
AllImages d =
    ((i : ShmImage) × (d.primary ≡ some i))
    × ((i : ShmImage) × (d.fullscreen ≡ some i))
    × ((i : ShmImage) × (d.scanline ≡ some i))

abbrev pub NoImages : Display → Type 0
NoImages d = (d.primary ≡ none) × (d.fullscreen ≡ none) × (d.scanline ≡ none)

-- After `display_destroy_screen_images` all three pointers are NULL.
pub display_destroy_screen_images-NoImages :
    (d : Display) → NoImages (display_destroy_screen_images d)
unfolding display_destroy_screen_images
display_destroy_screen_images-NoImages d =
    let (p₁, _, _) = drop_primary_pointers d in
    let (p₂, f₂, _) = drop_fullscreen_pointers (drop_primary d) in
    let (p₃, f₃, s₃) = drop_scanline_pointers (drop_fullscreen (drop_primary d)) in
    (p₃ ∙ p₂ ∙ p₁, f₃ ∙ f₂, s₃)

-- `display_create_screen_images`, on a display that has no images yet, either returns 0 with all
-- three images, or X11SPICE_ERR_NOSHM with none: what it had made by then is given up.
pub display_create_screen_images-all_or_none :
    (os os' os'' : Answers) (d : Display)
    → NoImages d
    → let (rc, d') = display_create_screen_images os os' os'' d in
      ((rc ≡ 0) × AllImages d') ⊎ ((rc ≡ err_noshm) × NoImages d')
unfolding display_create_screen_images
display_create_screen_images-all_or_none os os' os'' d h =
    primary (create_shm_image os d 0 0) (create_shm_image-SamePointers os d 0 0)
  where
    scanline :
        (got : Option ShmImage × Display)
        → ((i : ShmImage) × (got.1.primary ≡ some i))
        → ((i : ShmImage) × (got.1.fullscreen ≡ some i))
        → let (rc, d') = add_scanline got in
          ((rc ≡ 0) × AllImages d') ⊎ ((rc ≡ err_noshm) × NoImages d')
    scanline (some i, e) p f = inl (refl, (p, f, (i, refl)))
    scanline (none, e) p f =
        let e' : Display = record e { scanline = none } in
        let (p₁, _, s₁) = drop_primary_pointers e' in
        let (p₂, f₂, s₂) = drop_fullscreen_pointers (drop_primary e') in
        inr (refl, (p₂ ∙ p₁, f₂, s₂ ∙ s₁))

    fullscreen :
        (got : Option ShmImage × Display)
        → ((i : ShmImage) × (got.1.primary ≡ some i))
        → (got.1.scanline ≡ none)
        → let (rc, d') = add_fullscreen os'' got in
          ((rc ≡ 0) × AllImages d') ⊎ ((rc ≡ err_noshm) × NoImages d')
    fullscreen (some i, e) (j, p) s =
        let e' : Display = record e { fullscreen = some i } in
        let (p', f', _) = create_shm_image-SamePointers os'' e' 0 1 in
        scanline (create_shm_image os'' e' 0 1) (j, p' ∙ p) (i, f')
    fullscreen (none, e) (j, p) s =
        let (p', f', s') = drop_primary_pointers (record e { fullscreen = none }) in
        inr (refl, (p', f', s' ∙ s))

    primary :
        (got : Option ShmImage × Display)
        → SamePointers d got.1
        → let (rc, d') = add_primary os' os'' got in
          ((rc ≡ 0) × AllImages d') ⊎ ((rc ≡ err_noshm) × NoImages d')
    primary (some i, e) (_, _, s) =
        let e' : Display = record e { primary = some i } in
        let (p', _, s') = create_shm_image-SamePointers os' e' 0 0 in
        fullscreen (create_shm_image os' e' 0 0) (i, p') (s' ∙ s ∙ h.2)
    primary (none, e) (_, f, s) = inr (refl, (refl, f ∙ h.1, s ∙ h.2))

-- Closing a display whose images are gone leaves the cache empty and releases all that it held.
pub display_close-clean :
    (d : Display)
    → NoImages d
    → (occupied (display_close d).shm_cache ≡ [])
      × ((display_close d).calls ≡ d.calls ++ all_releases (occupied d.shm_cache))
unfolding display_close
display_close-clean d h = ground (arith, shm_cache_destroy-empties d.shm_cache)

-- What dropping one image does to a cache with room.
Kept : Display → ShmImage → Display → Type 0
Kept d i d' =
    Perm (i.segment ∷ occupied d.shm_cache) (occupied d'.shm_cache)
    × (length d'.shm_cache ≡ length d.shm_cache)

destroy_shm_image-Kept :
    (d : Display) (i : ShmImage)
    → is_empty i.segment ≡ false
    → length (occupied d.shm_cache) < length d.shm_cache
    → Kept d i (destroy_shm_image d i)
unfolding destroy_shm_image keep_or_destroy Kept
destroy_shm_image-Kept d i full room =
    let (cache, e, p, len) = shm_cache_add-room d.shm_cache i.segment room full in rw e (p, len)

-- Dropping a pointer does to the cache what destroying its image does.
drop_primary-Kept :
    (d : Display) (i : ShmImage)
    → d.primary ≡ some i
    → is_empty i.segment ≡ false
    → length (occupied d.shm_cache) < length d.shm_cache
    → Kept d i (drop_primary d)
unfolding Kept
drop_primary-Kept d i e full room =
    let (perm, len) = destroy_shm_image-Kept d i full room in
    let c : (drop_primary d).shm_cache ≡ (destroy_shm_image d i).shm_cache = ground arith in
    (rw c perm, rw c len)

drop_fullscreen-Kept :
    (d : Display) (i : ShmImage)
    → d.fullscreen ≡ some i
    → is_empty i.segment ≡ false
    → length (occupied d.shm_cache) < length d.shm_cache
    → Kept d i (drop_fullscreen d)
unfolding Kept
drop_fullscreen-Kept d i e full room =
    let (perm, len) = destroy_shm_image-Kept d i full room in
    let c : (drop_fullscreen d).shm_cache ≡ (destroy_shm_image d i).shm_cache = ground arith in
    (rw c perm, rw c len)

drop_scanline-Kept :
    (d : Display) (i : ShmImage)
    → d.scanline ≡ some i
    → is_empty i.segment ≡ false
    → length (occupied d.shm_cache) < length d.shm_cache
    → Kept d i (drop_scanline d)
unfolding Kept
drop_scanline-Kept d i e full room =
    let (perm, len) = destroy_shm_image-Kept d i full room in
    let c : (drop_scanline d).shm_cache ≡ (destroy_shm_image d i).shm_cache = ground arith in
    (rw c perm, rw c len)

-- Over a cache with three free slots the three images end in the cache.
display_destroy_screen_images-keeps :
    (d : Display) (p f s : ShmImage)
    → d.primary ≡ some p
    → d.fullscreen ≡ some f
    → d.scanline ≡ some s
    → is_empty p.segment ≡ false
    → is_empty f.segment ≡ false
    → is_empty s.segment ≡ false
    → length (occupied d.shm_cache) + 3 ≤ length d.shm_cache
    → Perm
        (s.segment ∷ f.segment ∷ p.segment ∷ occupied d.shm_cache)
        (occupied (display_destroy_screen_images d).shm_cache)
unfolding display_destroy_screen_images Kept
display_destroy_screen_images-keeps d p f s hp hf hs np nf ns room =
    let d₁ = drop_primary d in
    let d₂ = drop_fullscreen d₁ in
    let (_, f₁, s₁) = drop_primary_pointers d in
    let (_, _, s₂) = drop_fullscreen_pointers d₁ in
    let (p₁, l₁) = drop_primary-Kept d p hp np (omega arith) in
    let n₁ = length-perm p₁ in
    let (p₂, l₂) = drop_fullscreen-Kept d₁ f (f₁ ∙ hf) nf (omega arith) in
    let n₂ = length-perm p₂ in
    let (p₃, l₃) = drop_scanline-Kept d₂ s (s₂ ∙ s₁ ∙ hs) ns (omega arith) in
    Perm.trans (Perm.cons s.segment (Perm.trans (Perm.cons f.segment p₁) p₂)) p₃

-- Closing a display that still has its images leaves their three segments in the cache: they are
-- put there after the cache has been destroyed.
pub display_close-keeps_segments :
    (d : Display) (p f s : ShmImage)
    → d.primary ≡ some p
    → d.fullscreen ≡ some f
    → d.scanline ≡ some s
    → is_empty p.segment ≡ false
    → is_empty f.segment ≡ false
    → is_empty s.segment ≡ false
    → 3 ≤ length d.shm_cache
    → Perm (s.segment ∷ f.segment ∷ p.segment ∷ []) (occupied (display_close d).shm_cache)
unfolding display_close
display_close-keeps_segments d p f s hp hf hs np nf ns room =
    let (cache, out) = shm_cache_destroy d.shm_cache in
    let d' : Display = record d { shm_cache = cache; calls = d.calls ++ out } in
    let (none_left, _, len) = shm_cache_destroy-empties d.shm_cache in
    let n : length (occupied cache) ≡ 0 = ap length none_left in
    rw none_left at (display_destroy_screen_images-keeps d' p f s hp hf hs np nf ns (omega arith))
