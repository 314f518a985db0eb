-- ===== src/Session/Resize/Sizes.antt =====
-- src/display.c: the size of the display and that of its primary image.
use x11spice.Prelude.{
  ℕ, ◌≡◌, refl, sym, subst, ◌∙◌, Bool, true, false, Option, none, some, inl, inr, List, arith,
  Option-cases,
}
use x11spice.Display.ShmCache.{ShmSegment, shm_cache_get, shm_cache_add, SystemCall}
use x11spice.Display.Image.{
  ShmImage, Display, Answers, create_shm_image, destroy_shm_image, new_image, image_size,
  fill_image, allocate, attach_image, keep_or_destroy,
}
use x11spice.Display.Image.Laws.{create_shm_image-segment}
use x11spice.Display.Screens.{
  drop_primary, drop_fullscreen, drop_scanline, add_scanline, add_fullscreen, add_primary,
  display_create_screen_images, display_destroy_screen_images,
}
use x11spice.Display.Screens.Laws.{create_shm_image-SamePointers}

-- Two displays of one size.
abbrev pub SameSize : Display → Display → Type 0
SameSize d d' = (d'.width ≡ d.width) × (d'.height ≡ d.height)

size_after_both : (a b c : Display) → SameSize a b → SameSize b c → SameSize a c
size_after_both a b c (w, h) (w', h') = (w' ∙ w, h' ∙ h)

attach_image-SameSize :
    (os : Answers) (d : Display) (i : ShmImage) (s : ShmSegment) (id : ℕ)
    → SameSize d (attach_image os d i s id).1
unfolding attach_image
attach_image-SameSize os d i s id = (refl, refl)

fill_image-SameSize :
    (os : Answers) (d : Display) (i : ShmImage) (got : Bool × ShmSegment × List ShmSegment)
    → SameSize d (fill_image os d i got).1
unfolding fill_image allocate
fill_image-SameSize os d i (true, s, cache) = (refl, refl)
fill_image-SameSize os d i (false, s, cache) = ground arith

create_shm_image-SameSize :
    (os : Answers) (d : Display) (w h : ℕ) → SameSize d (create_shm_image os d w h).1
unfolding create_shm_image
create_shm_image-SameSize os d w h = ground (
  arith,
  fill_image-SameSize os d (new_image d w h)
      (shm_cache_get d.shm_cache (image_size (new_image d w h)) (new_image d w h).segment),
)

keep_or_destroy-SameSize :
    (d : Display) (i : ShmImage) (got : Bool × List ShmSegment × List SystemCall)
    → SameSize d (keep_or_destroy d i got)
unfolding keep_or_destroy
keep_or_destroy-SameSize d i (true, cache, out) = (refl, refl)
keep_or_destroy-SameSize d i (false, cache, out) = (refl, refl)

destroy_shm_image-SameSize : (d : Display) (i : ShmImage) → SameSize d (destroy_shm_image d i)
unfolding destroy_shm_image
destroy_shm_image-SameSize d i = keep_or_destroy-SameSize d i (shm_cache_add d.shm_cache i.segment)

drop_primary-SameSize : (d : Display) → SameSize d (drop_primary d)
drop_primary-SameSize d = elim (Option-cases d.primary) [
  | inl e ↦ ground arith
  | inr (i, e) ↦ ground (arith, destroy_shm_image-SameSize d i)
]

drop_fullscreen-SameSize : (d : Display) → SameSize d (drop_fullscreen d)
drop_fullscreen-SameSize d = elim (Option-cases d.fullscreen) [
  | inl e ↦ ground arith
  | inr (i, e) ↦ ground (arith, destroy_shm_image-SameSize d i)
]

drop_scanline-SameSize : (d : Display) → SameSize d (drop_scanline d)
drop_scanline-SameSize d = elim (Option-cases d.scanline) [
  | inl e ↦ ground arith
  | inr (i, e) ↦ ground (arith, destroy_shm_image-SameSize d i)
]

display_destroy_screen_images-SameSize :
    (d : Display) → SameSize d (display_destroy_screen_images d)
unfolding display_destroy_screen_images
display_destroy_screen_images-SameSize d =
    let p = drop_primary d in
    let f = drop_fullscreen p in
    size_after_both d f (drop_scanline f)
      (size_after_both d p f (drop_primary-SameSize d) (drop_fullscreen-SameSize p))
      (drop_scanline-SameSize f)

-- The primary image is there, of the size of the display.
abbrev pub PrimaryFits : Display → Type 0
PrimaryFits d = (i : ShmImage) × (d.primary ≡ some i) × (i.w ≡ d.width) × (i.h ≡ d.height)

fits-after :
    (d d' : Display) → d'.primary ≡ d.primary → SameSize d d' → PrimaryFits d → PrimaryFits d'
fits-after d d' same (w, h) (i, e, e', e'') = (i, same ∙ e, e' ∙ sym w, e'' ∙ sym h)

-- Making the images of the screen, where it succeeds, keeps the size and fits the primary image.
pub created-Fits :
    (os os' os'' : Answers) (d : Display)
    → (display_create_screen_images os os' os'' d).0 ≡ 0
    → SameSize d (display_create_screen_images os os' os'' d).1
      × PrimaryFits (display_create_screen_images os os' os'' d).1
unfolding display_create_screen_images
created-Fits os os' os'' d = primary (create_shm_image os d 0 0) refl
  where
    scanline :
        (got : Option ShmImage × Display)
        → SameSize d got.1
        → PrimaryFits got.1
        → (add_scanline got).0 ≡ 0
        → SameSize d (add_scanline got).1 × PrimaryFits (add_scanline got).1
    scanline (some i, e) size fits ok = (size, fits)
    scanline (none, e) size fits ok = absurd (omega (arith, ok))

    fullscreen :
        (got : Option ShmImage × Display)
        → SameSize d got.1
        → PrimaryFits got.1
        → (add_fullscreen os'' got).0 ≡ 0
        → SameSize d (add_fullscreen os'' got).1 × PrimaryFits (add_fullscreen os'' got).1
    fullscreen (some i, e) size fits =
        let e' : Display = record e { fullscreen = some i } in
        let kept = create_shm_image-SameSize os'' e' 0 1 in
        scanline (create_shm_image os'' e' 0 1)
          (size_after_both d e' (create_shm_image os'' e' 0 1).1 size kept)
          (fits-after e' (create_shm_image os'' e' 0 1).1
            (create_shm_image-SamePointers os'' e' 0 1).0 kept fits)
    fullscreen (none, e) size fits = λ ok. absurd (omega (arith, ok))

    primary :
        (got : Option ShmImage × Display)
        → create_shm_image os d 0 0 ≡ got
        → (add_primary os' os'' got).0 ≡ 0
        → SameSize d (add_primary os' os'' got).1 × PrimaryFits (add_primary os' os'' got).1
    primary (some i, e) got =
        let e' : Display = record e { primary = some i } in
        let first : SameSize d e =
          subst (λ g. SameSize d g.1) got (create_shm_image-SameSize os d 0 0) in
        let made = create_shm_image-segment os d 0 0 i e got in
        let kept = create_shm_image-SameSize os' e' 0 0 in
        fullscreen (create_shm_image os' e' 0 0)
          (size_after_both d e' (create_shm_image os' e' 0 0).1 first kept)
          (fits-after e' (create_shm_image os' e' 0 0).1
            (create_shm_image-SamePointers os' e' 0 0).0 kept
            (i, refl, made.0 ∙ sym first.0, made.1 ∙ sym first.1))
    primary (none, e) got = λ ok. absurd (omega (arith, ok))
