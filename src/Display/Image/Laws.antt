-- ===== src/Display/Image/Laws.antt =====
-- src/display.c: `create_shm_image` and `destroy_shm_image` lose no segment, but for the failures
-- of a system call.
use mathlib.Core.List.{Perm}
use mathlib.Core.List.Perm
use x11spice.Prelude.{
  ℕ, ◌≤◌, ◌≡◌, refl, ◌⊎◌, inl, inr, true, false, some, List, [], ◌∷◌, ◌++◌, arith, Option-cases,
  ◌==◌, sym, ◌∙◌, Bool, Bool-cases, if◌then◌else◌, le_refl, append_assoc,
}
use x11spice.Display.ShmCache.{
  ShmSegment, SystemCall, shmget, shmat, shmctl_rmid, xcb_shm_attach, is_empty, shm_cache_get,
  shm_cache_add,
}
use x11spice.Display.ShmCache.Contents.{occupied}
use x11spice.Display.ShmCache.Get.{shm_cache_get-best}
use x11spice.Display.ShmCache.Outcome.{
  all_releases, all_releases-one, shm_cache_add-stores, shm_cache_add-refuses,
  shm_segment_destroy-releases,
}
use x11spice.Display.Image.{
  ShmImage, Display, Answers, new_image, image_size, fill_image, allocate, create_shm_image, log,
  free_drawable, keep_or_destroy, destroy_shm_image,
}

-- The image's segment came out of the cache.
pub Reused : Display → ShmImage → Display → Type 0
Reused d i d' =
    Perm (occupied d.shm_cache) (i.segment ∷ occupied d'.shm_cache) × (d'.calls ≡ d.calls)

-- The image's segment is new, of the exact size, and attached on both sides.
pub Allocated : Display → ShmImage → Display → Type 0
Allocated d i d' =
    (id : ℕ) × (i.segment.shmid ≡ some id)
    × (i.segment.size ≡ image_size i)
    × (d'.shm_cache ≡ d.shm_cache)
    × (d'.calls
        ≡ d.calls
          ++ shmget id
            ∷ shmat i.segment.shmaddr
            ∷ shmctl_rmid id
            ∷ xcb_shm_attach i.segment.shmseg id
            ∷ [])

allocate-Allocated :
    (os : Answers) (d : Display) (i j : ShmImage) (d' : Display)
    → allocate os d i ≡ (some j, d')
    → Allocated d j d' × (image_size j ≡ image_size i) × (j.w ≡ i.w) × (j.h ≡ i.h)
unfolding allocate Allocated
allocate-Allocated os d i j d' h = elim (Option-cases (os.shm_id (image_size i))) [
  | inl e ↦ ground arith
  | inr (id, e) ↦ elim (Option-cases (os.shm_addr id)) [
    | inl e' ↦ ground arith
    | inr (addr, e') ↦ (
      (id, ground arith, ground arith, ground arith, ground arith),
      ground arith,
      ground arith,
      ground arith,
    )
  ]
]

abbrev Filled : Display → ShmImage → ShmImage → Display → Type 0
Filled d i j d' =
    (j.w ≡ i.w) × (j.h ≡ i.h) × (image_size j ≤ j.segment.size) × (Reused d j d' ⊎ Allocated d j d')

fill_image-Filled :
    (os : Answers) (d : Display) (i j : ShmImage) (d' : Display)
    (got : Bool × ShmSegment × List ShmSegment)
    → shm_cache_get d.shm_cache (image_size i) i.segment ≡ got
    → fill_image os d i got ≡ (some j, d')
    → Filled d i j d'
unfolding fill_image Reused Allocated image_size
fill_image-Filled os d i j d' (true, s, cache) g h =
    let j' : ShmImage = record i { segment = s } in
    let d'' : Display = record d { shm_cache = cache } in
    let same_image : j' ≡ j = ground arith in
    let same_display : d'' ≡ d' = ground arith in
    let best = shm_cache_get-best d.shm_cache (image_size i) i.segment s cache g in
    rw (← same_image, ← same_display) (refl, refl, best.0.1, inl (best.2, refl))
fill_image-Filled os d i j d' (false, s, cache) g h =
    let (new, size, w, h') = allocate-Allocated os d i j d' h in
    (w, h', omega (arith, new.2), inr new)

-- An image that `create_shm_image` returns has the size asked for (the screen's where that is 0)
-- and a segment of at least its size, which is out of the cache or newly attached.
pub create_shm_image-segment :
    (os : Answers) (d : Display) (w h : ℕ) (i : ShmImage) (d' : Display)
    → create_shm_image os d w h ≡ (some i, d')
    → (i.w ≡ (if w == 0 then d.width else w))
      × (i.h ≡ (if h == 0 then d.height else h))
      × (image_size i ≤ i.segment.size)
      × (Reused d i d' ⊎ Allocated d i d')
unfolding create_shm_image
create_shm_image-segment os d w h i d' e = elim (Bool-cases os.calloc) [
  | inl c ↦ fill_image-Filled os d (new_image d w h) i d' _ refl (rw c at e)
  | inr c ↦ ground arith
]

-- The segment of a destroyed image goes to the cache, or it or another segment of the cache is
-- released, with the calls that release it: of the segments, none is lost and none is kept twice.
pub destroy_shm_image-conserves :
    (d : Display) (i : ShmImage)
    → is_empty i.segment ≡ false
    → (released : List ShmSegment) × Perm
        (i.segment ∷ occupied d.shm_cache)
        (released ++ occupied (destroy_shm_image d i).shm_cache)
      × ((destroy_shm_image d i).calls ≡ d.calls ++ (all_releases released ++ free_drawable i))
      × ((released ≡ []) ⊎ ((s : ShmSegment) × (released ≡ s ∷ []) × (s.size ≤ i.segment.size)))
unfolding destroy_shm_image
destroy_shm_image-conserves d i full = go (shm_cache_add d.shm_cache i.segment) refl
  where
    regroup :
        (released : List ShmSegment) (out : List SystemCall)
        → out ≡ all_releases released
        → d.calls ++ out ++ free_drawable i ≡ d.calls ++ (all_releases released ++ free_drawable i)
    regroup released out e = rw e (append_assoc d.calls (all_releases released) (free_drawable i))

    go :
        (got : Bool × List ShmSegment × List SystemCall)
        → shm_cache_add d.shm_cache i.segment ≡ got
        → (released : List ShmSegment) × Perm
            (i.segment ∷ occupied d.shm_cache)
            (released ++ occupied (log (keep_or_destroy d i got) (free_drawable i)).shm_cache)
          × ((log (keep_or_destroy d i got) (free_drawable i)).calls
              ≡ d.calls ++ (all_releases released ++ free_drawable i))
          × ((released ≡ []) ⊎ ((s : ShmSegment) × (released ≡ s ∷ []) × (s.size ≤ i.segment.size)))
    go (false, cache, out) e =
        let (_, kept, _) = shm_cache_add-refuses d.shm_cache i.segment cache out e in
        let (id, at_id, rel) = shm_segment_destroy-releases d.shm_cache i.segment i.segment full in
        (
          i.segment ∷ [],
          rw kept (Perm.refl _),
          regroup (i.segment ∷ []) _ (rel ∙ sym (all_releases-one i.segment id at_id)),
          inr (i.segment, refl, le_refl i.segment.size),
        )
    go (true, cache, out) e = elim (shm_cache_add-stores d.shm_cache i.segment cache out full e).1 [
      | inl (o, p) ↦ ([], p, regroup [] out o, inl refl)
      | inr (s, id, at_id, o, p, lt, _) ↦ (
        s ∷ [],
        p,
        regroup (s ∷ []) out (o ∙ sym (all_releases-one s id at_id)),
        inr (s, refl, omega arith),
      )
    ]
