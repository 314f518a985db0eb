-- ===== src/Spice/Release/Circulation.antt =====
-- src/display.c and src/spice.c: segments on their way through images and commands. Images are made
-- and the commands of images released in any order, so that others come and go in between.
use mathlib.Core.List.{Perm, perm_middle}
use mathlib.Core.List.Perm
use mathlib.Core.Path.{subst}
use x11spice.Prelude.{
  ℕ, ◌≤◌, ◌<◌, ◌≡◌, refl, ap, ◌∙◌, sym, Bool, true, false, inl, inr, Option, none, some, List, [],
  ◌∷◌, ◌++◌, arith, length, length-append, append_assoc, All, dec_lt, Option-cases, Bool-cases,
  if◌then◌else◌,
}
use x11spice.Display.ShmCache.{ShmSegment, is_empty, shm_cache_get}
use x11spice.Display.ShmCache.Contents.{occupied}
use x11spice.Display.ShmCache.Get.{shm_cache_get-best}
use x11spice.Display.ShmCache.Room.{length-perm, length-occupied-le}
use x11spice.Display.Image.{
  ShmImage, Display, Answers, new_image, image_size, fill_image, allocate, attach_image,
  create_shm_image, destroy_shm_image,
}
use x11spice.Spice.Release.{release_shmi, spice_free_release, release_resource}
use x11spice.Spice.Release.Laws.{destroy_shm_image-gives_back, destroy_shm_image-length}

-- The display, the images in use, and the segments that have been attached.
pub record Circulation : Type 0 where
  pub display : Display
  pub used : List ShmImage
  pub attached : List ShmSegment

-- Whether the cache has a segment for an image of this size.
unfoldable pub is_hit : Display → ℕ → ℕ → Bool
unfolding shm_cache_get
is_hit d w h =
    (shm_cache_get d.shm_cache (image_size (new_image d w h)) (new_image d w h).segment).0

abbrev pub took : Bool → Option ShmImage × Display → Circulation → Circulation
took hit (none, d) t = record t { display = d }
took hit (some i, d) t = record {
  display = d;
  used = i ∷ t.used;
  attached = if hit then t.attached else i.segment ∷ t.attached;
}

pub data Step (t : Circulation) : Circulation → Type 0 where
  create :
      (os : Answers) (w h : ℕ)
      → Step t (took (is_hit t.display w h) (create_shm_image os t.display w h) t)
  release :
      (before after : List ShmImage) (i : ShmImage) (drawable_ptr : Option ℕ)
      → t.used ≡ before ++ i ∷ after
      → Step t (record t {
        display =
            release_resource
              (some (release_shmi (record i { drawable_ptr = drawable_ptr })))
              t.display;
        used = before ++ after;
      })

-- From a display on whose images are not counted.
pub data Reach (start : Display) : Circulation → Type 0 where
  begin : Reach start (record { display = start; used = []; attached = [] })
  next : {t u : Circulation} → Reach start t → Step t u → Reach start u

abbrev pub segments : List ShmImage → List ShmSegment
segments [] = []
segments (i ∷ is) = i.segment ∷ segments is

segments-append : (is js : List ShmImage) → segments (is ++ js) ≡ segments is ++ segments js
segments-append [] js = refl
segments-append (i ∷ is) js = ap (λ ss. i.segment ∷ ss) (segments-append is js)

abbrev pub HasSegment : ShmImage → Type 0
HasSegment i = is_empty i.segment ≡ false

All-split :
    (is js : List ShmImage) (i : ShmImage)
    → All HasSegment (is ++ i ∷ js)
    → HasSegment i × All HasSegment (is ++ js)
All-split [] js i h = h
All-split (k ∷ is) js i (here, h) = let (mine, rest) = All-split is js i h in (mine, (here, rest))

-- An entry moved behind two lists.
inward : (x : ShmSegment) (a b c : List ShmSegment) → Perm (x ∷ (a ++ (b ++ c))) (a ++ (b ++ x ∷ c))
inward x a b c =
    Perm.trans (Perm.symm (perm_middle a (b ++ c)))
      (Perm.append_left a (Perm.symm (perm_middle b c)))

-- The segments in use, those in the cache and those that have left both are those attached since
-- `start` and those that its cache held; no more have left than were attached. The cache keeps its
-- slots, and each image in use has a segment.
abbrev pub IsConserved : Display → Circulation → Type 0
IsConserved start t =
    (released : List ShmSegment) × Perm
      (segments t.used ++ (released ++ occupied t.display.shm_cache))
      (t.attached ++ occupied start.shm_cache)
    × (length released ≤ length t.attached)
    × (length t.display.shm_cache ≡ length start.shm_cache)
    × All HasSegment t.used

-- The cache is as it was, and an image has a segment.
abbrev Attached : Display → Option ShmImage × Display → Type 0
Attached before made =
    (made.1.shm_cache ≡ before.shm_cache) × ((i : ShmImage) → made.0 ≡ some i → HasSegment i)

allocate-Attached : (os : Answers) (d : Display) (i : ShmImage) → Attached d (allocate os d i)
unfolding allocate attach_image
allocate-Attached os d i = elim (Option-cases (os.shm_id (image_size i))) [
  | inl e ↦ rw (allocate, e) (refl, λ j h. absurd (ground arith))
  | inr (id, e) ↦ elim (Option-cases (os.shm_addr id)) [
    | inl e' ↦ rw (allocate, e, e') (refl, λ j h. absurd (ground arith))
    | inr (addr, e') ↦ rw (allocate, e, e') (refl, λ j h. ground arith)
  ]
]

segments-out :
    (before after : List ShmImage) (i : ShmImage)
    → Perm (i.segment ∷ segments (before ++ after)) (segments (before ++ i ∷ after))
segments-out before after i =
    rw (segments-append before after, segments-append before (i ∷ after))
      (Perm.symm (perm_middle (segments before) (segments after)))

-- One more released, where the cache is full, is one that was attached.
few_released :
    (left released given cache attached held : List ShmSegment) (x : ShmSegment) (slots : ℕ)
    → length (left ++ (released ++ x ∷ cache)) ≡ length (attached ++ held)
    → length released ≤ length attached
    → length given ≤ 1
    → (length cache < slots → given ≡ [])
    → length held ≤ slots
    → length (released ++ given) ≤ length attached
few_released left released given cache attached held x slots e few one room fits =
    elim (dec_lt (length cache) slots) [
      | yes free ↦ rw (room free) (omega (arith, length-append released []))
      | no crowded ↦ omega (
        arith,
        length-append left (released ++ x ∷ cache),
        length-append released (x ∷ cache),
        length-append attached held,
        length-append released given,
      )
    ]

module _ (start : Display) where
  allocate-IsConserved :
      (t : Circulation) (made : Option ShmImage × Display)
      → Attached t.display made
      → IsConserved start t
      → IsConserved start (took false made t)
  allocate-IsConserved t (none, d) (same, has) (released, perm, few, len, full) =
      rw same (released, perm, few, len, full)
  allocate-IsConserved t (some i, d) (same, has) (released, perm, few, len, full) =
      rw same (released, Perm.cons i.segment perm, omega (arith, few), len, (has i refl, full))

  -- An image made, with what the cache has answered.
  filled-IsConserved :
      (t : Circulation) (os : Answers) (i : ShmImage) (got : Bool × ShmSegment × List ShmSegment)
      → shm_cache_get t.display.shm_cache (image_size i) i.segment ≡ got
      → IsConserved start t
      → IsConserved start (took got.0 (fill_image os t.display i got) t)
  unfolding fill_image
  filled-IsConserved t os i (true, s, cache) e (released, perm, few, len, full) =
      let (fits, _, taken, len') =
        shm_cache_get-best t.display.shm_cache (image_size i) i.segment s cache e in
      (
        released,
        Perm.trans (inward s (segments t.used) released (occupied cache)) (
            Perm.trans
              (Perm.append_left (segments t.used) (Perm.append_left released (Perm.symm taken)))
              perm),
        few,
        len' ∙ len,
        (fits.0, full),
      )
  filled-IsConserved t os i (false, s, cache) e h =
      allocate-IsConserved t (allocate os t.display i) (allocate-Attached os t.display i) h

  create-IsConserved :
      (t : Circulation) (os : Answers) (w h : ℕ)
      → IsConserved start t
      → IsConserved start (took (is_hit t.display w h) (create_shm_image os t.display w h) t)
  unfolding is_hit create_shm_image
  create-IsConserved t os w h c = elim (Bool-cases os.calloc) [
    | inr failed ↦ rw failed c
    | inl got ↦ rw got (filled-IsConserved t os (new_image t.display w h) _ refl c)
  ]

  release-IsConserved :
      (t : Circulation) (before after : List ShmImage) (i : ShmImage) (drawable_ptr : Option ℕ)
      → t.used ≡ before ++ i ∷ after
      → IsConserved start t
      → IsConserved start (record t {
        display =
            release_resource
              (some (release_shmi (record i { drawable_ptr = drawable_ptr })))
              t.display;
        used = before ++ after;
      })
  unfolding release_resource spice_free_release
  release-IsConserved t before after i p e (released, perm, few, len, full) =
      let j : ShmImage = record i { drawable_ptr = p } in
      let (mine, rest) = All-split before after i (subst (All HasSegment) e full) in
      let (given, back, one, room) = destroy_shm_image-gives_back t.display j mine in
      let cache = (destroy_shm_image t.display j).shm_cache in
      let left = segments (before ++ after) in
      let out : Perm (i.segment ∷ left) (segments t.used) =
        subst (λ is. Perm (i.segment ∷ left) (segments is)) (sym e) (segments-out before after i) in
      let all : Perm (left ++ (released ++ i.segment ∷ occupied t.display.shm_cache))
          (t.attached ++ occupied start.shm_cache) =
        Perm.trans (Perm.symm (inward i.segment left released (occupied t.display.shm_cache)))
          (Perm.trans (Perm.append_right (released ++ occupied t.display.shm_cache) out) perm) in
      (
        released ++ given,
        Perm.trans
            (subst (λ ss. Perm (left ++ ss) (left ++ (released ++ (given ++ occupied cache))))
              (sym (append_assoc released given (occupied cache))) (Perm.refl _))
            (Perm.trans (Perm.append_left left (Perm.append_left released (Perm.symm back))) all),
        few_released left released given (occupied t.display.shm_cache) t.attached
            (occupied start.shm_cache) i.segment (length t.display.shm_cache) (length-perm all) few
            one room (omega (arith, length-occupied-le start.shm_cache, len)),
        destroy_shm_image-length t.display j mine ∙ len,
        rest,
      )

  -- From any display on, while images are made, by reusing segments or by attaching new ones, and
  -- the commands of images are released in any order: the segments in use, those in the cache and
  -- those that have left both are exactly those attached for images since and those that the cache
  -- held at the start. No more have left than were attached, so that none is lost while segments are
  -- only reused; the cache keeps its slots, and each image in use has a segment.
  pub Reach-IsConserved : {t : Circulation} → Reach start t → IsConserved start t
  Reach-IsConserved begin = ([], Perm.refl _, omega arith, refl, tt)
  Reach-IsConserved (next {t} reached (create os w h)) =
      create-IsConserved t os w h (Reach-IsConserved reached)
  Reach-IsConserved (next {t} reached (release before after i p e)) =
      release-IsConserved t before after i p e (Reach-IsConserved reached)
