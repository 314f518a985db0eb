-- ===== src/Scan/Draw/Laws.antt =====
-- src/scan.c: a report that can be read is drawn, and copied into what is kept of the screen; one
-- that cannot be gives its image back.
use mathlib.Core.List.{Perm, perm_append_singleton}
use mathlib.Core.List.Perm
use mathlib.Core.Path.{subst}
use x11spice.Prelude.{
  ℕ, ◌+◌, ◌-◌, ◌*◌, ◌≤◌, ◌<◌, ◌≡◌, refl, ap, Bool, true, false, ◌&&◌, ◌⊎◌, inl, inr, some, List, [],
  ◌∷◌, ◌++◌, append_assoc, append-nil, sym, ◌∙◌, Option, none, arith, leb, ltb, ◌==◌, if◌then◌else◌,
  Option-cases, Bool-cases, ==_of_ne,
}
use x11spice.Scan.Report.{ScanReport}
use x11spice.Scan.Draw.{
  Rect, Drawable, Scene, Drawing, drawable_of, shm_image_to_drawable, push_drawable, draw_image,
  handle_scan_report,
}
use x11spice.Spice.Release.{Release, release_shmi, release_memory, spice_create_release}
use x11spice.Display.Image.{ShmImage, Display, create_shm_image, destroy_shm_image}
use x11spice.Display.ShmCache.{ShmSegment, is_empty}
use x11spice.Display.ShmCache.Contents.{occupied}
use x11spice.Display.Image.Laws.{create_shm_image-segment, destroy_shm_image-conserves}
use x11spice.Display.Compare.Copy.{display_copy_image_into_fullscreen-pixel}

-- The rectangle of a report.
abbrev pub rect_of : ScanReport → Rect
rect_of r = record { left = r.x; top = r.y; right = r.x + r.w; bottom = r.y + r.h }

abbrev pub in_report : ScanReport → ℕ → ℕ → Bool
in_report r px py = (leb r.y py && ltb py (r.y + r.h)) && (leb r.x px && ltb px (r.x + r.w))

module _ (dr : Drawing) (s : Scene) (r : ScanReport) (i : ShmImage) (d : Display)
    (created : create_shm_image dr.os s.display r.w r.h ≡ (some i, d)) (wide : 0 < r.w)
    (high : 0 < r.h) where
  image_size_of : (i.w ≡ r.w) × (i.h ≡ r.h)
  image_size_of =
      let (w, h, _, _) = create_shm_image-segment dr.os s.display r.w r.h i d created in
      let w0 : (r.w == 0) ≡ false = ==_of_ne r.w 0 (λ e. omega arith) in
      let h0 : (r.h == 0) ≡ false = ==_of_ne r.h 0 (λ e. omega arith) in (rw w0 at w, rw h0 at h)

  -- A report on the screen whose image can be made, read and wrapped: a drawable for exactly its
  -- rectangle goes to the end of the queue, and of the copy of the screen exactly the pixels of the
  -- rectangle become those that were read.
  pub handle_scan_report-drawn :
      (drawable_at : ℕ)
      → dr.image.read_ok ≡ true
      → dr.calloc ≡ some drawable_at
      → r.x + r.w ≤ s.f.w
      → r.y + r.h ≤ s.f.h
      → let t = handle_scan_report dr s r in
        ((drawn : Drawable) × ((t.draw_queue ≡ s.draw_queue ++ drawn ∷ [])
            × (drawn.bbox ≡ rect_of r)))
        × ((px py : ℕ)
            → px < s.f.w
            → t.kept (py * s.f.w + px) ≡ (
                if in_report r px py
                then dr.image.pixels ((py - r.y) * r.w + (px - r.x))
                else s.kept (py * s.f.w + px)))
  unfolding handle_scan_report draw_image push_drawable shm_image_to_drawable drawable_of
  handle_scan_report-drawn drawable_at ok got on on' =
      let (w, h) = image_size_of in
      rw (created, ok, got)
        (
          (drawable_of dr.malloc i drawable_at r.x r.y, (refl, rw (w, h) refl)),
          λ px py lt.
              rw (w, h)
                (display_copy_image_into_fullscreen-pixel s.kept dr.image.pixels s.f.w s.f.h r.w r.h
                  r.x r.y px py on on' lt),
        )

-- The segment that a record gives back.
abbrev pub given_back : Option Release → List ShmSegment
given_back none = []
given_back (some (release_shmi i)) = i.segment ∷ []
given_back (some (release_memory p)) = []

-- The segments that the drawables in the queue give back once they are released.
abbrev pub queued : List Drawable → List ShmSegment
queued [] = []
queued (d ∷ ds) = given_back d.release ++ queued ds

queued-append : (ds es : List Drawable) → queued (ds ++ es) ≡ queued ds ++ queued es
queued-append [] es = refl
queued-append (d ∷ ds) es =
    ap (λ ss. given_back d.release ++ ss) (queued-append ds es)
    ∙ sym (append_assoc (given_back d.release) (queued ds) (queued es))

-- All the segments that the cache and the queue hold.
abbrev pub held : Scene → List ShmSegment
held s = occupied s.display.shm_cache ++ queued s.draw_queue

-- The segment `x` and those of `before` are those of `after` and at most one that was released.
abbrev pub Kept : ShmSegment → List ShmSegment → List ShmSegment → Type 0
Kept x before after =
    (released : List ShmSegment) × (Perm (x ∷ before) (released ++ after)
      × ((released ≡ []) ⊎ ((t : ShmSegment) × (released ≡ t ∷ []) × (t.size ≤ x.size))))

-- The drawable at the end of the queue shows the image's segment and gives nothing back, and neither
-- the queue nor the cache has got the segment.
abbrev pub IsLost : ShmImage → Scene → Display → Scene → Type 0
IsLost i s d t =
    ((drawn : Drawable) × ((t.draw_queue ≡ s.draw_queue ++ drawn ∷ [])
        × ((drawn.data_ptr ≡ i.segment.shmaddr) × (drawn.release ≡ none))))
    × (held t ≡ occupied d.shm_cache ++ queued s.draw_queue)

module _ (dr : Drawing) (r : ScanReport) (i : ShmImage) (full : is_empty i.segment ≡ false) where
  destroyed-Kept :
      (d : Display) (queue : List ShmSegment)
      → Kept i.segment
          (occupied d.shm_cache ++ queue)
          (occupied (destroy_shm_image d i).shm_cache ++ queue)
  destroyed-Kept d queue =
      let (released, perm, _, few) = destroy_shm_image-conserves d i full in
      (
        released,
        (
          subst (Perm (i.segment ∷ (occupied d.shm_cache ++ queue)))
              (append_assoc released (occupied (destroy_shm_image d i).shm_cache) queue)
              (Perm.append_right queue perm),
          few,
        ),
      )

  pushed-Kept :
      (d : Display) (queue : List Drawable) (drawn : Drawable)
      → given_back drawn.release ≡ i.segment ∷ []
      → Kept i.segment
          (occupied d.shm_cache ++ queued queue)
          (occupied d.shm_cache ++ queued (queue ++ drawn ∷ []))
  pushed-Kept d queue drawn e = (
    [],
    (
      rw (queued-append queue (drawn ∷ []), e)
          (subst (Perm (i.segment ∷ (occupied d.shm_cache ++ queued queue)))
            (append_assoc (occupied d.shm_cache) (queued queue) (i.segment ∷ []))
            (Perm.symm (perm_append_singleton i.segment (occupied d.shm_cache ++ queued queue)))),
      inl refl,
    ),
  )

  -- The image of a report, which has a segment, ends in the queue or is destroyed, whichever of the
  -- reading and the drawable fails: with what the cache and the queue held once it was made, the
  -- segment is in one of the two afterwards, but for one of at most its size that may have been
  -- released. Only where there is no memory for the record of the release, a drawable that gives
  -- nothing back is queued, and the segment is in neither.
  pub draw_image-Kept :
      (s : Scene) (d : Display)
      → let t = draw_image dr r s (some i, d) in
        Kept i.segment (occupied d.shm_cache ++ queued s.draw_queue) (held t)
        ⊎ ((dr.malloc ≡ false) × IsLost i s d t)
  unfolding draw_image push_drawable shm_image_to_drawable drawable_of spice_create_release
  draw_image-Kept s d = elim (Bool-cases dr.image.read_ok) [
    | inr failed ↦ inl (rw failed (destroyed-Kept d (queued s.draw_queue)))
    | inl ok ↦ elim (Option-cases dr.calloc) [
      | inl failed ↦ inl (rw (ok, failed) (destroyed-Kept d (queued s.draw_queue)))
      | inr (p, got) ↦ elim (Bool-cases dr.malloc) [
        | inl m ↦ inl (rw (ok, got, m) (pushed-Kept d s.draw_queue _ refl))
        | inr m ↦ inr (
          m,
          rw (ok, got, m)
              (
                (drawable_of false i p r.x r.y, (refl, (refl, refl))),
                ap (λ q. occupied d.shm_cache ++ q)
                    (queued-append s.draw_queue (drawable_of false i p r.x r.y ∷ [])
                      ∙ append-nil (queued s.draw_queue)),
              ),
        )
      ]
    ]
  ]
