-- ===== src/Scan/Draw/Tests.antt =====
-- src/scan.c: a report drawn, at concrete inputs.
use x11spice.Prelude.{
  ℕ, ◌+◌, ◌-◌, ◌*◌, ◌<◌, ◌≡◌, refl, false, ◌⊎◌, none, some, [], ◌∷◌, ◌++◌, arith, if◌then◌else◌,
}
use x11spice.Scan.Draw.{Drawing, Drawable, draw_image, handle_scan_report}
use x11spice.Scan.Draw.Sample.{segment, image, display, scene, drawing, report}
use x11spice.Scan.Draw.Laws.{
  rect_of, in_report, queued, held, Kept, IsLost, handle_scan_report-drawn, draw_image-Kept,
}
use x11spice.Display.ShmCache.{ShmSegment}
use x11spice.Display.ShmCache.Contents.{occupied}
use x11spice.Display.Image.{create_shm_image}

abbrev taken : ShmSegment
taken = record segment { shmid = none }

handle_scan_report-drawn_example :
    let t = handle_scan_report drawing scene report in
    ((drawn : Drawable) × ((t.draw_queue ≡ [] ++ drawn ∷ []) × (drawn.bbox ≡ rect_of report)))
    × ((px py : ℕ)
        → px < 64
        → t.kept (py * 64 + px) ≡ (if in_report report px py then (py - 8) * 20 + (px - 10) else 0))
unfolding create_shm_image
handle_scan_report-drawn_example =
    handle_scan_report-drawn drawing scene report (image 20 16) (display (taken ∷ [])) refl
      (omega arith) (omega arith) 99 refl refl (omega arith) (omega arith)

-- There is memory for the drawable, but not for the record of its release.
draw_image-Kept_example :
    let failing : Drawing = record drawing { malloc = false } in
    let t = draw_image failing report scene (some (image 20 16), display (taken ∷ [])) in
    Kept segment (occupied (taken ∷ []) ++ queued []) (held t)
    ⊎ ((false ≡ false) × IsLost (image 20 16) scene (display (taken ∷ [])) t)
draw_image-Kept_example =
    let failing : Drawing = record drawing { malloc = false } in
    draw_image-Kept failing report (image 20 16) refl scene (display (taken ∷ []))
