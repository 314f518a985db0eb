-- ===== src/Scan/Thread/Exit.antt =====
-- src/scan.c: the scanner's thread ends once its exit report is reached, whatever is pushed meanwhile.
use x11spice.Prelude.{
  ◌<◌, ◌≡◌, refl, sym, ap, subst, Bool, true, false, ◌⊎◌, inl, inr, none, some, List, [], ◌∷◌, ◌++◌,
  append_assoc, arith, length, Bool-cases,
}
use x11spice.Prelude.Int.{ℤ}
use x11spice.Scan.Report.{
  ScanType, ScanReport, damage_scan_report, scanline_scan_report, exit_scan_report,
  fullscreen_scan_request,
}
use x11spice.Scan.Pixman.{Pixman}
use x11spice.Scan.Queue.{
  Scanner, is_area, is_true, box_of, enqueue, push_to, scanner_push, scanner_remove_region, pop,
  pop_from,
}
use x11spice.Scan.{num_horizontal_tiles}
use x11spice.Scan.Report.{vertical_tiles}
use x11spice.Scan.Periodic.{push_all, scan_full_screen, whole_reports}
use x11spice.Display.Image.{ShmImage, Display, Answers}
use x11spice.Display.Compare.{Pixels, display_scan_whole_screen}
use x11spice.Scan.Thread.{
  Tick, State, push_others, on_request, on_area, on_report, on_pop, run_once, scanner_run,
}

module _ (P : Pixman) where
  open P use {Region}

  -- The queue begins with these reports.
  abbrev pub HasPrefix : List ScanReport → Scanner Region → Type 0
  HasPrefix q s = (rest : List ScanReport) × (s.queue ≡ some (q ++ rest))

  enqueue-HasPrefix :
      (s : Scanner Region) (q rest : List ScanReport) (r : ScanReport)
      → s.queue ≡ some (q ++ rest)
      → HasPrefix q (enqueue P s (q ++ rest) r)
  unfolding enqueue
  enqueue-HasPrefix s q rest r e = elim (Bool-cases (is_area r.type)) [
    | inr other ↦ rw other (rest ++ r ∷ [], ap some (append_assoc q rest (r ∷ [])))
    | inl area ↦ elim (Bool-cases (is_true (P.contains_rectangle s.region (box_of r)))) [
      | inl seen ↦ rw (area, seen) (rest, e)
      | inr fresh ↦ rw (area, fresh) (rest ++ r ∷ [], ap some (append_assoc q rest (r ∷ [])))
    ]
  ]

  push_to-HasPrefix :
      (malloc : Bool) (s : Scanner Region) (q rest : List ScanReport) (r : ScanReport)
      → s.queue ≡ some (q ++ rest)
      → HasPrefix q (push_to P (some (q ++ rest)) malloc s r).1
  unfolding push_to
  push_to-HasPrefix true s q rest r e = enqueue-HasPrefix s q rest r e
  push_to-HasPrefix false s q rest r e = (rest, e)

  -- A push leaves what is in the queue.
  scanner_push-HasPrefix :
      (malloc : Bool) (s : Scanner Region) (q : List ScanReport) (r : ScanReport)
      → HasPrefix q s
      → HasPrefix q (scanner_push P malloc s r).1
  unfolding scanner_push
  scanner_push-HasPrefix malloc s q r (rest, e) =
      subst (λ queue. HasPrefix q (push_to P queue malloc s r).1) (sym e)
        (push_to-HasPrefix malloc s q rest r e)

  push_all-HasPrefix :
      (malloc : ScanReport → Bool) (q rs : List ScanReport) (s : Scanner Region)
      → HasPrefix q s
      → HasPrefix q (push_all P malloc s rs)
  unfolding push_all
  push_all-HasPrefix malloc q [] s h = h
  push_all-HasPrefix malloc q (r ∷ rs) s h =
      push_all-HasPrefix malloc q rs (scanner_push P (malloc r) s r).1
        (scanner_push-HasPrefix (malloc r) s q r h)

  scan_full_screen-HasPrefix :
      (malloc : ScanReport → Bool) (os : Answers) (ok : Bool) (kept fresh : Pixels) (f : ShmImage)
      (d : Display) (s : Scanner Region) (q : List ScanReport)
      → HasPrefix q s
      → HasPrefix q (scan_full_screen P malloc os ok kept fresh f d s).0
  unfolding scan_full_screen
  scan_full_screen-HasPrefix malloc os ok kept fresh f d s q h =
      let whole =
        display_scan_whole_screen os ok kept fresh f d (vertical_tiles f.h) num_horizontal_tiles in
      push_all-HasPrefix malloc q (whole_reports f.w f.h whole.ret whole.rows) s h

module _ (P : Pixman) (fps : ℤ) where
  open P use {Region}

  push_others-HasPrefix :
      (q : List ScanReport) (rs : List (Bool × ScanReport)) (s : Scanner Region)
      → HasPrefix P q s
      → HasPrefix P q (push_others P fps s rs)
  unfolding push_others
  push_others-HasPrefix q [] s h = h
  push_others-HasPrefix q ((malloc, r) ∷ rs) s h =
      push_others-HasPrefix q rs (scanner_push P malloc s r).1
        (scanner_push-HasPrefix P malloc s q r h)

  -- What an iteration does with a report at the head of the queue.
  on_report-HasPrefix :
      (tick : Tick) (r : ScanReport) (type : ScanType) (s : State Region) (q : List ScanReport)
      → HasPrefix P q s.scanner
      → (on_report P fps tick r type s ≡ none)
        ⊎ ((t : State Region) × ((on_report P fps tick r type s ≡ some t)
              × HasPrefix P q t.scanner))
  unfolding on_report on_request on_area scanner_remove_region
  on_report-HasPrefix tick r exit_scan_report s q h = inl refl
  on_report-HasPrefix tick r fullscreen_scan_request s q h = inr (
    on_request P fps tick s,
    (
      refl,
      scan_full_screen-HasPrefix P tick.malloc tick.drawing.os tick.screen.read_ok s.scene.kept
          tick.screen.pixels s.scene.f s.scene.display s.scanner q h,
    ),
  )
  on_report-HasPrefix tick r damage_scan_report s q h = inr (on_area P fps tick r s, (refl, h))
  on_report-HasPrefix tick r scanline_scan_report s q h = inr (on_area P fps tick r s, (refl, h))

  pop_head :
      (s : Scanner Region) (r : ScanReport) (q : List ScanReport)
      → HasPrefix P (r ∷ q) s
      → (t : Scanner Region) × ((pop P s ≡ some (r, t)) × HasPrefix P q t)
  unfolding pop pop_from
  pop_head s r q (rest, e) =
      (record s { queue = some (q ++ rest) }, (ap (λ queue. pop_from P queue s) e, (rest, refl)))

  run_once-HasPrefix :
      (tick : Tick) (s : State Region) (r : ScanReport) (q : List ScanReport)
      → HasPrefix P (r ∷ q) s.scanner
      → (run_once P fps tick s ≡ none)
        ⊎ ((t : State Region) × ((run_once P fps tick s ≡ some t) × HasPrefix P q t.scanner))
  unfolding run_once on_pop
  run_once-HasPrefix tick s r q h = elim (Bool-cases tick.alive) [
    | inr ended ↦ rw ended (inl refl)
    | inl alive ↦
        let pushed = push_others-HasPrefix (r ∷ q) tick.pushes s.scanner h in
        let (t, (popped, left)) = pop_head (push_others P fps s.scanner tick.pushes) r q pushed in
        rw (alive, popped) (on_report-HasPrefix tick r r.type (record s { scanner = t }) q left)
  ]

  run_once-exit :
      (tick : Tick) (s : State Region) (r : ScanReport) (q : List ScanReport)
      → HasPrefix P (r ∷ q) s.scanner
      → r.type ≡ exit_scan_report
      → run_once P fps tick s ≡ none
  unfolding run_once on_pop on_report
  run_once-exit tick s r q h e = elim (Bool-cases tick.alive) [
    | inr ended ↦ rw ended refl
    | inl alive ↦
        let pushed = push_others-HasPrefix (r ∷ q) tick.pushes s.scanner h in
        let (t, (popped, left)) = pop_head (push_others P fps s.scanner tick.pushes) r q pushed in
        rw (alive, popped, e) refl
  ]

  -- Once an exit report is queued behind `q`, the thread ends within one iteration more than `q` has
  -- reports, whatever other threads push and whatever the system answers.
  pub scanner_run-exits :
      (ticks : List Tick) (s : State Region) (q : List ScanReport) (last : ScanReport)
      → last.type ≡ exit_scan_report
      → HasPrefix P (q ++ last ∷ []) s.scanner
      → length q < length ticks
      → scanner_run P fps ticks s ≡ none
  unfolding scanner_run
  scanner_run-exits [] s q last e h lt = absurd (omega arith)
  scanner_run-exits (tick ∷ ticks) s [] last e h lt = rw (run_once-exit tick s last [] h e) refl
  scanner_run-exits (tick ∷ ticks) s (r ∷ q) last e h lt =
      elim (run_once-HasPrefix tick s r (q ++ last ∷ []) h) [
        | inl ended ↦ rw ended refl
        | inr (t, (went, left)) ↦ rw went (scanner_run-exits ticks t q last e left (omega arith))
      ]
