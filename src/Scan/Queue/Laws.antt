-- ===== src/Scan/Queue/Laws.antt =====
-- src/scan.c: the region of the scanner is what its queue still has to report, so that a report
-- inside the region can be discarded; and what is lost where it only overlaps the region.
use x11spice.Prelude.{
  ℕ, ◌+◌, ◌^◌, ◌<◌, ◌≡◌, ◌≢◌, refl, Bool, true, false, ◌⊎◌, inl, inr, Option, none, some, List, [],
  ◌∷◌, ◌++◌, arith, Bool-cases,
}
use x11spice.Scan.Report.{ScanReport}
use x11spice.Scan.Pixman.{Pixman, InBox, InRect, Overlap, out, part, whole}
use x11spice.Scan.Queue.{
  Scanner, box_of, is_true, is_area, enqueue, push_to, scanner_push, scanner_remove_region, pop,
  pop_from, scanner_create,
}

abbrev pub InReport : ScanReport → ℕ → ℕ → Type 0
InReport r px py = InRect r.x r.y r.w r.h px py

-- One of the reports has the point.
abbrev pub Reported : List ScanReport → ℕ → ℕ → Type 0
Reported [] px py = ⊥
Reported (r ∷ q) px py = InReport r px py ⊎ Reported q px py

pub Reported-append_left :
    (q q' : List ScanReport) (px py : ℕ) → Reported q px py → Reported (q ++ q') px py
Reported-append_left (r ∷ q) q' px py (inl h) = inl h
Reported-append_left (r ∷ q) q' px py (inr h) = inr (Reported-append_left q q' px py h)
Reported-append_left [] q' px py h = absurd h

pub Reported-append_last :
    (q : List ScanReport) (r : ScanReport) (px py : ℕ)
    → InReport r px py
    → Reported (q ++ r ∷ []) px py
Reported-append_last [] r px py h = inl h
Reported-append_last (r' ∷ q) r px py h = inr (Reported-append_last q r px py h)

pub Overlap-cases : (o : Overlap) → (o ≡ out) ⊎ ((o ≡ part) ⊎ (o ≡ whole))
Overlap-cases out = inl refl
Overlap-cases part = inr (inl refl)
Overlap-cases whole = inr (inr refl)

-- Coordinates that a box can hold.
abbrev pub IsSmall : ScanReport → Type 0
IsSmall r = (r.x + r.w < 2 ^ 15) × (r.y + r.h < 2 ^ 15)

pub box_of-InBox :
    (r : ScanReport) (px py : ℕ) → IsSmall r → InReport r px py → InBox (box_of r) px py
box_of-InBox r px py small h = omega arith

module _ (P : Pixman) where
  open P use {Region, Has}

  -- Each point of the region is in a report that is still in the queue.
  abbrev pub IsTracked : Scanner Region → Type 0
  IsTracked s =
      (q : List ScanReport) → s.queue ≡ some q → (px py : ℕ) → Has s.region px py → Reported q px py

  pub scanner_create-IsTracked : IsTracked (scanner_create P)
  unfolding scanner_create
  scanner_create-IsTracked q e px py h = absurd (P.has-empty px py h)

  enqueue-IsTracked :
      (s : Scanner Region) (q : List ScanReport) (r : ScanReport)
      → s.queue ≡ some q
      → IsTracked s
      → IsTracked (enqueue P s q r)
  unfolding enqueue
  enqueue-IsTracked s q r e t = elim (Bool-cases (is_area r.type)) [
    | inr other ↦ rw other (λ q' e' px py h.
        let same : q ++ r ∷ [] ≡ q' = ground arith in
        rw same at (Reported-append_left q (r ∷ []) px py (t q e px py h)))
    | inl area ↦ elim (Bool-cases (is_true (P.contains_rectangle s.region (box_of r)))) [
      | inl seen ↦ rw (area, seen) t
      | inr fresh ↦
          rw (area, fresh)
            (λ q' e' px py h.
              let same : q ++ r ∷ [] ≡ q' = ground arith in
              rw same at (added px py (P.has-union_rect s.region r.x r.y r.w r.h px py h)))
    ]
  ]
    where
      added : (px py : ℕ) → Has s.region px py ⊎ InReport r px py → Reported (q ++ r ∷ []) px py
      added px py (inl h) = Reported-append_left q (r ∷ []) px py (t q e px py h)
      added px py (inr h) = Reported-append_last q r px py h

  -- A push keeps that.
  pub scanner_push-IsTracked :
      (malloc : Bool) (s : Scanner Region) (r : ScanReport)
      → IsTracked s
      → IsTracked (scanner_push P malloc s r).1
  unfolding scanner_push
  scanner_push-IsTracked malloc s r t = go malloc s.queue refl
    where
      go :
          (malloc : Bool) (q : Option (List ScanReport))
          → s.queue ≡ q
          → IsTracked (push_to P q malloc s r).1
      go malloc none e = t
      go false (some q) e = t
      go true (some q) e = enqueue-IsTracked s q r e t

  pub pop-some :
      (s t : Scanner Region) (r : ScanReport) (queue : Option (List ScanReport))
      → s.queue ≡ queue
      → pop_from P queue s ≡ some (r, t)
      → (rest : List ScanReport) × (s.queue ≡ some (r ∷ rest))
        × (t.queue ≡ some rest)
        × (t.region ≡ s.region)
  unfolding pop_from
  pop-some s t r none at e = cc
  pop-some s t r (some []) at e = cc
  pop-some s t r (some (r' ∷ rest)) at e = (rest, ground arith, ground arith, ground arith)

  -- What the thread does with a report of an area: the rest of the queue still holds the region.
  pub remove_region-IsTracked :
      (s t : Scanner Region) (r : ScanReport)
      → IsTracked s
      → pop P s ≡ some (r, t)
      → IsTracked (scanner_remove_region P t r)
  unfolding pop scanner_remove_region
  remove_region-IsTracked s t r track e q at px py h =
      let (rest, before, after, same) = pop-some s t r s.queue refl e in
      let (in_region, outside) = P.has-subtract t.region (P.init_rect r.x r.y r.w r.h) px py h in
      let same_rest : rest ≡ q = ground arith in
      elim (track (r ∷ rest) before px py (rw same at in_region)) [
        | inl mine ↦ absurd (outside (P.has-init_rect r.x r.y r.w r.h px py mine))
        | inr later ↦ rw same_rest at later
      ]

  -- Unless the report's rectangle only partly lies in the region, all of it is in the queue after
  -- a push that returns 0.
  pub scanner_push-Reported :
      (s : Scanner Region) (q : List ScanReport) (r : ScanReport)
      → IsTracked s
      → IsSmall r
      → s.queue ≡ some q
      → P.contains_rectangle s.region (box_of r) ≢ part
      → ((scanner_push P true s r).0 ≡ 0)
        × (q' : List ScanReport) × ((scanner_push P true s r).1.queue ≡ some q')
        × ((px py : ℕ) → InReport r px py → Reported q' px py)
  unfolding scanner_push
  scanner_push-Reported s q r track small e not_part = elim (Bool-cases (is_area r.type)) [
    | inr other ↦ rw e (refl, q ++ r ∷ [], ground arith, Reported-append_last q r)
    | inl area ↦ elim (Overlap-cases (P.contains_rectangle s.region (box_of r))) [
      | inl is_out ↦ rw e (refl, q ++ r ∷ [], ground arith, Reported-append_last q r)
      | inr (inl is_part) ↦ absurd (not_part is_part)
      | inr (inr is_whole) ↦ rw e (
        refl,
        q,
        ground arith,
        λ px py h.
            track q e px py
              (P.contains_whole s.region (box_of r) px py is_whole (box_of-InBox r px py small h)),
      )
    ]
  ]

  -- A report of an area that partly overlaps the region is discarded, although the call returns 0:
  -- neither the queue nor the region is changed.
  pub scanner_push-drops_overlap :
      (s : Scanner Region) (q : List ScanReport) (r : ScanReport)
      → s.queue ≡ some q
      → is_area r.type ≡ true
      → P.contains_rectangle s.region (box_of r) ≡ part
      → scanner_push P true s r ≡ (0, s)
  unfolding scanner_push
  scanner_push-drops_overlap s q r e area overlap = ground arith
