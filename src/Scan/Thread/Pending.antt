-- ===== src/Scan/Thread/Pending.antt =====
-- src/scan.c: the scanner's thread and the threads that push, interleaved in any order at the
-- granularity of the scanner's lock. The thread pops a report, then takes its rectangle out of the
-- region, and only then reads it: between the two, others may push.
use x11spice.Prelude.{
  ℕ, ◌≡◌, ◌≢◌, refl, sym, subst, Bool, true, false, inl, inr, some, List, [], ◌∷◌, ◌++◌,
  append_assoc, arith, All, Bool-cases,
}
use x11spice.Prelude.Int.{ℤ}
use x11spice.Scan.Report.{ScanReport}
use x11spice.Scan.Pixman.{Pixman, part}
use x11spice.Scan.Queue.{
  Scanner, is_area, is_true, box_of, enqueue, push_to, scanner_create, scanner_push,
  scanner_remove_region, pop,
}
use x11spice.Scan.Queue.Laws.{
  InReport, Reported, Reported-append_left, Reported-append_last, Overlap-cases, IsSmall,
  box_of-InBox, pop-some,
}

-- The scanner, with the report that its thread has popped and not yet taken out of the region.
pub record Watched (Region : Type 0) : Type 0 where
  pub scanner : Scanner Region
  pub hand : List ScanReport

-- A report that is no area has none.
abbrev pub IsProper : ScanReport → Type 0
IsProper r = is_area r.type ≡ false → r.w ≡ 0

Reported-append_right :
    (q q' : List ScanReport) (px py : ℕ) → Reported q' px py → Reported (q ++ q') px py
Reported-append_right [] q' px py h = h
Reported-append_right (r ∷ q) q' px py h = inr (Reported-append_right q q' px py h)

Reported-tail :
    (r : ScanReport) (q : List ScanReport) (px py : ℕ)
    → IsProper r
    → is_area r.type ≡ false
    → Reported (r ∷ q) px py
    → Reported q px py
Reported-tail r q px py proper other (inl h) = absurd (omega (arith, proper other))
Reported-tail r q px py proper other (inr h) = h

All-append_last :
    (q : List ScanReport) (r : ScanReport)
    → All IsProper q
    → IsProper r
    → All IsProper (q ++ r ∷ [])
All-append_last [] r h h' = (h', tt)
All-append_last (x ∷ q) r h h' = (h.0, All-append_last q r h.1 h')

module _ (P : Pixman) where
  open P use {Region, Has}

  pub data Step (s : Watched Region) : Watched Region → Type 0 where
    push :
        (malloc : Bool) (r : ScanReport)
        → IsProper r
        → Step s (record s { scanner = (scanner_push P malloc s.scanner r).1 })
    take :
        (r : ScanReport) (t : Scanner Region)
        → s.hand ≡ []
        → pop P s.scanner ≡ some (r, t)
        → is_area r.type ≡ true
        → Step s (record { scanner = t; hand = r ∷ [] })
    skip :
        (r : ScanReport) (t : Scanner Region)
        → s.hand ≡ []
        → pop P s.scanner ≡ some (r, t)
        → is_area r.type ≡ false
        → Step s (record s { scanner = t })
    remove :
        (r : ScanReport)
        → s.hand ≡ r ∷ []
        → Step s (record { scanner = scanner_remove_region P s.scanner r; hand = [] })
    pace :
        (fps : ℤ) (line : ℕ)
        → Step s
            (record s { scanner = record s.scanner { target_fps = fps; current_scanline = line } })

  -- From `scanner_create` on.
  pub data Reach : Watched Region → Type 0 where
    start : Reach (record { scanner = scanner_create P; hand = [] })
    next : {s t : Watched Region} → Reach s → Step s t → Reach t

  -- Each point of the region is in a report that is still to be read.
  abbrev pub Covers : List ScanReport → List ScanReport → Region → Type 0
  Covers hand q region = (px py : ℕ) → Has region px py → Reported (hand ++ q) px py

  abbrev pub IsPending : Watched Region → Type 0
  IsPending s =
      (q : List ScanReport) × ((s.scanner.queue ≡ some q)
        × (All IsProper q × Covers s.hand q s.scanner.region))

  enqueue-IsPending :
      (s : Scanner Region) (hand q : List ScanReport) (r : ScanReport)
      → s.queue ≡ some q
      → IsProper r
      → All IsProper q
      → Covers hand q s.region
      → IsPending (record { scanner = enqueue P s q r; hand = hand })
  unfolding enqueue
  enqueue-IsPending s hand q r e proper all cover = elim (Bool-cases (is_area r.type)) [
    | inr other ↦ rw other (
      q ++ r ∷ [],
      (refl, (All-append_last q r all proper, λ px py h. older px py (cover px py h))),
    )
    | inl area ↦ elim (Bool-cases (is_true (P.contains_rectangle s.region (box_of r)))) [
      | inl seen ↦ rw (area, seen) (q, (e, (all, cover)))
      | inr fresh ↦
          rw (area, fresh)
            (
              q ++ r ∷ [],
              (
                refl,
                (
                  All-append_last q r all proper,
                  λ px py h. elim (P.has-union_rect s.region r.x r.y r.w r.h px py h) [
                    | inl before ↦ older px py (cover px py before)
                    | inr mine ↦
                        Reported-append_right hand (q ++ r ∷ []) px py
                          (Reported-append_last q r px py mine)
                  ],
                ),
              ),
            )
    ]
  ]
    where
      older : (px py : ℕ) → Reported (hand ++ q) px py → Reported (hand ++ (q ++ r ∷ [])) px py
      older px py h =
          subst (λ all. Reported all px py) (append_assoc hand q (r ∷ []))
            (Reported-append_left (hand ++ q) (r ∷ []) px py h)

  push_to-IsPending :
      (malloc : Bool) (s : Scanner Region) (hand q : List ScanReport) (r : ScanReport)
      → s.queue ≡ some q
      → IsProper r
      → All IsProper q
      → Covers hand q s.region
      → IsPending (record { scanner = (push_to P (some q) malloc s r).1; hand = hand })
  unfolding push_to
  push_to-IsPending true s hand q r e proper all cover =
      enqueue-IsPending s hand q r e proper all cover
  push_to-IsPending false s hand q r e proper all cover = (q, (e, (all, cover)))

  -- The queue and the region behind a pop.
  popped-IsPending :
      (s : Watched Region) (r : ScanReport) (t : Scanner Region)
      → IsPending s
      → s.hand ≡ []
      → pop P s.scanner ≡ some (r, t)
      → (q : List ScanReport) × ((t.queue ≡ some q)
          × (IsProper r × (All IsProper q × Covers [] (r ∷ q) t.region)))
  unfolding pop
  popped-IsPending s r t (q, (e, (all, cover))) free popped =
      let (rest, before, after, same) = pop-some P s.scanner t r s.scanner.queue refl popped in
      let split : q ≡ r ∷ rest = ground (arith, e, before) in
      let proper : All IsProper (r ∷ rest) = subst (All IsProper) split all in
      (
        rest,
        (
          after,
          (
            proper.0,
            (
              proper.1,
              λ px py h.
                  subst (λ hand. Reported (hand ++ r ∷ rest) px py) free
                    (subst (λ q. Reported (s.hand ++ q) px py) split
                      (cover px py (subst (λ region. Has region px py) same h))),
            ),
          ),
        ),
      )

  Step-IsPending : {s t : Watched Region} → Step s t → IsPending s → IsPending t
  unfolding scanner_push scanner_remove_region
  Step-IsPending {s} (push malloc r proper) (q, (e, (all, cover))) =
      subst (λ queue. IsPending (record s { scanner = (push_to P queue malloc s.scanner r).1 }))
        (sym e) (push_to-IsPending malloc s.scanner s.hand q r e proper all cover)
  Step-IsPending {s} (take r t free popped area) pending =
      let (q, (e, (proper, (all, cover)))) = popped-IsPending s r t pending free popped in
      (q, (e, (all, cover)))
  Step-IsPending {s} (skip r t free popped other) pending =
      let (q, (e, (proper, (all, cover)))) = popped-IsPending s r t pending free popped in
      (
        q,
        (
          e,
          (
            all,
            λ px py h.
                subst (λ hand. Reported (hand ++ q) px py) (sym free)
                  (Reported-tail r q px py proper other (cover px py h)),
          ),
        ),
      )
  Step-IsPending {s} (remove r held) (q, (e, (all, cover))) = (
    q,
    (
      e,
      (
        all,
        λ px py h.
            let (inside, outside) =
              P.has-subtract s.scanner.region (P.init_rect r.x r.y r.w r.h) px py h in
            elim (subst (λ hand. Reported (hand ++ q) px py) held (cover px py inside)) [
              | inl mine ↦ absurd (outside (P.has-init_rect r.x r.y r.w r.h px py mine))
              | inr later ↦ later
            ],
      ),
    ),
  )
  Step-IsPending {s} (pace fps line) pending = pending

  -- In every state that the threads can reach, each point of the region is in a report that is
  -- queued, or that the scanner's thread has popped and not yet read.
  pub Reach-IsPending : {s : Watched Region} → Reach s → IsPending s
  unfolding scanner_create
  Reach-IsPending start = ([], (refl, (tt, λ px py h. absurd (P.has-empty px py h))))
  Reach-IsPending (next reached step) = Step-IsPending step (Reach-IsPending reached)

  -- In every state that pushes (of reports without width, if they are no areas) and the steps of the
  -- thread reach from `scanner_create`, which no `scanner_destroy` has ended: a push for whose record
  -- there is memory returns 0 and leaves all of its rectangle (which ends below 2^15) to be read
  -- later, even if the report is discarded, unless the rectangle only partly lies in the region.
  pub Reach-push_is_read :
      {s : Watched Region} (r : ScanReport)
      → Reach s
      → IsSmall r
      → P.contains_rectangle s.scanner.region (box_of r) ≢ part
      → ((scanner_push P true s.scanner r).0 ≡ 0)
        × (q : List ScanReport) × ((scanner_push P true s.scanner r).1.queue ≡ some q)
        × ((px py : ℕ) → InReport r px py → Reported (s.hand ++ q) px py)
  unfolding scanner_push enqueue push_to
  Reach-push_is_read {s} r reached small not_part =
      let (q, (e, (all, cover))) = Reach-IsPending reached in
      let appended : (px py : ℕ) → InReport r px py → Reported (s.hand ++ (q ++ r ∷ [])) px py =
        λ px py h.
          Reported-append_right s.hand (q ++ r ∷ []) px py (Reported-append_last q r px py h) in
      elim (Bool-cases (is_area r.type)) [
        | inr other ↦ rw (e, other) (refl, q ++ r ∷ [], refl, appended)
        | inl area ↦ elim (Overlap-cases (P.contains_rectangle s.scanner.region (box_of r))) [
          | inl is_out ↦ rw (e, area, is_out) (refl, q ++ r ∷ [], refl, appended)
          | inr (inl is_part) ↦ absurd (not_part is_part)
          | inr (inr is_whole) ↦
              rw (e, area, is_whole)
                (
                  refl,
                  q,
                  ground arith,
                  λ px py h. cover px py (
                      P.contains_whole s.scanner.region (box_of r) px py is_whole
                        (box_of-InBox r px py small h)),
                )
        ]
      ]
