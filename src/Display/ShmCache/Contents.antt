-- ===== src/Display/ShmCache/Contents.antt =====
-- What the cache of src/display.c holds: its occupied entries, up to their order.
use mathlib.Core.List.{Perm}
use mathlib.Core.List.Perm
use x11spice.Prelude.{
  ℕ, zero, suc, ◌≡◌, true, false, inl, inr, some, List, [], ◌∷◌, if◌then◌else◌, get_elem?, set,
  Bool-cases,
}
use x11spice.Display.ShmCache.{ShmSegment, is_empty}

abbrev pub occupied : List ShmSegment → List ShmSegment
occupied [] = []
occupied (s ∷ ss) = if is_empty s then occupied ss else s ∷ occupied ss

module _ (ss : List ShmSegment) where
  pub occupied_of_empty : (s : ShmSegment) → is_empty s ≡ true → occupied (s ∷ ss) ≡ occupied ss
  occupied_of_empty s h = rw h

  pub occupied_of_full : (s : ShmSegment) → is_empty s ≡ false → occupied (s ∷ ss) ≡ s ∷ occupied ss
  occupied_of_full s h = rw h

-- Emptying an occupied slot takes its entry out, and nothing else.
pub occupied-set_empty :
    (ss : List ShmSegment) (i : ℕ) (s t : ShmSegment)
    → get_elem? ss i ≡ some s
    → is_empty s ≡ false
    → is_empty t ≡ true
    → Perm (occupied ss) (s ∷ occupied (set ss i t))
occupied-set_empty [] i s t at full hole = cc
occupied-set_empty (x ∷ ss) zero s t at full hole =
    let e : x ≡ s = cc in rw (e, full, hole) (Perm.refl (s ∷ occupied ss))
occupied-set_empty (x ∷ ss) (suc i) s t at full hole = elim (Bool-cases (is_empty x)) [
  | inl e ↦ rw e (occupied-set_empty ss i s t at full hole)
  | inr e ↦ rw e (
      Perm.trans (Perm.cons x (occupied-set_empty ss i s t at full hole))
        (Perm.swap s x (occupied (set ss i t))))
]

-- Filling an empty slot adds the segment, and changes nothing else.
pub occupied-set_full :
    (ss : List ShmSegment) (i : ℕ) (s t : ShmSegment)
    → get_elem? ss i ≡ some s
    → is_empty s ≡ true
    → is_empty t ≡ false
    → Perm (t ∷ occupied ss) (occupied (set ss i t))
occupied-set_full [] i s t at hole full = cc
occupied-set_full (x ∷ ss) zero s t at hole full =
    let e : x ≡ s = cc in rw (e, full, hole) (Perm.refl (t ∷ occupied ss))
occupied-set_full (x ∷ ss) (suc i) s t at hole full = elim (Bool-cases (is_empty x)) [
  | inl e ↦ rw e (occupied-set_full ss i s t at hole full)
  | inr e ↦ rw e (
      Perm.trans (Perm.swap x t (occupied ss))
        (Perm.cons x (occupied-set_full ss i s t at hole full)))
]

-- Writing over an occupied slot exchanges its entry for the segment.
pub occupied-set_swap :
    (ss : List ShmSegment) (i : ℕ) (s t : ShmSegment)
    → get_elem? ss i ≡ some s
    → is_empty s ≡ false
    → is_empty t ≡ false
    → Perm (t ∷ occupied ss) (s ∷ occupied (set ss i t))
occupied-set_swap [] i s t at full full' = cc
occupied-set_swap (x ∷ ss) zero s t at full full' =
    let e : x ≡ s = cc in rw (e, full, full') (Perm.swap s t (occupied ss))
occupied-set_swap (x ∷ ss) (suc i) s t at full full' = elim (Bool-cases (is_empty x)) [
  | inl e ↦ rw e (occupied-set_swap ss i s t at full full')
  | inr e ↦ rw e (
      Perm.trans (Perm.swap x t (occupied ss)) (
        Perm.trans (Perm.cons x (occupied-set_swap ss i s t at full full'))
          (Perm.swap s x (occupied (set ss i t)))))
]
