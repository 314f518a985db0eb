-- ===== src/Events/Damage/Laws.antt =====
-- src/display.c: the pushes for a series of notices have the points of the damage, and no others.
use x11spice.Prelude.{
  ℕ, ◌≡◌, true, false, ◌⊎◌, inl, inr, List, [], ◌∷◌, ◌++◌, map, arith, All, append-nil,
}
use x11spice.Options.{DamageTrust}
use x11spice.Scan.Pixman.{Box, InBox, InRect}
use x11spice.Scan.Queue.Laws.{InReport, Reported}
use x11spice.Events.Damage.{
  InBoxes, DamageRegions, DamageNotify, is_more, display_trust_damage, next_count, report_of,
  damage_reports, Damage, notify, notify_all,
}

-- A notice, or one of several, has the point in its area.
abbrev pub InArea : DamageNotify → ℕ → ℕ → Type 0
InArea dev px py = InRect dev.x dev.y dev.width dev.height px py

abbrev pub Damaged : List DamageNotify → ℕ → ℕ → Type 0
Damaged [] px py = ⊥
Damaged (dev ∷ devs) px py = InArea dev px py ⊎ Damaged devs px py

report_of-InBox :
    (b : Box) (px py : ℕ)
    → (InReport (report_of b) px py → InBox b px py)
      × (InBox b px py → InReport (report_of b) px py)
report_of-InBox b px py = (λ h. omega (arith, h), λ h. omega (arith, h))

boxes-Reported :
    (bs : List Box) (px py : ℕ)
    → (Reported (map report_of bs) px py → InBoxes bs px py)
      × (InBoxes bs px py → Reported (map report_of bs) px py)
boxes-Reported [] px py = (λ h. h, λ h. h)
boxes-Reported (b ∷ bs) px py =
    let here = report_of-InBox b px py in
    let later = boxes-Reported bs px py in
    (
      λ h. elim h [ inl x ↦ inl (here.0 x) | inr x ↦ inr (later.0 x) ],
      λ h. elim h [ inl x ↦ inl (here.1 x) | inr x ↦ inr (later.1 x) ],
    )

module _ (D : DamageRegions) (trust : DamageTrust) (width height : ℕ) where
  open D use {Has}

  -- A trusted series of notices, all but the last with the MORE flag: the reports pushed have
  -- exactly the points that the region had before and those of the notices' areas.
  pub notify_all-Reported :
      (devs : List DamageNotify) (last : DamageNotify) (d : Damage D trust width height) (px py : ℕ)
      → All (λ dev. is_more dev ≡ true) devs
      → is_more last ≡ false
      → display_trust_damage trust (next_count width height last d.fullscreen_damage_count) ≡ true
      → (Reported (notify_all D trust width height (devs ++ last ∷ []) d).0 px py
          → Has d.damage_region px py ⊎ Damaged (devs ++ last ∷ []) px py)
        × (Has d.damage_region px py ⊎ Damaged (devs ++ last ∷ []) px py
            → Reported (notify_all D trust width height (devs ++ last ∷ []) d).0 px py)
  unfolding notify_all notify damage_reports
  notify_all-Reported [] last d px py more ends trusted =
      let r = d.damage_region in
      let boxes = D.rectangles (D.union_rect r last.x last.y last.width last.height) in
      let same = boxes-Reported boxes px py in
      rw (ends, trusted, append-nil (map report_of boxes))
        (
          λ h.
              elim (D.has-union_rect r last.x last.y last.width last.height px py
                (D.has-rectangles _ px py (same.0 h))) [ inl x ↦ inl x | inr x ↦ inr (inl x) ],
          λ h. same.1 (
              D.in-rectangles _ px py (elim h [
                | inl x ↦ D.union_rect-left r last.x last.y last.width last.height px py x
                | inr x ↦ elim x [
                  | inl y ↦ D.union_rect-right r last.x last.y last.width last.height px py y
                  | inr y ↦ absurd y
                ]
              ])),
        )
  notify_all-Reported (dev ∷ devs) last d px py more ends trusted =
      let r = d.damage_region in
      let grown : Damage D trust width height = record d {
        damage_region = D.union_rect r dev.x dev.y dev.width dev.height;
      } in
      let later = notify_all-Reported devs last grown px py more.1 ends trusted in
      rw more.0 (
        λ h. elim (later.0 h) [
          | inl x ↦ elim (D.has-union_rect r dev.x dev.y dev.width dev.height px py x) [
            | inl y ↦ inl y
            | inr y ↦ inr (inl y)
          ]
          | inr x ↦ inr (inr x)
        ],
        λ h. later.1 (elim h [
          | inl x ↦ inl (D.union_rect-left r dev.x dev.y dev.width dev.height px py x)
          | inr x ↦ elim x [
            | inl y ↦ inl (D.union_rect-right r dev.x dev.y dev.width dev.height px py y)
            | inr y ↦ inr y
          ]
        ]),
      )
