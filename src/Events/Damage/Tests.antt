-- ===== src/Events/Damage/Tests.antt =====
-- src/display.c: two notices of damage, with a list of rectangles for the region.
use x11spice.Prelude.{◌+◌, refl, ◌⊎◌, inl, inr, List, [], ◌∷◌}
use x11spice.Options.{auto_trust}
use x11spice.Scan.Pixman.{Box}
use x11spice.Scan.Queue.Laws.{Reported}
use x11spice.Events.Damage.{
  InBoxes, DamageRegions, DamageNotify, Damage, notify_all, display_trust_damage, next_count,
}
use x11spice.Events.Damage.Laws.{Damaged, notify_all-Reported}

abbrev box_list : DamageRegions
box_list = record {
  Region = List Box;
  Has = InBoxes;
  empty = [];
  union_rect = λ r x y w h. record { x1 = x; y1 = y; x2 = x + w; y2 = y + h } ∷ r;
  rectangles = λ r. r;
  has-empty = λ px py h. h;
  has-union_rect = λ r x y w h px py e. elim e [ inl here ↦ inr here | inr later ↦ inl later ];
  union_rect-left = λ r x y w h px py e. inr e;
  union_rect-right = λ r x y w h px py e. inl e;
  in-rectangles = λ r px py e. e;
  has-rectangles = λ r px py e. e;
}

abbrev more : DamageNotify
more = record { level = 128; x = 10; y = 10; width = 5; height = 5 }

abbrev final : DamageNotify
final = record { level = 0; x = 40; y = 30; width = 8; height = 2 }

abbrev idle : Damage box_list auto_trust 640 480
idle = record { damage_region = []; fullscreen_damage_count = 2 }

notify_all-Reported_example :
    (Reported (notify_all box_list auto_trust 640 480 (more ∷ final ∷ []) idle).0 12 12
      → InBoxes [] 12 12 ⊎ Damaged (more ∷ final ∷ []) 12 12)
    × (InBoxes [] 12 12 ⊎ Damaged (more ∷ final ∷ []) 12 12
        → Reported (notify_all box_list auto_trust 640 480 (more ∷ final ∷ []) idle).0 12 12)
unfolding display_trust_damage next_count
notify_all-Reported_example =
    notify_all-Reported box_list auto_trust 640 480 (more ∷ []) final idle 12 12 (refl, tt) refl
      refl
