-- ===== src/Events/Damage.antt =====
-- src/display.c: `handle_damage_notify` and `display_trust_damage`.
pub mod Laws
mod Tests
use x11spice.Prelude.{
  ℕ, ◌+◌, ◌-◌, ◌/◌, ◌%◌, ◌^◌, ◌<◌, ◌≤◌, ◌≡◌, ◌⊎◌, Bool, true, false, ◌&&◌, ◌==◌, leb, if◌then◌else◌,
  List, [], ◌∷◌, ◌++◌, map,
}
use x11spice.Options.{DamageTrust, auto_trust, always_trust, never_trust}
use x11spice.Scan.Report.{ScanReport, damage_scan_report, fullscreen_scan_request}
use x11spice.Scan.Pixman.{Pixman, Box, InBox, InRect}
use x11spice.Scan.Queue.{Scanner}
use x11spice.Scan.Periodic.{push_all}

-- One of the rectangles has the point.
abbrev pub InBoxes : List Box → ℕ → ℕ → Type 0
InBoxes [] px py = ⊥
InBoxes (b ∷ bs) px py = InBox b px py ⊎ InBoxes bs px py

-- The calls of pixman for the damaged region, with what its manual says of them: a union has the
-- points of both, and the rectangles of a region have its points.
pub record DamageRegions : Type 1 where
  pub Region : Type 0
  pub Has : Region → ℕ → ℕ → Type 0
  pub empty : Region
  pub union_rect : Region → ℕ → ℕ → ℕ → ℕ → Region
  pub rectangles : Region → List Box
  pub has-empty : (px py : ℕ) → ¬ Has empty px py
  pub has-union_rect :
      (r : Region) (x y w h px py : ℕ)
      → Has (union_rect r x y w h) px py
      → Has r px py ⊎ InRect x y w h px py
  pub union_rect-left :
      (r : Region) (x y w h px py : ℕ) → Has r px py → Has (union_rect r x y w h) px py
  pub union_rect-right :
      (r : Region) (x y w h px py : ℕ) → InRect x y w h px py → Has (union_rect r x y w h) px py
  pub in-rectangles : (r : Region) (px py : ℕ) → Has r px py → InBoxes (rectangles r) px py
  pub has-rectangles : (r : Region) (px py : ℕ) → InBoxes (rectangles r) px py → Has r px py

-- The fields of `xcb_damage_notify_event_t` that are read.
pub record DamageNotify : Type 0 where
  pub level : ℕ
  pub x : ℕ
  pub y : ℕ
  pub width : ℕ
  pub height : ℕ

-- `dev->level & 0x80`
abbrev pub is_more : DamageNotify → Bool
is_more dev = (dev.level / 128) % 2 == 1

-- With `options.trust_damage` and `fullscreen_damage_count`.
unfoldable pub display_trust_damage : DamageTrust → ℕ → Bool
display_trust_damage always_trust count = true
display_trust_damage never_trust count = false
display_trust_damage auto_trust count = leb count 2

-- The count of damage to the whole screen in a row, of 32 bits.
unfoldable pub next_count : ℕ → ℕ → DamageNotify → ℕ → ℕ
next_count width height dev count =
    if (dev.width == width) && (dev.height == height) then (count + 1) % 2 ^ 32 else 0

abbrev pub report_of : Box → ScanReport
report_of b = record {
  type = damage_scan_report;
  x = b.x1;
  y = b.y1;
  w = b.x2 - b.x1;
  h = b.y2 - b.y1;
}

abbrev pub full_request : ScanReport
full_request = record { type = fullscreen_scan_request; x = 0; y = 0; w = 0; h = 0 }

-- The pushes of a notice that is the last of its series.
unfoldable pub damage_reports : Bool → List Box → List ScanReport
damage_reports trusted boxes = if trusted then map report_of boxes else full_request ∷ []

module _ (D : DamageRegions) (trust : DamageTrust) (width height : ℕ) where
  open D use {Region, empty, union_rect, rectangles}

  -- `damage_region` and `fullscreen_damage_count`
  pub record Damage : Type 0 where
    pub damage_region : Region
    pub fullscreen_damage_count : ℕ

  -- The notice, with the calls of `scanner_push`.
  unfoldable pub notify : DamageNotify → Damage → List ScanReport × Damage
  unfolding damage_reports display_trust_damage next_count
  notify dev d =
      let grown = union_rect d.damage_region dev.x dev.y dev.width dev.height in
      let count = next_count width height dev d.fullscreen_damage_count in
      if is_more dev then ([], record d { damage_region = grown }) else (
        damage_reports (display_trust_damage trust count) (rectangles grown),
        record { damage_region = empty; fullscreen_damage_count = count },
      )

  -- One notice after the other.
  unfoldable pub notify_all : List DamageNotify → Damage → List ScanReport × Damage
  unfolding notify
  notify_all [] d = ([], d)
  notify_all (dev ∷ devs) d =
      let (pushed, d') = notify dev d in
      let (later, last) = notify_all devs d' in (pushed ++ later, last)

  module _ (P : Pixman) where
    unfoldable pub handle_damage_notify :
        (ScanReport → Bool) → DamageNotify → Scanner P.Region × Damage → Scanner P.Region × Damage
    unfolding notify push_all
    handle_damage_notify malloc dev (s, d) =
        let (pushed, d') = notify dev d in (push_all P malloc s pushed, d')
