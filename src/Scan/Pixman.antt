-- ===== src/Scan/Pixman.antt =====
-- The regions of the pixman library, as src/scan.c uses them: an interface with what its manual
-- says of each call. A region is known by the points that it has.
use x11spice.Prelude.{ℕ, ◌+◌, ◌≤◌, ◌<◌, ◌≡◌, ◌⊎◌}

-- `pixman_region_overlap_t`
pub data Overlap : Type 0 where
  out part whole : Overlap

-- `pixman_box16_t`, by the bit patterns of its fields.
pub record Box : Type 0 where
  pub x1 : ℕ
  pub y1 : ℕ
  pub x2 : ℕ
  pub y2 : ℕ

abbrev pub InBox : Box → ℕ → ℕ → Type 0
InBox b px py = (b.x1 ≤ px) × (px < b.x2) × (b.y1 ≤ py) × (py < b.y2)

abbrev pub InRect : ℕ → ℕ → ℕ → ℕ → ℕ → ℕ → Type 0
InRect x y w h px py = (x ≤ px) × (px < x + w) × (y ≤ py) × (py < y + h)

pub record Pixman : Type 1 where
  pub Region : Type 0
  pub Has : Region → ℕ → ℕ → Type 0
  pub empty : Region
  pub init_rect : ℕ → ℕ → ℕ → ℕ → Region
  pub union_rect : Region → ℕ → ℕ → ℕ → ℕ → Region
  pub subtract : Region → Region → Region
  pub contains_rectangle : Region → Box → Overlap
  pub has-empty : (px py : ℕ) → ¬ Has empty px py
  pub has-init_rect : (x y w h px py : ℕ) → InRect x y w h px py → Has (init_rect x y w h) px py
  pub has-union_rect :
      (r : Region) (x y w h px py : ℕ)
      → Has (union_rect r x y w h) px py
      → Has r px py ⊎ InRect x y w h px py
  pub has-subtract :
      (r s : Region) (px py : ℕ) → Has (subtract r s) px py → Has r px py × ¬ Has s px py
  pub contains_whole :
      (r : Region) (b : Box) (px py : ℕ)
      → contains_rectangle r b ≡ whole
      → InBox b px py
      → Has r px py
