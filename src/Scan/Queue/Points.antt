-- ===== src/Scan/Queue/Points.antt =====
-- A model of the pixman interface, for the tests: a region is the test of its points.
use x11spice.Prelude.{
  ℕ, ◌+◌, ◌-◌, ◌≡◌, ◌⊎◌, inl, inr, Bool, true, false, not, ◌&&◌, ◌||◌, ltb, leb, if◌then◌else◌,
  arith, passes_below, at_of_passes_below, Bool-cases,
}
use x11spice.Scan.Pixman.{Overlap, out, part, whole, Box, InBox, InRect, Pixman}

abbrev Points : Type 0
Points = ℕ → ℕ → Bool

unfoldable pub in_rect : ℕ → ℕ → ℕ → ℕ → Points
in_rect x y w h px py = (leb x px && ltb px (x + w)) && (leb y py && ltb py (y + h))

unfoldable pub or_rect : Points → ℕ → ℕ → ℕ → ℕ → Points
or_rect r x y w h px py = r px py || in_rect x y w h px py

unfoldable pub minus : Points → Points → Points
minus r s px py = r px py && not (s px py)

-- The points of the box, line by line.
unfoldable pub all_points : Points → Box → Bool
unfolding passes_below
all_points r b =
    passes_below (λ y. passes_below (λ x. r (b.x1 + x) (b.y1 + y)) (b.x2 - b.x1)) (b.y2 - b.y1)

unfoldable pub overlap : Points → Box → Overlap
unfolding all_points
overlap r b =
    if all_points r b then whole else if all_points (λ px py. not (r px py)) b then out else part

pub overlap-whole : (r : Points) (b : Box) → overlap r b ≡ whole → all_points r b ≡ true
unfolding overlap
overlap-whole r b e = ground arith

pub all_points-at :
    (r : Points) (b : Box) (px py : ℕ) → all_points r b ≡ true → InBox b px py → r px py ≡ true
unfolding all_points
all_points-at r b px py ok (l, r', u, d) =
    let p : b.x1 + (px - b.x1) ≡ px = omega arith in
    let q : b.y1 + (py - b.y1) ≡ py = omega arith in
    let line =
      at_of_passes_below (λ y. passes_below (λ x. r (b.x1 + x) (b.y1 + y)) (b.x2 - b.x1))
        (b.y2 - b.y1) (py - b.y1) (omega arith) ok in
    rw (p, q) at
      (at_of_passes_below (λ x. r (b.x1 + x) (b.y1 + (py - b.y1))) (b.x2 - b.x1) (px - b.x1)
        (omega arith) line)

pub or_rect-Has :
    (r : Points) (x y w h px py : ℕ)
    → or_rect r x y w h px py ≡ true
    → (r px py ≡ true) ⊎ InRect x y w h px py
unfolding or_rect in_rect
or_rect-Has r x y w h px py e = elim (Bool-cases (r px py)) [
  | inl on ↦ inl on
  | inr off ↦ inr (ground arith)
]

unfoldable pub points : Pixman
unfolding overlap or_rect minus in_rect
points = record {
  Region = Points;
  Has = λ r px py. r px py ≡ true;
  empty = λ px py. false;
  init_rect = in_rect;
  union_rect = or_rect;
  subtract = minus;
  contains_rectangle = overlap;
  has-empty = λ px py e. ground arith;
  has-init_rect = λ x y w h px py i. ground arith;
  has-union_rect = or_rect-Has;
  has-subtract = λ r s px py e. (ground arith, λ e'. ground arith);
  contains_whole = λ r b px py e i. all_points-at r b px py (overlap-whole r b e) i;
}
