-- ===== src/Display/Compare/Laws.antt =====
-- src/display.c: what `display_find_changed_tiles` finds in a line.
use x11spice.Prelude.{
  ℕ, zero, suc, ◌+◌, ◌*◌, ◌/◌, ◌≤◌, ◌<◌, ◌≡◌, ◌↔◌, refl, ap, true, false, not, some, arith, get_or,
  replicate, Bool-cases, inl, inr,
}
use x11spice.Display.Compare.{
  Pixels, same, tile_len, compare_tiles, compare_line, display_find_changed_tiles,
}
use x11spice.Scan.Grow.Laws.{number}

-- `memcmp` compares pixel by pixel.
abbrev pub Equal : Pixels → ℕ → Pixels → ℕ → ℕ → Type 0
Equal a i b j n = (k : ℕ) → k < n → a (i + k) ≡ b (j + k)

same-Equal : (a b : Pixels) (i j n : ℕ) → same a i b j n ≡ true → Equal a i b j n
unfolding same
same-Equal a b i j zero h k lt = elim lt [ ]
same-Equal a b i j (suc n) h zero lt =
    let p : i + 0 ≡ i = omega arith in let q : j + 0 ≡ j = omega arith in rw (p, q) (ground arith)
same-Equal a b i j (suc n) h (suc k) lt =
    let p : i + suc k ≡ i + 1 + k = omega arith in
    let q : j + suc k ≡ j + 1 + k = omega arith in
    rw (p, q) (same-Equal a b (i + 1) (j + 1) n (ground arith) k (omega arith))

Equal-same : (a b : Pixels) (i j n : ℕ) → Equal a i b j n → same a i b j n ≡ true
unfolding same
Equal-same a b i j zero h = refl
Equal-same a b i j (suc n) h = ground (arith, first, Equal-same a b (i + 1) (j + 1) n others)
  where
    first : a i ≡ b j
    first =
        let p : i + 0 ≡ i = omega arith in
        let q : j + 0 ≡ j = omega arith in rw (p, q) at (h 0 (omega arith))

    others : Equal a (i + 1) b (j + 1) n
    others k lt =
        let p : i + suc k ≡ i + 1 + k = omega arith in
        let q : j + suc k ≡ j + 1 + k = omega arith in rw (p, q) at (h (suc k) (omega arith))

compare_tiles-get_or :
    (kept fresh : Pixels) (w across i old new left c : ℕ)
    → c < left
    → get_or (compare_tiles kept fresh w across i old new left).tiles c false
      ≡ not (
          same kept
            (old + c * (w / across))
            fresh
            (new + c * (w / across))
            (tile_len w across (i + c)))
unfolding compare_tiles
compare_tiles-get_or kept fresh w across i old new zero c lt = elim lt [ ]
compare_tiles-get_or kept fresh w across i old new (suc left) zero lt =
    let p : old + 0 * (w / across) ≡ old = omega arith in
    let q : new + 0 * (w / across) ≡ new = omega arith in
    let r : i + 0 ≡ i = omega arith in rw (p, q, r)
compare_tiles-get_or kept fresh w across i old new (suc left) (suc c) lt =
    let len = w / across in
    let p : old + suc c * len ≡ old + len + c * len = omega arith in
    let q : new + suc c * len ≡ new + len + c * len = omega arith in
    let r : i + suc c ≡ i + 1 + c = omega arith in
    rw (p, q, r)
      (compare_tiles-get_or kept fresh w across (i + 1) (old + len) (new + len) left c
        (omega arith))

compare_tiles-number :
    (kept fresh : Pixels) (w across i old new left : ℕ)
    → (compare_tiles kept fresh w across i old new left).changed
      ≡ number (compare_tiles kept fresh w across i old new left).tiles
unfolding compare_tiles
compare_tiles-number kept fresh w across i old new zero = refl
compare_tiles-number kept fresh w across i old new (suc left) = ground (
  arith,
  compare_tiles-number kept fresh w across (i + 1) (old + w / across) (new + w / across) left,
)

-- The pixels of tile `c` of the line at `old` and `new`.
abbrev pub TileEqual : Pixels → Pixels → ℕ → ℕ → ℕ → ℕ → ℕ → Type 0
TileEqual kept fresh w across old new c =
    Equal kept (old + c * (w / across)) fresh (new + c * (w / across)) (tile_len w across c)

-- A tile lies within its line.
tile_in_line : (w across c : ℕ) → c < across → c * (w / across) + tile_len w across c ≤ w
tile_in_line w across c lt = ground (arith, whole, step, part)
  where
    len : ℕ
    len = w / across

    whole : across * len ≤ w
    whole = grind arith

    scale : (a b : ℕ) → a ≤ b → a * len ≤ b * len
    scale a b p = grind arith

    step : c * len + len ≤ across * len
    step = omega (arith, scale (c + 1) across (omega arith))

    part : c * len ≤ across * len
    part = scale c across (omega arith)

-- A stretch of two equal lines.
Equal-part :
    (a b : Pixels) (i j n s m : ℕ) → s + m ≤ n → Equal a i b j n → Equal a (i + s) b (j + s) m
Equal-part a b i j n s m le h k lt =
    let p : i + s + k ≡ i + (s + k) = omega arith in
    let q : j + s + k ≡ j + (s + k) = omega arith in rw (p, q) (h (s + k) (omega arith))

pub get_or-replicate : (n c : ℕ) → get_or (replicate n false) c false ≡ false
get_or-replicate zero c = refl
get_or-replicate (suc n) zero = refl
get_or-replicate (suc n) (suc c) = get_or-replicate n c

number-replicate : (n : ℕ) → number (replicate n false) ≡ 0
number-replicate zero = refl
number-replicate (suc n) = number-replicate n

pub compare_line-number :
    (kept fresh : Pixels) (w across old new : ℕ)
    → (compare_line kept fresh w across old new).changed
      ≡ number (compare_line kept fresh w across old new).tiles
unfolding compare_line
compare_line-number kept fresh w across old new =
    ground
      (arith, compare_tiles-number kept fresh w across 0 old new across, number-replicate across)

pub compare_line-get_or :
    (kept fresh : Pixels) (w across old new c : ℕ)
    → c < across
    → (get_or (compare_line kept fresh w across old new).tiles c false ≡ false)
      ↔ TileEqual kept fresh w across old new c
unfolding compare_line
compare_line-get_or kept fresh w across old new c lt =
    elim (Bool-cases (same kept old fresh new w)) [
      | inl equal ↦ rw equal (
        (λ _.
            Equal-part kept fresh old new w _ _ (tile_in_line w across c lt)
              (same-Equal kept fresh old new w equal)),
        λ _. get_or-replicate across c,
      )
      | inr differ ↦
          let z : 0 + c ≡ c = omega arith in
          rw (differ, compare_tiles-get_or kept fresh w across 0 old new across c lt, z)
            (
              (λ h. same-Equal kept fresh _ _ _ (ground arith)),
              λ h. ap not (Equal-same kept fresh _ _ _ h),
            )
    ]

-- The line that was read: the value returned is the number of tiles that are set, and a tile is
-- set exactly if a pixel of it differs from the one kept.
pub display_find_changed_tiles-line :
    (kept fresh : Pixels) (w row across c : ℕ)
    → c < across
    → let (ret, tiles) = display_find_changed_tiles true kept fresh w row across in
      (ret ≡ some (number tiles))
      × ((get_or tiles c false ≡ false) ↔ TileEqual kept fresh w across (row * w) 0 c)
unfolding display_find_changed_tiles
display_find_changed_tiles-line kept fresh w row across c lt = (
  ap some (compare_line-number kept fresh w across (row * w) 0),
  compare_line-get_or kept fresh w across (row * w) 0 c lt,
)
