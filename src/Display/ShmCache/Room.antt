-- ===== src/Display/ShmCache/Room.antt =====
-- `shm_cache_add` of src/display.c on a cache that has room.
use mathlib.Core.List.{Perm, Permᴰ}
use mathlib.Core.Logic.{∥∥₁_elim}
use native.Mathlib.Nat.{ℕ_set}
use x11spice.Prelude.{
  ℕ, suc, ◌≤◌, ◌<◌, ◌≡◌, refl, ◌∙◌, ap, true, false, inl, inr, Bool, List, [], ◌∷◌, arith, length,
  some, get_elem?, zero,
}
use x11spice.Display.ShmCache.{ShmSegment, SystemCall, is_empty, shm_cache_add}
use x11spice.Display.ShmCache.Contents.{occupied}
use x11spice.Display.ShmCache.Outcome.{shm_cache_add-stores, shm_cache_add-refuses}

length-permᴰ {ℓ} : {A : Type ℓ} {xs ys : List A} → Permᴰ xs ys → length xs ≡ length ys
length-permᴰ Permᴰ.nil = refl
length-permᴰ (Permᴰ.cons e p) = ap suc (length-permᴰ p)
length-permᴰ (Permᴰ.swap e e') = refl
length-permᴰ (Permᴰ.trans p q) = length-permᴰ p ∙ length-permᴰ q

pub length-perm {ℓ} : {A : Type ℓ} {xs ys : List A} → Perm xs ys → length xs ≡ length ys
length-perm p = ∥∥₁_elim p (ℕ_set _ _) (λ q. length-permᴰ q)

-- A cache with no empty slot has as many occupied entries as slots.
length-occupied :
    (cache : List ShmSegment)
    → ((j : ℕ) (t : ShmSegment) → get_elem? cache j ≡ some t → is_empty t ≡ false)
    → length (occupied cache) ≡ length cache
length-occupied [] h = refl
length-occupied (s ∷ ss) h =
    let taken : is_empty s ≡ false = h zero s refl in
    rw taken (ap suc (length-occupied ss (λ j t at. h (suc j) t at)))

pub length-occupied-le : (cache : List ShmSegment) → length (occupied cache) ≤ length cache
length-occupied-le [] = omega arith
length-occupied-le (s ∷ ss) = ground (arith, length-occupied-le ss)

-- With a slot to spare the segment is stored and nothing is released.
pub shm_cache_add-room :
    (cache : List ShmSegment) (segment : ShmSegment)
    → length (occupied cache) < length cache
    → is_empty segment ≡ false
    → (cache' : List ShmSegment) × (shm_cache_add cache segment ≡ (true, cache', []))
      × Perm (segment ∷ occupied cache) (occupied cache')
      × (length cache' ≡ length cache)
shm_cache_add-room cache segment room full = go (shm_cache_add cache segment) refl
  where
    go :
        (got : Bool × List ShmSegment × List SystemCall)
        → shm_cache_add cache segment ≡ got
        → (cache' : List ShmSegment) × (got ≡ (true, cache', []))
          × Perm (segment ∷ occupied cache) (occupied cache')
          × (length cache' ≡ length cache)
    go (false, cache', out) e =
        let (all, _, _) = shm_cache_add-refuses cache segment cache' out e in
        absurd (omega (arith, length-occupied cache (λ j t at. (all j t at).0)))
    go (true, cache', out) e =
        let (len, how) = shm_cache_add-stores cache segment cache' out full e in
        elim how [
          | inl (o, p) ↦ (cache', ap (λ q. (true, cache', q)) o, p, len)
          | inr (s, id, at_id, o, p, lt, all) ↦
              absurd (omega (arith, length-occupied cache (λ j t at. (all j t at).0)))
        ]
