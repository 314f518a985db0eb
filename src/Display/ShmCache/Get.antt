-- ===== src/Display/ShmCache/Get.antt =====
-- `shm_cache_get` of src/display.c takes a best fit out of the cache.
use mathlib.Core.List.{Perm}
use x11spice.Prelude.{
  ℕ, zero, suc, ◌+◌, ◌≤◌, ◌<◌, ◌≡◌, refl, sym, ◌∙◌, true, false, ◌⊎◌, inl, inr, none, some, List,
  [], ◌∷◌, arith, ℕ_discrete, ◌≢◌, ==_of_eq, ==_of_ne, get_elem?, set, length, length-set,
  Bool-cases,
}
use x11spice.Display.ShmCache.{
  ShmSegment, Entry, is_empty, next_bigger, find_fit, hand_out, mark_empty, shm_cache_get,
}
use x11spice.Display.ShmCache.Contents.{occupied, occupied-set_empty}

-- An occupied entry that is large enough.
abbrev pub Fits : ℕ → ShmSegment → Type 0
Fits size s = (is_empty s ≡ false) × (size ≤ s.size)

-- What the loop keeps in `bigger_entry`.
abbrev IsBigger : ℕ → Entry → Type 0
IsBigger size none = Unit
IsBigger size (some (i, s)) = (is_empty s ≡ false) × (size < s.size)

next_bigger-IsBigger :
    (size i : ℕ) (s : ShmSegment) (b : Entry)
    → IsBigger size b
    → IsBigger size (next_bigger size i s b)
unfolding next_bigger
next_bigger-IsBigger size i s none h = ground arith
next_bigger-IsBigger size i s (some (j, t)) h = ground arith

-- Where the loop that starts at index `k` finds an entry.
abbrev Located : List ShmSegment → ℕ → Entry → ℕ → ShmSegment → Type 0
Located ss k b i s = (b ≡ some (i, s)) ⊎ ((j : ℕ) × (i ≡ k + j) × (get_elem? ss j ≡ some s))

next_bigger-cases :
    (size k : ℕ) (x : ShmSegment) (b : Entry)
    → (next_bigger size k x b ≡ b) ⊎ (next_bigger size k x b ≡ some (k, x))
unfolding next_bigger
next_bigger-cases size k x none = ground arith
next_bigger-cases size k x (some (j, t)) = ground arith

Located-head :
    (x : ShmSegment) (ss : List ShmSegment) (k : ℕ) (b : Entry) (i : ℕ) (s : ShmSegment)
    → ◌≡◌ {A = Entry} (some (k, x)) (some (i, s))
    → Located (x ∷ ss) k b i s
Located-head x ss k b i s e = inr (0, ground arith, ground arith)

Located-next :
    (size : ℕ) (x : ShmSegment) (ss : List ShmSegment) (k : ℕ) (b : Entry) (i : ℕ) (s : ShmSegment)
    → Located ss (k + 1) (next_bigger size k x b) i s
    → Located (x ∷ ss) k b i s
Located-next size x ss k b i s (inr (j, e, at)) = inr (suc j, omega arith, at)
Located-next size x ss k b i s (inl e) = elim (next_bigger-cases size k x b) [
  | inl keep ↦ inl (sym keep ∙ e)
  | inr new ↦ Located-head x ss k b i s (sym new ∙ e)
]

-- One round of the loop: it goes on, or it ends at an entry of the exact size.
abbrev Goes : ℕ → ShmSegment → List ShmSegment → ℕ → Entry → Type 0
Goes size x ss k b =
    ((is_empty x ≡ true) ⊎ (size ≢ x.size))
    × (find_fit size (x ∷ ss) k b ≡ find_fit size ss (k + 1) (next_bigger size k x b))

abbrev Ends : ℕ → ShmSegment → List ShmSegment → ℕ → Entry → Type 0
Ends size x ss k b =
    (is_empty x ≡ false) × (size ≡ x.size) × (find_fit size (x ∷ ss) k b ≡ some (k, x))

find_fit-step :
    (size : ℕ) (x : ShmSegment) (ss : List ShmSegment) (k : ℕ) (b : Entry)
    → Goes size x ss k b ⊎ Ends size x ss k b
unfolding find_fit
find_fit-step size x ss k b = elim (Bool-cases (is_empty x)) [
  | inl hole ↦ inl (inl hole, rw hole)
  | inr full ↦ elim (ℕ_discrete size x.size) [
    | yes e ↦ inr (full, e, rw (full, ==_of_eq size x.size e))
    | no ne ↦ inl (inr ne, rw (full, ==_of_ne size x.size ne))
  ]
]

find_fit-Located :
    (size : ℕ) (ss : List ShmSegment) (k : ℕ) (b : Entry) (i : ℕ) (s : ShmSegment)
    → find_fit size ss k b ≡ some (i, s)
    → Located ss k b i s
unfolding find_fit
find_fit-Located size [] k b i s h = inl h
find_fit-Located size (x ∷ ss) k b i s h = elim (find_fit-step size x ss k b) [
  | inl (_, e) ↦ Located-next size x ss k b i s (find_fit-Located size ss (k + 1) _ i s (sym e ∙ h))
  | inr (_, _, e) ↦ Located-head x ss k b i s (sym e ∙ h)
]

-- The size of the entry in `bigger_entry` bounds the one that the loop returns.
abbrev Upper : Entry → ℕ → Type 0
Upper none n = Unit
Upper (some (j, u)) n = n ≤ u.size

Upper-next :
    (size k : ℕ) (x : ShmSegment) (b : Entry) (n : ℕ)
    → Upper (next_bigger size k x b) n
    → Upper b n × (is_empty x ≡ false → size < x.size → n ≤ x.size)
unfolding next_bigger
Upper-next size k x none n h = (tt, λ full lt. ground arith)
Upper-next size k x (some (j, u)) n h = (ground arith, λ full lt. ground arith)

Upper-self : (size : ℕ) (b : Entry) → IsBigger size b → Upper b size
Upper-self size none ok = tt
Upper-self size (some (j, u)) ok = omega arith

same_entry : (k i : ℕ) (x s : ShmSegment) → ◌≡◌ {A = Entry} (some (k, x)) (some (i, s)) → x ≡ s
same_entry k i x s e = cc

find_fit-Upper :
    (size : ℕ) (ss : List ShmSegment) (k : ℕ) (b : Entry) (i : ℕ) (s : ShmSegment)
    → IsBigger size b
    → find_fit size ss k b ≡ some (i, s)
    → Fits size s × Upper b s.size
unfolding find_fit
find_fit-Upper size [] k none i s ok h = cc
find_fit-Upper size [] k (some (j, u)) i s ok h = ground arith
find_fit-Upper size (x ∷ ss) k b i s ok h = elim (find_fit-step size x ss k b) [
  | inl (_, e) ↦
      let (fits, up) =
        find_fit-Upper size ss (k + 1) (next_bigger size k x b) i s
          (next_bigger-IsBigger size k x b ok) (sym e ∙ h) in
      (fits, (Upper-next size k x b s.size up).0)
  | inr (full, exact, e) ↦
      let same : x ≡ s = same_entry k i x s (sym e ∙ h) in
      rw (← same) ((full, omega arith), rw (← exact) (Upper-self size b ok))
]

find_fit-le_later :
    (size : ℕ) (x : ShmSegment) (ss : List ShmSegment) (k : ℕ) (b : Entry) (i : ℕ) (s : ShmSegment)
    → IsBigger size b
    → (is_empty x ≡ true) ⊎ (size ≢ x.size)
    → find_fit size ss (k + 1) (next_bigger size k x b) ≡ some (i, s)
    → (j : ℕ) (t : ShmSegment) → get_elem? (x ∷ ss) j ≡ some t
    → Fits size t
    → ((j : ℕ) (t : ShmSegment) → get_elem? ss j ≡ some t → Fits size t → s.size ≤ t.size)
    → s.size ≤ t.size
find_fit-le_later size x ss k b i s ok skip h (suc j) t at fits ih = ih j t at fits
find_fit-le_later size x ss k b i s ok skip h zero t at (full, large) ih =
    let same : x ≡ t = cc in
    let up =
      (find_fit-Upper size ss (k + 1) (next_bigger size k x b) i s
        (next_bigger-IsBigger size k x b ok) h).1 in
    ground (arith, Upper-next size k x b s.size up)

find_fit-le :
    (size : ℕ) (ss : List ShmSegment) (k : ℕ) (b : Entry) (i : ℕ) (s : ShmSegment)
    → IsBigger size b
    → find_fit size ss k b ≡ some (i, s)
    → (j : ℕ) (t : ShmSegment) → get_elem? ss j ≡ some t
    → Fits size t
    → s.size ≤ t.size
unfolding find_fit
find_fit-le size [] k b i s ok h j t at fits = cc
find_fit-le size (x ∷ ss) k b i s ok h j t at fits = elim (find_fit-step size x ss k b) [
  | inr (_, exact, e) ↦
      let same : x ≡ s = same_entry k i x s (sym e ∙ h) in rw (← same) (omega arith)
  | inl (skip, e) ↦ find_fit-le_later size x ss k b i s ok skip (sym e ∙ h) j t at fits (
      find_fit-le size ss (k + 1) (next_bigger size k x b) i s (next_bigger-IsBigger size k x b ok)
        (sym e ∙ h))
]

next_bigger-none :
    (size k : ℕ) (x : ShmSegment) (b : Entry)
    → next_bigger size k x b ≡ none
    → (b ≡ none) × (is_empty x ≡ false → ¬ (size < x.size))
unfolding next_bigger
next_bigger-none size k x none h = (refl, λ full lt. ground arith)
next_bigger-none size k x (some (j, u)) h = ground arith

find_fit-none_all :
    (size : ℕ) (x : ShmSegment) (ss : List ShmSegment) (k : ℕ) (b : Entry)
    → (is_empty x ≡ true) ⊎ (size ≢ x.size)
    → next_bigger size k x b ≡ none
    → ((j : ℕ) (t : ShmSegment) → get_elem? ss j ≡ some t → ¬ Fits size t)
    → (j : ℕ) (t : ShmSegment) → get_elem? (x ∷ ss) j ≡ some t
    → ¬ Fits size t
find_fit-none_all size x ss k b skip fresh others (suc j) t at fits = others j t at fits
find_fit-none_all size x ss k b skip fresh others zero t at (full, large) =
    let same : x ≡ t = cc in ground (arith, (next_bigger-none size k x b fresh).1)

find_fit-none :
    (size : ℕ) (ss : List ShmSegment) (k : ℕ) (b : Entry)
    → find_fit size ss k b ≡ none
    → (b ≡ none) × ((j : ℕ) (t : ShmSegment) → get_elem? ss j ≡ some t → ¬ Fits size t)
unfolding find_fit
find_fit-none size [] k b h = (h, λ j t at fits. cc)
find_fit-none size (x ∷ ss) k b h = elim (find_fit-step size x ss k b) [
  | inr (_, exact, e) ↦ cc
  | inl (skip, e) ↦
      let (fresh, others) = find_fit-none size ss (k + 1) (next_bigger size k x b) (sym e ∙ h) in
      ((next_bigger-none size k x b fresh).0, find_fit-none_all size x ss k b skip fresh others)
]

-- In a cache: no occupied entry that is large enough is smaller.
abbrev pub Smallest : ℕ → List ShmSegment → ShmSegment → Type 0
Smallest size cache s =
    (j : ℕ) (t : ShmSegment) → get_elem? cache j ≡ some t → Fits size t → s.size ≤ t.size

hand_out-found :
    (cache : List ShmSegment) (size : ℕ) (segment s : ShmSegment) (cache' : List ShmSegment)
    (e : Entry)
    → find_fit size cache 0 none ≡ e
    → hand_out cache segment e ≡ (true, s, cache')
    → (i : ℕ) × (e ≡ some (i, s)) × (cache' ≡ set cache i (mark_empty s))
unfolding hand_out
hand_out-found cache size segment s cache' none f h = cc
hand_out-found cache size segment s cache' (some (i, t)) f h = (i, ground arith, ground arith)

-- A lookup that succeeds hands out an occupied entry that is large enough, and the smallest such;
-- the cache then holds exactly the other entries.
pub shm_cache_get-best :
    (cache : List ShmSegment) (size : ℕ) (segment s : ShmSegment) (cache' : List ShmSegment)
    → shm_cache_get cache size segment ≡ (true, s, cache')
    → Fits size s
      × Smallest size cache s
      × Perm (occupied cache) (s ∷ occupied cache')
      × (length cache' ≡ length cache)
unfolding shm_cache_get
shm_cache_get-best cache size segment s cache' h =
    let (i, e, c) = hand_out-found cache size segment s cache' _ refl h in
    let fits = (find_fit-Upper size cache 0 none i s tt e).0 in
    elim (find_fit-Located size cache 0 none i s e) [
      | inl never ↦ cc
      | inr (j, at_j, at) ↦
          let same : i ≡ j = omega arith in
          rw c (
            fits,
            find_fit-le size cache 0 none i s tt e,
            rw same (occupied-set_empty cache j s (mark_empty s) at fits.0 refl),
            length-set cache i (mark_empty s),
          )
    ]

hand_out-missed :
    (cache : List ShmSegment) (segment s : ShmSegment) (cache' : List ShmSegment) (e : Entry)
    → hand_out cache segment e ≡ (false, s, cache')
    → (e ≡ none) × (s ≡ segment) × (cache' ≡ cache)
unfolding hand_out
hand_out-missed cache segment s cache' none h = (refl, ground arith, ground arith)
hand_out-missed cache segment s cache' (some (i, t)) h = cc

-- A lookup fails only if no entry is large enough, and then changes nothing.
pub shm_cache_get-miss :
    (cache : List ShmSegment) (size : ℕ) (segment s : ShmSegment) (cache' : List ShmSegment)
    → shm_cache_get cache size segment ≡ (false, s, cache')
    → ((j : ℕ) (t : ShmSegment) → get_elem? cache j ≡ some t → ¬ Fits size t)
      × (s ≡ segment)
      × (cache' ≡ cache)
unfolding shm_cache_get
shm_cache_get-miss cache size segment s cache' h =
    let (e, same, kept) = hand_out-missed cache segment s cache' _ h in
    ((find_fit-none size cache 0 none e).1, same, kept)
