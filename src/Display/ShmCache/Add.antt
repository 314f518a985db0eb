-- ===== src/Display/ShmCache/Add.antt =====
-- `shm_cache_add` of src/display.c: an empty slot first, and otherwise the smallest entry goes.
use x11spice.Prelude.{
  ℕ, zero, suc, ◌+◌, ◌≤◌, ◌<◌, ◌≡◌, refl, sym, ◌∙◌, true, false, ◌⊎◌, inl, inr, Option, none, some,
  List, [], ◌∷◌, arith, subst, le_refl, get_elem?, Bool-cases,
}
use x11spice.Display.ShmCache.{
  ShmSegment, Entry, empty_slot, evict, full, victim, is_empty, next_smallest, find_slot,
}

-- Where the loop that starts at index `k` has its pointer.
abbrev pub At : List ShmSegment → ℕ → ℕ → ShmSegment → Type 0
At ss k i s = (j : ℕ) × (i ≡ k + j) × (get_elem? ss j ≡ some s)

At-later :
    (x : ShmSegment) (ss : List ShmSegment) (k i : ℕ) (s : ShmSegment)
    → At ss (k + 1) i s
    → At (x ∷ ss) k i s
At-later x ss k i s (j, e, at) = (suc j, omega arith, at)

-- One round of the loop: it goes on past an occupied entry, or ends at an empty one.
find_slot-step :
    (size : ℕ) (x : ShmSegment) (ss : List ShmSegment) (k : ℕ) (b : Entry)
    → ((is_empty x ≡ true) × (find_slot size (x ∷ ss) k b ≡ empty_slot k))
      ⊎ ((is_empty x ≡ false)
          × (find_slot size (x ∷ ss) k b ≡ find_slot size ss (k + 1) (next_smallest size k x b)))
unfolding find_slot
find_slot-step size x ss k b = elim (Bool-cases (is_empty x)) [
  | inl hole ↦ inl (hole, rw hole)
  | inr taken ↦ inr (taken, rw taken)
]

victim-evict : (b : Entry) (i : ℕ) (s : ShmSegment) → victim b ≡ evict i s → b ≡ some (i, s)
victim-evict none i s h = cc
victim-evict (some (j, t)) i s h = ground arith

victim-not_empty : (b : Entry) (i : ℕ) → ¬ (victim b ≡ empty_slot i)
victim-not_empty none i h = cc
victim-not_empty (some (j, t)) i h = cc

pub find_slot-empty :
    (size : ℕ) (ss : List ShmSegment) (k : ℕ) (b : Entry) (i : ℕ)
    → find_slot size ss k b ≡ empty_slot i
    → (s : ShmSegment) × At ss k i s × (is_empty s ≡ true)
unfolding find_slot
find_slot-empty size [] k b i h = absurd (victim-not_empty b i h)
find_slot-empty size (x ∷ ss) k b i h = elim (find_slot-step size x ss k b) [
  | inl (hole, e) ↦ (x, (0, ground arith, refl), hole)
  | inr (taken, e) ↦
      let (s, at, hole) =
        find_slot-empty size ss (k + 1) (next_smallest size k x b) i (sym e ∙ h) in
      (s, At-later x ss k i s at, hole)
]

-- What the loop keeps in `smallest_entry`, with the bound that it sets for the rest of the loop.
abbrev pub IsSmaller : ℕ → Entry → Type 0
IsSmaller size none = Unit
IsSmaller size (some (i, s)) = (is_empty s ≡ false) × (s.size < size)

abbrev pub Upper : Entry → ℕ → Type 0
Upper none n = Unit
Upper (some (j, u)) n = n ≤ u.size

next_smallest_facts :
    (size k : ℕ) (x : ShmSegment) (b : Entry)
    → is_empty x ≡ false
    → IsSmaller size b
    → IsSmaller size (next_smallest size k x b)
      × ((n : ℕ) → n < size → Upper (next_smallest size k x b) n → Upper b n × (n ≤ x.size))
unfolding next_smallest
next_smallest_facts size k x none taken ok = (ground arith, λ n lt up. (tt, ground arith))
next_smallest_facts size k x (some (j, u)) taken ok =
    (ground arith, λ n lt up. (ground arith, ground arith))

next_smallest-cases :
    (size k : ℕ) (x : ShmSegment) (b : Entry)
    → (next_smallest size k x b ≡ b) ⊎ (next_smallest size k x b ≡ some (k, x))
unfolding next_smallest
next_smallest-cases size k x none = ground arith
next_smallest-cases size k x (some (j, t)) = ground arith

-- The entry that the loop evicts.
pub record Evicted (size : ℕ) (ss : List ShmSegment) (k : ℕ) (b : Entry) (i : ℕ) (s : ShmSegment)
    : Type 0 where
  pub located : (b ≡ some (i, s)) ⊎ At ss k i s
  pub smaller : IsSmaller size (some (i, s))
  pub upper : Upper b s.size
  pub least :
      (j : ℕ) (t : ShmSegment) → get_elem? ss j ≡ some t → (is_empty t ≡ false) × (s.size ≤ t.size)

Evicted-step :
    (size : ℕ) (x : ShmSegment) (ss : List ShmSegment) (k : ℕ) (b : Entry) (i : ℕ) (s : ShmSegment)
    → is_empty x ≡ false
    → IsSmaller size b
    → Evicted size ss (k + 1) (next_smallest size k x b) i s
    → Evicted size (x ∷ ss) k b i s
Evicted-step size x ss k b i s taken ok ev =
    let below = (next_smallest_facts size k x b taken ok).1 s.size ev.smaller.1 ev.upper in
    record { located = place ev.located; smaller = ev.smaller; upper = below.0; least = first }
  where
    place :
        (next_smallest size k x b ≡ some (i, s)) ⊎ At ss (k + 1) i s
        → (b ≡ some (i, s)) ⊎ At (x ∷ ss) k i s
    place (inr at) = inr (At-later x ss k i s at)
    place (inl e) = elim (next_smallest-cases size k x b) [
      | inl keep ↦ inl (sym keep ∙ e)
      | inr new ↦ inr (0, here (sym new ∙ e), same (sym new ∙ e))
    ]
      where
        here : ◌≡◌ {A = Entry} (some (k, x)) (some (i, s)) → i ≡ k + 0
        here q = ground arith

        same :
            ◌≡◌ {A = Entry} (some (k, x)) (some (i, s))
            → ◌≡◌ {A = Option ShmSegment} (some x) (some s)
        same q = cc

    first :
        (j : ℕ) (t : ShmSegment)
        → get_elem? (x ∷ ss) j ≡ some t
        → (is_empty t ≡ false) × (s.size ≤ t.size)
    first zero t at =
        let same : x ≡ t = cc in
        let below = (next_smallest_facts size k x b taken ok).1 s.size ev.smaller.1 ev.upper in
        rw (← same) (taken, below.1)
    first (suc j) t at = ev.least j t at

pub find_slot-evict :
    (size : ℕ) (ss : List ShmSegment) (k : ℕ) (b : Entry) (i : ℕ) (s : ShmSegment)
    → IsSmaller size b
    → find_slot size ss k b ≡ evict i s
    → Evicted size ss k b i s
unfolding find_slot
find_slot-evict size [] k b i s ok h =
    let e = victim-evict b i s h in
    record {
      located = inl e;
      smaller = subst (IsSmaller size) e ok;
      upper = rw e (le_refl s.size);
      least = λ j t at. cc;
    }
find_slot-evict size (x ∷ ss) k b i s ok h = elim (find_slot-step size x ss k b) [
  | inl (_, e) ↦ cc
  | inr (taken, e) ↦ Evicted-step size x ss k b i s taken ok (
      find_slot-evict size ss (k + 1) (next_smallest size k x b) i s
        (next_smallest_facts size k x b taken ok).0 (sym e ∙ h))
]

next_smallest-none :
    (size k : ℕ) (x : ShmSegment) (b : Entry)
    → next_smallest size k x b ≡ none
    → (b ≡ none) × (size ≤ x.size)
unfolding next_smallest
next_smallest-none size k x none h = (refl, ground arith)
next_smallest-none size k x (some (j, u)) h = ground arith

victim-full : (b : Entry) → victim b ≡ full → b ≡ none
victim-full none h = refl
victim-full (some (j, t)) h = cc

pub find_slot-full :
    (size : ℕ) (ss : List ShmSegment) (k : ℕ) (b : Entry)
    → find_slot size ss k b ≡ full
    → (b ≡ none)
      × ((j : ℕ) (t : ShmSegment)
          → get_elem? ss j ≡ some t
          → (is_empty t ≡ false) × (size ≤ t.size))
unfolding find_slot
find_slot-full size [] k b h = (victim-full b h, λ j t at. cc)
find_slot-full size (x ∷ ss) k b h = elim (find_slot-step size x ss k b) [
  | inl (_, e) ↦ cc
  | inr (taken, e) ↦
      let (fresh, others) = find_slot-full size ss (k + 1) (next_smallest size k x b) (sym e ∙ h) in
      let (none_before, small) = next_smallest-none size k x b fresh in
      (none_before, first taken small others)
]
  where
    first :
        is_empty x ≡ false
        → size ≤ x.size
        → ((j : ℕ) (t : ShmSegment)
            → get_elem? ss j ≡ some t
            → (is_empty t ≡ false) × (size ≤ t.size))
        → (j : ℕ) (t : ShmSegment) → get_elem? (x ∷ ss) j ≡ some t
        → (is_empty t ≡ false) × (size ≤ t.size)
    first taken small others (suc j) t at = others j t at
    first taken small others zero t at = let same : x ≡ t = cc in rw (← same) (taken, small)
