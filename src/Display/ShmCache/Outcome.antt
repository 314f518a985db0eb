-- ===== src/Display/ShmCache/Outcome.antt =====
-- What `shm_cache_add` and `shm_cache_destroy` of src/display.c do to the cache as a whole.
use mathlib.Core.List.{Perm}
use x11spice.Prelude.{
  ℕ, ◌≤◌, ◌<◌, ◌≡◌, refl, ◌∙◌, true, false, ◌⊎◌, inl, inr, none, some, List, [], ◌∷◌, ◌++◌, arith,
  Option-cases, get_elem?, set, length, length-set,
}
use x11spice.Display.ShmCache.{
  ShmSegment, Entry, Slot, empty_slot, evict, full, SystemCall, releases, is_empty, find_slot,
  shm_segment_destroy, store, shm_cache_add, shm_cache_destroy,
}
use x11spice.Display.ShmCache.Contents.{occupied, occupied-set_full, occupied-set_swap}
use x11spice.Display.ShmCache.Add.{At, find_slot-empty, find_slot-evict, find_slot-full}

module _ (cache : List ShmSegment) (segment : ShmSegment) where
  -- The segment went to a free slot.
  abbrev pub Added : List ShmSegment → List SystemCall → Type 0
  Added cache' out = (out ≡ []) × Perm (segment ∷ occupied cache) (occupied cache')

  -- The segment took the slot of `s`, the smallest entry of a full cache, which was released.
  abbrev pub Replaced : List ShmSegment → List SystemCall → Type 0
  Replaced cache' out =
      (s : ShmSegment) × (id : ℕ) × (s.shmid ≡ some id)
      × (out ≡ releases s id)
      × Perm (segment ∷ occupied cache) (s ∷ occupied cache')
      × (s.size < segment.size)
      × ((j : ℕ) (t : ShmSegment)
          → get_elem? cache j ≡ some t
          → (is_empty t ≡ false) × (s.size ≤ t.size))

  store-cases :
      (slot : Slot) (cache' : List ShmSegment) (out : List SystemCall)
      → store cache segment slot ≡ (true, cache', out)
      → ((i : ℕ) × (slot ≡ empty_slot i) × (cache' ≡ set cache i segment) × (out ≡ []))
        ⊎ ((i : ℕ) × (s : ShmSegment) × (slot ≡ evict i s)
            × (cache' ≡ set cache i segment)
            × (out ≡ (shm_segment_destroy s).1))
  unfolding store
  store-cases (empty_slot i) cache' out h = inl (i, refl, ground arith, ground arith)
  store-cases (evict i s) cache' out h = inr (i, s, refl, ground arith, ground arith)
  store-cases full cache' out h = cc

  pub shm_segment_destroy-releases :
      (s : ShmSegment)
      → is_empty s ≡ false
      → (id : ℕ) × (s.shmid ≡ some id) × ((shm_segment_destroy s).1 ≡ releases s id)
  unfolding shm_segment_destroy
  shm_segment_destroy-releases s h = elim (Option-cases s.shmid) [
    | inl e ↦ ground arith
    | inr (id, e) ↦ (id, e, rw (e, shm_segment_destroy) refl)
  ]

  -- Where the segment is stored, either it went to a free slot and nothing was released, or the
  -- cache was full and the smallest entry, smaller than the segment, made room and was released.
  pub shm_cache_add-stores :
      (cache' : List ShmSegment) (out : List SystemCall)
      → is_empty segment ≡ false
      → shm_cache_add cache segment ≡ (true, cache', out)
      → (length cache' ≡ length cache) × (Added cache' out ⊎ Replaced cache' out)
  unfolding shm_cache_add
  shm_cache_add-stores cache' out taken h = elim (store-cases _ cache' out h) [
    | inl (i, slot, c, o) ↦
        let (s, (j, at_j, at), hole) = find_slot-empty segment.size cache 0 none i slot in
        let same : i ≡ j = omega arith in
        rw c (
          length-set cache i segment,
          inl (o, rw same (occupied-set_full cache j s segment at hole taken)),
        )
    | inr (i, s, slot, c, o) ↦ rw c (length-set cache i segment, inr (replaced i s slot o))
  ]
    where
      replaced :
          (i : ℕ) (s : ShmSegment)
          → find_slot segment.size cache 0 none ≡ evict i s
          → out ≡ (shm_segment_destroy s).1
          → Replaced (set cache i segment) out
      replaced i s slot o =
          let ev = find_slot-evict segment.size cache 0 none i s tt slot in
          let (id, at_id, rel) = shm_segment_destroy-releases s ev.smaller.0 in
          (s, id, at_id, o ∙ rel, swapped i s ev.located ev.smaller.0, ev.smaller.1, ev.least)
        where
          swapped :
              (i : ℕ) (s : ShmSegment)
              → (◌≡◌ {A = Entry} none (some (i, s))) ⊎ At cache 0 i s
              → is_empty s ≡ false
              → Perm (segment ∷ occupied cache) (s ∷ occupied (set cache i segment))
          swapped i s (inl never) full_s = cc
          swapped i s (inr (j, at_j, at)) full_s =
              let same : i ≡ j = omega arith in
              rw same (occupied-set_swap cache j s segment at full_s taken)

  store-full :
      (slot : Slot) (cache' : List ShmSegment) (out : List SystemCall)
      → store cache segment slot ≡ (false, cache', out)
      → (slot ≡ full) × (cache' ≡ cache) × (out ≡ [])
  unfolding store
  store-full (empty_slot i) cache' out h = cc
  store-full (evict i s) cache' out h = cc
  store-full full cache' out h = (refl, ground arith, ground arith)

  -- The cache refuses a segment only if it is full of entries that are at least as large, and
  -- then neither it nor the system is touched.
  pub shm_cache_add-refuses :
      (cache' : List ShmSegment) (out : List SystemCall)
      → shm_cache_add cache segment ≡ (false, cache', out)
      → ((j : ℕ) (t : ShmSegment)
          → get_elem? cache j ≡ some t
          → (is_empty t ≡ false) × (segment.size ≤ t.size))
        × (cache' ≡ cache)
        × (out ≡ [])
  unfolding shm_cache_add
  shm_cache_add-refuses cache' out h =
      let (slot, c, o) = store-full _ cache' out h in
      ((find_slot-full segment.size cache 0 none slot).1, c, o)

-- What the destruction of every occupied entry asks for, in the order of the array.
abbrev pub all_releases : List ShmSegment → List SystemCall
all_releases [] = []
all_releases (s ∷ ss) = elim s.shmid [
  | none ↦ all_releases ss
  | some id ↦ releases s id ++ all_releases ss
]

pub all_releases-one :
    (s : ShmSegment) (id : ℕ) → s.shmid ≡ some id → all_releases (s ∷ []) ≡ releases s id
all_releases-one s id h = ground arith

-- `shm_cache_destroy` releases exactly the segments of the occupied entries, and leaves none.
pub shm_cache_destroy-empties :
    (cache : List ShmSegment)
    → (occupied (shm_cache_destroy cache).0 ≡ [])
      × ((shm_cache_destroy cache).1 ≡ all_releases (occupied cache))
      × (length (shm_cache_destroy cache).0 ≡ length cache)
unfolding shm_cache_destroy
shm_cache_destroy-empties [] = (refl, refl, refl)
shm_cache_destroy-empties (s ∷ ss) = ground (arith, shm_cache_destroy-empties ss)
