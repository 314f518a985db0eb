-- ===== src/Display/ShmCache.antt =====
-- src/display.c and display.h: the shared memory segments and the cache that keeps them.
-- The array `d->shm_cache` is a list; a pointer into it is an index with the entry that it
-- points to, which the loops only read. The mutex makes each call atomic and is left out.

pub mod Contents
pub mod Get
pub mod Add
pub mod Outcome
pub mod Room
use x11spice.Prelude.{
  ℕ, ◌+◌, Bool, true, false, Option, none, some, List, [], ◌∷◌, ◌++◌, ltb, ◌==◌, if◌then◌else◌, set,
}

-- `shm_segment_t`. `shmid` is `none` where the source has -1.
pub record ShmSegment : Type 0 where
  pub shmid : Option ℕ
  pub size : ℕ
  pub shmseg : ℕ
  pub shmaddr : ℕ

-- What a call asks of the X server, of the kernel and of the allocator.
pub data SystemCall : Type 0 where
  shmget : ℕ → SystemCall
  shmat : ℕ → SystemCall
  shmctl_rmid : ℕ → SystemCall
  xcb_shm_attach : ℕ → ℕ → SystemCall
  xcb_shm_detach : ℕ → SystemCall
  shmdt : ℕ → SystemCall
  free : ℕ → SystemCall

abbrev pub is_empty : ShmSegment → Bool
is_empty s = elim s.shmid [ none ↦ true | some _ ↦ false ]

-- `shmseg = -1` in the 32-bit `xcb_shm_seg_t`; `shmaddr = NULL`.
abbrev pub cleared : ShmSegment → ShmSegment
cleared s = record s { shmid = none; shmseg = 0xffff_ffff; shmaddr = 0 }

abbrev pub releases : ShmSegment → ℕ → List SystemCall
releases s id = xcb_shm_detach s.shmseg ∷ shmdt s.shmaddr ∷ shmctl_rmid id ∷ []

unfoldable pub shm_segment_destroy : ShmSegment → ShmSegment × List SystemCall
shm_segment_destroy s = elim s.shmid [ none ↦ (s, []) | some id ↦ (cleared s, releases s id) ]

abbrev pub Entry : Type 0
Entry = Option (ℕ × ShmSegment)

-- `!best || entry->size < best->size`
abbrev pub improves : ShmSegment → Entry → Bool
improves s none = true
improves s (some (_, b)) = ltb s.size b.size

-- One round of the loop of `shm_cache_get` that does not break.
unfoldable pub next_bigger : ℕ → ℕ → ShmSegment → Entry → Entry
next_bigger size i s bigger =
    if is_empty s
    then bigger
    else if ltb size s.size
    then if improves s bigger then some (i, s) else bigger
    else bigger

-- The loop of `shm_cache_get` and the choice behind it: an entry of the exact size ends the
-- search, and otherwise the smallest bigger one is used.
unfoldable pub find_fit : ℕ → List ShmSegment → ℕ → Entry → Entry
unfolding next_bigger
find_fit size [] i bigger = bigger
find_fit size (s ∷ ss) i bigger =
    let rest = find_fit size ss (i + 1) (next_bigger size i s bigger) in
    if is_empty s then rest else if size == s.size then some (i, s) else rest

abbrev pub mark_empty : ShmSegment → ShmSegment
mark_empty s = record s { shmid = none }

-- What follows the loop: the entry is handed out and its slot marked empty.
unfoldable pub hand_out : List ShmSegment → ShmSegment → Entry → Bool × ShmSegment × List ShmSegment
hand_out cache segment none = (false, segment, cache)
hand_out cache segment (some (i, s)) = (true, s, set cache i (mark_empty s))

-- Returns `ret`, the new `*segment` and the new cache.
unfoldable pub shm_cache_get :
    List ShmSegment → ℕ → ShmSegment → Bool × ShmSegment × List ShmSegment
unfolding hand_out find_fit
shm_cache_get cache size segment = hand_out cache segment (find_fit size cache 0 none)

-- The loop of `shm_cache_add`: the first empty slot (`inl`), or the smallest entry that is
-- smaller than the segment.
unfoldable pub next_smallest : ℕ → ℕ → ShmSegment → Entry → Entry
next_smallest size i s smallest =
    if ltb s.size size then if improves s smallest then some (i, s) else smallest else smallest

pub data Slot : Type 0 where
  empty_slot : ℕ → Slot
  evict : ℕ → ShmSegment → Slot
  full : Slot

abbrev pub victim : Entry → Slot
victim none = full
victim (some (i, s)) = evict i s

unfoldable pub find_slot : ℕ → List ShmSegment → ℕ → Entry → Slot
unfolding next_smallest
find_slot size [] i smallest = victim smallest
find_slot size (s ∷ ss) i smallest =
    let rest = find_slot size ss (i + 1) (next_smallest size i s smallest) in
    if is_empty s then empty_slot i else rest

-- What follows the loop: an evicted entry is destroyed, and the segment takes the slot.
unfoldable pub store :
    List ShmSegment → ShmSegment → Slot → Bool × List ShmSegment × List SystemCall
unfolding shm_segment_destroy
store cache segment (empty_slot i) = (true, set cache i segment, [])
store cache segment (evict i s) = (true, set cache i segment, (shm_segment_destroy s).1)
store cache segment full = (false, cache, [])

-- Returns `ret`, the new cache and what destroying an evicted entry asked for.
unfoldable pub shm_cache_add :
    List ShmSegment → ShmSegment → Bool × List ShmSegment × List SystemCall
unfolding store find_slot
shm_cache_add cache segment = store cache segment (find_slot segment.size cache 0 none)

unfoldable pub shm_cache_destroy : List ShmSegment → List ShmSegment × List SystemCall
unfolding shm_segment_destroy
shm_cache_destroy [] = ([], [])
shm_cache_destroy (s ∷ ss) =
    let (s', out) = shm_segment_destroy s in
    let (ss', outs) = shm_cache_destroy ss in (s' ∷ ss', out ++ outs)
