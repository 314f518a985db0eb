-- ===== src/Spice/Release/Laws.antt =====
-- src/display.c: what an image gives back to the cache when it is destroyed, and how many slots the
-- cache has afterwards.
use mathlib.Core.List.{Perm}
use x11spice.Prelude.{
  ◌≤◌, ◌<◌, ◌≡◌, refl, ap, Bool, true, false, inl, inr, List, [], ◌∷◌, ◌++◌, arith, length, dec_lt,
}
use x11spice.Display.ShmCache.{ShmSegment, SystemCall, is_empty, shm_cache_add}
use x11spice.Display.ShmCache.Contents.{occupied}
use x11spice.Display.ShmCache.Outcome.{shm_cache_add-stores, shm_cache_add-refuses}
use x11spice.Display.ShmCache.Room.{shm_cache_add-room}
use x11spice.Display.Image.{ShmImage, Display, keep_or_destroy, destroy_shm_image}
use x11spice.Display.Image.Laws.{destroy_shm_image-conserves}

-- What a destroyed image gives back: nothing is released where there is a free slot.
pub destroy_shm_image-gives_back :
    (d : Display) (i : ShmImage)
    → is_empty i.segment ≡ false
    → (released : List ShmSegment) × Perm
        (i.segment ∷ occupied d.shm_cache)
        (released ++ occupied (destroy_shm_image d i).shm_cache)
      × (length released ≤ 1)
      × (length (occupied d.shm_cache) < length d.shm_cache → released ≡ [])
destroy_shm_image-gives_back d i full =
    elim (dec_lt (length (occupied d.shm_cache)) (length d.shm_cache)) [
      | yes room ↦
          let (cache, e, stored, _) = shm_cache_add-room d.shm_cache i.segment room full in
          ([], unfold destroy_shm_image keep_or_destroy in (rw e stored), omega arith, λ r. refl)
      | no crowded ↦
          let (released, perm, _, few) = destroy_shm_image-conserves d i full in
          (
            released,
            perm,
            elim few [ inl e ↦ rw e (omega arith) | inr (s, e, le) ↦ rw e (omega arith) ],
            λ room. absurd (crowded room),
          )
    ]

keep_or_destroy-length :
    (d : Display) (i : ShmImage) (got : Bool × List ShmSegment × List SystemCall)
    → length got.1 ≡ length d.shm_cache
    → length (keep_or_destroy d i got).shm_cache ≡ length d.shm_cache
unfolding keep_or_destroy
keep_or_destroy-length d i (true, cache, out) e = e
keep_or_destroy-length d i (false, cache, out) e = e

shm_cache_add-length :
    (cache : List ShmSegment) (s : ShmSegment)
    → is_empty s ≡ false
    → length (shm_cache_add cache s).1 ≡ length cache
shm_cache_add-length cache s full = go (shm_cache_add cache s) refl
  where
    go :
        (got : Bool × List ShmSegment × List SystemCall)
        → shm_cache_add cache s ≡ got
        → length got.1 ≡ length cache
    go (true, cache', out) e = (shm_cache_add-stores cache s cache' out full e).0
    go (false, cache', out) e = ap length (shm_cache_add-refuses cache s cache' out e).1

pub destroy_shm_image-length :
    (d : Display) (i : ShmImage)
    → is_empty i.segment ≡ false
    → length (destroy_shm_image d i).shm_cache ≡ length d.shm_cache
unfolding destroy_shm_image
destroy_shm_image-length d i full =
    keep_or_destroy-length d i (shm_cache_add d.shm_cache i.segment)
      (shm_cache_add-length d.shm_cache i.segment full)
