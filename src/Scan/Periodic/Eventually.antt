-- ===== src/Scan/Periodic/Eventually.antt =====
-- src/scan.c: how long a change can stay unnoticed by the periodic scans.
use x11spice.Prelude.{
  ℕ, zero, suc, ◌+◌, ◌*◌, ◌%◌, ◌^◌, ◌<◌, ◌≡◌, ◌≢◌, refl, Bool, List, arith, ◌==◌, count, Bool-cases,
  inl, inr, ==_iff,
}
use x11spice.Scan.{num_scanlines, num_horizontal_tiles}
use x11spice.Scan.Pace.{next_offset, offsets, offsets-each_once}
use x11spice.Scan.Queue.Laws.{Reported}
use x11spice.Scan.Periodic.{Line, periodic_reports}
use x11spice.Scan.Periodic.Lines.{Readable}
use x11spice.Scan.Periodic.Pixel.{periodic_reports-changed_pixel}
use x11spice.Display.Compare.{Pixels}

-- `current_scanline` after k scans.
unfoldable pub after : ℕ → ℕ → ℕ
after zero current = current
after (suc k) current = after k (next_offset current).1

-- A line among the offsets of n scans is the offset of one of them.
counted_scan :
    (line n current : ℕ)
    → 0 < count line (offsets n current)
    → (k : ℕ) × ((k < n) × ((next_offset (after k current)).0 ≡ line))
unfolding offsets after
counted_scan line zero current h = absurd (omega arith)
counted_scan line (suc n) current h = elim (Bool-cases ((next_offset current).0 == line)) [
  | inl now ↦ (0, (omega arith, (==_iff (next_offset current).0 line).0 now))
  | inr later ↦
      let (k, (lt, e)) = counted_scan line n (next_offset current).1 (ground arith) in
      (suc k, (omega arith, e))
]

-- On a screen whose size (below 2^16) stays the same, with a width that is a multiple of 32: if each
-- of 32 scans in a row can read all lines and finds a pixel of the screen different from the one
-- kept, one of them reports it, whichever line comes first and however else the screen, the copy
-- and the flags of stale tiles change from one scan to the next.
pub changed_pixel-within_32_scans :
    (lines : ℕ → ℕ → Line) (kept : ℕ → Pixels) (stale : ℕ → List Bool) (W H current x y : ℕ)
    → current < num_scanlines
    → W < 2 ^ 16
    → H < 2 ^ 16
    → W % num_horizontal_tiles ≡ 0
    → x < W
    → y < H
    → ((k : ℕ) → k < num_scanlines → Readable (lines k) H)
    → ((k : ℕ) → k < num_scanlines → kept k (y * W + x) ≢ (lines k y).pixels x)
    → (k : ℕ) × ((k < num_scanlines)
        × Reported (periodic_reports (lines k) (kept k) W H (stale k) (after k current)) x y)
changed_pixel-within_32_scans lines kept stale W H current x y hc sw sh al on on' ok differ =
    let once = offsets-each_once current (y % num_scanlines) hc (omega arith) in
    let (k, (lt, e)) = counted_scan (y % num_scanlines) num_scanlines current (omega arith) in
    (
      k,
      (
        lt,
        periodic_reports-changed_pixel (lines k) (kept k) W H (stale k) (after k current) x y sw sh
            al (ok k lt) on on' (rw e refl) (differ k lt),
      ),
    )
