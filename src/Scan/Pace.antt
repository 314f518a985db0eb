-- ===== src/Scan/Pace.antt =====
-- src/scan.c: the rate of the periodic scans, and the line of each tile that a scan reads.
use x11spice.Prelude.{
  ℕ, zero, suc, ◌+◌, ◌/◌, ◌%◌, ◌≤◌, ◌<◌, ◌≡◌, refl, true, ◌&&◌, ◌||◌, List, [], ◌∷◌, arith, leb,
  ◌==◌, if◌then◌else◌, get_or, ==_iff, count, passes_below, at_of_passes_below,
}
use x11spice.Prelude.Int.{ℤ, pos, negsuc, ◌+ℤ◌, ◌≤ℤ◌, ltb_ℤ, pos_part}
use x11spice.Scan.{num_scanlines, max_scan_fps, min_scan_fps}

pub scan_update_fps : ℤ → ℤ → ℤ
scan_update_fps target_fps increment =
    let fps = target_fps +ℤ increment in
    let fps' = if ltb_ℤ (pos max_scan_fps) fps then pos max_scan_fps else fps in
    if ltb_ℤ fps' (pos min_scan_fps) then pos min_scan_fps else fps'

abbrev g_usec_per_sec : ℕ
g_usec_per_sec = 1000000

-- Division of positive values; `target_fps` is positive by `scan_update_fps-bounds`.
pub get_timeout : ℤ → ℤ → ℕ
get_timeout full_screen_fps target_fps =
    if ltb_ℤ (pos 0) full_screen_fps
    then g_usec_per_sec / pos_part full_screen_fps
    else g_usec_per_sec / pos_part target_fps / num_scanlines

abbrev pub scanlines : List ℕ
scanlines =
    0 ∷ 16 ∷ 8 ∷ 24 ∷ 4 ∷ 20 ∷ 12 ∷ 28 ∷ 10 ∷ 26 ∷ 18 ∷ 2 ∷ 22 ∷ 6 ∷ 30 ∷ 14 ∷ 1 ∷ 17 ∷ 9 ∷ 25 ∷ 7
    ∷ 23 ∷ 15 ∷ 31 ∷ 19 ∷ 3 ∷ 27 ∷ 11 ∷ 29 ∷ 13 ∷ 5 ∷ 21 ∷ []

-- `offset = scanlines[current_scanline++]; current_scanline %= NUM_SCANLINES`
unfoldable pub next_offset : ℕ → ℕ × ℕ
next_offset current = (get_or scanlines current 0, (current + 1) % num_scanlines)

-- The offsets of `n` scans in a row.
unfoldable pub offsets : ℕ → ℕ → List ℕ
unfolding next_offset
offsets zero current = []
offsets (suc n) current =
    let (offset, current') = next_offset current in offset ∷ offsets n current'

-- A series of changes to the rate, in order.
pub run_fps : ℤ → List ℤ → ℤ
run_fps fps [] = fps
run_fps fps (i ∷ is) = run_fps (scan_update_fps fps i) is

-- `scan_update_fps` clamps to MIN_SCAN_FPS and MAX_SCAN_FPS.
pub scan_update_fps-bounds :
    (fps increment : ℤ)
    → (pos min_scan_fps ≤ℤ scan_update_fps fps increment)
      × (scan_update_fps fps increment ≤ℤ pos max_scan_fps)
unfolding scan_update_fps
scan_update_fps-bounds fps increment = ground arith

-- The rate stays within MIN_SCAN_FPS and MAX_SCAN_FPS, whatever changes it has been through.
run_fps-bounds :
    (fps : ℤ) (changes : List ℤ)
    → pos min_scan_fps ≤ℤ fps
    → fps ≤ℤ pos max_scan_fps
    → (pos min_scan_fps ≤ℤ run_fps fps changes) × (run_fps fps changes ≤ℤ pos max_scan_fps)
unfolding run_fps
run_fps-bounds fps [] lo hi = (lo, hi)
run_fps-bounds fps (i ∷ is) lo hi =
    let (lo', hi') = scan_update_fps-bounds fps i in
    run_fps-bounds (scan_update_fps fps i) is lo' hi'

timeouts_table :
    passes_below (λ n. n == 0 || (leb 1041 (1000000 / n / 32) && leb (1000000 / n / 32) 31250)) 31
    ≡ true
unfolding passes_below
timeouts_table = refl

timeouts : (n : ℕ) → 1 ≤ n → n ≤ 30 → (1041 ≤ 1000000 / n / 32) × (1000000 / n / 32 ≤ 31250)
timeouts n lo hi = ground (arith, at_of_passes_below _ 31 n (omega arith) timeouts_table)

get_timeout-range :
    (full_screen_fps fps : ℤ)
    → full_screen_fps ≤ℤ pos 0
    → pos min_scan_fps ≤ℤ fps
    → fps ≤ℤ pos max_scan_fps
    → (1041 ≤ get_timeout full_screen_fps fps) × (get_timeout full_screen_fps fps ≤ 31250)
unfolding get_timeout
get_timeout-range (pos n) (pos fps) off lo hi =
    ground (arith, timeouts fps (omega arith) (omega arith))
get_timeout-range (negsuc n) (pos fps) off lo hi =
    ground (arith, timeouts fps (omega arith) (omega arith))
get_timeout-range full_screen_fps (negsuc fps) off lo hi = absurd (omega arith)

-- From `scanner_create`'s rate of MIN_SCAN_FPS, whatever changes it goes through, and with no
-- full_screen_fps, the timeout of the queue stays between 1041 and 31250 microseconds.
pub get_timeout-bounds :
    (full_screen_fps : ℤ) (changes : List ℤ)
    → full_screen_fps ≤ℤ pos 0
    → let timeout = get_timeout full_screen_fps (run_fps (pos min_scan_fps) changes) in
      (1041 ≤ timeout) × (timeout ≤ 31250)
get_timeout-bounds full_screen_fps changes off =
    timeout (run_fps (pos min_scan_fps) changes)
      (run_fps-bounds (pos min_scan_fps) changes (omega arith) (omega arith))
  where
    timeout :
        (fps : ℤ)
        → (pos min_scan_fps ≤ℤ fps) × (fps ≤ℤ pos max_scan_fps)
        → (1041 ≤ get_timeout full_screen_fps fps) × (get_timeout full_screen_fps fps ≤ 31250)
    timeout fps h = get_timeout-range full_screen_fps fps off h.0 h.1

each_once_table :
    passes_below (λ current. passes_below (λ line. count line (offsets 32 current) == 1) 32) 32
    ≡ true
unfolding offsets passes_below
each_once_table = refl

-- Any 32 scans in a row read each of the 32 lines of a tile exactly once.
pub offsets-each_once :
    (current line : ℕ)
    → current < num_scanlines
    → line < num_scanlines
    → count line (offsets num_scanlines current) ≡ 1
offsets-each_once current line hc hl =
    (==_iff _ 1).0
      (at_of_passes_below _ 32 line hl (at_of_passes_below _ 32 current hc each_once_table))
