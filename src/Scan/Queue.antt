-- ===== src/Scan/Queue.antt =====
-- src/scan.c: the scanner's state, what is pushed to its queue, and the thread that empties it.
-- The scanner's own lock makes each push and each removal atomic.
pub mod Laws
pub mod Points
mod Tests
use x11spice.Prelude.{
  ℕ, ◌+◌, ◌%◌, ◌^◌, Bool, true, false, Option, none, some, List, [], ◌∷◌, ◌++◌, if◌then◌else◌,
}
use x11spice.Prelude.Int.{ℤ, pos}
use x11spice.Scan.{min_scan_fps}
use x11spice.Scan.Report.{
  ScanType, ScanReport, damage_scan_report, scanline_scan_report, exit_scan_report,
  fullscreen_scan_request,
}
use x11spice.Scan.Pixman.{Pixman, Box, Overlap, out, part, whole}

-- X11SPICE_ERR_MALLOC, X11SPICE_ERR_SHUTTING_DOWN
abbrev pub err_malloc : ℕ
err_malloc = 7

abbrev pub err_shutting_down : ℕ
err_shutting_down = 10

-- `scanner_t`; `queue` is `none` for NULL.
pub record Scanner (Region : Type 0) : Type 0 where
  pub queue : Option (List ScanReport)
  pub current_scanline : ℕ
  pub region : Region
  pub target_fps : ℤ

-- The narrowing to the `int16_t` fields of a box.
abbrev pub u16 : ℕ → ℕ
u16 n = n % 2 ^ 16

abbrev pub box_of : ScanReport → Box
box_of r = record { x1 = u16 r.x; y1 = u16 r.y; x2 = u16 (r.x + r.w); y2 = u16 (r.y + r.h) }

-- C's truth of the overlap: PIXMAN_REGION_OUT is 0.
abbrev pub is_true : Overlap → Bool
is_true out = false
is_true part = true
is_true whole = true

abbrev pub is_area : ScanType → Bool
is_area damage_scan_report = true
is_area scanline_scan_report = true
is_area exit_scan_report = false
is_area fullscreen_scan_request = false

module _ (P : Pixman) where
  open P use {Region, empty, init_rect, union_rect, subtract, contains_rectangle}

  unfoldable pub scanner_create : Scanner Region
  scanner_create = record {
    queue = some [];
    current_scanline = 0;
    region = empty;
    target_fps = pos min_scan_fps;
  }

  -- The queue is there, and so is the report.
  unfoldable pub enqueue : Scanner Region → List ScanReport → ScanReport → Scanner Region
  enqueue s q r =
      if is_area r.type
      then if is_true (contains_rectangle s.region (box_of r))
        then s
        else record s { region = union_rect s.region r.x r.y r.w r.h; queue = some (q ++ r ∷ []) }
      else record s { queue = some (q ++ r ∷ []) }

  unfoldable pub push_to :
      Option (List ScanReport) → Bool → Scanner Region → ScanReport → ℕ × Scanner Region
  unfolding enqueue
  push_to none malloc s r = (err_shutting_down, s)
  push_to (some q) false s r = (err_malloc, s)
  push_to (some q) true s r = (0, enqueue s q r)

  -- `malloc` says whether the report could be allocated.
  unfoldable pub scanner_push : Bool → Scanner Region → ScanReport → ℕ × Scanner Region
  unfolding push_to
  scanner_push malloc s r = push_to s.queue malloc s r

  unfoldable pub scanner_remove_region : Scanner Region → ScanReport → Scanner Region
  scanner_remove_region s r = record s { region = subtract s.region (init_rect r.x r.y r.w r.h) }

  unfoldable pub pop_from :
      Option (List ScanReport) → Scanner Region → Option (ScanReport × Scanner Region)
  pop_from none s = none
  pop_from (some []) s = none
  pop_from (some (r ∷ rest)) s = some (r, record s { queue = some rest })

  -- `g_async_queue_timeout_pop`, which returns NULL (`none`) from an empty queue.
  unfoldable pub pop : Scanner Region → Option (ScanReport × Scanner Region)
  unfolding pop_from
  pop s = pop_from s.queue s

  -- `scanner_destroy`, once the thread has been joined.
  unfoldable pub scanner_destroy : Scanner Region → Scanner Region
  scanner_destroy s = record s { queue = none; region = empty }
