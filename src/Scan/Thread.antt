-- ===== src/Scan/Thread.antt =====
-- src/scan.c: `scanner_run`, the scanner's thread. An iteration of its loop is a step with what the
-- other threads push before it takes a report, and with what the system answers meanwhile.
pub mod Exit
pub mod Pending
mod Tests
use x11spice.Prelude.{ℕ, Bool, true, false, Option, none, some, List, [], ◌∷◌, if◌then◌else◌}
use x11spice.Prelude.Int.{ℤ, pos, negsuc, ltb_ℤ, minus_one}
use x11spice.Scan.Pace.{scan_update_fps}
use x11spice.Scan.Report.{
  ScanType, ScanReport, damage_scan_report, scanline_scan_report, exit_scan_report,
  fullscreen_scan_request,
}
use x11spice.Scan.Pixman.{Pixman}
use x11spice.Scan.Queue.{Scanner, scanner_push, scanner_remove_region, pop}
use x11spice.Scan.Periodic.{Line, scanner_periodic, scan_full_screen}
use x11spice.Scan.Draw.{Scene, Drawing, handle_scan_report}

-- One iteration: `session_alive`, the pushes of other threads, which calls of malloc succeed, the
-- lines and the whole screen as they are read, and what a report meets. `stale` is what the stack
-- holds.
pub record Tick : Type 0 where
  pub alive : Bool
  pub pushes : List (Bool × ScanReport)
  pub malloc : ScanReport → Bool
  pub lines : ℕ → Line
  pub stale : List Bool
  pub screen : Line
  pub drawing : Drawing

pub record State (Region : Type 0) : Type 0 where
  pub scanner : Scanner Region
  pub scene : Scene

-- `scanner_push_screen`
unfoldable pub scanner_push_screen : Drawing → Scene → Scene
unfolding handle_scan_report
scanner_push_screen dr s = handle_scan_report dr s (record {
  type = scanline_scan_report;
  x = 0;
  y = 0;
  w = s.display.width;
  h = s.display.height;
})

module _ (P : Pixman) (full_screen_fps : ℤ) where
  open P use {Region}

  unfoldable pub push_others : Scanner Region → List (Bool × ScanReport) → Scanner Region
  unfolding scanner_push
  push_others s [] = s
  push_others s ((malloc, r) ∷ rs) = push_others (scanner_push P malloc s r).1 rs

  abbrev pub update_fps : Scanner Region → ℤ → Scanner Region
  update_fps s increment = record s { target_fps = scan_update_fps s.target_fps increment }

  -- The queue stayed empty until the timeout.
  unfoldable pub on_timeout : Tick → State Region → State Region
  unfolding scanner_push_screen scanner_periodic
  on_timeout tick s =
      if ltb_ℤ (pos 0) full_screen_fps
      then record s { scene = scanner_push_screen tick.drawing s.scene }
      else record s {
        scanner =
            scanner_periodic P tick.malloc tick.lines s.scene.kept s.scene.f.w s.scene.f.h
              tick.stale (update_fps s.scanner minus_one);
      }

  -- A whole screen is to be scanned.
  unfoldable pub on_request : Tick → State Region → State Region
  unfolding scan_full_screen
  on_request tick s =
      let (scanner, display) =
        scan_full_screen P tick.malloc tick.drawing.os tick.screen.read_ok s.scene.kept
          tick.screen.pixels s.scene.f s.scene.display s.scanner in
      record { scanner = scanner; scene = record s.scene { display = display } }

  -- An area is to be read again.
  unfoldable pub on_area : Tick → ScanReport → State Region → State Region
  unfolding scanner_remove_region handle_scan_report
  on_area tick r s = record {
    scanner = scanner_remove_region P (update_fps s.scanner (pos 1)) r;
    scene = handle_scan_report tick.drawing s.scene r;
  }

  -- By the type of the report: `none` for the `break`.
  unfoldable pub on_report : Tick → ScanReport → ScanType → State Region → Option (State Region)
  unfolding on_request on_area
  on_report tick r fullscreen_scan_request s = some (on_request tick s)
  on_report tick r exit_scan_report s = none
  on_report tick r damage_scan_report s = some (on_area tick r s)
  on_report tick r scanline_scan_report s = some (on_area tick r s)

  unfoldable pub on_pop :
      Tick → Option (ScanReport × Scanner Region) → State Region → Option (State Region)
  unfolding on_timeout on_report
  on_pop tick none s = some (on_timeout tick s)
  on_pop tick (some (r, scanner)) s = on_report tick r r.type (record s { scanner = scanner })

  -- `none` where the loop ends.
  unfoldable pub run_once : Tick → State Region → Option (State Region)
  unfolding push_others on_pop pop
  run_once tick s =
      let s' : State Region = record s { scanner = push_others s.scanner tick.pushes } in
      if tick.alive then on_pop tick (pop P s'.scanner) s' else none

  abbrev pub then_run :
      (State Region → Option (State Region)) → Option (State Region) → Option (State Region)
  then_run rest none = none
  then_run rest (some s) = rest s

  -- The thread, as far as these ticks go: `none` once it has ended.
  unfoldable pub scanner_run : List Tick → State Region → Option (State Region)
  unfolding run_once
  scanner_run [] s = some s
  scanner_run (tick ∷ ticks) s = then_run (scanner_run ticks) (run_once tick s)
