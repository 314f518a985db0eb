-- ===== src/Scan/Thread/Tests.antt =====
-- src/scan.c: the scanner's thread at concrete inputs.
use x11spice.Prelude.{ℕ, ◌≡◌, refl, true, none, some, List, [], ◌∷◌, ◌++◌, arith}
use x11spice.Prelude.Int.{pos}
use x11spice.Scan.Report.{ScanReport, scanline_scan_report, exit_scan_report}
use x11spice.Scan.Queue.{Scanner, scanner_create, scanner_push, pop}
use x11spice.Scan.Queue.Points.{points}
use x11spice.Scan.Queue.Laws.{InReport, Reported}
use x11spice.Scan.Draw.Sample.{scene, drawing}
use x11spice.Scan.Thread.{Tick, State, scanner_run}
use x11spice.Scan.Thread.Exit.{scanner_run-exits}
use x11spice.Scan.Thread.Pending.{Watched, push, take, Reach, start, next, Reach-push_is_read}

abbrev at : ℕ → ScanReport
at x = record { type = scanline_scan_report; x = x; y = 0; w = 4; h = 2 }

-- One report is pushed, and popped by the thread.
abbrev first : Scanner points.Region
first = (scanner_push points true (scanner_create points) (at 0)).1

abbrev popped : Watched points.Region
popped = record { scanner = record first { queue = some [] }; hand = at 0 ∷ [] }

reached : Reach points popped
unfolding scanner_push scanner_create points pop
reached =
    next (next start (push true (at 0) (λ e. cc)))
      (take (at 0) (record first { queue = some [] }) refl refl refl)

-- Pushed again while the thread holds it, the report is discarded, and will still be read.
Reach-push_is_read_example :
    ((scanner_push points true popped.scanner (at 0)).0 ≡ 0)
    × (q : List ScanReport) × ((scanner_push points true popped.scanner (at 0)).1.queue ≡ some q)
    × ((px py : ℕ) → InReport (at 0) px py → Reported (popped.hand ++ q) px py)
unfolding scanner_push scanner_create points
Reach-push_is_read_example =
    Reach-push_is_read points (at 0) reached (omega arith, omega arith) (λ e. cc)

-- Another thread pushes one more report in each iteration.
abbrev tick : Tick
tick = record {
  alive = true;
  pushes = (true, at 40) ∷ [];
  malloc = λ r. true;
  lines = λ y. record { read_ok = true; pixels = λ k. 0 };
  stale = [];
  screen = record { read_ok = true; pixels = λ k. 0 };
  drawing = drawing;
}

abbrev ending : State points.Region
ending = record {
  scanner = record (scanner_create points) {
    queue = some (at 0 ∷ record (at 0) { type = exit_scan_report } ∷ []);
  };
  scene = scene;
}

scanner_run-exits_example : scanner_run points (pos 0) (tick ∷ tick ∷ []) ending ≡ none
scanner_run-exits_example =
    scanner_run-exits points (pos 0) (tick ∷ tick ∷ []) ending (at 0 ∷ [])
      (record (at 0) { type = exit_scan_report }) refl ([], refl) (omega arith)
