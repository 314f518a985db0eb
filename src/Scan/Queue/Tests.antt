-- ===== src/Scan/Queue/Tests.antt =====
-- src/scan.c: the queue and the region at concrete inputs.
use x11spice.Prelude.{ℕ, true, some, []}
use x11spice.Scan.Report.{ScanReport, scanline_scan_report}
use x11spice.Scan.Queue.{Scanner, scanner_create, scanner_push}
use x11spice.Scan.Queue.Laws.{IsTracked, scanner_create-IsTracked, scanner_push-IsTracked}
use x11spice.Scan.Queue.Points.{points}

abbrev report : ℕ → ScanReport
report x = record { type = scanline_scan_report; x = x; y = 0; w = 4; h = 2 }

-- The scanner after one push.
abbrev pushed : Scanner points.Region
pushed = (scanner_push points true (scanner_create points) (report 0)).1

pushed-IsTracked : IsTracked points pushed
pushed-IsTracked =
    scanner_push-IsTracked points true (scanner_create points) (report 0)
      (scanner_create-IsTracked points)

abbrev popped : Scanner points.Region
popped = record pushed { queue = some [] }
