-- ===== src/Spice/Core/Tests.antt =====
-- src/spice.c: a timer at a concrete run.
use x11spice.Prelude.{◌+◌, ◌≡◌, none, [], ◌∷◌, arith}
use x11spice.Spice.Core.{Loop, Sourced, start_timer, run_out, timer_ops, timer_remove}
use x11spice.Spice.Core.Sources.{timer_remove-leaves_none}

abbrev loop : Loop
loop = record { next = 3; attached = 2 ∷ 0 ∷ []; references = 3; unreferences = 1 }

abbrev timer : Sourced
timer = record { source = none; loop = loop }

timer_remove-leaves_none_example :
    ((timer_remove
        (timer_ops (start_timer ∷ start_timer ∷ run_out ∷ start_timer ∷ []) timer)).attached
      ≡ 2 ∷ 0 ∷ [])
    × ((timer_remove
            (timer_ops (start_timer ∷ start_timer ∷ run_out ∷ start_timer ∷ []) timer)).unreferences
          + 3
        ≡ (timer_remove
            (timer_ops (start_timer ∷ start_timer ∷ run_out ∷ start_timer ∷ []) timer)).references
          + 1)
timer_remove-leaves_none_example =
    timer_remove-leaves_none loop (omega arith, (omega arith, tt))
      (start_timer ∷ start_timer ∷ run_out ∷ start_timer ∷ [])
