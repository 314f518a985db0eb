-- ===== src/Spice/Core.antt =====
-- src/spice.c: the timers and watches of the core interface, over the sources of GLib's main loop.
mod Sources
mod Tests
use x11spice.Prelude.{
  ℕ, ◌+◌, Bool, true, false, ◌||◌, not, ◌==◌, Option, none, some, List, [], ◌∷◌, if◌then◌else◌,
}

-- The main loop: the sources that are attached, and of all sources how many references were made and
-- given up. `next` names the source that is made next.
pub record Loop : Type 0 where
  pub next : ℕ
  pub attached : List ℕ
  pub references : ℕ
  pub unreferences : ℕ

-- `g_source_destroy`
unfoldable pub detach : ℕ → List ℕ → List ℕ
detach i [] = []
detach i (j ∷ rest) = let later = detach i rest in if i == j then later else j ∷ later

-- The field `source` of a timer or a watch, and the loop.
pub record Sourced : Type 0 where
  pub source : Option ℕ
  pub loop : Loop

-- `g_timeout_source_new` or `g_io_create_watch`, then `g_source_attach`.
abbrev pub attach : Sourced → Sourced
attach s = record {
  source = some s.loop.next;
  loop = record s.loop {
    next = s.loop.next + 1;
    attached = s.loop.next ∷ s.loop.attached;
    references = s.loop.references + 1;
  };
}

-- `g_source_destroy` and `g_source_unref` of a source that is not NULL.
unfoldable pub drop_source : Option ℕ → Loop → Sourced
unfolding detach
drop_source none l = record { source = none; loop = l }
drop_source (some i) l = record {
  source = none;
  loop = record l { attached = detach i l.attached; unreferences = l.unreferences + 1 };
}

unfoldable pub timer_cancel : Sourced → Sourced
unfolding drop_source
timer_cancel s = drop_source s.source s.loop

unfoldable pub timer_start : Sourced → Sourced
unfolding timer_cancel
timer_start s = attach (timer_cancel s)

-- The timer runs out: `timer_func` answers FALSE, and the loop drops the source, to which the timer
-- still points.
unfoldable pub timer_func : Sourced → Sourced
unfolding detach
timer_func s = elim s.source [
  | none ↦ s
  | some i ↦ record s { loop = record s.loop { attached = detach i s.loop.attached } }
]

-- The bits READ and WRITE of a mask of the Spice server, and IN and OUT of a condition of GLib.
pub record EventMask : Type 0 where
  pub read : Bool
  pub write : Bool

pub record IoCondition : Type 0 where
  pub input : Bool
  pub output : Bool

abbrev pub spice_event_to_giocondition : EventMask → IoCondition
spice_event_to_giocondition e = record { input = e.read; output = e.write }

abbrev pub giocondition_to_spice_event : IoCondition → EventMask
giocondition_to_spice_event c = record { read = c.input; write = c.output }

-- A watch, with the condition that its source waits for.
pub record Watch : Type 0 where
  pub sourced : Sourced
  pub condition : IoCondition

unfoldable pub watch_update_mask : EventMask → Watch → Watch
unfolding drop_source
watch_update_mask mask w =
    let dropped = drop_source w.sourced.source w.sourced.loop in
    if mask.read || mask.write
    then record { sourced = attach dropped; condition = spice_event_to_giocondition mask }
    else record w { sourced = dropped }

-- What `watch_func` hands to the function of the watch.
unfoldable pub watch_func : IoCondition → EventMask
watch_func c = giocondition_to_spice_event c

unfoldable pub watch_add : EventMask → Loop → Watch
unfolding watch_update_mask
watch_add mask l = watch_update_mask mask (record {
  sourced = record { source = none; loop = l };
  condition = record { input = false; output = false };
})

abbrev pub no_events : EventMask
no_events = record { read = false; write = false }

unfoldable pub watch_remove : Watch → Loop
unfolding watch_update_mask
watch_remove w = (watch_update_mask no_events w).sourced.loop

-- What becomes of a timer between `timer_add` and `timer_remove`.
pub data TimerOp : Type 0 where
  start_timer cancel_timer run_out : TimerOp

unfoldable pub timer_ops : List TimerOp → Sourced → Sourced
unfolding timer_start timer_func timer_cancel
timer_ops [] s = s
timer_ops (start_timer ∷ ops) s = timer_ops ops (timer_start s)
timer_ops (cancel_timer ∷ ops) s = timer_ops ops (timer_cancel s)
timer_ops (run_out ∷ ops) s = timer_ops ops (timer_func s)

unfoldable pub timer_remove : Sourced → Loop
unfolding timer_cancel
timer_remove s = (timer_cancel s).loop
