-- ===== src/Session/Draws/Tests.antt =====
-- src/session.c: the queue of drawables at a concrete input.
use x11spice.Prelude.{◌≡◌, refl, true, false, none, some, [], ◌∷◌, arith, replicate}
use x11spice.Scan.Draw.{Drawable, drawable_of}
use x11spice.Scan.Draw.Sample.{image}
use x11spice.Session.Draws.{
  unlocked, flushed, Draws, get_command, session_pop_draw, asks, flush_and_lock, flush_lock,
  flush_check,
}
use x11spice.Session.Draws.Exclusion.{
  Watched, started, Reach, start, next, push, get, lock_to_flush, check, Reach-flushed,
}
use x11spice.Session.Draws.Progress.{flush_and_lock-locks}

abbrev drawable : Drawable
drawable = drawable_of true (image 20 16) 99 10 8

-- A drawable is pushed, the worker gets it and asks again, and a thread flushes.
abbrev after_flush : Watched
after_flush = record started { draws = record started.draws { lock = flushed } }

reached : Reach after_flush
unfolding get_command session_pop_draw flush_lock flush_check
reached =
    next (next (next (next (next start (push drawable)) get) get) (lock_to_flush refl)) (check refl)

Reach-flushed_example : (after_flush.hand ≡ none) × ((get_command after_flush.draws).0 ≡ none)
Reach-flushed_example = Reach-flushed reached refl

abbrev busy : Draws
busy = record {
  running = true;
  draw_command_in_progress = true;
  lock = unlocked;
  draw_queue = drawable ∷ drawable ∷ [];
}

flush_and_lock-locks_example :
    (t : Draws) × (flush_and_lock (replicate 4 (asks ∷ [])) busy ≡ some t)
    × (t.lock ≡ flushed)
    × (t.draw_command_in_progress ≡ false)
flush_and_lock-locks_example = flush_and_lock-locks 4 busy (refl, refl) (omega arith)
