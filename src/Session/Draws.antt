-- ===== src/Session/Draws.antt =====
-- src/session.c: the queue of drawables between the scanner's thread and the worker of the Spice
-- server, and the lock of the session; src/spice.c: the callbacks through which the worker asks.
-- Their `session` is never NULL.
mod Exclusion
mod Progress
mod Tests
use x11spice.Prelude.{
  ℕ, Bool, true, false, Option, none, some, List, [], ◌∷◌, ◌++◌, ltb, length, if◌then◌else◌,
}
use x11spice.Scan.Draw.{Drawable}

-- Who holds `lock`: nobody, the thread in the loop of `flush_and_lock` that looks at the flag, the
-- thread that has returned from it, or another.
pub data Lock : Type 0 where
  unlocked checking flushed elsewhere : Lock

pub record Draws : Type 0 where
  pub running : Bool
  pub draw_command_in_progress : Bool
  pub lock : Lock
  pub draw_queue : List Drawable

-- `g_mutex_trylock`
abbrev pub try_lock : Lock → Bool
try_lock unlocked = true
try_lock checking = false
try_lock flushed = false
try_lock elsewhere = false

abbrev pub try_pop : List Drawable → Draws → Option Drawable × Draws
try_pop [] d = (none, record d { draw_command_in_progress = false })
try_pop (x ∷ xs) d = (some x, record d { draw_command_in_progress = true; draw_queue = xs })

unfoldable pub session_pop_draw : Draws → Option Drawable × Draws
session_pop_draw d =
    if d.running
    then if try_lock d.lock then try_pop d.draw_queue d else (none, d)
    else (none, record d { draw_command_in_progress = false })

unfoldable pub session_draw_waiting : Draws → ℕ × Draws
session_draw_waiting d =
    if d.running
    then if try_lock d.lock then (length d.draw_queue, d) else (0, d)
    else (0, record d { draw_command_in_progress = false })

-- `cmd->cmd.data` where the value returned is 1.
unfoldable pub get_command : Draws → Option Drawable × Draws
unfolding session_pop_draw
get_command d = session_pop_draw d

-- 0 for false
unfoldable pub req_cmd_notification : Draws → Bool × Draws
unfolding session_draw_waiting
req_cmd_notification d =
    let (waiting, d') = session_draw_waiting d in (if ltb 0 waiting then false else true, d')

-- `g_mutex_lock` in the loop, once the lock is free.
unfoldable pub flush_lock : Draws → Draws
flush_lock d = record d { lock = checking }

-- The rest of the round.
unfoldable pub flush_check : Draws → Draws
flush_check d = record d { lock = if d.draw_command_in_progress then unlocked else flushed }

-- What other threads do while this one yields: the worker asks for a command, or the scanner's
-- thread pushes one.
pub data Other : Type 0 where
  asks : Other
  pushes : Drawable → Other

unfoldable pub others : List Other → Draws → Draws
unfolding get_command
others [] d = d
others (asks ∷ os) d = others os (get_command d).1
others (pushes x ∷ os) d = others os (record d { draw_queue = d.draw_queue ++ x ∷ [] })

-- The loop, with what other threads do after each round that fails; `none` while it has not ended.
-- Nobody else holds the lock.
unfoldable pub flush_and_lock : List (List Other) → Draws → Option Draws
unfolding flush_lock flush_check others
flush_and_lock [] d = none
flush_and_lock (os ∷ rounds) d =
    let checked = flush_check (flush_lock d) in
    let later = flush_and_lock rounds (others os checked) in
    if d.draw_command_in_progress then later else some checked
