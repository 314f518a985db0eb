-- ===== src/Session/Threads.antt =====
-- src/session.c: `session_start` and `session_end`, by the threads that they start and join; src/display.c:
-- `display_start_event_thread` and `display_stop_event_thread`.
use x11spice.Prelude.{Bool, true, false, List, [], ◌∷◌, ◌++◌, if◌then◌else◌}
use x11spice.Prelude.Int.{ℤ, is_zero}

pub data ThreadCall : Type 0 where
  scanner_created scanner_joined events_created events_joined : ThreadCall
  remote_disconnected display_destroy_screen_images : ThreadCall

-- `running`, whether `global_session` points to the session, and which threads run.
pub record Threads : Type 0 where
  pub running : Bool
  pub is_global : Bool
  pub scanner : Bool
  pub events : Bool
  pub calls : List ThreadCall

-- What `pthread_create` returns for the two threads.
pub record ThreadAnswers : Type 0 where
  pub scanner_create : ℤ
  pub event_thread : ℤ

-- `scanner_destroy` ends the thread and joins it.
abbrev pub join_scanner : Threads → Threads
join_scanner t = record t { scanner = false; calls = t.calls ++ scanner_joined ∷ [] }

unfoldable pub display_stop_event_thread : Threads → Threads
display_stop_event_thread t = record t { events = false; calls = t.calls ++ events_joined ∷ [] }

-- To join a thread that was not created is undefined in the source; here it only stands in the log.
unfoldable pub session_end : Threads → Threads
unfolding display_stop_event_thread
session_end t =
    let silent : Threads = record t {
      running = false;
      is_global = false;
      calls = t.calls ++ remote_disconnected ∷ [];
    } in
    let joined = join_scanner (display_stop_event_thread silent) in
    record joined { calls = joined.calls ++ display_destroy_screen_images ∷ [] }

unfoldable pub display_start_event_thread : ℤ → Threads → ℤ × Threads
display_start_event_thread rc t =
    if is_zero rc
    then (rc, record t { events = true; calls = t.calls ++ events_created ∷ [] })
    else (rc, t)

-- What follows `display_start_event_thread`, whose error skips the label `end`.
abbrev pub end_started : ℤ × Threads → ℤ × Threads
end_started (rc, t) = if is_zero rc then (rc, record t { is_global = true }) else (rc, t)

unfoldable pub session_start : ThreadAnswers → Threads → ℤ × Threads
unfolding display_start_event_thread session_end
session_start os t =
    let ready : Threads = record t { running = true } in
    if is_zero os.scanner_create
    then end_started (
        display_start_event_thread os.event_thread
          (record ready { scanner = true; calls = ready.calls ++ scanner_created ∷ [] }))
    else (os.scanner_create, session_end (record ready { is_global = true }))
