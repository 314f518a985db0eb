-- ===== src/Lib.antt =====
-- x11spice shares the screen of a running X server as a Spice server. This library models its
-- program under src/ and proves what its parts rely on. Paths are those of the repository.
--
-- The parts. A main program loads the options, opens the display, starts the Spice server and the
-- agent, and runs a session until it ends. The display reads the screen over shared memory. The
-- scanner's thread compares what it reads with a copy of the screen, and pushes the rectangles that
-- changed to a queue; it turns each rectangle of the queue into an image for the Spice server. Input
-- from the clients goes to the X server, directly or through the agent.
--
-- The files.
--   Prelude: shared names; lists with native indices; the C `int` as `ℤ`.
--   Display/ShmCache: src/display.c, `shm_segment_t`, `shm_cache_get`, `shm_cache_add`,
--     `shm_cache_destroy`, `shm_segment_destroy`. The array is a list, a pointer into it an index.
--   Display/Image, Display/Screens: src/display.c, `create_shm_image`, `destroy_shm_image`, the
--     three images of the screen and `display_close`. The state is `Display`, for the fields of
--     `display_t` that these use, with a log of the calls to the system.
--   Display/Compare: src/display.c, `display_find_changed_tiles`, `display_scan_whole_screen`,
--     `display_copy_image_into_fullscreen`. The pixels of an image are a function of their index.
--   Scan/Pace: src/scan.c, the rate of the scans and the order of the lines.
--   Scan/Grow, Scan/Spans, Scan/Report: src/scan.c, from the tiles that changed to the reports:
--     `grow_changed_tiles`, `push_changed_tiles` and what it calls, `push_tiles_report`.
--     Scan/Coverage joins the first two.
--   Scan/Queue: src/scan.c, `scanner_t`, `scanner_create`, `scanner_push`, `scanner_remove_region`,
--     `scanner_destroy`. Scan/Pixman is the interface to the library's regions, and Scan/Queue/Points
--     an instance of it for the tests.
--   Scan/Periodic: src/scan.c, `scanner_periodic` and `scan_full_screen`; Periodic/Lines, Pixel and
--     Eventually go from a pixel to the reports of the periodic scan, Screen and Full to those of a
--     scan of the whole screen.
--   Scan/Draw: src/scan.c, `handle_scan_report` and `shm_image_to_drawable`, on a `Scene` of the
--     display, the copy of the screen and the session's queue of drawables.
--   Scan/Thread: src/scan.c, `scanner_run`. Exit is about one thread with what the others push before
--     each pop; Pending about the interleaving of all, as a step relation.
--   Listen: src/listen.c, `listen_parse` (Parse, over the C library's `strtol` in Strtol) and
--     `try_port`, `listen_find_open_port` (Port).
--   Options: src/options.c, the state `options_t`; Ssl, Arguments, Config, Password and Load for
--     the functions in the order in which `options_load` calls them.
--   Agent: src/agent.c, the sockets, the fifo and the watches of the agent.
--     Agent/Uinput: the reading of the fifo and the handlers of its events. Uinput/Control joins
--     them with Input.
--   Session/Draws: src/session.c, the queue of drawables, the lock and `flush_and_lock`, with the
--     worker's callbacks of src/spice.c. Session/Clients: the notices of connections and the commands
--     started for them, with `channel_event` of src/spice.c. Session/Threads: `session_start` and
--     `session_end`.
--   Session/Resize: `session_recreate_primary`, `session_handle_resize` and `handle_configure_notify`.
--   Session/Cursors: the queue of cursor commands, with the worker's callbacks of src/spice.c.
--   Spice/Core, Spice/Release: src/spice.c, the timers and watches, and the release records.
--     Release/Circulation follows the segments through images and commands, as a step relation.
--   Events/Damage: src/display.c, `handle_damage_notify` and `display_trust_damage`, over an interface
--     to the damaged region.
--   Spice/Server: src/spice.c, `spice_start`, `spice_end` and what they call.
--   Main: src/main.c, `main`, over what each part returns; its threads are those of Session/Threads.
--   Input: src/spice.c and src/session.c, from `kbd_push_key` and the callbacks of the tablet to the
--     input that is faked on the X server.
-- A file Laws, or one named for what it proves, stands under the file that it is about; a file
-- Tests has runs at concrete inputs.
--
-- How the code corresponds. A function of the source is a definition of the same name; a loop or the
-- rest of a function behind a call is a definition of its own above it. What a function writes
-- through its arguments is part of its result. A pointer that may be NULL, and a value that may be
-- -1, are an Option where the code only tests for that, and a `ℤ` where it computes with it.
-- Unsigned products are taken modulo 2 ^ 32 where the source computes them in 32 bits, but for the
-- indices in the copy of the screen (`display_find_changed_tiles`,
-- `display_copy_image_into_fullscreen`): X's sizes are below 2 ^ 16, so that these do not wrap.
--
-- Loops. Every loop is a recursion over a list or over the number of rounds that its bounds allow,
-- so that no fuel is chosen. Only the loop of `generate_password` depends on how many answers it is
-- given, and has no result where they do not suffice. `flush_and_lock` takes what other threads do
-- between its rounds, and `scanner_run` its iterations.
--
-- The environment. The answers of the kernel, of the X server, of getopt, GKeyFile and the
-- resolver are arguments; the regions of pixman are an interface with what its manual says. Locks
-- are left out where they make one call atomic. The stale contents of a buffer are an argument.
--
-- Not modelled: the opening of the display, the notices of the cursor and the loop over the events
-- (src/display.c), which are calls of xcb; of the session the audit; of
-- src/spice.c the named indicators and the callbacks that only print; the window (src/gui.c). Neither
-- are the tests under src/tests, and the driver under spice-video-dummy, which is glue to the X
-- server's own structures.
pub mod Prelude
pub mod Display
pub mod Scan
pub mod Listen
pub mod Input
pub mod Options
pub mod Session
pub mod Agent
pub mod Events
pub mod Main
pub mod Spice
