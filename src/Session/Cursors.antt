-- ===== src/Session/Cursors.antt =====
-- src/session.c: the queue of cursor commands between the thread of the X server's events and the
-- worker of the Spice server; src/spice.c: the callbacks through which the worker asks.
mod Order
use x11spice.Prelude.{
  ℕ, zero, suc, ◌+◌, Bool, true, false, Option, none, some, List, [], ◌∷◌, ◌++◌, ltb, length,
  if◌then◌else◌,
}
use x11spice.Prelude.Int.{ℤ, pos, ◌+ℤ◌}

-- `QXLCursorCmd` with its cursor, without the fields that are the same for all.
pub record CursorCommand : Type 0 where
  pub width : ℕ
  pub height : ℕ
  pub hot_spot_x : ℕ
  pub hot_spot_y : ℕ
  pub position_x : ℤ
  pub position_y : ℤ
  pub bytes : List ℕ

pub record Cursors : Type 0 where
  pub running : Bool
  pub cursor_queue : List CursorCommand

-- The arguments of `session_push_cursor_image`; `image` has `imglen` bytes.
pub record CursorImage : Type 0 where
  pub x : ℤ
  pub y : ℤ
  pub w : ℕ
  pub h : ℕ
  pub xhot : ℕ
  pub yhot : ℕ
  pub image : List ℕ

-- X11SPICE_ERR_MALLOC
abbrev pub err_malloc : ℕ
err_malloc = 7

abbrev pub command_of : CursorImage → CursorCommand
command_of i = record {
  width = i.w;
  height = i.h;
  hot_spot_x = i.xhot;
  hot_spot_y = i.yhot;
  position_x = i.x +ℤ pos i.xhot;
  position_y = i.y +ℤ pos i.yhot;
  bytes = i.image;
}

unfoldable pub session_push_cursor_image : Bool → CursorImage → Cursors → ℕ × Cursors
session_push_cursor_image calloc i c =
    if calloc
    then (0, record c { cursor_queue = c.cursor_queue ++ command_of i ∷ [] })
    else (err_malloc, c)

abbrev pub pop_command : List CursorCommand → Cursors → Option CursorCommand × Cursors
pop_command [] c = (none, c)
pop_command (x ∷ xs) c = (some x, record c { cursor_queue = xs })

unfoldable pub session_pop_cursor : Cursors → Option CursorCommand × Cursors
session_pop_cursor c = if c.running then pop_command c.cursor_queue c else (none, c)

unfoldable pub session_cursor_waiting : Cursors → ℕ
session_cursor_waiting c = if c.running then length c.cursor_queue else 0

-- The command, where the value returned is 1.
unfoldable pub get_cursor_command : Cursors → Option CursorCommand × Cursors
unfolding session_pop_cursor
get_cursor_command c = session_pop_cursor c

unfoldable pub req_cursor_notification : Cursors → Bool
unfolding session_cursor_waiting
req_cursor_notification c = if ltb 0 (session_cursor_waiting c) then false else true

-- The images of cursors, pushed one after the other.
unfoldable pub push_images : List CursorImage → Cursors → Cursors
unfolding session_push_cursor_image
push_images [] c = c
push_images (i ∷ is) c = push_images is (session_push_cursor_image true i c).1

-- The worker asks `n` times.
unfoldable pub ask : ℕ → Cursors → List (Option CursorCommand)
unfolding get_cursor_command
ask zero c = []
ask (suc n) c = (get_cursor_command c).0 ∷ ask n (get_cursor_command c).1
