-- ===== src/Session/Clients.antt =====
-- src/session.c: the connect and disconnect notices, and the commands that they start. `fork` answers
-- with a process id, or -1, in the session's process; the child runs the command and is not modelled.
-- src/spice.c: `channel_event`, which gives the notices.
mod Processes
mod Notices
mod Tests
use x11spice.Prelude.{
  ℕ, Bool, true, false, Option, none, some, List, [], ◌∷◌, ◌++◌, ◌&&◌, not, if◌then◌else◌, codes,
}
use x11spice.Prelude.Int.{ℤ, pos, is_zero}
use x11spice.Options.{Text}

-- `fork` with its answer, `waitpid` that finds the process gone, `killpg`, the notices of the window
-- and the messages of the audit log.
pub data ClientCall : Type 0 where
  forked waited killed : ℤ → ClientCall
  gui_connected : Text → ClientCall
  gui_disconnected audit_connect audit_disconnect : ClientCall

-- `audited` is `options.audit && audit_id != -1`; `is_global` says that `global_session` points to the
-- session, and not to NULL.
pub record Clients : Type 0 where
  pub on_connect : Option Text
  pub on_disconnect : Option Text
  pub audited : Bool
  pub is_global : Bool
  pub connected : Bool
  pub connect_pid : ℤ
  pub disconnect_pid : ℤ
  pub calls : List ClientCall

-- What the system answers: whether `waitpid` finds the process gone, the process id from `fork`, and
-- whether `calloc` succeeds.
pub record Answer : Type 0 where
  pub gone : ℤ → Bool
  pub fork : ℤ
  pub calloc : Bool

abbrev pub log : Clients → List ClientCall → Clients
log c out = record c { calls = c.calls ++ out }

-- `gone` answers for the process alone: for the -1 of a `fork` that failed, `waitpid` would take any
-- child that has ended.
unfoldable pub cleanup_process : Answer → ℤ → List ClientCall
cleanup_process os pid = (if os.gone pid then waited pid else killed pid) ∷ []

-- `if (pid) cleanup_process(pid)`
unfoldable pub cleanup : Answer → ℤ → List ClientCall
unfolding cleanup_process
cleanup os pid = if is_zero pid then [] else cleanup_process os pid

unfoldable pub invoke_on_connect : Answer → Clients → Clients
unfolding cleanup
invoke_on_connect os c = record c {
  connect_pid = os.fork;
  calls = c.calls ++ (cleanup os c.connect_pid ++ forked os.fork ∷ []);
}

unfoldable pub invoke_on_disconnect : Answer → Clients → Clients
unfolding cleanup
invoke_on_disconnect os c = record c {
  connect_pid = pos 0;
  disconnect_pid = os.fork;
  calls =
      c.calls ++ (cleanup os c.connect_pid ++ (cleanup os c.disconnect_pid ++ forked os.fork ∷ []));
}

-- GUI_FROM_PREFIX
abbrev pub gui_from_prefix : Text
gui_from_prefix = codes "Connection from "

abbrev pub when_given : Option Text → (Clients → Clients) → Clients → Clients
when_given none act c = c
when_given (some command) act c = act c

abbrev pub audit : ClientCall → Clients → Clients
audit message c = if c.audited then log c (message ∷ []) else c

unfoldable pub connect : Answer → Text → Clients → Clients
unfolding invoke_on_connect
connect os from c =
    let shown : Clients = record c {
      connected = true;
      calls = c.calls ++ (if os.calloc then gui_connected (gui_from_prefix ++ from) ∷ [] else []);
    } in
    audit audit_connect (when_given c.on_connect (invoke_on_connect os) shown)

unfoldable pub disconnect : Answer → Clients → Clients
unfolding invoke_on_disconnect
disconnect os c =
    let invoked =
      when_given c.on_disconnect (invoke_on_disconnect os) (record c { connected = false }) in
    audit audit_disconnect (log invoked (gui_disconnected ∷ []))

unfoldable pub session_remote_connected : Answer → Text → Clients → Clients
unfolding connect
session_remote_connected os from c = if c.is_global && not c.connected then connect os from c else c

unfoldable pub session_remote_disconnected : Answer → Clients → Clients
unfolding disconnect
session_remote_disconnected os c = if c.is_global && c.connected then disconnect os c else c

-- What `session_destroy` does with the processes.
unfoldable pub cleanup_all : Answer → Clients → Clients
unfolding cleanup
cleanup_all os c = record c {
  connect_pid = pos 0;
  disconnect_pid = pos 0;
  calls = c.calls ++ (cleanup os c.connect_pid ++ cleanup os c.disconnect_pid);
}

-- What `session_end` does with the notices.
unfoldable pub end_notices : Answer → Clients → Clients
unfolding session_remote_disconnected
end_notices os c = record (session_remote_disconnected os c) { is_global = false }

-- The kind of a channel's event, and whether the channel is the main one.
pub data ChannelEvent : Type 0 where
  connected initialized disconnected : ChannelEvent

-- The address of a client: the flag, and what `getnameinfo` answers.
pub record Address : Type 0 where
  pub addr_ext : Bool
  pub name : Option (Text × Text)

-- The two names, joined by a colon.
abbrev pub join_names : Option (Text × Text) → Text
join_names none = codes "Remote"
join_names (some (host, server)) = host ++ codes ":" ++ server

abbrev pub from_of : Address → Text
from_of a = if a.addr_ext then join_names a.name else codes "Remote"

unfoldable pub channel_event : Answer → ChannelEvent → Bool → Address → Clients → Clients
unfolding session_remote_connected session_remote_disconnected
channel_event os e false a c = c
channel_event os connected true a c = c
channel_event os initialized true a c = session_remote_connected os (from_of a) c
channel_event os disconnected true a c = session_remote_disconnected os c

-- An event of a channel with what the system answers.
pub record Happening : Type 0 where
  pub os : Answer
  pub event : ChannelEvent
  pub is_main : Bool
  pub address : Address

unfoldable pub channel_events : List Happening → Clients → Clients
unfolding channel_event
channel_events [] c = c
channel_events (h ∷ hs) c = channel_events hs (channel_event h.os h.event h.is_main h.address c)
