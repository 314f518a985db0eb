-- ===== src/Session/Clients/Notices.antt =====
-- src/session.c: the window is told of a connection and of its end in turn.
use x11spice.Prelude.{
  ◌≡◌, refl, sym, ap, ◌∙◌, Bool, true, false, Option, none, some, List, [], ◌∷◌, ◌++◌, ◌&&◌, not,
  arith, if◌then◌else◌, All, Bool-cases, inl, inr,
}
use x11spice.Prelude.Int.{ℤ, is_zero}
use x11spice.Options.{Text}
use x11spice.Session.Clients.{
  ClientCall, forked, waited, killed, gui_connected, gui_disconnected, audit_connect,
  audit_disconnect, Clients, Answer, cleanup_process, cleanup, invoke_on_connect,
  invoke_on_disconnect, when_given, connect, disconnect, session_remote_connected,
  session_remote_disconnected, ChannelEvent, connected, initialized, disconnected, Address, from_of,
  channel_event, channel_events, Happening, log, gui_from_prefix,
}

-- What the window shows after the calls, if each notice is one that it can take.
unfoldable pub shown : Bool → List ClientCall → Option Bool
shown b [] = some b
shown true (gui_connected t ∷ out) = none
shown false (gui_connected t ∷ out) = shown true out
shown true (gui_disconnected ∷ out) = shown false out
shown false (gui_disconnected ∷ out) = none
shown b (forked pid ∷ out) = shown b out
shown b (waited pid ∷ out) = shown b out
shown b (killed pid ∷ out) = shown b out
shown b (audit_connect ∷ out) = shown b out
shown b (audit_disconnect ∷ out) = shown b out

abbrev or_true : Option Bool → Bool
or_true none = true
or_true (some b) = b

shown-append :
    (b last : Bool) (xs ys : List ClientCall)
    → shown b xs ≡ some last
    → shown b (xs ++ ys) ≡ shown last ys
unfolding shown
shown-append b last [] ys e = ap (λ o. shown (or_true o) ys) e
shown-append true last (gui_connected t ∷ xs) ys e = absurd (ground arith)
shown-append false last (gui_connected t ∷ xs) ys e = shown-append true last xs ys e
shown-append true last (gui_disconnected ∷ xs) ys e = shown-append false last xs ys e
shown-append false last (gui_disconnected ∷ xs) ys e = absurd (ground arith)
shown-append b last (forked pid ∷ xs) ys e = shown-append b last xs ys e
shown-append b last (waited pid ∷ xs) ys e = shown-append b last xs ys e
shown-append b last (killed pid ∷ xs) ys e = shown-append b last xs ys e
shown-append b last (audit_connect ∷ xs) ys e = shown-append b last xs ys e
shown-append b last (audit_disconnect ∷ xs) ys e = shown-append b last xs ys e

-- The window shows `b`, and the session is connected or not as `k` says.
abbrev Shows : Bool → Bool → Clients → Type 0
Shows b k c = (shown false c.calls ≡ some b) × (c.connected ≡ k)

-- Calls that are no notices.
abbrev IsSilent : List ClientCall → Type 0
IsSilent out = (b : Bool) → shown b out ≡ some b

IsSilent-append : (xs ys : List ClientCall) → IsSilent xs → IsSilent ys → IsSilent (xs ++ ys)
IsSilent-append xs ys first second b = shown-append b b xs ys (first b) ∙ second b

cleanup-IsSilent : (os : Answer) (pid : ℤ) → IsSilent (cleanup os pid)
unfolding cleanup cleanup_process shown
cleanup-IsSilent os pid b = elim (Bool-cases (is_zero pid)) [
  | inl zero_pid ↦ rw zero_pid (either true)
  | inr given ↦ rw given (either (os.gone pid))
]
  where
    either : (gone : Bool) → shown b ((if gone then waited pid else killed pid) ∷ []) ≡ some b
    either true = refl
    either false = refl

forked-IsSilent : (pid : ℤ) → IsSilent (forked pid ∷ [])
unfolding shown
forked-IsSilent pid true = refl
forked-IsSilent pid false = refl

invoke_on_connect-Shows :
    (os : Answer) (b k : Bool) (c : Clients) → Shows b k c → Shows b k (invoke_on_connect os c)
unfolding invoke_on_connect
invoke_on_connect-Shows os b k c (e, e') =
    let out = cleanup os c.connect_pid ++ forked os.fork ∷ [] in
    (
      shown-append false b c.calls out e
          ∙ IsSilent-append (cleanup os c.connect_pid) (forked os.fork ∷ [])
              (cleanup-IsSilent os c.connect_pid) (forked-IsSilent os.fork) b,
      e',
    )

invoke_on_disconnect-Shows :
    (os : Answer) (b k : Bool) (c : Clients) → Shows b k c → Shows b k (invoke_on_disconnect os c)
unfolding invoke_on_disconnect
invoke_on_disconnect-Shows os b k c (e, e') =
    let last = cleanup os c.disconnect_pid ++ forked os.fork ∷ [] in
    (
      shown-append false b c.calls (cleanup os c.connect_pid ++ last) e
          ∙ IsSilent-append (cleanup os c.connect_pid) last (cleanup-IsSilent os c.connect_pid)
              (IsSilent-append (cleanup os c.disconnect_pid) (forked os.fork ∷ [])
                (cleanup-IsSilent os c.disconnect_pid) (forked-IsSilent os.fork))
              b,
      e',
    )

when_given-Shows :
    (command : Option Text) (act : Clients → Clients) (b k : Bool) (c : Clients)
    → ((d : Clients) → Shows b k d → Shows b k (act d))
    → Shows b k c
    → Shows b k (when_given command act c)
when_given-Shows none act b k c keeps shows = shows
when_given-Shows (some command) act b k c keeps shows = keeps c shows

audit-Shows :
    (audited : Bool) (message : ClientCall) (b k : Bool) (c : Clients)
    → IsSilent (message ∷ [])
    → Shows b k c
    → Shows b k (if audited then log c (message ∷ []) else c)
audit-Shows true message b k c silent (e, e') =
    (shown-append false b c.calls (message ∷ []) e ∙ silent b, e')
audit-Shows false message b k c silent shows = shows

audit_connect-IsSilent : IsSilent (audit_connect ∷ [])
unfolding shown
audit_connect-IsSilent true = refl
audit_connect-IsSilent false = refl

audit_disconnect-IsSilent : IsSilent (audit_disconnect ∷ [])
unfolding shown
audit_disconnect-IsSilent true = refl
audit_disconnect-IsSilent false = refl

connect-Shows :
    (os : Answer) (from : Text) (c : Clients)
    → os.calloc ≡ true
    → Shows false false c
    → Shows true true (connect os from c)
unfolding connect shown
connect-Shows os from c made (e, e') =
    let text = gui_from_prefix ++ from in
    let out = if os.calloc then gui_connected text ∷ [] else [] in
    let told : Clients = log (record c { connected = true }) out in
    let invoked = when_given c.on_connect (invoke_on_connect os) told in
    let notice : shown false out ≡ some true = rw made refl in
    audit-Shows invoked.audited audit_connect true true invoked audit_connect-IsSilent (
      when_given-Shows c.on_connect (invoke_on_connect os) true true told
        (invoke_on_connect-Shows os true true)
        (shown-append false false c.calls out e ∙ notice, refl))

disconnect-Shows :
    (os : Answer) (c : Clients) → Shows true true c → Shows false false (disconnect os c)
unfolding disconnect shown
disconnect-Shows os c (e, e') =
    let invoked =
      when_given c.on_disconnect (invoke_on_disconnect os) (record c { connected = false }) in
    let kept =
      when_given-Shows c.on_disconnect (invoke_on_disconnect os) true false
        (record c { connected = false }) (invoke_on_disconnect-Shows os true false) (e, refl) in
    audit-Shows invoked.audited audit_disconnect false false (log invoked (gui_disconnected ∷ []))
      audit_disconnect-IsSilent
      (shown-append false true invoked.calls (gui_disconnected ∷ []) kept.0, kept.1)

-- The window shows whether the session is connected.
abbrev pub IsShown : Clients → Type 0
IsShown c = shown false c.calls ≡ some c.connected

session_remote_connected-IsShown :
    (os : Answer) (from : Text) (c : Clients)
    → os.calloc ≡ true
    → IsShown c
    → IsShown (session_remote_connected os from c)
unfolding session_remote_connected
session_remote_connected-IsShown os from c made e = go (c.is_global) c.connected refl
  where
    go :
        (global is_on : Bool)
        → c.connected ≡ is_on
        → IsShown (if global && not is_on then connect os from c else c)
    go true false off =
        let (said, on) = connect-Shows os from c made (e ∙ ap some off, off) in
        said ∙ ap some (sym on)
    go true true on = e
    go false true on = e
    go false false on = e

session_remote_disconnected-IsShown :
    (os : Answer) (c : Clients) → IsShown c → IsShown (session_remote_disconnected os c)
unfolding session_remote_disconnected
session_remote_disconnected-IsShown os c e = go (c.is_global) c.connected refl
  where
    go :
        (global is_on : Bool)
        → c.connected ≡ is_on
        → IsShown (if global && is_on then disconnect os c else c)
    go true true on =
        let (said, off) = disconnect-Shows os c (e ∙ ap some on, on) in said ∙ ap some (sym off)
    go true false off = e
    go false true on = e
    go false false off = e

channel_event-IsShown :
    (os : Answer) (e : ChannelEvent) (is_main : Bool) (a : Address) (c : Clients)
    → os.calloc ≡ true
    → IsShown c
    → IsShown (channel_event os e is_main a c)
unfolding channel_event
channel_event-IsShown os e false a c made shows = shows
channel_event-IsShown os connected true a c made shows = shows
channel_event-IsShown os initialized true a c made shows =
    session_remote_connected-IsShown os (from_of a) c made shows
channel_event-IsShown os disconnected true a c made shows =
    session_remote_disconnected-IsShown os c shows

-- Whatever the channels' events, the window is told of a connection and of its end in turn, and
-- shows in the end whether the session is connected, if `calloc` does not fail.
pub channel_events-IsShown :
    (hs : List Happening) (c : Clients)
    → All (λ h. h.os.calloc ≡ true) hs
    → IsShown c
    → IsShown (channel_events hs c)
unfolding channel_events
channel_events-IsShown [] c made shows = shows
channel_events-IsShown (h ∷ hs) c made shows =
    channel_events-IsShown hs (channel_event h.os h.event h.is_main h.address c) made.1
      (channel_event-IsShown h.os h.event h.is_main h.address c made.0 shows)
