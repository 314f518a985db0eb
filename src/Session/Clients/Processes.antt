-- ===== src/Session/Clients/Processes.antt =====
-- src/session.c: every process that is started for a notice is waited for or killed, once.
use x11spice.Prelude.{ℕ, ◌+◌, ◌≡◌, Bool, false, List, [], ◌∷◌, ◌==◌, if◌then◌else◌}
use x11spice.Prelude.Int.{ℤ, pos, negsuc, is_zero}
use x11spice.Session.Clients.{
  ClientCall, forked, waited, killed, gui_connected, gui_disconnected, audit_connect,
  audit_disconnect, Clients,
}

abbrev same_pid : ℤ → ℤ → Bool
same_pid (pos a) (pos b) = a == b
same_pid (negsuc a) (negsuc b) = a == b
same_pid (pos a) (negsuc b) = false
same_pid (negsuc a) (pos b) = false

-- Whether a field holds the process, which is not 0 then.
unfoldable pub owns : ℤ → ℤ → ℕ
owns k pid = if is_zero pid then 0 else if same_pid k pid then 1 else 0

-- How often a process was started, and how often it was waited for or killed.
abbrev pub starts : ℤ → List ClientCall → ℕ
starts k [] = 0
starts k (forked pid ∷ out) = owns k pid + starts k out
starts k (waited pid ∷ out) = starts k out
starts k (killed pid ∷ out) = starts k out
starts k (gui_connected t ∷ out) = starts k out
starts k (gui_disconnected ∷ out) = starts k out
starts k (audit_connect ∷ out) = starts k out
starts k (audit_disconnect ∷ out) = starts k out

abbrev pub ends : ℤ → List ClientCall → ℕ
ends k [] = 0
ends k (forked pid ∷ out) = ends k out
ends k (waited pid ∷ out) = owns k pid + ends k out
ends k (killed pid ∷ out) = owns k pid + ends k out
ends k (gui_connected t ∷ out) = ends k out
ends k (gui_disconnected ∷ out) = ends k out
ends k (audit_connect ∷ out) = ends k out
ends k (audit_disconnect ∷ out) = ends k out

-- A process was started as often as it was ended, and once more for each field that holds it.
abbrev pub IsTended : Clients → Type 0
IsTended c =
    (k : ℤ) → starts k c.calls ≡ ends k c.calls + (owns k c.connect_pid + owns k c.disconnect_pid)
