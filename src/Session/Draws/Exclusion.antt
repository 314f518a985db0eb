-- ===== src/Session/Draws/Exclusion.antt =====
-- src/session.c: no drawable is with the worker of the Spice server while a thread that has returned
-- from `flush_and_lock` holds the lock.
use x11spice.Prelude.{
  ℕ, ◌≡◌, refl, sym, ap, ◌∙◌, length, Bool, true, false, Option, none, List, [], ◌∷◌, ◌++◌, arith,
  if◌then◌else◌, inl, inr, ◌⊎◌,
}
use x11spice.Scan.Draw.{Drawable}
use x11spice.Session.Draws.{
  Lock, unlocked, checking, flushed, elsewhere, Draws, try_lock, try_pop, get_command,
  req_cmd_notification, flush_lock, flush_check, session_pop_draw, session_draw_waiting,
}

-- The session, and the drawable that the worker works on.
pub record Watched : Type 0 where
  pub draws : Draws
  pub hand : Option Drawable

abbrev pub started : Watched
started = record {
  draws = record {
    running = true;
    draw_command_in_progress = false;
    lock = unlocked;
    draw_queue = [];
  };
  hand = none;
}

-- The worker asks for a command once it is done with the last, and to be notified once it has got
-- none. The scanner's thread pushes without the lock.
pub data Step : Watched → Watched → Type 0 where
  get :
      {s : Watched}
      → Step s (record { draws = (get_command s.draws).1; hand = (get_command s.draws).0 })
  wait :
      {s : Watched} → s.hand ≡ none → Step s (record s { draws = (req_cmd_notification s.draws).1 })
  push :
      {s : Watched} (x : Drawable)
      → Step s (record s { draws = record s.draws { draw_queue = s.draws.draw_queue ++ x ∷ [] } })
  lock_to_flush :
      {s : Watched} → s.draws.lock ≡ unlocked → Step s (record s { draws = flush_lock s.draws })
  check :
      {s : Watched} → s.draws.lock ≡ checking → Step s (record s { draws = flush_check s.draws })
  lock_elsewhere :
      {s : Watched}
      → s.draws.lock ≡ unlocked
      → Step s (record s { draws = record s.draws { lock = elsewhere } })
  unlock : {s : Watched} → Step s (record s { draws = record s.draws { lock = unlocked } })
  end_session : {s : Watched} → Step s (record s { draws = record s.draws { running = false } })

pub data Reach : Watched → Type 0 where
  start : Reach started
  next : {s t : Watched} → Reach s → Step s t → Reach t

-- A drawable with the worker is noted in the flag, which is clear under the lock of a flush.
abbrev pub IsNoted : Watched → Type 0
IsNoted s =
    ((s.hand ≡ none) ⊎ (s.draws.draw_command_in_progress ≡ true))
    × (s.draws.lock ≡ flushed → s.draws.draw_command_in_progress ≡ false)

-- An answer to the worker, with what it leaves.
abbrev answered : Option Drawable × Draws → Watched
answered (x, d) = record { draws = d; hand = x }

abbrev is_flushed : Lock → Bool
is_flushed flushed = true
is_flushed unlocked = false
is_flushed checking = false
is_flushed elsewhere = false

popped-IsNoted :
    (running : Bool) (l : Lock) (q : List Drawable) (d : Draws)
    → d.lock ≡ l
    → (d.lock ≡ flushed → d.draw_command_in_progress ≡ false)
    → IsNoted (
        answered (
          if running
          then if try_lock l then try_pop q d else (none, d)
          else (none, record d { draw_command_in_progress = false })))
popped-IsNoted false l q d e clear = (inl refl, λ f. refl)
popped-IsNoted true unlocked [] d e clear = (inl refl, λ f. refl)
popped-IsNoted true unlocked (x ∷ xs) d e clear = (inr refl, λ f. ap is_flushed (sym f ∙ e))
popped-IsNoted true checking q d e clear = (inl refl, clear)
popped-IsNoted true flushed q d e clear = (inl refl, clear)
popped-IsNoted true elsewhere q d e clear = (inl refl, clear)

abbrev waited : Bool → Lock → Draws → ℕ × Draws
waited running l d =
    if running
    then if try_lock l then (length d.draw_queue, d) else (0, d)
    else (0, record d { draw_command_in_progress = false })

waiting-IsNoted :
    (running : Bool) (h : Option Drawable) (l : Lock) (d : Draws)
    → h ≡ none
    → (d.lock ≡ flushed → d.draw_command_in_progress ≡ false)
    → IsNoted (record { draws = (waited running l d).1; hand = h })
waiting-IsNoted false h l d e clear = (inl e, λ f. refl)
waiting-IsNoted true h unlocked d e clear = (inl e, clear)
waiting-IsNoted true h checking d e clear = (inl e, clear)
waiting-IsNoted true h flushed d e clear = (inl e, clear)
waiting-IsNoted true h elsewhere d e clear = (inl e, clear)

checked-clear : (p : Bool) → (if p then unlocked else flushed) ≡ flushed → p ≡ false
checked-clear true e = ap is_flushed (sym e)
checked-clear false e = refl

Step-IsNoted : {s t : Watched} → Step s t → IsNoted s → IsNoted t
unfolding get_command session_pop_draw req_cmd_notification session_draw_waiting flush_lock
    flush_check
Step-IsNoted {s} get noted =
    popped-IsNoted s.draws.running s.draws.lock s.draws.draw_queue s.draws refl noted.1
Step-IsNoted {s} (wait idle) noted =
    waiting-IsNoted s.draws.running s.hand s.draws.lock s.draws idle noted.1
Step-IsNoted (push x) noted = noted
Step-IsNoted (lock_to_flush free) noted = (noted.0, λ f. absurd (ground (arith, ap is_flushed f)))
Step-IsNoted {s} (check held) noted = (noted.0, checked-clear s.draws.draw_command_in_progress)
Step-IsNoted (lock_elsewhere free) noted = (noted.0, λ f. absurd (ground (arith, ap is_flushed f)))
Step-IsNoted unlock noted = (noted.0, λ f. absurd (ground (arith, ap is_flushed f)))
Step-IsNoted end_session noted = noted

Reach-IsNoted : {s : Watched} → Reach s → IsNoted s
Reach-IsNoted start = (inl refl, λ f. refl)
Reach-IsNoted (next reached step) = Step-IsNoted step (Reach-IsNoted reached)

-- In every state that the threads can reach: while a thread that has returned from
-- `flush_and_lock` holds the lock, the worker has no drawable and gets none.
pub Reach-flushed :
    {s : Watched}
    → Reach s
    → s.draws.lock ≡ flushed
    → (s.hand ≡ none) × ((get_command s.draws).0 ≡ none)
unfolding get_command session_pop_draw
Reach-flushed {s} reached held =
    let noted = Reach-IsNoted reached in
    (
      elim noted.0 [ inl idle ↦ idle | inr busy ↦ absurd (ground (arith, busy, noted.1 held)) ],
      unpopped s.draws.running s.draws.lock held,
    )
  where
    asked : Bool → Lock → Option Drawable × Draws
    asked running l =
        if running
        then if try_lock l then try_pop s.draws.draw_queue s.draws else (none, s.draws)
        else (none, record s.draws { draw_command_in_progress = false })

    unpopped : (running : Bool) (l : Lock) → l ≡ flushed → (asked running l).0 ≡ none
    unpopped false l e = refl
    unpopped true unlocked e = absurd (ground (arith, ap is_flushed e))
    unpopped true checking e = refl
    unpopped true flushed e = refl
    unpopped true elsewhere e = refl
