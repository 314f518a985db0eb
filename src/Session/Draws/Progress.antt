-- ===== src/Session/Draws/Progress.antt =====
-- src/session.c: when the loop of `flush_and_lock` ends.
use x11spice.Prelude.{
  ℕ, zero, suc, subst, ◌+◌, ◌<◌, ◌≡◌, refl, sym, Bool, true, false, none, some, List, [], ◌∷◌, ◌++◌,
  length, replicate, arith,
}
use x11spice.Scan.Draw.{Drawable}
use x11spice.Session.Draws.{
  unlocked, flushed, Draws, asks, pushes, get_command, session_pop_draw, others, flush_lock,
  flush_check, flush_and_lock,
}

-- The session with its lock held and no command in progress.
abbrev pub locked_with : List Drawable → Draws → Draws
locked_with q d = record d { draw_command_in_progress = false; lock = flushed; draw_queue = q }

-- What the session is like between two rounds.
abbrev between : Bool → List Drawable → Draws → Draws
between busy q d = record d {
  running = true;
  draw_command_in_progress = busy;
  lock = unlocked;
  draw_queue = q;
}

drained :
    (n : ℕ) (q : List Drawable) (d : Draws)
    → length q + 1 < n
    → flush_and_lock (replicate n (asks ∷ [])) (between true q d)
      ≡ some (locked_with [] (between true q d))
unfolding flush_and_lock flush_lock flush_check others get_command session_pop_draw
drained zero q d lt = absurd (omega arith)
drained (suc zero) q d lt = absurd (omega arith)
drained (suc (suc n)) [] d lt = refl
drained (suc (suc n)) (x ∷ xs) d lt = drained (suc n) xs d (omega arith)

-- A running session whose lock is free.
abbrev pub IsFree : Draws → Type 0
IsFree d = (d.running ≡ true) × (d.lock ≡ unlocked)

between-fields : (d : Draws) → IsFree d → d ≡ between d.draw_command_in_progress d.draw_queue d
between-fields d free = λ i. record d { running = free.0 i; lock = free.1 i }

locks :
    (busy : Bool) (n : ℕ) (d : Draws)
    → length d.draw_queue + 1 < n
    → (t : Draws) × (flush_and_lock (replicate n (asks ∷ [])) (between busy d.draw_queue d)
        ≡ some t)
      × (t.lock ≡ flushed)
      × (t.draw_command_in_progress ≡ false)
unfolding flush_and_lock flush_lock flush_check
locks true n d lt = (_, drained n d.draw_queue d lt, refl, refl)
locks false zero d lt = absurd (omega arith)
locks false (suc n) d lt = (_, refl, refl, refl)

-- If the worker asks for a command between the rounds and nothing is pushed, the loop ends with the
-- lock held and no command in progress, two rounds behind the length of the queue at most.
pub flush_and_lock-locks :
    (n : ℕ) (d : Draws)
    → IsFree d
    → length d.draw_queue + 1 < n
    → (t : Draws) × (flush_and_lock (replicate n (asks ∷ [])) d ≡ some t)
      × (t.lock ≡ flushed)
      × (t.draw_command_in_progress ≡ false)
flush_and_lock-locks n d free lt =
    subst
      (λ e.
        (t : Draws) × (flush_and_lock (replicate n (asks ∷ [])) e ≡ some t)
        × (t.lock ≡ flushed)
        × (t.draw_command_in_progress ≡ false))
      (sym (between-fields d free)) (locks d.draw_command_in_progress n d lt)

starved :
    (n : ℕ) (x : Drawable) (q : List Drawable) (d : Draws)
    → flush_and_lock (replicate n (pushes x ∷ asks ∷ [])) (between true q d) ≡ none
unfolding flush_and_lock flush_lock flush_check others get_command session_pop_draw
starved zero x q d = refl
starved (suc n) x [] d = starved n x [] d
starved (suc n) x (y ∷ q) d = starved n x (q ++ x ∷ []) d

-- With a command in progress, it never ends while a drawable is pushed between any two rounds, if
-- the worker asks once.
pub flush_and_lock-starves :
    (n : ℕ) (x : Drawable) (d : Draws)
    → IsFree d
    → d.draw_command_in_progress ≡ true
    → flush_and_lock (replicate n (pushes x ∷ asks ∷ [])) d ≡ none
flush_and_lock-starves n x d free busy =
    subst (λ e. flush_and_lock (replicate n (pushes x ∷ asks ∷ [])) e ≡ none)
      (sym (between-fields d free)) (rw busy (starved n x d.draw_queue d))
