-- ===== src/Spice/Core/Sources.antt =====
-- src/spice.c: a timer has one source in the main loop at most, and leaves none behind.
use x11spice.Prelude.{
  ℕ, ◌+◌, ◌<◌, ◌≤◌, ◌≡◌, refl, All, subst, sym, ap, true, false, ◌⊎◌, inl, inr, ◌==◌, Option, none,
  some, List, [], ◌∷◌, arith,
}
use x11spice.Spice.Core.{
  Loop, Sourced, detach, attach, drop_source, timer_cancel, timer_start, timer_func, TimerOp,
  start_timer, cancel_timer, run_out, timer_ops, timer_remove,
}

-- The names of attached sources are older than the next.
abbrev pub AllBelow : ℕ → List ℕ → Type 0
AllBelow n = All (λ j. j < n)

detach-others : (i : ℕ) (js : List ℕ) → AllBelow i js → detach i js ≡ js
unfolding detach
detach-others i [] below = refl
detach-others i (j ∷ js) below =
    let test : (i == j) ≡ false = ground (arith, below.0) in
    rw (test, detach-others i js below.1) refl

detach-own : (i : ℕ) (js : List ℕ) → AllBelow i js → detach i (i ∷ js) ≡ js
unfolding detach
detach-own i js below =
    let test : (i == i) ≡ true = ground arith in rw test (detach-others i js below)

below-later : (m n : ℕ) (js : List ℕ) → m ≤ n → AllBelow m js → AllBelow n js
below-later m n [] le below = tt
below-later m n (j ∷ js) le below = (omega (arith, below.0), below-later m n js le below.1)

-- As many references were given up as made since the loop `l`, but for `more`.
abbrev pub Balance : ℕ → Loop → Loop → Type 0
Balance more l t = t.unreferences + l.references + more ≡ t.references + l.unreferences

-- Against the loop `l` before: the timer's source, if it has one, is the only one attached since,
-- if it is attached, and the only reference held.
abbrev IsHeld : Loop → Option ℕ → Loop → Type 0
IsHeld l none t = (t.attached ≡ l.attached) × Balance 0 l t × (l.next ≤ t.next)
IsHeld l (some i) t =
    ((t.attached ≡ l.attached) ⊎ (t.attached ≡ i ∷ l.attached))
    × Balance 1 l t
    × (l.next ≤ i)
    × (l.next ≤ t.next)

module _ (l : Loop) (fresh : AllBelow l.next l.attached) where
  detached :
      (i : ℕ) (js : List ℕ)
      → l.next ≤ i
      → (js ≡ l.attached) ⊎ (js ≡ i ∷ l.attached)
      → detach i js ≡ l.attached
  detached i js le (inl e) =
      rw e (detach-others i l.attached (below-later l.next i l.attached le fresh))
  detached i js le (inr e) =
      rw e (detach-own i l.attached (below-later l.next i l.attached le fresh))

  drop_source-IsHeld :
      (source : Option ℕ) (t : Loop)
      → IsHeld l source t
      → IsHeld l none (drop_source source t).loop × ((drop_source source t).source ≡ none)
  unfolding drop_source
  drop_source-IsHeld none t held = (held, refl)
  drop_source-IsHeld (some i) t (one, balance, le, le') =
      ((detached i t.attached le one, omega (arith, balance), le'), refl)

  attach-IsHeld : (s : Sourced) → IsHeld l none s.loop → IsHeld l (some s.loop.next) (attach s).loop
  attach-IsHeld s (same, balance, le) =
      (inr (ap (λ js. s.loop.next ∷ js) same), omega (arith, balance), le, omega (arith, le))

  run_out-IsHeld :
      (source : Option ℕ) (t : Loop)
      → IsHeld l source t
      → IsHeld l source (timer_func (record { source = source; loop = t })).loop
        × ((timer_func (record { source = source; loop = t })).source ≡ source)
  unfolding timer_func
  run_out-IsHeld none t held = (held, refl)
  run_out-IsHeld (some i) t (one, balance, le, le') =
      ((inl (detached i t.attached le one), balance, le, le'), refl)

  timer_ops-IsHeld :
      (ops : List TimerOp) (s : Sourced)
      → IsHeld l s.source s.loop
      → IsHeld l (timer_ops ops s).source (timer_ops ops s).loop
  unfolding timer_ops timer_start timer_cancel
  timer_ops-IsHeld [] s held = held
  timer_ops-IsHeld (start_timer ∷ ops) s held =
      timer_ops-IsHeld ops (attach (drop_source s.source s.loop))
        (attach-IsHeld (drop_source s.source s.loop) (drop_source-IsHeld s.source s.loop held).0)
  timer_ops-IsHeld (cancel_timer ∷ ops) s held =
      let (kept, none_left) = drop_source-IsHeld s.source s.loop held in
      timer_ops-IsHeld ops (drop_source s.source s.loop)
        (subst (λ o. IsHeld l o (drop_source s.source s.loop).loop) (sym none_left) kept)
  timer_ops-IsHeld (run_out ∷ ops) s held =
      let (kept, same) = run_out-IsHeld s.source s.loop held in
      timer_ops-IsHeld ops (timer_func s)
        (subst (λ o. IsHeld l o (timer_func s).loop) (sym same) kept)

  -- However a timer is started, cancelled and runs out: once it is removed, the loop has the sources
  -- that it had before, and every reference to a source of the timer was given up.
  pub timer_remove-leaves_none :
      (ops : List TimerOp)
      → let t = timer_remove (timer_ops ops (record { source = none; loop = l })) in
        (t.attached ≡ l.attached) × (t.unreferences + l.references ≡ t.references + l.unreferences)
  unfolding timer_remove timer_cancel
  timer_remove-leaves_none ops =
      let s = timer_ops ops (record { source = none; loop = l }) in
      let held =
        timer_ops-IsHeld ops (record { source = none; loop = l })
          (refl, omega arith, omega arith) in
      let kept = (drop_source-IsHeld s.source s.loop held).0 in (kept.0, omega (arith, kept.1))
