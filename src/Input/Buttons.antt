-- ===== src/Input/Buttons.antt =====
-- src/session.c: the buttons that the X server takes to be pressed are those of the last state that
-- a client sent.
use x11spice.Prelude.{
  ℕ, zero, suc, ◌+◌, ◌*◌, ◌/◌, ◌%◌, ◌≤◌, ◌<◌, ◌≡◌, ◌≢◌, refl, ap, ◌∙◌, Bool, true, false, ◌||◌,
  List, [], ◌∷◌, ◌++◌, arith, ◌==◌, if◌then◌else◌, Bool-cases, inl, inr, dec_lt, ==_of_ne, ==_of_eq,
}
use x11spice.Prelude.Int.{ℤ, pos, ltb_ℤ}
use x11spice.Input.{
  FakeInput, key_press, key_release, button_press, button_release, motion_notify, Input, bit,
  differ, button_round, button_rounds, buttons, session_handle_button_change, weight,
  convert_spice_buttons,
}

-- Whether button n is pressed after some input, if it was `held` before.
abbrev pub pressed : ℕ → List FakeInput → Bool → Bool
pressed n [] held = held
pressed n (button_press b ∷ es) held = pressed n es (if b == n then true else held)
pressed n (button_release b ∷ es) held = pressed n es (if b == n then false else held)
pressed n (key_press k ∷ es) held = pressed n es held
pressed n (key_release k ∷ es) held = pressed n es held
pressed n (motion_notify x y ∷ es) held = pressed n es held

pressed-append :
    (n : ℕ) (a b : List FakeInput) (held : Bool)
    → pressed n (a ++ b) held ≡ pressed n b (pressed n a held)
pressed-append n [] b held = refl
pressed-append n (button_press k ∷ a) b held = pressed-append n a b (if k == n then true else held)
pressed-append n (button_release k ∷ a) b held =
    pressed-append n a b (if k == n then false else held)
pressed-append n (key_press k ∷ a) b held = pressed-append n a b held
pressed-append n (key_release k ∷ a) b held = pressed-append n a b held
pressed-append n (motion_notify x y ∷ a) b held = pressed-append n a b held

-- One round sets its own button, and no other.
button_round-pressed :
    (old new i : ℕ) → pressed (i + 1) (button_round old new i) (bit old i) ≡ bit new i
unfolding button_round
button_round-pressed old new i = go (bit old i) (bit new i)
  where
    go :
        (o n : Bool)
        → pressed
            (i + 1)
            (if differ n o
              then (if n then button_press (i + 1) else button_release (i + 1)) ∷ []
              else [])
            o
          ≡ n
    go true true = refl
    go false false = refl
    go true false = rw (==_of_eq (i + 1) (i + 1) refl) refl
    go false true = rw (==_of_eq (i + 1) (i + 1) refl) refl

button_round-other :
    (old new i j : ℕ) (held : Bool) → i ≢ j → pressed (i + 1) (button_round old new j) held ≡ held
unfolding button_round
button_round-other old new i j held ne = go (bit old j) (bit new j)
  where
    other : j + 1 ≢ i + 1
    other e = ne (omega arith)

    go :
        (o n : Bool)
        → pressed
            (i + 1)
            (if differ n o
              then (if n then button_press (j + 1) else button_release (j + 1)) ∷ []
              else [])
            held
          ≡ held
    go true true = refl
    go false false = refl
    go true false = rw (==_of_ne (j + 1) (i + 1) other) refl
    go false true = rw (==_of_ne (j + 1) (i + 1) other) refl

-- Rounds behind a button leave it alone.
button_rounds-later :
    (old new i j left : ℕ) (held : Bool)
    → i < j
    → pressed (i + 1) (button_rounds old new j left) held ≡ held
unfolding button_rounds
button_rounds-later old new i j zero held lt = refl
button_rounds-later old new i j (suc left) held lt =
    pressed-append (i + 1) (button_round old new j) (button_rounds old new (j + 1) left) held
    ∙ button_rounds-later old new i (j + 1) left _ (omega arith)
    ∙ button_round-other old new i j held (λ e. omega arith)

-- The rounds from `j` on set each of their buttons to its new state.
button_rounds-pressed :
    (old new i j left : ℕ)
    → j ≤ i
    → i < j + left
    → pressed (i + 1) (button_rounds old new j left) (bit old i) ≡ bit new i
unfolding button_rounds
button_rounds-pressed old new i j zero le lt = absurd (omega arith)
button_rounds-pressed old new i j (suc left) le lt =
    pressed-append (i + 1) (button_round old new j) (button_rounds old new (j + 1) left) (bit old i)
    ∙ elim (dec_lt j i) [
      | yes before ↦
          let kept = button_round-other old new i j (bit old i) (λ e. omega arith) in
          rw kept (button_rounds-pressed old new i (j + 1) left (omega arith) (omega arith))
      | no here ↦
          let same : j ≡ i = omega arith in
          let now : pressed (i + 1) (button_round old new j) (bit old i) ≡ bit new i =
            rw same (button_round-pressed old new i) in
          rw now (button_rounds-later old new i (j + 1) left (bit new i) (omega arith))
    ]

-- Button i + 1 is pressed on the X server as bit i says.
abbrev pub IsInSync : Input → Type 0
IsInSync s = (i : ℕ) → i < buttons → pressed (i + 1) s.sent false ≡ bit s.buttons_state i

-- A new state of the buttons keeps that, for all five, whether control is allowed or not.
pub session_handle_button_change-IsInSync :
    (s : Input) (state : ℕ) → IsInSync s → IsInSync (session_handle_button_change s state)
unfolding session_handle_button_change
session_handle_button_change-IsInSync s state sync = elim (Bool-cases s.allow_control) [
  | inr forbidden ↦ rw forbidden sync
  | inl allowed ↦ rw allowed (λ i lt.
      pressed-append (i + 1) s.sent (button_rounds s.buttons_state state 0 buttons) false
      ∙ (rw (sync i lt)
          (button_rounds-pressed s.buttons_state state i 0 buttons (omega arith) (omega arith))))
]

-- The sum of five digits and the rest.
digits :
    (a b c d e h : ℕ)
    → a < 2
    → b < 2
    → c < 2
    → d < 2
    → e < 2
    → let n = a + 2 * b + 4 * c + 8 * d + 16 * e + 32 * h in
      (n / 1 % 2 ≡ a) × (n / 2 % 2 ≡ b) × (n / 4 % 2 ≡ c) × (n / 8 % 2 ≡ d) × (n / 16 % 2 ≡ e)
digits a b c d e h ha hb hc hd he =
    (omega arith, omega arith, omega arith, omega arith, omega arith)

weight_small : (b : Bool) → weight b < 2
weight_small true = omega arith
weight_small false = omega arith

weight_back : (b : Bool) → (weight b == 1) ≡ b
weight_back true = refl
weight_back false = refl

-- Bits 1 and 2 are swapped, so that the second and third button change places; a negative motion of
-- the wheel sets bit 3 (button 4) and a positive one bit 4 (button 5), besides what the state has.
pub convert_spice_buttons-bit :
    (motion : ℤ) (state : ℕ)
    → let out = convert_spice_buttons motion state in
      (bit out 0 ≡ bit state 0)
      × (bit out 1 ≡ bit state 2)
      × (bit out 2 ≡ bit state 1)
      × (bit out 3 ≡ (bit state 3 || ltb_ℤ motion (pos 0)))
      × (bit out 4 ≡ (bit state 4 || ltb_ℤ (pos 0) motion))
unfolding convert_spice_buttons
convert_spice_buttons-bit motion state =
    go (bit state 0) (bit state 2) (bit state 1) (bit state 3 || ltb_ℤ motion (pos 0))
      (bit state 4 || ltb_ℤ (pos 0) motion)
  where
    go :
        (a b c d e : Bool)
        → let out =
            weight a
            + 2 * weight b
            + 4 * weight c
            + 8 * weight d
            + 16 * weight e
            + 32 * (state / 32) in
          (bit out 0 ≡ a) × (bit out 1 ≡ b) × (bit out 2 ≡ c) × (bit out 3 ≡ d) × (bit out 4 ≡ e)
    go a b c d e =
        let (p, q, r, t, u) =
          digits (weight a) (weight b) (weight c) (weight d) (weight e) (state / 32)
            (weight_small a) (weight_small b) (weight_small c) (weight_small d) (weight_small e) in
        (
          ap (λ n. n == 1) p ∙ weight_back a,
          ap (λ n. n == 1) q ∙ weight_back b,
          ap (λ n. n == 1) r ∙ weight_back c,
          ap (λ n. n == 1) t ∙ weight_back d,
          ap (λ n. n == 1) u ∙ weight_back e,
        )
