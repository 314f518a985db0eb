-- ===== src/Options/Arguments/Laws.antt =====
-- src/options.c: what `options_parse_arguments` leaves in the options where it succeeds.
use x11spice.Prelude.{
  ◌≤◌, ◌≡◌, refl, ap, Bool, true, false, Option, none, some, List, [], ◌∷◌, ltb, ◌==◌, arith,
  Bool-cases, inl, inr,
}
use x11spice.Prelude.Int.{ℤ}
use x11spice.Options.{Text, Options}
use x11spice.Options.Arguments.{
  Choice, option_allow_control, option_disallow_control, option_hide, option_minimize, option_other,
  option_timeout, option_password, option_password_file, option_config, option_display, option_ssl,
  option_generate_password, apply_choice, apply_choices, password_options, take_listen,
  finish_arguments, options_parse_arguments, or_default,
}

-- The value that the last choice which sets an option gives it, or `old`.
abbrev pub last_set {ℓ} : {A : Type ℓ} → (Choice → A → A) → List Choice → A → A
last_set set [] old = old
last_set set (c ∷ cs) old = last_set set cs (set c old)

abbrev pub set_control : Choice → Bool → Bool
set_control option_allow_control old = true
set_control option_disallow_control old = false
set_control c old = old

abbrev pub set_timeout : (Text → ℤ) → Choice → ℤ → ℤ
set_timeout atol (option_timeout arg) old = atol arg
set_timeout atol c old = old

abbrev pub set_display : Choice → Option Text → Option Text
set_display (option_display arg) old = some arg
set_display c old = old

abbrev pub Commanded : (Text → ℤ) → List Choice → Options → Options → Type 0
Commanded atol cs o o' =
    (o'.allow_control ≡ last_set set_control cs o.allow_control)
    × (o'.timeout ≡ last_set (set_timeout atol) cs o.timeout)
    × (o'.display ≡ last_set set_display cs o.display)

-- One choice sets what the three functions say.
apply_choice-Commanded :
    (atol : Text → ℤ) (c : Choice) (o : Options)
    → Commanded atol (c ∷ []) o (apply_choice atol c o).1
unfolding apply_choice
apply_choice-Commanded atol option_allow_control o = (refl, refl, refl)
apply_choice-Commanded atol option_disallow_control o = (refl, refl, refl)
apply_choice-Commanded atol (option_timeout arg) o = (refl, refl, refl)
apply_choice-Commanded atol option_hide o = (refl, refl, refl)
apply_choice-Commanded atol (option_password arg) o = (refl, refl, refl)
apply_choice-Commanded atol (option_password_file arg) o = (refl, refl, refl)
apply_choice-Commanded atol (option_config arg) o = (refl, refl, refl)
apply_choice-Commanded atol (option_ssl none) o = (refl, refl, refl)
apply_choice-Commanded atol (option_ssl (some spec)) o = (refl, refl, refl)
apply_choice-Commanded atol (option_generate_password none) o = (refl, refl, refl)
apply_choice-Commanded atol (option_generate_password (some arg)) o = (refl, refl, refl)
apply_choice-Commanded atol (option_display arg) o = (refl, refl, refl)
apply_choice-Commanded atol option_minimize o = (refl, refl, refl)
apply_choice-Commanded atol option_other o = (refl, refl, refl)

apply_choices-Commanded :
    (atol : Text → ℤ) (cs : List Choice) (o : Options)
    → (apply_choices atol cs o).0 ≡ 0
    → Commanded atol cs o (apply_choices atol cs o).1
unfolding apply_choices
apply_choices-Commanded atol [] o e = (refl, refl, refl)
apply_choices-Commanded atol (c ∷ cs) o e = elim (Bool-cases ((apply_choice atol c o).0 == 0)) [
  | inl ok ↦
      let (control, timeout, display) = apply_choice-Commanded atol c o in
      let (control', timeout', display') =
        apply_choices-Commanded atol cs (apply_choice atol c o).1 (rw ok at e) in
      rw ok (rw control at control', rw timeout at timeout', rw display at display')
  | inr failed ↦ absurd (ground arith)
]

-- The listen specification is there, and at most one of the sources of a password.
abbrev pub IsComplete : Options → Type 0
IsComplete o = (password_options o ≤ 1) × (spec : Text) × (o.listen ≡ some spec)

take_listen-IsComplete :
    (atol : Text → ℤ) (cs : List Choice) (args : List Text) (o o' : Options)
    → password_options o' ≤ 1
    → Commanded atol cs o o'
    → (take_listen args o').0 ≡ 0
    → Commanded atol cs o (take_listen args o').1 × IsComplete (take_listen args o').1
unfolding take_listen password_options
take_listen-IsComplete atol cs [] o o' one c e = (c, (one, or_default o'.listen, refl))
take_listen-IsComplete atol cs (arg ∷ []) o o' one c e = (c, (one, arg, refl))
take_listen-IsComplete atol cs (arg ∷ arg' ∷ args) o o' one c e = absurd (ground arith)

-- If the arguments are accepted, whether clients have control, the timeout and the display are what
-- the last option for each says, or what they were; the password comes from one source at most, and
-- there is a listen specification.
pub options_parse_arguments-Commanded :
    (atol : Text → ℤ) (cs : List Choice) (args : List Text) (o o' : Options)
    → options_parse_arguments atol cs args o ≡ (0, o')
    → Commanded atol cs o o' × IsComplete o'
unfolding options_parse_arguments finish_arguments
options_parse_arguments-Commanded atol cs args o o' e =
    elim (Bool-cases ((apply_choices atol cs o).0 == 0)) [
      | inr failed ↦ absurd (ground arith)
      | inl ok ↦ elim (Bool-cases (ltb 1 (password_options (apply_choices atol cs o).1))) [
        | inl many ↦ absurd (ground arith)
        | inr one ↦
            let taken : take_listen args (apply_choices atol cs o).1 ≡ (0, o') =
              rw (ok, one) at e in
            let done =
              take_listen-IsComplete atol cs args o (apply_choices atol cs o).1 (ground arith)
                (apply_choices-Commanded atol cs o (ground arith)) (ap (λ r. r.0) taken) in
            rw (ap (λ r. r.1) taken) at done
      ]
    ]
