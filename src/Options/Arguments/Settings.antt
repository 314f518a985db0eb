-- ===== src/Options/Arguments/Settings.antt =====
-- src/options.c: what `options_parse_arguments` makes of every setting where it succeeds.
use x11spice.Prelude.{
  ◌≤◌, ◌≡◌, refl, ap, sym, ◌∙◌, Bool, true, Option, none, some, List, [], ◌∷◌, ltb, ◌==◌, arith,
  Bool-cases, inl, inr, length,
}
use x11spice.Prelude.Int.{ℤ, pos}
use x11spice.Options.{Text, Options, SslOptions}
use x11spice.Options.Ssl.{options_handle_ssl}
use x11spice.Options.Arguments.{
  Choice, option_allow_control, option_disallow_control, option_hide, option_minimize, option_other,
  option_timeout, option_password, option_password_file, option_config, option_display, option_ssl,
  option_generate_password, apply_choice, apply_choices, password_options, take_listen,
  finish_arguments, options_parse_arguments, or_default, default_password_length, int_of_long,
}
use x11spice.Options.Arguments.Laws.{last_set, set_control, set_timeout, set_display}

abbrev pub set_hide : Choice → Bool → Bool
set_hide option_hide old = true
set_hide c old = old

abbrev pub set_minimize : Choice → Bool → Bool
set_minimize option_minimize old = true
set_minimize c old = old

abbrev pub set_password : Choice → Option Text → Option Text
set_password (option_password arg) old = some arg
set_password c old = old

abbrev pub set_password_file : Choice → Option Text → Option Text
set_password_file (option_password_file arg) old = some arg
set_password_file c old = old

abbrev pub set_config_file : Choice → Option Text → Option Text
set_config_file (option_config arg) old = some arg
set_config_file c old = old

abbrev pub set_generate : (Text → ℤ) → Choice → ℤ → ℤ
set_generate atol (option_generate_password none) old = pos default_password_length
set_generate atol (option_generate_password (some arg)) old = int_of_long (atol arg)
set_generate atol c old = old

-- Unlike the others, `--ssl` adds to what the ones before it have set.
abbrev pub set_ssl : Choice → SslOptions → SslOptions
set_ssl (option_ssl none) old = record old { enabled = true }
set_ssl (option_ssl (some spec)) old = (options_handle_ssl (record old { enabled = true }) spec).1
set_ssl c old = old

-- The options with each setting as the choices leave it, and all others as they were.
abbrev pub obey : (Text → ℤ) → List Choice → Options → Options
obey atol cs o = record o {
  allow_control = last_set set_control cs o.allow_control;
  timeout = last_set (set_timeout atol) cs o.timeout;
  display = last_set set_display cs o.display;
  hide = last_set set_hide cs o.hide;
  minimize = last_set set_minimize cs o.minimize;
  spice_password = last_set set_password cs o.spice_password;
  password_file = last_set set_password_file cs o.password_file;
  user_config_file = last_set set_config_file cs o.user_config_file;
  generate_password = last_set (set_generate atol) cs o.generate_password;
  ssl = last_set set_ssl cs o.ssl;
}

apply_choice-obeys :
    (atol : Text → ℤ) (c : Choice) (o : Options) → (apply_choice atol c o).1 ≡ obey atol (c ∷ []) o
unfolding apply_choice
apply_choice-obeys atol option_allow_control o = refl
apply_choice-obeys atol option_disallow_control o = refl
apply_choice-obeys atol (option_timeout arg) o = refl
apply_choice-obeys atol option_hide o = refl
apply_choice-obeys atol (option_password arg) o = refl
apply_choice-obeys atol (option_password_file arg) o = refl
apply_choice-obeys atol (option_config arg) o = refl
apply_choice-obeys atol (option_ssl none) o = refl
apply_choice-obeys atol (option_ssl (some spec)) o = refl
apply_choice-obeys atol (option_generate_password none) o = refl
apply_choice-obeys atol (option_generate_password (some arg)) o = refl
apply_choice-obeys atol (option_display arg) o = refl
apply_choice-obeys atol option_minimize o = refl
apply_choice-obeys atol option_other o = refl

apply_choices-obeys :
    (atol : Text → ℤ) (cs : List Choice) (o : Options)
    → (apply_choices atol cs o).0 ≡ 0
    → (apply_choices atol cs o).1 ≡ obey atol cs o
unfolding apply_choices
apply_choices-obeys atol [] o e = refl
apply_choices-obeys atol (c ∷ cs) o e = elim (Bool-cases ((apply_choice atol c o).0 == 0)) [
  | inl ok ↦ rw ok (
      apply_choices-obeys atol cs (apply_choice atol c o).1 (rw ok at e)
      ∙ ap (obey atol cs) (apply_choice-obeys atol c o))
  | inr failed ↦ absurd (ground arith)
]

-- The listen specification: the argument behind the options, or the one there was, or 5900.
abbrev pub listen_of : List Text → Option Text → Text
listen_of [] old = or_default old
listen_of (arg ∷ args) old = arg

-- The options with that specification.
abbrev pub with_listen : List Text → Options → Options
with_listen args o = record o { listen = some (listen_of args o.listen) }

take_listen-obeys :
    (args : List Text) (o o' : Options) → take_listen args o ≡ (0, o') → o' ≡ with_listen args o
unfolding take_listen
take_listen-obeys [] o o' e = sym (ap (λ r. r.1) e)
take_listen-obeys (arg ∷ []) o o' e = sym (ap (λ r. r.1) e)
take_listen-obeys (arg ∷ arg' ∷ args) o o' e = absurd (ground arith)

take_listen-few :
    (args : List Text) (o o' : Options) → take_listen args o ≡ (0, o') → length args ≤ 1
unfolding take_listen
take_listen-few [] o o' e = omega arith
take_listen-few (arg ∷ []) o o' e = omega arith
take_listen-few (arg ∷ arg' ∷ args) o o' e = absurd (ground arith)

-- If the arguments are accepted, every setting of the options is what the command line says and the
-- others are as they were: the last option for a setting counts, those of `--ssl` add up, and the
-- listen specification is the argument behind the options, the one there was, or 5900. There is at
-- most one such argument, and the password comes from one source at most.
pub options_parse_arguments-obeys :
    (atol : Text → ℤ) (cs : List Choice) (args : List Text) (o o' : Options)
    → options_parse_arguments atol cs args o ≡ (0, o')
    → (o' ≡ with_listen args (obey atol cs o)) × (length args ≤ 1) × (password_options o' ≤ 1)
unfolding options_parse_arguments finish_arguments
options_parse_arguments-obeys atol cs args o o' e =
    elim (Bool-cases ((apply_choices atol cs o).0 == 0)) [
      | inr failed ↦ absurd (ground arith)
      | inl ok ↦ elim (Bool-cases (ltb 1 (password_options (apply_choices atol cs o).1))) [
        | inl many ↦ absurd (ground arith)
        | inr one ↦
            let taken : take_listen args (apply_choices atol cs o).1 ≡ (0, o') =
              rw (ok, one) at e in
            let set = apply_choices-obeys atol cs o (ground arith) in
            let same = take_listen-obeys args (apply_choices atol cs o).1 o' taken in
            (
              same ∙ ap (with_listen args) set,
              take_listen-few args (apply_choices atol cs o).1 o' taken,
              rw same (ground arith),
            )
      ]
    ]
