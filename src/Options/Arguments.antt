-- ===== src/Options/Arguments.antt =====
-- src/options.c: `options_parse_arguments`. What `getopt_long_only` finds is the argument: the
-- options with their `optarg`, and what is left of `argv` behind them. `atol` is a parameter.
pub mod Laws
pub mod Settings
use x11spice.Prelude.{
  ℕ, ◌+◌, ◌-◌, ◌%◌, ◌^◌, Bool, true, false, Option, none, some, List, [], ◌∷◌, ltb, ◌==◌,
  if◌then◌else◌, codes,
}
use x11spice.Prelude.Int.{ℤ, pos, negsuc}
use x11spice.Listen.Strtol.{to_int}
use x11spice.Options.{Text, Options, err_badargs}
use x11spice.Options.Ssl.{options_handle_ssl}

-- `option_other` is the rest of `option_types`, and what getopt does not know.
pub data Choice : Type 0 where
  option_allow_control option_disallow_control option_hide option_minimize option_other : Choice
  option_timeout option_password option_password_file option_config option_display : Text → Choice
  option_ssl option_generate_password : Option Text → Choice

abbrev pub default_password_length : ℕ
default_password_length = 8

-- A `long` in an `int`.
abbrev pub int_of_long : ℤ → ℤ
int_of_long (pos n) = to_int (n % 2 ^ 32)
int_of_long (negsuc n) = to_int ((2 ^ 64 - 1 - n) % 2 ^ 32)

abbrev pub handle_ssl : Options → Option Text → ℕ × Options
handle_ssl o none = (0, record o { ssl = record o.ssl { enabled = true } })
handle_ssl o (some spec) =
    let (rc, ssl) = options_handle_ssl (record o.ssl { enabled = true }) spec in
    (rc, record o { ssl = ssl })

-- The switch: 0 where the loop goes on, and what is returned where it does not.
unfoldable pub apply_choice : (Text → ℤ) → Choice → Options → ℕ × Options
unfolding options_handle_ssl
apply_choice atol option_allow_control o = (0, record o { allow_control = true })
apply_choice atol option_disallow_control o = (0, record o { allow_control = false })
apply_choice atol (option_timeout arg) o = (0, record o { timeout = atol arg })
apply_choice atol option_hide o = (0, record o { hide = true })
apply_choice atol (option_password arg) o = (0, record o { spice_password = some arg })
apply_choice atol (option_password_file arg) o = (0, record o { password_file = some arg })
apply_choice atol (option_config arg) o = (0, record o { user_config_file = some arg })
apply_choice atol (option_ssl arg) o = handle_ssl o arg
apply_choice atol (option_generate_password none) o =
    (0, record o { generate_password = pos default_password_length })
apply_choice atol (option_generate_password (some arg)) o =
    (0, record o { generate_password = int_of_long (atol arg) })
apply_choice atol (option_display arg) o = (0, record o { display = some arg })
apply_choice atol option_minimize o = (0, record o { minimize = true })
apply_choice atol option_other o = (err_badargs, o)

unfoldable pub apply_choices : (Text → ℤ) → List Choice → Options → ℕ × Options
unfolding apply_choice
apply_choices atol [] o = (0, o)
apply_choices atol (c ∷ cs) o =
    let (rc, o') = apply_choice atol c o in
    let rest = apply_choices atol cs o' in if rc == 0 then rest else (rc, o')

abbrev pub one_if_some : Option Text → ℕ
one_if_some none = 0
one_if_some (some t) = 1

abbrev pub one_if_not_zero : ℤ → ℕ
one_if_not_zero (pos n) = if n == 0 then 0 else 1
one_if_not_zero (negsuc n) = 1

-- `count`
unfoldable pub password_options : Options → ℕ
password_options o =
    one_if_some o.password_file + one_if_some o.spice_password + one_if_not_zero o.generate_password

abbrev pub or_default : Option Text → Text
or_default none = codes "5900"
or_default (some t) = t

-- The end of the function, with what is left of the arguments.
unfoldable pub take_listen : List Text → Options → ℕ × Options
take_listen [] o = (0, record o { listen = some (or_default o.listen) })
take_listen (arg ∷ []) o = (0, record o { listen = some arg })
take_listen (arg ∷ arg' ∷ args) o = (err_badargs, o)

-- What follows the loop.
unfoldable pub finish_arguments : List Text → Options → ℕ × Options
unfolding take_listen password_options
finish_arguments args o =
    if ltb 1 (password_options o) then (err_badargs, o) else take_listen args o

unfoldable pub options_parse_arguments :
    (Text → ℤ) → List Choice → List Text → Options → ℕ × Options
unfolding apply_choices finish_arguments
options_parse_arguments atol cs args o =
    let (rc, o') = apply_choices atol cs o in if rc == 0 then finish_arguments args o' else (rc, o')
