-- ===== src/Options/Tests.antt =====
-- src/options.c at concrete inputs.
use x11spice.Prelude.{◌≡◌, refl, ◌≤◌, true, false, ◌⊎◌, none, some, List, [], ◌∷◌, length, codes}
use x11spice.Prelude.Int.{ℤ, pos}
use x11spice.Options.{Text, Options, options_init}
use x11spice.Options.Ssl.{options_handle_ssl}
use x11spice.Options.Arguments.{
  Choice, option_allow_control, option_disallow_control, option_timeout, option_password,
  options_parse_arguments, password_options, option_hide, option_generate_password,
}
use x11spice.Options.Arguments.Laws.{Commanded}
use x11spice.Options.Arguments.Settings.{obey, with_listen, options_parse_arguments-obeys}
use x11spice.Options.Config.{KeyFile, options_from_config}
use x11spice.Options.Password.{Urandom, byte, interrupted}
use x11spice.Options.Load.{Inputs, options_load, options_impossible_config}
use x11spice.Options.Load.Laws.{HasPassword, options_load-Commanded, options_load-HasPassword}

empty_field_is_skipped :
    (options_handle_ssl options_init.ssl (codes "ca,,key")).1.certs_file ≡ some (codes "key")
unfolding options_handle_ssl options_init
empty_field_is_skipped = refl

-- Not the C library's, which is not needed here.
abbrev atol : Text → ℤ
atol t = pos (length t)

abbrev commands : List Choice
commands =
    option_allow_control
    ∷ option_timeout (codes "30")
    ∷ option_hide
    ∷ option_generate_password none
    ∷ option_disallow_control
    ∷ []

abbrev parsed : Options
parsed = (options_parse_arguments atol commands [] options_init).1

options_parse_arguments-obeys_example :
    (parsed ≡ with_listen [] (obey atol commands options_init))
    × (0 ≤ 1)
    × (password_options parsed ≤ 1)
unfolding options_parse_arguments options_init
options_parse_arguments-obeys_example =
    options_parse_arguments-obeys atol commands [] options_init parsed refl

-- What a file that can be read and /dev/urandom give; a read is interrupted.
abbrev urandom : Urandom
urandom = record {
  opens = true;
  memory = λ _. 0;
  reads = byte b'a' ∷ byte 200 ∷ interrupted ∷ byte b'7' ∷ [];
}

abbrev two_wanted : Options
two_wanted = record options_init { generate_password = pos 2 }

abbrev with_password : Options
with_password = record two_wanted { spice_password = some (codes "a7") }

-- The user's file has no key, the system's allows control.
abbrev no_keys : KeyFile
no_keys = record {
  get_string = λ section key. none;
  get_integer = λ section key. none;
  get_boolean = λ section key. none;
}

abbrev inputs : Inputs
inputs = record {
  max_length = 60;
  password_files = λ name. some (codes "secret");
  stale = [];
  urandom = urandom;
  files = record {
    load_from_file = λ name. some no_keys;
    load_from_dirs = some (record no_keys { get_boolean = λ section key. some true });
    default_name = codes "x11spice.conf";
  };
  audit_default = pos 0;
  atol = atol;
}

abbrev arguments : List Choice
arguments = option_disallow_control ∷ option_password (codes "secret") ∷ []

abbrev final : Options
final =
    record (options_from_config inputs.files (pos 0)
      (options_parse_arguments atol arguments [] options_init).1) {
        allow_control = false;
        listen = some (codes "5900");
        spice_password = some (codes "secret");
      }

options_load-Commanded_example :
    Commanded atol arguments
      (options_from_config inputs.files
        (pos 0)
        (options_parse_arguments atol arguments [] options_init).1)
      final
unfolding options_load options_init
options_load-Commanded_example = options_load-Commanded inputs arguments [] options_init final refl

options_load-HasPassword_example : HasPassword final ⊎ (final.disable_ticketing ≡ true)
unfolding options_load options_init options_impossible_config
options_load-HasPassword_example =
    options_load-HasPassword inputs arguments [] options_init final refl refl
