-- ===== src/Options/Load.antt =====
-- src/options.c: `options_process_io`, `options_load` and `options_impossible_config`.
pub mod Laws
use x11spice.Prelude.{ℕ, Bool, true, false, ◌==◌, Option, none, some, List, if◌then◌else◌}
use x11spice.Prelude.Int.{ℤ, pos, is_zero}
use x11spice.Options.{Text, Options}
use x11spice.Options.Arguments.{Choice, options_parse_arguments}
use x11spice.Options.Config.{Files, options_from_config}
use x11spice.Options.Password.{Urandom, process_password_file, generate_password}

-- What the run meets: the contents of the password files ("-" names the standard input), and
-- /dev/urandom.
pub record Inputs : Type 0 where
  pub max_length : ℕ
  pub password_files : Text → Option Text
  pub stale : Text
  pub urandom : Urandom
  pub files : Files
  pub audit_default : ℤ
  pub atol : Text → ℤ

abbrev pub read_password : Inputs → Option Text → Options → ℤ × Options
read_password io none o = (pos 0, o)
read_password io (some name) o =
    process_password_file io.max_length (io.password_files name) io.stale o

-- The second half, once the first has returned `rc`.
unfoldable pub then_generate : Inputs → ℤ × Options → Option (ℤ × Options)
unfolding generate_password
then_generate io (rc, o) =
    if is_zero rc
    then if is_zero o.generate_password then some (pos 0, o) else generate_password io.urandom o
    else some (rc, o)

unfoldable pub options_process_io : Inputs → Options → Option (ℤ × Options)
unfolding process_password_file then_generate
options_process_io io o = then_generate io (read_password io o.password_file o)

-- What `options_load` does, up to the second reading of the arguments.
unfoldable pub load_arguments : Inputs → List Choice → List Text → Options → ℕ × Options
unfolding options_parse_arguments options_from_config
load_arguments io cs args o =
    let (rc, o') = options_parse_arguments io.atol cs args o in
    if rc == 0
    then options_parse_arguments io.atol cs args (options_from_config io.files io.audit_default o')
    else (rc, o')

-- `none` while a password is being generated.
unfoldable pub options_load : Inputs → List Choice → List Text → Options → Option (ℤ × Options)
unfolding load_arguments options_process_io
options_load io cs args o =
    let (rc, o') = load_arguments io cs args o in
    if rc == 0 then options_process_io io o' else some (pos rc, o')

abbrev pub is_none : Option Text → Bool
is_none none = true
is_none (some t) = false

unfoldable pub options_impossible_config : Options → Bool
options_impossible_config o =
    if is_none o.spice_password
    then if is_zero o.generate_password
      then if is_none o.password_file then if o.disable_ticketing then false else true else false
      else false
    else false
