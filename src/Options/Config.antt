-- ===== src/Options/Config.antt =====
-- src/options.c: `options_from_config`. A configuration file is what GKeyFile's getters answer for a
-- section and a key, `none` where they set an error; the library itself is not modelled.
use x11spice.Prelude.{
  Bool, true, false, Option, none, some, [], ◌∷◌, ◌&&◌, ◌==◌, if◌then◌else◌, codes,
}
use Prim.Native.String.{String}
use x11spice.Prelude.Int.{ℤ, pos}
use x11spice.Options.{Text, SslOptions, Options, DamageTrust, auto_trust, always_trust, never_trust}

pub record KeyFile : Type 0 where
  pub get_string : Text → Text → Option Text
  pub get_integer : Text → Text → Option ℤ
  pub get_boolean : Text → Text → Option Bool

-- The user's file, then the system's. A file that is not there is `none`.
abbrev pub second {ℓ} : {A : Type ℓ} → (KeyFile → Option A) → Option KeyFile → Option A
second get none = none
second get (some s) = get s

abbrev pub first_found {ℓ} : {A : Type ℓ} → Option A → Option A → Option A
first_found none later = later
first_found (some v) later = some v

unfoldable pub lookup {ℓ} :
    {A : Type ℓ} → (KeyFile → Option A) → Option KeyFile → Option KeyFile → Option A
lookup get none s = second get s
lookup get (some u) s = first_found (get u) (second get s)

abbrev pub or_value {ℓ} : {A : Type ℓ} → A → Option A → A
or_value d none = d
or_value d (some v) = v

unfoldable pub string_option : Option KeyFile → Option KeyFile → Text → Text → Option Text
unfolding lookup
string_option u s section key = lookup (λ f. f.get_string section key) u s

unfoldable pub int_option : Option KeyFile → Option KeyFile → Text → Text → ℤ
unfolding lookup
int_option u s section key = or_value (pos 0) (lookup (λ f. f.get_integer section key) u s)

unfoldable pub bool_option : Option KeyFile → Option KeyFile → Text → Text → Bool
unfolding lookup
bool_option u s section key = or_value false (lookup (λ f. f.get_boolean section key) u s)

abbrev pub equal_text : Text → Text → Bool
equal_text [] [] = true
equal_text (a ∷ s) (b ∷ t) = (a == b) && equal_text s t
equal_text [] (b ∷ t) = false
equal_text (a ∷ s) [] = false

abbrev pub trust_of : Option Text → DamageTrust
trust_of none = auto_trust
trust_of (some t) =
    if equal_text t (codes "never")
    then never_trust
    else if equal_text t (codes "always")
    then always_trust
    else auto_trust

unfoldable pub options_handle_ssl_file_options : Option KeyFile → Option KeyFile → SslOptions
unfolding string_option bool_option
options_handle_ssl_file_options u s =
    let text : String → Option Text = λ key. string_option u s (codes "ssl") (codes key) in
    record {
      enabled = bool_option u s (codes "ssl") (codes "enabled");
      ca_cert_file = text "ca-cert-file";
      certs_file = text "certs-file";
      private_key_file = text "private-key-file";
      key_password = text "key-password-file";
      dh_key_file = text "dh-key-file";
      ciphersuite = text "ciphersuite";
    }

-- What there is on disk: the user's files by their names, the system's file, and the name of the
-- user's own file.
pub record Files : Type 0 where
  pub load_from_file : Text → Option KeyFile
  pub load_from_dirs : Option KeyFile
  pub default_name : Text

abbrev pub user_file : Files → Option Text → Text
user_file files none = files.default_name
user_file files (some name) = name

-- A file given on the command line stands for both.
abbrev pub system_key : Files → Option Text → Option KeyFile
system_key files none = files.load_from_dirs
system_key files (some name) = none

-- `audit_default` is what an `audit_message_type` of 0 becomes: 0 without libaudit.
abbrev pub audit_type : ℤ → ℤ → ℤ
audit_type d (pos n) = if n == 0 then d else pos n
audit_type d v = v

unfoldable pub options_from_config : Files → ℤ → Options → Options
unfolding string_option int_option bool_option options_handle_ssl_file_options
options_from_config files audit_default o =
    let name = user_file files o.user_config_file in
    let u = files.load_from_file name in
    let s = system_key files o.user_config_file in
    let text : String → Option Text = λ key. string_option u s (codes "spice") (codes key) in
    let int : String → ℤ = λ key. int_option u s (codes "spice") (codes key) in
    let bool : String → Bool = λ key. bool_option u s (codes "spice") (codes key) in
    record {
      timeout = int "timeout";
      minimize = bool "minimize";
      allow_control = bool "allow-control";
      generate_password = int "generate-password";
      hide = bool "hide";
      display = text "display";
      listen = text "listen";
      ssl = options_handle_ssl_file_options u s;
      spice_password = text "password";
      password_file = text "password-file";
      disable_ticketing = bool "disable-ticketing";
      exit_on_disconnect = bool "exit-on-disconnect";
      virtio_path = text "virtio-path";
      uinput_path = text "uinput-path";
      on_connect = text "on-connect";
      on_disconnect = text "on-disconnect";
      codecs = text "codecs";
      audit = bool "audit";
      audit_message_type = audit_type audit_default (int "audit-message-type");
      trust_damage = trust_of (text "trust-damage");
      full_screen_fps = int "full-screen-fps";
      debug_draws = int "debug-draws";
      user_config_file = some name;
    }
