-- ===== src/Options.antt =====
-- src/options.c and options.h: the options, from the command line and the configuration files.
-- A string is a list of bytes; a `char *` is an Option, `none` for NULL.
pub mod Ssl
pub mod Arguments
pub mod Config
pub mod Password
pub mod Load
mod Tests
use x11spice.Prelude.{ℕ, Bool, true, false, Option, none, some, List, codes}
use x11spice.Prelude.Int.{ℤ, pos}

abbrev pub Text : Type 0
Text = List ℕ

-- `ssl_options_t`
pub record SslOptions : Type 0 where
  pub enabled : Bool
  pub ca_cert_file : Option Text
  pub certs_file : Option Text
  pub private_key_file : Option Text
  pub key_password : Option Text
  pub dh_key_file : Option Text
  pub ciphersuite : Option Text

-- `damage_trust_t`
pub data DamageTrust : Type 0 where
  auto_trust always_trust never_trust : DamageTrust

-- `options_t`
pub record Options : Type 0 where
  pub timeout : ℤ
  pub minimize : Bool
  pub allow_control : Bool
  pub generate_password : ℤ
  pub hide : Bool
  pub display : Option Text
  pub listen : Option Text
  pub ssl : SslOptions
  pub spice_password : Option Text
  pub password_file : Option Text
  pub disable_ticketing : Bool
  pub exit_on_disconnect : Bool
  pub virtio_path : Option Text
  pub uinput_path : Option Text
  pub on_connect : Option Text
  pub on_disconnect : Option Text
  pub codecs : Option Text
  pub audit : Bool
  pub audit_message_type : ℤ
  pub trust_damage : DamageTrust
  pub full_screen_fps : ℤ
  pub debug_draws : ℤ
  pub user_config_file : Option Text

-- The values of src/x11spice.h
abbrev pub err_badargs : ℕ
err_badargs = 1

abbrev pub err_open : ℕ
err_open = 17

abbrev pub err_parse : ℕ
err_parse = 8

-- All bytes 0: NULL, 0 and AUTO_TRUST.
unfoldable pub options_init : Options
options_init = record {
  timeout = pos 0;
  minimize = false;
  allow_control = false;
  generate_password = pos 0;
  hide = false;
  display = none;
  listen = none;
  ssl = record {
    enabled = false;
    ca_cert_file = none;
    certs_file = none;
    private_key_file = none;
    key_password = none;
    dh_key_file = none;
    ciphersuite = none;
  };
  spice_password = none;
  password_file = none;
  disable_ticketing = false;
  exit_on_disconnect = false;
  virtio_path = none;
  uinput_path = none;
  on_connect = none;
  on_disconnect = none;
  codecs = none;
  audit = false;
  audit_message_type = pos 0;
  trust_damage = auto_trust;
  full_screen_fps = pos 0;
  debug_draws = pos 0;
  user_config_file = none;
}

unfoldable pub ssl_options_free : SslOptions → SslOptions
ssl_options_free ssl = record {
  enabled = ssl.enabled;
  ca_cert_file = none;
  certs_file = none;
  private_key_file = none;
  key_password = none;
  dh_key_file = none;
  ciphersuite = none;
}

unfoldable pub options_free : Options → Options
unfolding ssl_options_free
options_free o = record o {
  display = none;
  listen = none;
  ssl = ssl_options_free o.ssl;
  spice_password = none;
  password_file = none;
  virtio_path = none;
  uinput_path = none;
  on_connect = none;
  on_disconnect = none;
  user_config_file = none;
  codecs = none;
}
