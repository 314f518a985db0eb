-- ===== src/Listen/Tests.antt =====
-- src/listen.c at concrete inputs.
use x11spice.Prelude.{◌≡◌, refl, none, some, codes, false}
use x11spice.Prelude.Int.{pos, minus_one}
use x11spice.Listen.Parse.{listen_parse}

range :
    listen_parse (codes "localhost:5900-5910")
    ≡ some (record {
      addr = some (codes "localhost");
      port_start = pos 5900;
      port_end = pos 5910;
      unix_only = false;
    })
unfolding listen_parse
range = refl

one_port :
    listen_parse (codes "5900 ")
    ≡ some (record { addr = none; port_start = minus_one; port_end = pos 5900; unix_only = false })
unfolding listen_parse
one_port = refl

colon_only :
    listen_parse (codes ":5900")
    ≡ some (record {
      addr = some (codes ":");
      port_start = minus_one;
      port_end = pos 5900;
      unix_only = false;
    })
unfolding listen_parse
colon_only = refl
