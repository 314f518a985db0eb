-- ===== src/Listen/Port/Tests.antt =====
-- src/listen.c: the search for a port at concrete inputs.
use x11spice.Prelude.{◌≡◌, refl, true, Option, none, some, List, [], ◌∷◌, ◌==◌}
use x11spice.Prelude.Int.{ℤ, pos, negsuc}
use x11spice.Listen.Port.{Address, listen_find_open_port}
use x11spice.Listen.Port.Laws.{Search, listen_find_open_port-Search}

-- Only port 5902 can be bound.
abbrev resolve : ℤ → Option (List Address)
resolve (pos p) = some (record { socket = some p; bind = p == 5902; listen = true } ∷ [])
resolve (negsuc p) = none

listen_find_open_port-Search_example :
    Search resolve (pos 5900) 5 (listen_find_open_port resolve (pos 5900) (pos 5904)).0
listen_find_open_port-Search_example = listen_find_open_port-Search resolve (pos 5900) (pos 5904)

opens_the_third :
    (listen_find_open_port resolve (pos 5900) (pos 5904)).0
    ≡ some (record { port = pos 5902; sock = 5902 })
unfolding listen_find_open_port
opens_the_third = refl
