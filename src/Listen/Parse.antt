-- ===== src/Listen/Parse.antt =====
-- src/listen.c: `listen_parse`.
use x11spice.Prelude.{
  ℕ, zero, suc, ◌+◌, ◌-◌, Bool, true, false, ◌&&◌, ◌||◌, not, Option, none, some, List, [], ◌∷◌,
  ltb, ◌==◌, if◌then◌else◌, get_or, drop, take, length, codes,
}
use x11spice.Prelude.Int.{ℤ, minus_one}
use x11spice.Listen.Strtol.{is_digit, is_space, strtol}

-- SPICE_ADDR_FLAG_UNIX_ONLY is a constant of the spice headers, so the flag is kept as a Boolean.
pub record Spec : Type 0 where
  pub addr : Option (List ℕ)
  pub port_start : ℤ
  pub port_end : ℤ
  pub unix_only : Bool

-- The loop's variables: p is `spec + n - 1`, and a counter is compared with 0 only.
pub record Scan : Type 0 where
  pub n : ℕ
  pub leading : ℕ
  pub trailing : ℕ
  pub hyphen : ℕ
  pub end : ℤ

abbrev pub byte_at : List ℕ → ℕ → ℕ
byte_at spec n = get_or spec (n - 1) 0

abbrev pub at_hyphen : List ℕ → Scan → ℕ → Scan
at_hyphen spec s n = record s {
  hyphen = 1;
  end = if ltb 0 s.trailing then strtol (drop n spec) else s.end;
}

abbrev pub at_digit : Scan → Scan
at_digit s =
    if s.hyphen == 0
    then record s { trailing = s.trailing + 1 }
    else record s { leading = s.leading + 1 }

-- The loop from the end of the text; `none` for its `return X11SPICE_ERR_PARSE`. The text holds no
-- NUL, so `*p` ends no round.
unfoldable pub scan_back : List ℕ → ℕ → Scan → Option Scan
unfolding strtol
scan_back spec zero s = some (record s { n = 0 })
scan_back spec (suc n) s =
    let c = byte_at spec (suc n) in
    let skip = scan_back spec n s in
    let hyphen = scan_back spec n (at_hyphen spec s (suc n)) in
    let digit = scan_back spec n (at_digit s) in
    if is_space c && (s.hyphen == 0 && s.trailing == 0)
    then skip
    else if c == b'-'
    then if s.hyphen == 0 then hyphen else none
    else if is_digit c
    then digit
    else some (record s { n = suc n })

-- What stands before the ports, p being `spec + n - 1`: a colon is dropped, but not at the start.
abbrev pub addr_length : List ℕ → ℕ → ℕ
addr_length spec n = if ltb 1 n && byte_at spec n == b':' then n - 1 else n

abbrev pub addr_of : List ℕ → ℕ → Option (List ℕ)
addr_of spec len = if ltb 0 len then some (take len spec) else none

-- What follows the loop.
unfoldable pub finish : List ℕ → Scan → Option Spec
unfolding strtol
finish spec s =
    let port_start =
      if ltb 0 s.leading && ltb 0 s.hyphen then strtol (drop s.n spec) else minus_one in
    let port_end = if ltb 0 s.trailing && s.hyphen == 0 then strtol (drop s.n spec) else s.end in
    let half = ltb 0 s.hyphen && (s.leading == 0 || s.trailing == 0) in
    let stray =
      (ltb 0 s.leading || ltb 0 s.trailing) && (ltb 1 s.n && not (byte_at spec s.n == b':')) in
    if half
    then none
    else if stray
    then none
    else some (record {
      addr = addr_of spec (addr_length spec s.n);
      port_start = port_start;
      port_end = port_end;
      unix_only = false;
    })

abbrev pub start : Scan
start = record { n = 0; leading = 0; trailing = 0; hyphen = 0; end = minus_one }

abbrev pub then_finish : List ℕ → Option Scan → Option Spec
then_finish spec none = none
then_finish spec (some s) = finish spec s

unfoldable pub parse_ports : List ℕ → Option Spec
unfolding scan_back finish
parse_ports spec = then_finish spec (scan_back spec (length spec) start)

-- `strncmp(s, prefix, strlen(prefix)) == 0`, with what follows the prefix.
unfoldable pub strip_prefix : List ℕ → List ℕ → Option (List ℕ)
strip_prefix [] s = some s
strip_prefix (p ∷ ps) [] = none
strip_prefix (p ∷ ps) (c ∷ cs) = let rest = strip_prefix ps cs in if p == c then rest else none

abbrev pub spice_unix_uri_prefix : List ℕ
spice_unix_uri_prefix = codes "spice+unix://"

abbrev pub spice_uri_prefix : List ℕ
spice_uri_prefix = codes "spice://"

-- `none` for X11SPICE_ERR_PARSE.
unfoldable pub listen_parse : List ℕ → Option Spec
unfolding strip_prefix parse_ports
listen_parse spec = elim (strip_prefix spice_unix_uri_prefix spec) [
  | some path ↦
      some (record {
        addr = some path;
        port_start = minus_one;
        port_end = minus_one;
        unix_only = true;
      })
  | none ↦ elim (strip_prefix spice_uri_prefix spec) [
    | some rest ↦ parse_ports rest
    | none ↦ parse_ports spec
  ]
]
