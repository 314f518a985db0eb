-- ===== src/Listen/Strtol.antt =====
-- The C library's `strtol` with base 0, stored in an `int`, and the tests of <ctype.h> that
-- src/listen.c uses, in the C locale.
use x11spice.Prelude.{
  ℕ, ◌+◌, ◌-◌, ◌*◌, ◌%◌, ◌^◌, min, Bool, ◌&&◌, ◌||◌, List, [], ◌∷◌, ltb, leb, ◌==◌, if◌then◌else◌,
  get_or, drop,
}
use x11spice.Prelude.Int.{ℤ, pos, negsuc}

abbrev pub is_digit : ℕ → Bool
is_digit c = leb b'0' c && leb c b'9'

-- Blank, and the bytes 9 to 13.
abbrev pub is_space : ℕ → Bool
is_space c = c == 32 || (leb 9 c && leb c 13)

-- The value of a digit, 36 for any other byte.
abbrev pub digit_value : ℕ → ℕ
digit_value c =
    if is_digit c
    then c - b'0'
    else if leb b'a' c && leb c b'z'
    then c - b'a' + 10
    else if leb b'A' c && leb c b'Z'
    then c - b'A' + 10
    else 36

unfoldable pub digits_from : ℕ → ℕ → List ℕ → ℕ
digits_from base acc [] = acc
digits_from base acc (c ∷ cs) =
    let rest = digits_from base (acc * base + digit_value c) cs in
    if ltb (digit_value c) base then rest else acc

abbrev pub is_x : ℕ → Bool
is_x c = c == b'x' || c == b'X'

-- Base 0: 0x and a digit mean 16, another leading 0 means 8.
unfoldable pub magnitude : List ℕ → ℕ
unfolding digits_from
magnitude s =
    if get_or s 0 0 == b'0'
    then if is_x (get_or s 1 0) && ltb (digit_value (get_or s 2 0)) 16
      then digits_from 16 0 (drop 2 s)
      else digits_from 8 0 s
    else digits_from 10 0 s

abbrev pub long_max : ℕ
long_max = 2 ^ 63 - 1

-- A 32-bit pattern as an `int`.
abbrev pub to_int : ℕ → ℤ
to_int v = let w = v % 2 ^ 32 in if ltb w (2 ^ 31) then pos w else negsuc (2 ^ 32 - w - 1)

-- The value saturates at LONG_MAX and is then cut to an `int`; with a minus sign it saturates at
-- LONG_MIN, whose pattern is that of 0 in an `int`.
unfoldable pub with_sign : List ℕ → ℤ
unfolding magnitude
with_sign s =
    if get_or s 0 0 == b'-'
    then to_int (2 ^ 64 - min (magnitude (drop 1 s)) (2 ^ 63))
    else if get_or s 0 0 == b'+'
    then to_int (min (magnitude (drop 1 s)) long_max)
    else to_int (min (magnitude s) long_max)

unfoldable pub strtol : List ℕ → ℤ
unfolding with_sign
strtol [] = pos 0
strtol (c ∷ cs) = if is_space c then strtol cs else with_sign (c ∷ cs)
