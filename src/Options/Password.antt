-- ===== src/Options/Password.antt =====
-- src/options.c: `process_password_file` and `generate_password`. What the file holds and what
-- `read` answers are arguments.
pub mod Laws
use x11spice.Prelude.{
  ℕ, zero, suc, ◌+◌, Bool, true, false, ◌&&◌, ◌||◌, Option, none, some, List, [], ◌∷◌, leb, ◌==◌,
  if◌then◌else◌,
}
use x11spice.Prelude.Int.{ℤ, pos, negsuc, minus_one}
use x11spice.Listen.Strtol.{is_digit}
use x11spice.Options.{Text, Options, err_open, err_parse}

abbrev pub newline : ℕ
newline = 10

-- What `fgets` with room for `n` bytes and the NUL reads of the file.
unfoldable pub fgets : ℕ → Text → Text
fgets zero cs = []
fgets (suc n) [] = []
fgets (suc n) (c ∷ cs) = let rest = fgets n cs in if c == newline then newline ∷ [] else c ∷ rest

-- The string that a buffer holds.
unfoldable pub until_nul : Text → Text
until_nul [] = []
until_nul (c ∷ cs) = let rest = until_nul cs in if c == 0 then [] else c ∷ rest

-- A trailing newline is stripped.
unfoldable pub strip_newline : Text → Text
strip_newline [] = []
strip_newline (c ∷ cs) =
    let rest = strip_newline cs in
    elim cs [ [] ↦ if c == newline then [] else c ∷ [] | c' ∷ cs' ↦ c ∷ rest ]

-- `file` is `none` where it cannot be opened, and `stale` what the buffer holds before the read;
-- `max_length` is SPICE_MAX_PASSWORD_LENGTH.
unfoldable pub process_password_file : ℕ → Option Text → Text → Options → ℤ × Options
unfolding fgets until_nul strip_newline
process_password_file max_length none stale o = (pos err_open, o)
process_password_file max_length (some []) stale o =
    (pos err_parse, record o { spice_password = some (strip_newline (until_nul stale)) })
process_password_file max_length (some (c ∷ cs)) stale o = (
  pos 0,
  record o { spice_password = some (strip_newline (until_nul (fgets max_length (c ∷ cs)))) },
)

-- One answer of `read`: a byte, EINTR, or the end or another error.
pub data Read : Type 0 where
  byte : ℕ → Read
  interrupted : Read
  failed : Read

-- The password, the start of one where `read` fails, or nothing: the loop waits for more answers, or
-- the program has crashed.
pub data Generated : Type 0 where
  made : Text → Generated
  gave_up : Text → Generated
  no_result : Generated

abbrev pub is_alnum : ℕ → Bool
is_alnum c = is_digit c || ((leb b'a' c && leb c b'z') || (leb b'A' c && leb c b'Z'))

abbrev pub then_byte : ℕ → Generated → Generated
then_byte c (made t) = made (c ∷ t)
then_byte c (gave_up t) = gave_up (c ∷ t)
then_byte c no_result = no_result

-- The loop: `i` bytes stand, `left` are missing, and `cell` is what `*p` holds, which is what the
-- allocated memory held until a byte is read into it. An interrupted read tests it as it is.
unfoldable pub fill : (ℕ → ℕ) → List Read → ℕ → ℕ → ℕ → Generated
fill memory reads i zero cell = made []
fill memory [] i (suc left) cell = no_result
fill memory (failed ∷ rs) i (suc left) cell = gave_up []
fill memory (byte b ∷ rs) i (suc left) cell =
    let taken = fill memory rs (i + 1) left (memory (i + 1)) in
    let again = fill memory rs i (suc left) b in if is_alnum b then then_byte b taken else again
fill memory (interrupted ∷ rs) i (suc left) cell =
    let taken = fill memory rs (i + 1) left (memory (i + 1)) in
    let again = fill memory rs i (suc left) cell in
    if is_alnum cell then then_byte cell taken else again

-- The allocation and the loop. For a negative length the program crashes: `g_malloc` aborts, or has
-- no byte for the NUL.
abbrev pub fill_to : ℤ → (ℕ → ℕ) → List Read → Generated
fill_to (pos n) memory reads = fill memory reads 0 n (memory 0)
fill_to (negsuc n) memory reads = no_result

abbrev pub generated : Options → Generated → Option (ℤ × Options)
generated o (made t) = some (pos 0, record o { spice_password = some t })
generated o (gave_up t) = some (minus_one, record o { spice_password = some t })
generated o no_result = none

-- /dev/urandom: whether it can be opened, and what its reads answer. The
-- bytes behind those of a failed run are not written, and the string is not terminated.
pub record Urandom : Type 0 where
  pub opens : Bool
  pub memory : ℕ → ℕ
  pub reads : List Read

unfoldable pub generate_password : Urandom → Options → Option (ℤ × Options)
unfolding fill
generate_password ur o =
    if ur.opens
    then generated o (fill_to o.generate_password ur.memory ur.reads)
    else some (pos err_open, o)
