-- ===== src/Options/Password/Laws.antt =====
-- src/options.c: the password that a file gives, and the one that is generated.
use x11spice.Prelude.{
  ℕ, zero, suc, ◌+◌, ◌≤◌, ◌≡◌, ◌≢◌, refl, ap, ◌∙◌, true, some, List, [], ◌∷◌, ◌++◌, if◌then◌else◌,
  length, take, map, All, arith, Bool-cases, ==_of_ne, inl, inr,
}
use x11spice.Prelude.Int.{pos, ℤ, negsuc}
use x11spice.Options.{Text, Options}
use x11spice.Options.Password.{
  newline, fgets, until_nul, strip_newline, process_password_file, Read, byte, interrupted, failed,
  Generated, made, gave_up, no_result, is_alnum, then_byte, fill, fill_to, generated, Urandom,
  generate_password,
}

-- A line of text, without its newline.
abbrev pub IsLine : Text → Type 0
IsLine line = All (λ c. (c ≢ newline) × (c ≢ 0)) line

strip_newline-cons :
    (c : ℕ) (cs : Text) → c ≢ newline → strip_newline (c ∷ cs) ≡ c ∷ strip_newline cs
unfolding strip_newline
strip_newline-cons c [] h = ground arith
strip_newline-cons c (c' ∷ cs) h = refl

line_read :
    (n : ℕ) (line rest : Text)
    → IsLine line
    → length line ≤ n
    → strip_newline (until_nul (fgets n (line ++ newline ∷ rest))) ≡ line
unfolding fgets until_nul
line_read zero [] rest h le = unfold strip_newline in refl
line_read zero (c ∷ line) rest h le = absurd (omega arith)
line_read (suc n) [] rest h le = unfold strip_newline in refl
line_read (suc n) (c ∷ line) rest ((not_newline, not_nul), h) le =
    rw (==_of_ne c newline not_newline, ==_of_ne c 0 not_nul)
      (strip_newline-cons c _ not_newline ∙ ap (λ t. c ∷ t) (line_read n line rest h (omega arith)))

-- The password is the first line of the file, without its newline, if the line fits the buffer.
pub process_password_file-line :
    (max_length : ℕ) (line rest stale : Text) (o : Options)
    → IsLine line
    → length line ≤ max_length
    → process_password_file max_length (some (line ++ newline ∷ rest)) stale o
      ≡ (pos 0, record o { spice_password = some line })
unfolding process_password_file
process_password_file-line max_length line rest stale o h le =
    go (line ++ newline ∷ rest) (line_read max_length line rest h le) (not_empty line)
  where
    go :
        (file : Text)
        → strip_newline (until_nul (fgets max_length file)) ≡ line
        → file ≢ []
        → process_password_file max_length (some file) stale o
          ≡ (pos 0, record o { spice_password = some line })
    go [] e ne = absurd (ne refl)
    go (c ∷ cs) e ne = rw e refl

    not_empty : (line : Text) → line ++ newline ∷ rest ≢ []
    not_empty [] = λ e. cc
    not_empty (c ∷ cs) = λ e. cc

-- What a password that was made is like.
abbrev pub IsPassword : ℕ → Text → Type 0
IsPassword n t = (length t ≡ n) × All (λ c. is_alnum c ≡ true) t

abbrev MadeRight : ℕ → Generated → Type 0
MadeRight n (made t) = IsPassword n t
MadeRight n (gave_up t) = Unit
MadeRight n no_result = Unit

then_byte-MadeRight :
    (c n : ℕ) (g : Generated)
    → is_alnum c ≡ true
    → MadeRight n g
    → MadeRight (suc n) (then_byte c g)
then_byte-MadeRight c n (made t) ok (len, all) = (ap suc len, (ok, all))
then_byte-MadeRight c n (gave_up t) ok h = tt
then_byte-MadeRight c n no_result ok h = tt

fill-MadeRight :
    (memory : ℕ → ℕ) (reads : List Read) (i left cell : ℕ)
    → MadeRight left (fill memory reads i left cell)
unfolding fill
fill-MadeRight memory [] i zero cell = (refl, tt)
fill-MadeRight memory (r ∷ rs) i zero cell = (refl, tt)
fill-MadeRight memory [] i (suc left) cell = tt
fill-MadeRight memory (failed ∷ rs) i (suc left) cell = tt
fill-MadeRight memory (byte b ∷ rs) i (suc left) cell = elim (Bool-cases (is_alnum b)) [
  | inl ok ↦
      rw ok
        (then_byte-MadeRight b left _ ok (fill-MadeRight memory rs (i + 1) left (memory (i + 1))))
  | inr bad ↦ rw bad (fill-MadeRight memory rs i (suc left) b)
]
fill-MadeRight memory (interrupted ∷ rs) i (suc left) cell = elim (Bool-cases (is_alnum cell)) [
  | inl ok ↦
      rw ok (
        then_byte-MadeRight cell left _ ok (fill-MadeRight memory rs (i + 1) left (memory (i + 1))))
  | inr bad ↦ rw bad (fill-MadeRight memory rs i (suc left) cell)
]

-- The bytes that a password can have, in their order.
abbrev pub alnums : Text → Text
alnums [] = []
alnums (b ∷ bs) = let rest = alnums bs in if is_alnum b then b ∷ rest else rest

fill-alnums :
    (memory : ℕ → ℕ) (bs : Text) (i left cell : ℕ)
    → left ≤ length (alnums bs)
    → fill memory (map byte bs) i left cell ≡ made (take left (alnums bs))
unfolding fill
fill-alnums memory [] i zero cell le = refl
fill-alnums memory (b ∷ bs) i zero cell le = refl
fill-alnums memory [] i (suc left) cell le = absurd (omega arith)
fill-alnums memory (b ∷ bs) i (suc left) cell le = elim (Bool-cases (is_alnum b)) [
  | inl ok ↦
      let enough : left ≤ length (alnums bs) = ground arith in
      rw ok (ap (then_byte b) (fill-alnums memory bs (i + 1) left (memory (i + 1)) enough))
  | inr bad ↦
      let enough : suc left ≤ length (alnums bs) = ground arith in
      rw bad (fill-alnums memory bs i (suc left) b enough)
]

-- A password that `generate_password` makes has the length asked for and only letters and digits,
-- also where reads are interrupted.
pub generate_password-IsPassword :
    (ur : Urandom) (o o' : Options)
    → generate_password ur o ≡ some (pos 0, o')
    → (n : ℕ) × (t : Text) × (o.generate_password ≡ pos n)
      × (o'.spice_password ≡ some t)
      × IsPassword n t
unfolding generate_password
generate_password-IsPassword ur o o' e = elim (Bool-cases ur.opens) [
  | inr shut ↦ absurd (ground arith)
  | inl opens ↦ from_length o.generate_password refl (rw opens at e)
]
  where
    go :
        (n : ℕ) (g : Generated)
        → o.generate_password ≡ pos n
        → MadeRight n g
        → generated o g ≡ some (pos 0, o')
        → (n : ℕ) × (t : Text) × (o.generate_password ≡ pos n)
          × (o'.spice_password ≡ some t)
          × IsPassword n t
    go n (made t) same h e = (n, t, same, ground arith, h)
    go n (gave_up t) same h e = absurd (ground arith)
    go n no_result same h e = absurd (ground arith)

    from_length :
        (v : ℤ)
        → o.generate_password ≡ v
        → generated o (fill_to v ur.memory ur.reads) ≡ some (pos 0, o')
        → (n : ℕ) × (t : Text) × (o.generate_password ≡ pos n)
          × (o'.spice_password ≡ some t)
          × IsPassword n t
    from_length (pos n) same e =
        go n (fill ur.memory ur.reads 0 n (ur.memory 0)) same
          (fill-MadeRight ur.memory ur.reads 0 n (ur.memory 0)) e
    from_length (negsuc n) same e = absurd (ground arith)

-- If every read gives a byte and enough of them are letters or digits, the loop ends, and the
-- password is the first of those.
pub generate_password-alnums :
    (memory : ℕ → ℕ) (bs : Text) (n : ℕ) (o : Options)
    → o.generate_password ≡ pos n
    → n ≤ length (alnums bs)
    → generate_password (record { opens = true; memory = memory; reads = map byte bs }) o
      ≡ some (pos 0, record o { spice_password = some (take n (alnums bs)) })
unfolding generate_password
generate_password-alnums memory bs n o e enough =
    rw (e, fill-alnums memory bs 0 n (memory 0) enough) refl
