-- ===== src/Options/Load/Laws.antt =====
-- src/options.c: what a run that loads its options can rely on.
use x11spice.Prelude.{
  ℕ, ◌≡◌, refl, ap, ◌∙◌, true, false, Option, none, some, List, ◌∷◌, [], ◌==◌, arith, Bool-cases,
  Option-cases, ◌⊎◌, inl, inr,
}
use x11spice.Prelude.Int.{ℤ, pos, negsuc, is_zero}
use x11spice.Options.{Text, Options}
use x11spice.Options.Arguments.{Choice, options_parse_arguments}
use x11spice.Options.Arguments.Laws.{Commanded, options_parse_arguments-Commanded}
use x11spice.Options.Config.{options_from_config}
use x11spice.Options.Password.{
  Urandom, process_password_file, generate_password, generated, Generated, made, gave_up, no_result,
}
use x11spice.Options.Load.{
  Inputs, read_password, options_process_io, then_generate, load_arguments, options_load,
  options_impossible_config, is_none,
}

-- `options_process_io` changes only the password.
abbrev pub SameButPassword : Options → Options → Type 0
SameButPassword o o' = o' ≡ record o { spice_password = o'.spice_password }

load_arguments-Commanded :
    (io : Inputs) (cs : List Choice) (args : List Text) (o o' : Options)
    → load_arguments io cs args o ≡ (0, o')
    → let parsed = (options_parse_arguments io.atol cs args o).1 in
      Commanded io.atol cs (options_from_config io.files io.audit_default parsed) o'
unfolding load_arguments
load_arguments-Commanded io cs args o o' e =
    elim (Bool-cases ((options_parse_arguments io.atol cs args o).0 == 0)) [
      | inr failed ↦ absurd (ground arith)
      | inl ok ↦
          let parsed = (options_parse_arguments io.atol cs args o).1 in
          (options_parse_arguments-Commanded io.atol cs args
            (options_from_config io.files io.audit_default parsed) o' (rw ok at e)).0
    ]

abbrev pub HasPassword : Options → Type 0
HasPassword o = (t : Text) × (o.spice_password ≡ some t)

generated-HasPassword :
    (o o' : Options) (rc : ℤ) (g : Generated)
    → generated o g ≡ some (rc, o')
    → SameButPassword o o' × HasPassword o'
generated-HasPassword o o' rc (made t) e = (ground arith, (t, ground arith))
generated-HasPassword o o' rc (gave_up t) e = (ground arith, (t, ground arith))
generated-HasPassword o o' rc no_result e = absurd (ground arith)

generate_password-HasPassword :
    (ur : Urandom) (o o' : Options) (rc : ℤ)
    → generate_password ur o ≡ some (rc, o')
    → SameButPassword o o' × (rc ≡ pos 0 → HasPassword o')
unfolding generate_password
generate_password-HasPassword ur o o' rc e = elim (Bool-cases ur.opens) [
  | inl opens ↦
      let (same, has) = generated-HasPassword o o' rc _ (rw opens at e) in (same, λ _. has)
  | inr shut ↦ (ground arith, λ ok. absurd (ground arith))
]

process_password_file-HasPassword :
    (max_length : ℕ) (file : Option Text) (stale : Text) (o : Options)
    → let (rc, o') = process_password_file max_length file stale o in
      SameButPassword o o' × (is_zero rc ≡ true → HasPassword o')
unfolding process_password_file
process_password_file-HasPassword max_length none stale o = (refl, λ e. absurd (ground arith))
process_password_file-HasPassword max_length (some []) stale o = (refl, λ e. (_, refl))
process_password_file-HasPassword max_length (some (c ∷ cs)) stale o = (refl, λ e. (_, refl))

-- What `then_generate` needs of its argument, and what it makes of it.
abbrev Ready : Options → ℤ × Options → Type 0
Ready o (rc, o') =
    SameButPassword o o' × (is_zero rc ≡ true → is_none o.password_file ≡ false → HasPassword o')

read_password-Ready :
    (io : Inputs) (o : Options) (name : Option Text)
    → o.password_file ≡ name
    → Ready o (read_password io name o)
read_password-Ready io o none e = (refl, λ ok given. absurd (ground arith))
read_password-Ready io o (some name) e =
    let (same, has) =
      process_password_file-HasPassword io.max_length (io.password_files name) io.stale o in
    (same, λ ok given. has ok)

is_zero-eq : (v : ℤ) → is_zero v ≡ true → v ≡ pos 0
is_zero-eq (pos n) e = ap pos (ground arith)
is_zero-eq (negsuc n) e = absurd (ground arith)

abbrev pub Given : Options → Type 0
Given o = (is_none o.password_file ≡ false) ⊎ (is_zero o.generate_password ≡ false)

Same-trans : (o m o' : Options) → SameButPassword o m → SameButPassword m o' → SameButPassword o o'
Same-trans o m o' e e' =
    e' ∙ ap (λ (p : Options). record p { spice_password = o'.spice_password }) e

same_generate : (o m : Options) → SameButPassword o m → m.generate_password ≡ o.generate_password
same_generate o m e = ap (λ (p : Options). p.generate_password) e

then_generate-HasPassword :
    (io : Inputs) (o o' : Options) (rc : ℤ) (r : ℤ × Options)
    → Ready o r
    → then_generate io r ≡ some (rc, o')
    → SameButPassword o o' × (rc ≡ pos 0 → Given o → HasPassword o')
unfolding then_generate
then_generate-HasPassword io o o' rc (rc', m) (same, has) e = elim (Bool-cases (is_zero rc')) [
  | inr failed ↦
      let kept : m ≡ o' = ground arith in (rw kept at same, λ ok given. absurd (ground arith))
  | inl ok ↦ elim (Bool-cases (is_zero m.generate_password)) [
    | inl not_wanted ↦
        let kept : m ≡ o' = ground arith in
        (
          rw kept at same,
          λ _ given. elim given [
            | inl file ↦ rw kept at (has ok file)
            | inr wanted ↦ absurd (generated_either o m same not_wanted wanted)
          ],
        )
    | inr wanted ↦
        let (same', has') =
          generate_password-HasPassword io.urandom m o' rc (rw (ok, wanted) at e) in
        (Same-trans o m o' same same', λ ok' given. has' ok')
  ]
]
  where
    generated_either :
        (o m : Options)
        → SameButPassword o m
        → is_zero m.generate_password ≡ true
        → is_zero o.generate_password ≡ false
        → ⊥
    generated_either o m same h h' =
        let e : is_zero o.generate_password ≡ true = rw (same_generate o m same) at h in
        ground arith

options_process_io-HasPassword :
    (io : Inputs) (o o' : Options) (rc : ℤ)
    → options_process_io io o ≡ some (rc, o')
    → SameButPassword o o' × (rc ≡ pos 0 → Given o → HasPassword o')
unfolding options_process_io
options_process_io-HasPassword io o o' rc e =
    then_generate-HasPassword io o o' rc (read_password io o.password_file o)
      (read_password-Ready io o o.password_file refl) e

-- What `options_load` did when it returned 0.
loaded :
    (io : Inputs) (cs : List Choice) (args : List Text) (o o' : Options)
    → options_load io cs args o ≡ some (pos 0, o')
    → (m : Options) × ((load_arguments io cs args o ≡ (0, m))
        × (options_process_io io m ≡ some (pos 0, o')))
unfolding options_load
loaded io cs args o o' e = elim (Bool-cases ((load_arguments io cs args o).0 == 0)) [
  | inr failed ↦ absurd (ground arith)
  | inl ok ↦ ((load_arguments io cs args o).1, (ground arith, rw ok at e))
]

-- After a load that succeeds, whether clients have control, the timeout and the display are what
-- the command line says, and what the configuration files that it names say where it is silent.
pub options_load-Commanded :
    (io : Inputs) (cs : List Choice) (args : List Text) (o o' : Options)
    → options_load io cs args o ≡ some (pos 0, o')
    → let parsed = (options_parse_arguments io.atol cs args o).1 in
      Commanded io.atol cs (options_from_config io.files io.audit_default parsed) o'
options_load-Commanded io cs args o o' e =
    let (m, (read, done)) = loaded io cs args o o' e in
    let (control, timeout, display) = load_arguments-Commanded io cs args o m read in
    let (same, _) = options_process_io-HasPassword io m o' (pos 0) done in
    (
      ap (λ (p : Options). p.allow_control) same ∙ control,
      ap (λ (p : Options). p.timeout) same ∙ timeout,
      ap (λ (p : Options). p.display) same ∙ display,
    )

-- A configuration that is loaded and not impossible has a password, or says itself that none is
-- asked for.
pub options_load-HasPassword :
    (io : Inputs) (cs : List Choice) (args : List Text) (o o' : Options)
    → options_load io cs args o ≡ some (pos 0, o')
    → options_impossible_config o' ≡ false
    → HasPassword o' ⊎ (o'.disable_ticketing ≡ true)
unfolding options_impossible_config
options_load-HasPassword io cs args o o' e possible =
    let (m, (_, done)) = loaded io cs args o o' e in
    let (same, has) = options_process_io-HasPassword io m o' (pos 0) done in
    let file : o'.password_file ≡ m.password_file = ap (λ (p : Options). p.password_file) same in
    let wanted : o'.generate_password ≡ m.generate_password = same_generate m o' same in
    elim (Option-cases o'.spice_password) [
      | inr (t, e) ↦ inl (t, e)
      | inl absent ↦ elim (Bool-cases (is_zero o'.generate_password)) [
        | inr generate ↦ inl (has refl (inr (rw wanted at generate)))
        | inl zero ↦ elim (Bool-cases (is_none o'.password_file)) [
          | inr given ↦ inl (has refl (inl (rw file at given)))
          | inl none_given ↦ inr (ground arith)
        ]
      ]
    ]
