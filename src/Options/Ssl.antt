-- ===== src/Options/Ssl.antt =====
-- src/options.c: `options_handle_ssl`. The fields are what `strtok_r` finds between commas.
use x11spice.Prelude.{
  ℕ, zero, suc, tests, ◌+◌, ◌≤◌, ◌<◌, ◌≡◌, refl, Option, none, some, List, [], ◌∷◌, ltb, leb, ◌==◌,
  if◌then◌else◌, length, get_elem?, arith, Bool-cases, inl, inr,
}
use x11spice.Options.{Text, SslOptions, err_badargs}

-- `strtok_r` passes over empty fields.
abbrev pub add_token : Text → List Text → List Text
add_token [] ts = ts
add_token (c ∷ t) ts = (c ∷ t) ∷ ts

-- The bytes before the first comma, and the fields behind it.
unfoldable pub split : Text → Text × List Text
split [] = ([], [])
split (c ∷ cs) = let (t, ts) = split cs in if c == b',' then ([], add_token t ts) else (c ∷ t, ts)

unfoldable pub tokens : Text → List Text
unfolding split
tokens spec = let (t, ts) = split spec in add_token t ts

-- The cases 0 to 5 of the switch.
unfoldable pub set_field : ℕ → Text → SslOptions → SslOptions
set_field i p ssl =
    if i == 0
    then record ssl { ca_cert_file = some p }
    else if i == 1
    then record ssl { certs_file = some p }
    else if i == 2
    then record ssl { private_key_file = some p }
    else if i == 3
    then record ssl { key_password = some p }
    else if i == 4
    then record ssl { dh_key_file = some p }
    else record ssl { ciphersuite = some p }

-- The loop from field `i` on. The default case goes on with the loop.
unfoldable pub set_fields : ℕ → List Text → ℕ → SslOptions → ℕ × SslOptions
unfolding set_field
set_fields i [] rc ssl = (rc, ssl)
set_fields i (p ∷ ps) rc ssl =
    let known = set_fields (i + 1) ps rc (set_field i p ssl) in
    let unknown = set_fields (i + 1) ps err_badargs ssl in if ltb i 6 then known else unknown

unfoldable pub options_handle_ssl : SslOptions → Text → ℕ × SslOptions
unfolding set_fields tokens
options_handle_ssl ssl spec = set_fields 0 (tokens spec) 0 ssl

-- The fields of `ssl_options_t` in the order of the specification.
unfoldable pub field : ℕ → SslOptions → Option Text
field k ssl =
    if k == 0
    then ssl.ca_cert_file
    else if k == 1
    then ssl.certs_file
    else if k == 2
    then ssl.private_key_file
    else if k == 3
    then ssl.key_password
    else if k == 4
    then ssl.dh_key_file
    else ssl.ciphersuite

set_field-field :
    (i k : ℕ) (p : Text) (ssl : SslOptions)
    → i < 6
    → k < 6
    → field k (set_field i p ssl) ≡ (if k == i then some p else field k ssl)
unfolding field set_field
set_field-field i k p ssl h h' = ground arith

abbrev pub or_else : Option Text → Option Text → Option Text
or_else none old = old
or_else (some t) old = some t

-- Past the last field, nothing is set.
set_fields-beyond :
    (i : ℕ) (ps : List Text) (rc : ℕ) (ssl : SslOptions)
    → 6 ≤ i
    → set_fields i ps rc ssl ≡ (if length ps == 0 then rc else err_badargs, ssl)
unfolding set_fields
set_fields-beyond i [] rc ssl h = refl
set_fields-beyond i (p ∷ ps) rc ssl h = ground (arith, set_fields-beyond (i + 1) ps err_badargs ssl)

-- Field k is the (k - i)th of the list.
unfoldable nth_from : ℕ → ℕ → List Text → Option Text
nth_from i k [] = none
nth_from i k (p ∷ ps) = let rest = nth_from (i + 1) k ps in if k == i then some p else rest

nth_from-past : (i k : ℕ) (ps : List Text) → k < i → nth_from i k ps ≡ none
unfolding nth_from
nth_from-past i k [] h = refl
nth_from-past i k (p ∷ ps) h = ground (arith, nth_from-past (i + 1) k ps)

nth_from-get_elem? : (i k : ℕ) (ps : List Text) → nth_from i (i + k) ps ≡ get_elem? ps k
unfolding nth_from
nth_from-get_elem? i k [] = refl
nth_from-get_elem? i zero (p ∷ ps) = ground arith
nth_from-get_elem? i (suc k) (p ∷ ps) =
    let e : i + suc k ≡ i + 1 + k = omega arith in
    rw e (ground (arith, nth_from-get_elem? (i + 1) k ps))

set_fields-fields :
    (i k : ℕ) (ps : List Text) (rc : ℕ) (ssl : SslOptions)
    → k < 6
    → field k (set_fields i ps rc ssl).1 ≡ or_else (nth_from i k ps) (field k ssl)
unfolding set_fields nth_from
set_fields-fields i k [] rc ssl h = refl
set_fields-fields i k (p ∷ ps) rc ssl h = elim (Bool-cases (k == i)) [
  | inl same ↦ ground (
    arith,
    set_fields-fields (i + 1) k ps rc (set_field i p ssl),
    set_field-field i k p ssl,
    nth_from-past (i + 1) k ps,
  )
  | inr other ↦ elim (Bool-cases (ltb i 6)) [
    | inl known ↦
        let rest = set_fields-fields (i + 1) k ps rc (set_field i p ssl) h in
        let kept = set_field-field i k p ssl (omega tests) h in
        rw (known, other) (rw other at (rw kept at rest))
    | inr unknown ↦ rw (unknown, other) (set_fields-fields (i + 1) k ps err_badargs ssl h)
  ]
]

set_fields-rc :
    (i : ℕ) (ps : List Text) (ssl : SslOptions)
    → i ≤ 6
    → (set_fields i ps 0 ssl).0 ≡ (if leb (i + length ps) 6 then 0 else err_badargs)
unfolding set_fields
set_fields-rc i [] ssl h = ground arith
set_fields-rc i (p ∷ ps) ssl h = elim (Bool-cases (ltb i 6)) [
  | inl known ↦
      let e : i + suc (length ps) ≡ i + 1 + length ps = omega arith in
      rw (known, e) (set_fields-rc (i + 1) ps (set_field i p ssl) (omega tests))
  | inr last ↦ ground (arith, set_fields-beyond (i + 1) ps err_badargs ssl)
]

-- The specification's non-empty fields, in their order, are stored in the six options, which keep
-- what they had where it has fewer; the call fails exactly if there are more than six.
pub options_handle_ssl-fields :
    (ssl : SslOptions) (spec : Text) (k : ℕ)
    → k < 6
    → let (rc, ssl') = options_handle_ssl ssl spec in
      (rc ≡ (if leb (length (tokens spec)) 6 then 0 else err_badargs))
      × (field k ssl' ≡ or_else (get_elem? (tokens spec) k) (field k ssl))
unfolding options_handle_ssl
options_handle_ssl-fields ssl spec k h =
    let ts = tokens spec in
    let z : 0 + length ts ≡ length ts = omega arith in
    let z' : 0 + k ≡ k = omega arith in
    let e : nth_from 0 k ts ≡ get_elem? ts k = rw z' at (nth_from-get_elem? 0 k ts) in
    (rw z at (set_fields-rc 0 ts ssl (omega arith)), rw e at (set_fields-fields 0 k ts 0 ssl h))
