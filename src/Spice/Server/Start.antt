-- ===== src/Spice/Server/Start.antt =====
-- src/spice.c: what `spice_start` and `spice_end` leave of the server.
use x11spice.Prelude.{
  ℕ, ◌+◌, ◌≡◌, ◌≢◌, refl, true, false, Option, List, [], ◌∷◌, ◌++◌, ◌==◌, arith, Bool-cases, inl,
  inr,
}
use x11spice.Prelude.Int.{ℤ}
use x11spice.Options.{Text, Options}
use x11spice.Listen.Port.{Address}
use x11spice.Display.Image.{ShmImage}
use x11spice.Spice.Server.{
  Piece, server, display, keyboard, tablet, primary_surface, ServerCall, created, destroyed,
  vm_start, monitors_config, Spice, err_spice_init_failed, log, destroy_server,
  send_monitors_config, spice_create_primary, spice_destroy_primary, set_options, Listening,
  try_listen, StartAnswers, start_vm, add_tablet_interface, add_keyboard_interface,
  add_display_interface, init_server, spice_start, spice_end,
}
use x11spice.Spice.Server.Laws.{
  same_piece, creations, destructions, creations-append, destructions-append, Stands, IsNeutral,
  log-Stands, set_options-IsNeutral,
}
use x11spice.Spice.Server.Probe.{IsListening, try_listen-IsListening}

-- How many of each piece stand.
abbrev Begun : (Piece → ℕ) → Spice → Type 0
Begun n s = (p : Piece) → Stands p (n p) s

-- Where 0 is returned these stand; where starting failed the server does not.
abbrev Ends : (Piece → ℕ) → ℕ × Spice → Type 0
Ends n (rc, s) = (rc ≡ 0 → Begun n s) × (rc ≡ err_spice_init_failed → Stands server 0 s)

created-Begun :
    (n : Piece → ℕ) (q : Piece) (s : Spice)
    → Begun n s
    → Begun (λ p. n p + same_piece p q) (log s (created q ∷ []))
created-Begun n q s begun p =
    log-Stands p (n p) (same_piece p q) s (created q ∷ [])
      (unfold creations destructions in omega arith) (begun p)

neutral-Begun :
    (n : Piece → ℕ) (s : Spice) (out : List ServerCall)
    → IsNeutral out
    → Begun n s
    → Begun n (log s out)
neutral-Begun n s out neutral begun p =
    let quiet = neutral p in
    omega (arith, log-Stands p (n p) 0 s out (omega (arith, quiet.0, quiet.1)) (begun p))

destroy_server-Ends :
    (n m : Piece → ℕ) (s : Spice) → n server ≡ 1 → Begun n s → Ends m (destroy_server s)
unfolding destructions creations
destroy_server-Ends n m s one begun = (
  λ e. absurd (omega (arith, e)),
  λ e. omega (
    arith,
    one,
    begun server,
    creations-append server s.calls (destroyed server ∷ []),
    destructions-append server s.calls (destroyed server ∷ []),
  ),
)

-- Calls of the server that it starts with, and no piece.
single-IsNeutral-vm : IsNeutral (vm_start ∷ [])
unfolding creations destructions
single-IsNeutral-vm p = (refl, refl)

monitors-IsNeutral : (w h : ℕ) → IsNeutral (monitors_config w h ∷ [])
unfolding creations destructions
monitors-IsNeutral w h p = (refl, refl)

module _ (os : StartAnswers) (primary : ShmImage) where
  start_vm-Ends :
      (n : Piece → ℕ) (s : Spice)
      → Begun n s
      → Ends (λ p. n p + same_piece p primary_surface) (start_vm os primary s)
  unfolding start_vm spice_create_primary send_monitors_config
  start_vm-Ends n s begun =
      let run = log s (vm_start ∷ []) in
      let shown : Spice = record (log run (created primary_surface ∷ [])) {
        width = primary.w;
        height = primary.h;
      } in
      let all : Begun (λ p. n p + same_piece p primary_surface) shown =
        created-Begun n primary_surface run
          (neutral-Begun n s (vm_start ∷ []) single-IsNeutral-vm begun) in
      elim (Bool-cases os.calloc) [
        | inl memory ↦ rw memory (
          λ e.
              neutral-Begun (λ p. n p + same_piece p primary_surface) shown
                (monitors_config primary.w primary.h ∷ []) (monitors-IsNeutral primary.w primary.h)
                all,
          λ e. absurd (omega (arith, e)),
        )
        | inr failed ↦ rw failed (λ e. absurd (omega (arith, e)), λ e. absurd (omega (arith, e)))
      ]

  add_tablet-Ends :
      (n : Piece → ℕ) (s : Spice)
      → n server ≡ 1
      → Begun n s
      → Ends
          (λ p. n p + same_piece p tablet + same_piece p primary_surface)
          (add_tablet_interface os primary s)
  unfolding add_tablet_interface
  add_tablet-Ends n s one begun = elim (Bool-cases os.add_tablet) [
    | inl added ↦ rw added (
        start_vm-Ends (λ p. n p + same_piece p tablet) (log s (created tablet ∷ []))
          (created-Begun n tablet s begun))
    | inr failed ↦ rw failed (destroy_server-Ends n _ s one begun)
  ]

  add_keyboard-Ends :
      (n : Piece → ℕ) (s : Spice)
      → n server ≡ 1
      → Begun n s
      → Ends
          (λ p. n p + same_piece p keyboard + same_piece p tablet + same_piece p primary_surface)
          (add_keyboard_interface os primary s)
  unfolding add_keyboard_interface
  add_keyboard-Ends n s one begun = elim (Bool-cases os.add_keyboard) [
    | inl added ↦ rw added (
        add_tablet-Ends (λ p. n p + same_piece p keyboard) (log s (created keyboard ∷ []))
          (omega (arith, one)) (created-Begun n keyboard s begun))
    | inr failed ↦ rw failed (destroy_server-Ends n _ s one begun)
  ]

  add_display-Ends :
      (n : Piece → ℕ) (s : Spice)
      → n server ≡ 1
      → Begun n s
      → Ends
          (λ p.
            n p
            + same_piece p display
            + same_piece p keyboard
            + same_piece p tablet
            + same_piece p primary_surface)
          (add_display_interface os primary s)
  unfolding add_display_interface
  add_display-Ends n s one begun = elim (Bool-cases os.add_display) [
    | inl added ↦ rw added (
        add_keyboard-Ends (λ p. n p + same_piece p display) (log s (created display ∷ []))
          (omega (arith, one)) (created-Begun n display s begun))
    | inr failed ↦ rw failed (destroy_server-Ends n _ s one begun)
  ]

abbrev all_pieces : Piece → ℕ
all_pieces p =
    same_piece p server
    + same_piece p display
    + same_piece p keyboard
    + same_piece p tablet
    + same_piece p primary_surface

all_pieces-one : (p : Piece) → all_pieces p ≡ 1
all_pieces-one server = refl
all_pieces-one display = refl
all_pieces-one keyboard = refl
all_pieces-one tablet = refl
all_pieces-one primary_surface = refl

module _ (os : StartAnswers) (primary : ShmImage) where
  init_server-Ends :
      (l : Listening) (s : Spice)
      → IsListening l
      → Begun (λ p. same_piece p server) s
      → Ends all_pieces (init_server os primary l s)
  unfolding init_server
  init_server-Ends l s (no_init, neutral) begun =
      let all = neutral-Begun (λ p. same_piece p server) s l.calls neutral begun in
      elim (Bool-cases (l.rc == 0)) [
        | inr failed ↦ rw failed (λ e. absurd (ground (arith, e)), λ e. absurd (no_init e))
        | inl ok ↦ elim (Bool-cases os.server_init) [
          | inl init ↦
              rw (ok, init)
                (add_display-Ends os primary (λ p. same_piece p server) (log s l.calls) refl all)
          | inr failed ↦
              rw (ok, failed)
                (destroy_server-Ends (λ p. same_piece p server) all_pieces (log s l.calls) refl all)
        ]
      ]

nonzero : (n : ℕ) → n ≢ 0 → (n == 0) ≡ false
nonzero n ne = ground (arith, ne)

spice_end-balanced :
    (s : Spice) (p : Piece)
    → Begun all_pieces s
    → creations p (spice_end s).calls ≡ destructions p (spice_end s).calls
unfolding spice_end spice_destroy_primary creations destructions
spice_end-balanced s p begun =
    let inputs = destroyed tablet ∷ destroyed keyboard ∷ [] in
    let surface = destroyed primary_surface ∷ [] in
    let rest = destroyed display ∷ destroyed server ∷ [] in
    omega (
      arith,
      begun p,
      creations-append p s.calls inputs,
      creations-append p (s.calls ++ inputs) surface,
      creations-append p ((s.calls ++ inputs) ++ surface) rest,
      destructions-append p s.calls inputs,
      destructions-append p (s.calls ++ inputs) surface,
      destructions-append p ((s.calls ++ inputs) ++ surface) rest,
    )

module _ (os : StartAnswers) (resolve : Option Text → ℤ → Option (List Address)) (o : Options)
    (listen : Text) (primary : ShmImage) where
  server_first : Spice
  server_first = record { width = 0; height = 0; calls = created server ∷ set_options o }

  server_first-Begun : Begun (λ p. same_piece p server) server_first
  unfolding server_first creations destructions
  server_first-Begun p = let quiet = set_options-IsNeutral o p in omega (arith, quiet.0, quiet.1)

  spice_start-Ends : Ends all_pieces (spice_start os resolve o listen primary)
  unfolding spice_start server_first creations destructions
  spice_start-Ends = elim (Bool-cases os.server_new) [
    | inl new ↦ rw new (
        init_server-Ends os primary (try_listen resolve o.ssl listen) server_first
          (try_listen-IsListening resolve o.ssl listen) server_first-Begun)
    | inr failed ↦ rw failed (λ e. absurd (omega (arith, e)), λ e. refl)
  ]

  -- After a start that succeeds, `spice_end` has destroyed each piece of the server as often as it
  -- was created.
  pub spice_end-destroys_all :
      (p : Piece)
      → (spice_start os resolve o listen primary).0 ≡ 0
      → let last = spice_end (spice_start os resolve o listen primary).1 in
        creations p last.calls ≡ destructions p last.calls
  spice_end-destroys_all p ok =
      spice_end-balanced (spice_start os resolve o listen primary).1 p (spice_start-Ends.0 ok)

  -- Where the start of the server itself fails, no server is left.
  pub spice_start-failed :
      (spice_start os resolve o listen primary).0 ≡ err_spice_init_failed
      → let s = (spice_start os resolve o listen primary).1 in
        creations server s.calls ≡ destructions server s.calls
  spice_start-failed e = omega (arith, spice_start-Ends.1 e)

  -- Where no port can be listened on, the server that was made is left.
  pub spice_start-leaves_server :
      os.server_new ≡ true
      → (try_listen resolve o.ssl listen).rc ≢ 0
      → let s = (spice_start os resolve o listen primary).1 in
        creations server s.calls ≡ destructions server s.calls + 1
  unfolding spice_start init_server server_first
  spice_start-leaves_server new failed =
      let test : ((try_listen resolve o.ssl listen).rc == 0) ≡ false =
        nonzero (try_listen resolve o.ssl listen).rc failed in
      rw (new, test)
        (neutral-Begun (λ p. same_piece p server) server_first
          (try_listen resolve o.ssl listen).calls (try_listen-IsListening resolve o.ssl listen).1
          server_first-Begun server)
