-- ===== src/Spice/Server/Laws.antt =====
-- src/spice.c: the pieces of the server that calls create and destroy.
use x11spice.Prelude.{
  ℕ, ◌+◌, ◌≡◌, refl, Bool, true, false, Option, none, some, List, [], ◌∷◌, ◌++◌, arith,
}
use x11spice.Prelude.Int.{pos, ltb_ℤ}
use x11spice.Options.{Text, Options}
use x11spice.Spice.Server.{
  Piece, server, display, keyboard, tablet, primary_surface, ServerCall, created, destroyed,
  set_noauth, vm_start, streaming_video_all, set_ticket, set_video_codecs, set_exit_on_disconnect,
  set_addr, set_tls, set_port, monitors_config, Spice, log, given, when, set_options,
}

abbrev pub same_piece : Piece → Piece → ℕ
same_piece server server = 1
same_piece display display = 1
same_piece keyboard keyboard = 1
same_piece tablet tablet = 1
same_piece primary_surface primary_surface = 1
same_piece p q = 0

-- How often a piece was created, and how often destroyed.
unfoldable pub creations : Piece → List ServerCall → ℕ
creations p [] = 0
creations p (created q ∷ out) = same_piece p q + creations p out
creations p (c ∷ out) = creations p out

unfoldable pub destructions : Piece → List ServerCall → ℕ
destructions p [] = 0
destructions p (destroyed q ∷ out) = same_piece p q + destructions p out
destructions p (c ∷ out) = destructions p out

pub creations-append :
    (p : Piece) (a b : List ServerCall) → creations p (a ++ b) ≡ creations p a + creations p b
unfolding creations
creations-append p [] b = omega arith
creations-append p (created q ∷ a) b = omega (arith, creations-append p a b)
creations-append p (destroyed q ∷ a) b = creations-append p a b
creations-append p (set_noauth ∷ a) b = creations-append p a b
creations-append p (vm_start ∷ a) b = creations-append p a b
creations-append p (streaming_video_all ∷ a) b = creations-append p a b
creations-append p (set_ticket t b' ∷ a) b = creations-append p a b
creations-append p (set_video_codecs t ∷ a) b = creations-append p a b
creations-append p (set_exit_on_disconnect b' ∷ a) b = creations-append p a b
creations-append p (set_addr t b' ∷ a) b = creations-append p a b
creations-append p (set_tls n ssl ∷ a) b = creations-append p a b
creations-append p (set_port n ∷ a) b = creations-append p a b
creations-append p (monitors_config w h ∷ a) b = creations-append p a b

pub destructions-append :
    (p : Piece) (a b : List ServerCall)
    → destructions p (a ++ b) ≡ destructions p a + destructions p b
unfolding destructions
destructions-append p [] b = omega arith
destructions-append p (destroyed q ∷ a) b = omega (arith, destructions-append p a b)
destructions-append p (created q ∷ a) b = destructions-append p a b
destructions-append p (set_noauth ∷ a) b = destructions-append p a b
destructions-append p (vm_start ∷ a) b = destructions-append p a b
destructions-append p (streaming_video_all ∷ a) b = destructions-append p a b
destructions-append p (set_ticket t b' ∷ a) b = destructions-append p a b
destructions-append p (set_video_codecs t ∷ a) b = destructions-append p a b
destructions-append p (set_exit_on_disconnect b' ∷ a) b = destructions-append p a b
destructions-append p (set_addr t b' ∷ a) b = destructions-append p a b
destructions-append p (set_tls n ssl ∷ a) b = destructions-append p a b
destructions-append p (set_port n ∷ a) b = destructions-append p a b
destructions-append p (monitors_config w h ∷ a) b = destructions-append p a b

-- What was created and not destroyed, as a difference that each step keeps: `extra` pieces more.
abbrev pub Stands : Piece → ℕ → Spice → Type 0
Stands p extra s = creations p s.calls ≡ destructions p s.calls + extra

-- Calls that create and destroy nothing.
abbrev pub IsNeutral : List ServerCall → Type 0
IsNeutral out = (p : Piece) → (creations p out ≡ 0) × (destructions p out ≡ 0)

pub IsNeutral-append : (a b : List ServerCall) → IsNeutral a → IsNeutral b → IsNeutral (a ++ b)
IsNeutral-append a b first second p =
    let x = first p in
    let y = second p in
    (
      omega (arith, creations-append p a b, x.0, y.0),
      omega (arith, destructions-append p a b, x.1, y.1),
    )

pub log-Stands :
    (p : Piece) (extra more : ℕ) (s : Spice) (out : List ServerCall)
    → creations p out ≡ destructions p out + more
    → Stands p extra s
    → Stands p (extra + more) (log s out)
log-Stands p extra more s out e stands =
    omega (arith, e, stands, creations-append p s.calls out, destructions-append p s.calls out)

pub when-IsNeutral : (b : Bool) (c : ServerCall) → IsNeutral (c ∷ []) → IsNeutral (when b c)
unfolding creations destructions
when-IsNeutral true c neutral p = neutral p
when-IsNeutral false c neutral p = (refl, refl)

pub given-IsNeutral :
    (t : Option Text) (call : Text → ServerCall)
    → ((text : Text) → IsNeutral (call text ∷ []))
    → IsNeutral (given t call)
unfolding creations destructions
given-IsNeutral none call neutral p = (refl, refl)
given-IsNeutral (some text) call neutral p = neutral text p

pub set_options-IsNeutral : (o : Options) → IsNeutral (set_options o)
unfolding set_options creations destructions
set_options-IsNeutral o =
    IsNeutral-append (when o.disable_ticketing set_noauth) _
      (when-IsNeutral o.disable_ticketing set_noauth (λ p. (refl, refl)))
      (IsNeutral-append (given o.spice_password (λ t. set_ticket (some t) false)) _
        (given-IsNeutral o.spice_password (λ t. set_ticket (some t) false) (λ t p. (refl, refl)))
        (IsNeutral-append (given o.codecs set_video_codecs) _
          (given-IsNeutral o.codecs set_video_codecs (λ t p. (refl, refl)))
          (IsNeutral-append (when (ltb_ℤ (pos 0) o.full_screen_fps) streaming_video_all) _
            (when-IsNeutral (ltb_ℤ (pos 0) o.full_screen_fps) streaming_video_all
              (λ p. (refl, refl)))
            (λ p. (refl, refl)))))
