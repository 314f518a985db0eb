-- ===== src/Session/Resize/Laws.antt =====
-- src/session.c: a resize is settled at once, or tried again at the next event.
use x11spice.Prelude.{
  ℕ, ◌≡◌, ◌≢◌, refl, ap, ◌∙◌, Bool, true, false, ◌&&◌, ◌==◌, ◌⊎◌, inl, inr, arith, List, [], ◌∷◌,
  ◌++◌, append_assoc, if◌then◌else◌,
}
use x11spice.Display.Image.{Display}
use x11spice.Display.Screens.{
  err_noshm, display_create_screen_images, display_destroy_screen_images,
}
use x11spice.Display.Screens.Laws.{
  AllImages, NoImages, display_destroy_screen_images-NoImages,
  display_create_screen_images-all_or_none,
}
use x11spice.Spice.Server.{
  Spice, ServerCall, created, destroyed, primary_surface, monitors_config, err_malloc,
  send_monitors_config, spice_create_primary, spice_destroy_primary,
}
use x11spice.Session.Resize.{
  Screen, ResizeAnswers, show_primary, session_recreate_primary, session_handle_resize,
}
use x11spice.Session.Resize.Sizes.{PrimaryFits, created-Fits}

-- The server shows the display at its size.
abbrev pub IsSettled : Screen → Type 0
IsSettled s = (s.spice.width ≡ s.display.width) × (s.spice.height ≡ s.display.height)

spice_create_primary-size :
    (calloc : Bool) (w h : ℕ) (s : Spice)
    → ((spice_create_primary calloc w h s).1.width ≡ w)
      × ((spice_create_primary calloc w h s).1.height ≡ h)
unfolding spice_create_primary send_monitors_config
spice_create_primary-size true w h s = (refl, refl)
spice_create_primary-size false w h s = (refl, refl)

abbrev shown : ℕ → ℕ → List ServerCall → Spice
shown w h calls = record { width = w; height = h; calls = calls }

-- A surface has been replaced by one of this size, and the size is recorded and shown.
abbrev pub resized : Bool → ℕ → ℕ → Spice → Spice
resized calloc w h before = shown w h (
    before.calls
    ++ (destroyed primary_surface
        ∷ created primary_surface
        ∷ (if calloc then monitors_config w h ∷ [] else [])))

abbrev pub surface_rc : Bool → ℕ
surface_rc calloc = if calloc then 0 else err_malloc

-- The two ways in which the images and the surface can end. All images are there, the old surface
-- has been destroyed and one at the display's size created and shown, as far as there is memory for
-- the configuration of the monitors. Or there is no image: the old surface has been destroyed and
-- none is in its place, though the recorded size is still its size.
abbrev pub Outcome : Bool → Spice → ℕ × Screen → Type 0
Outcome calloc before (rc, t) =
    ((rc ≡ surface_rc calloc)
      × AllImages t.display
      × (t.spice ≡ resized calloc t.display.width t.display.height before))
    ⊎ ((rc ≡ err_noshm)
        × NoImages t.display
        × (t.spice ≡ record before { calls = before.calls ++ destroyed primary_surface ∷ [] }))

spice_create_primary-replaces :
    (calloc : Bool) (w h : ℕ) (s : Spice)
    → ((spice_create_primary calloc w h (spice_destroy_primary s)).0 ≡ surface_rc calloc)
      × ((spice_create_primary calloc w h (spice_destroy_primary s)).1 ≡ resized calloc w h s)
unfolding spice_create_primary spice_destroy_primary send_monitors_config
spice_create_primary-replaces true w h s = (
  refl,
  ap (shown w h) (
      ap (λ out. out ++ monitors_config w h ∷ [])
        (append_assoc s.calls (destroyed primary_surface ∷ []) (created primary_surface ∷ []))
      ∙ append_assoc s.calls (destroyed primary_surface ∷ created primary_surface ∷ [])
          (monitors_config w h ∷ [])),
)
spice_create_primary-replaces false w h s = (
  refl,
  ap (shown w h)
      (append_assoc s.calls (destroyed primary_surface ∷ []) (created primary_surface ∷ [])),
)

show_primary-Outcome :
    (calloc : Bool) (rc : ℕ) (d : Display) (s : Spice)
    → ((rc ≡ 0) × (AllImages d × PrimaryFits d)) ⊎ ((rc ≡ err_noshm) × NoImages d)
    → Outcome calloc s (show_primary calloc (rc, d) (spice_destroy_primary s))
unfolding show_primary
show_primary-Outcome calloc rc d s (inl (ok, (all, (i, e, w, h)))) =
    let (rc', now) = spice_create_primary-replaces calloc i.w i.h s in
    let test : (rc == 0) ≡ true = ground (arith, ok) in
    inl (rw test (rw e rc', all, rw e (now ∙ rw (w, h) refl)))
show_primary-Outcome calloc rc d s (inr (failed, nothing)) =
    let test : (rc == 0) ≡ false = ground (arith, failed) in
    inr (rw test (failed, nothing, unfold spice_destroy_primary in refl))

-- Recreating the primary surface ends in one of these ways.
pub session_recreate_primary-Outcome :
    (os : ResizeAnswers) (s : Screen) → Outcome os.calloc s.spice (session_recreate_primary os s)
unfolding session_recreate_primary
session_recreate_primary-Outcome os s =
    let bare = display_destroy_screen_images s.display in
    let made = display_create_screen_images os.primary os.fullscreen os.scanline bare in
    show_primary-Outcome os.calloc made.0 made.1 s.spice
      (elim (display_create_screen_images-all_or_none os.primary os.fullscreen os.scanline bare
        (display_destroy_screen_images-NoImages s.display)) [
          | inl (ok, all) ↦
              inl (ok, (all, (created-Fits os.primary os.fullscreen os.scanline bare ok).1))
          | inr (failed, nothing) ↦ inr (failed, nothing)
        ])

settled-resize : (os : ResizeAnswers) (s : Screen) → IsSettled s → session_handle_resize os s ≡ s
unfolding session_handle_resize
settled-resize os s (w, h) =
    let test : ((s.display.width == s.spice.width) && (s.display.height == s.spice.height)) ≡ true =
      ground (arith, w, h) in
    ap (λ b. if b then s else (session_recreate_primary os s).1) test

both_equal : (a b c d : ℕ) → ((a == b) && (c == d)) ≡ true → (b ≡ a) × (d ≡ c)
both_equal a b c d e = (ground arith, ground arith)

-- Once a resize has its images, further ones change nothing until the display's size changes.
pub session_handle_resize-settles :
    (os os' : ResizeAnswers) (s : Screen)
    → (session_recreate_primary os s).0 ≢ err_noshm
    → session_handle_resize os' (session_handle_resize os s) ≡ session_handle_resize os s
session_handle_resize-settles os os' s made = settled-resize os' (session_handle_resize os s) first
  where
    either :
        (b : Bool) (t t' : Screen)
        → (b ≡ true → IsSettled t)
        → IsSettled t'
        → IsSettled (if b then t else t')
    either true t t' left right = left refl
    either false t t' left right = right

    first : IsSettled (session_handle_resize os s)
    first =
        unfold session_handle_resize in
        (either ((s.display.width == s.spice.width) && (s.display.height == s.spice.height)) s
          (session_recreate_primary os s).1
          (both_equal s.display.width s.spice.width s.display.height s.spice.height)
          (elim (session_recreate_primary-Outcome os s) [
            | inl (_, _, now) ↦ (ap (λ p. p.width) now, ap (λ p. p.height) now)
            | inr (failed, _, _) ↦ absurd (made failed)
          ]))
