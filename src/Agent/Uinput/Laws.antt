-- ===== src/Agent/Uinput/Laws.antt =====
-- src/agent.c: how `read` cuts the bytes of the fifo does not change what is done with them.
use x11spice.Prelude.{
  ℕ, zero, suc, ◌+◌, ◌≤◌, ◌<◌, ◌≡◌, refl, ap, ◌∙◌, true, false, Option, none, some, List, [], ◌∷◌,
  ◌++◌, arith, leb, ◌==◌, if◌then◌else◌, length, take, drop, append-nil, append_assoc,
  length-append, dec_lt,
}
use x11spice.Prelude.Int.{pos}
use x11spice.Agent.{closed, unwatch, stop_uinput}
use x11spice.Agent.Balance.{one, closes, closes-append, closes-unwatch}
use x11spice.Agent.Uinput.{
  LinuxInput, InputEvent, uinput_handle_key, uinput_handle_relative, uinput_handle_absolute, Uinput,
  handle_event, handle_events, uinput_read_cb, read_all,
}

-- What the bytes mean, one after the other: the byte that completes an event has it handled.
abbrev pub complete : LinuxInput → Uinput → Uinput
complete L u =
    if length u.uinput_buffer == L.size
    then handle_event L (record u { uinput_buffer = [] }) (L.event u.uinput_buffer)
    else u

unfoldable pub feed : LinuxInput → List ℕ → Uinput → Uinput
feed L [] u = u
feed L (byte ∷ bytes) u =
    feed L bytes (complete L (record u { uinput_buffer = u.uinput_buffer ++ byte ∷ [] }))

-- The bytes that were read.
abbrev pub bytes_of : List (Option (List ℕ)) → List ℕ
bytes_of [] = []
bytes_of (none ∷ answers) = bytes_of answers
bytes_of (some bytes ∷ answers) = bytes ++ bytes_of answers

-- No answer is longer than the room there is, nor the end of the file.
abbrev pub Fitting : LinuxInput → List (Option (List ℕ)) → Uinput → Type 0
Fitting L [] u = Unit
Fitting L (none ∷ answers) u = Fitting L answers u
Fitting L (some bytes ∷ answers) u =
    (0 < length bytes)
    × (length u.uinput_buffer + length bytes ≤ L.size)
    × Fitting L answers (uinput_read_cb L (some bytes) u)

module _ (L : LinuxInput) where
  handle_event-keeps_buffer :
      (u : Uinput) (ev : InputEvent) → (handle_event L u ev).uinput_buffer ≡ u.uinput_buffer
  unfolding handle_event uinput_handle_key uinput_handle_relative uinput_handle_absolute
  handle_event-keeps_buffer u ev = ground arith

  drop_all : (bytes : List ℕ) (n : ℕ) → length bytes ≡ n → drop n bytes ≡ []
  drop_all [] zero e = refl
  drop_all [] (suc n) e = refl
  drop_all (b ∷ bytes) zero e = absurd (omega arith)
  drop_all (b ∷ bytes) (suc n) e = drop_all bytes n (omega arith)

  take_all : (bytes : List ℕ) (n : ℕ) → length bytes ≡ n → take n bytes ≡ bytes
  take_all [] zero e = refl
  take_all [] (suc n) e = refl
  take_all (b ∷ bytes) zero e = absurd (omega arith)
  take_all (b ∷ bytes) (suc n) e = ap (λ rest. b ∷ rest) (take_all bytes n (omega arith))

  handle_events-short :
      (rounds : ℕ) (u : Uinput) → length u.uinput_buffer < L.size → handle_events L rounds u ≡ u
  unfolding handle_events
  handle_events-short zero u lt = refl
  handle_events-short (suc rounds) u lt =
      let test : leb L.size (length u.uinput_buffer) ≡ false = ground arith in rw test refl

  handled : Uinput → List ℕ → Uinput
  handled u bytes = handle_event L (record u { uinput_buffer = [] }) (L.event bytes)

  length-handled : (u : Uinput) (bytes : List ℕ) → length (handled u bytes).uinput_buffer ≡ 0
  unfolding handled
  length-handled u bytes =
      ap length (handle_event-keeps_buffer (record u { uinput_buffer = [] }) (L.event bytes))

  handle_events-full :
      (rounds : ℕ) (u : Uinput)
      → 0 < rounds
      → 0 < L.size
      → length u.uinput_buffer ≡ L.size
      → handle_events L rounds u ≡ handled u u.uinput_buffer
  unfolding handle_events handled
  handle_events-full zero u more size e = absurd (omega arith)
  handle_events-full (suc rounds) u more size e =
      let test : leb L.size (length u.uinput_buffer) ≡ true = ground arith in
      rw (test, drop_all u.uinput_buffer L.size e, take_all u.uinput_buffer L.size e)
        (handle_events-short rounds (handled u u.uinput_buffer)
          (omega (arith, length-handled u u.uinput_buffer)))

  feed-short :
      (bytes : List ℕ) (u : Uinput)
      → length u.uinput_buffer + length bytes < L.size
      → feed L bytes u ≡ record u { uinput_buffer = u.uinput_buffer ++ bytes }
  unfolding feed
  feed-short [] u lt = rw (append-nil u.uinput_buffer) refl
  feed-short (b ∷ bytes) u lt =
      let longer = length-append u.uinput_buffer (b ∷ []) in
      let test : (length (u.uinput_buffer ++ b ∷ []) == L.size) ≡ false = ground (arith, longer) in
      rw test (
        feed-short bytes (record u { uinput_buffer = u.uinput_buffer ++ b ∷ [] })
          (omega (arith, longer))
        ∙ ap (λ buffer. record u { uinput_buffer = buffer })
            (append_assoc u.uinput_buffer (b ∷ []) bytes))

  feed-full :
      (bytes : List ℕ) (u : Uinput)
      → 0 < length bytes
      → length u.uinput_buffer + length bytes ≡ L.size
      → feed L bytes u ≡ handled u (u.uinput_buffer ++ bytes)
  unfolding feed handled
  feed-full [] u more e = absurd (omega arith)
  feed-full (b ∷ []) u more e =
      let longer = length-append u.uinput_buffer (b ∷ []) in
      let test : (length (u.uinput_buffer ++ b ∷ []) == L.size) ≡ true = ground (arith, longer) in
      rw test refl
  feed-full (b ∷ c ∷ bytes) u more e =
      let longer = length-append u.uinput_buffer (b ∷ []) in
      let test : (length (u.uinput_buffer ++ b ∷ []) == L.size) ≡ false = ground (arith, longer) in
      rw test (
        feed-full (c ∷ bytes) (record u { uinput_buffer = u.uinput_buffer ++ b ∷ [] }) (omega arith)
          (omega (arith, longer))
        ∙ ap (handled u) (append_assoc u.uinput_buffer (b ∷ []) (c ∷ bytes)))

  -- One answer of `read` that fits: what the bytes mean, and room for the next answer.
  uinput_read_cb-feed :
      (bytes : List ℕ) (u : Uinput)
      → 0 < length bytes
      → length u.uinput_buffer < L.size
      → length u.uinput_buffer + length bytes ≤ L.size
      → (uinput_read_cb L (some bytes) u ≡ feed L bytes u)
        × (length (feed L bytes u).uinput_buffer < L.size)
  unfolding uinput_read_cb handled
  uinput_read_cb-feed [] u more room fits = absurd (omega arith)
  uinput_read_cb-feed (b ∷ bytes) u more room fits =
      let filled : Uinput = record u { uinput_buffer = u.uinput_buffer ++ b ∷ bytes } in
      let longer = length-append u.uinput_buffer (b ∷ bytes) in
      elim (dec_lt (length u.uinput_buffer + length (b ∷ bytes)) L.size) [
        | yes short ↦ rw (feed-short (b ∷ bytes) u short) (
          handle_events-short (length filled.uinput_buffer) filled (omega (arith, longer)),
          omega (arith, longer),
        )
        | no full ↦ rw (feed-full (b ∷ bytes) u more (omega arith)) (
          handle_events-full (length filled.uinput_buffer) filled (omega (arith, longer))
              (omega arith) (omega (arith, longer)),
          omega (arith, length-handled u (u.uinput_buffer ++ b ∷ bytes)),
        )
      ]

  feed-append : (xs ys : List ℕ) (u : Uinput) → feed L (xs ++ ys) u ≡ feed L ys (feed L xs u)
  unfolding feed
  feed-append [] ys u = refl
  feed-append (x ∷ xs) ys u = feed-append xs ys _

  -- However `read` cuts the bytes of the fifo, the callback does what they mean byte by byte.
  pub read_all-feed :
      (answers : List (Option (List ℕ))) (u : Uinput)
      → length u.uinput_buffer < L.size
      → Fitting L answers u
      → read_all L answers u ≡ feed L (bytes_of answers) u
  unfolding read_all feed
  read_all-feed [] u room fits = refl
  read_all-feed (none ∷ answers) u room fits = read_all-feed answers u room fits
  read_all-feed (some bytes ∷ answers) u room fits =
      let (same, next) = uinput_read_cb-feed bytes u fits.0 room fits.1 in
      rw (same, feed-append bytes (bytes_of answers) u)
        (read_all-feed answers (feed L bytes u) next (rw same at fits.2))

-- At the end of the file the callback closes the fifo and leaves it in its field, so that stopping
-- it closes the descriptor once more.
pub stop_uinput-closes_twice :
    (L : LinuxInput) (u : Uinput) (fd : ℕ)
    → length u.uinput_buffer < L.size
    → u.agent.uinput_fd ≡ pos fd
    → closes (pos fd) (stop_uinput (uinput_read_cb L (some []) u).agent).calls
      ≡ closes (pos fd) u.agent.calls + 2
unfolding uinput_read_cb stop_uinput one
stop_uinput-closes_twice L u fd room e =
    rw (handle_events-short L (length u.uinput_buffer) u room, e)
      (let twice =
          closes-append (pos fd) (u.agent.calls ++ closed (pos fd) ∷ [])
            (unwatch u.agent.uinput_watch ++ closed (pos fd) ∷ []) in
        let once = closes-append (pos fd) u.agent.calls (closed (pos fd) ∷ []) in
        let last = closes-append (pos fd) (unwatch u.agent.uinput_watch) (closed (pos fd) ∷ []) in
        let silent = closes-unwatch (pos fd) u.agent.uinput_watch in
        ground (arith, twice, once, last, silent))
