-- ===== src/Session/Cursors/Order.antt =====
-- src/session.c: the worker gets the cursors in the order in which they were pushed.
use x11spice.Prelude.{
  ◌≡◌, refl, sym, ap, ◌∙◌, true, some, List, [], ◌∷◌, ◌++◌, append_assoc, append-nil, length, map,
}
use x11spice.Session.Cursors.{
  CursorCommand, Cursors, CursorImage, command_of, session_push_cursor_image, session_pop_cursor,
  get_cursor_command, push_images, ask,
}

-- A running session with this queue.
abbrev queued : List CursorCommand → Cursors
queued q = record { running = true; cursor_queue = q }

push_images-queued :
    (is : List CursorImage) (q : List CursorCommand)
    → push_images is (queued q) ≡ queued (q ++ map command_of is)
unfolding push_images session_push_cursor_image
push_images-queued [] q = ap queued (sym (append-nil q))
push_images-queued (i ∷ is) q =
    push_images-queued is (q ++ command_of i ∷ [])
    ∙ ap queued (append_assoc q (command_of i ∷ []) (map command_of is))

ask-queued : (q : List CursorCommand) → ask (length q) (queued q) ≡ map some q
unfolding ask get_cursor_command session_pop_cursor
ask-queued [] = refl
ask-queued (x ∷ xs) = ap (λ rest. some x ∷ rest) (ask-queued xs)

-- The images pushed to an empty queue of a running session come out in their order, unchanged.
ask-push_images :
    (is : List CursorImage)
    → ask (length (map command_of is)) (push_images is (queued [])) ≡ map some (map command_of is)
ask-push_images is =
    ap (ask (length (map command_of is))) (push_images-queued is [])
    ∙ ask-queued (map command_of is)
