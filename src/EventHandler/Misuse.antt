-- ===== src/EventHandler/Misuse.antt =====
-- Calls that leave entries of `event_table_` behind which no iterator points to.
use codec_single_thread.EventHandler.{
  EventHandler, add_event, remove_socket, delete_event, fire, go_on, round, handle_event, Ended,
  fatal,
}
use codec_single_thread.EventHandler.Iterators.{
  due, due-insert, due-delete_event, lookup-delete_event,
}
use codec_single_thread.EventHandler.Timers.{lookup-add_event}
use codec_single_thread.Base.{
  ℕ, ◌≡◌, ◌≢◌, ◌≤◌, List, ◌∷◌, none, some, arith, lookup, erase, lookup-erase, ap, false,
  lookup-insert, ◌∙◌,
}

module _ {Cb : Type 0} where
  due-add_event :
      (h : EventHandler Cb) (fd t : ℕ) (cb : Cb)
      → lookup t h.event_table ≡ none
      → lookup fd h.sockets_event ≢ none
      → due (add_event h fd t cb).sockets_event fd ≡ some t
  unfolding add_event
  due-add_event h fd t cb free known =
      ground (arith, due-insert fd fd (record { it = some t; cb = some cb }) h.sockets_event)

  known-add_event :
      (h : EventHandler Cb) (fd t : ℕ) (cb : Cb)
      → lookup fd h.sockets_event ≢ none
      → lookup fd (add_event h fd t cb).sockets_event ≢ none
  unfolding add_event
  known-add_event h fd t cb known =
      ground (arith, lookup-insert fd fd (record { it = some t; cb = some cb }) h.sockets_event)

  -- Two events that are added for a known socket at different free times, and `DeleteEvent` after
  -- them: the socket has no event then, but the entry of the first is still in the table.
  pub delete_event-add_event_twice :
      (h : EventHandler Cb) (fd t u : ℕ) (c d : Cb)
      → lookup t h.event_table ≡ none
      → lookup u h.event_table ≡ none
      → t ≢ u
      → lookup fd h.sockets_event ≢ none
      → let h' = delete_event (add_event (add_event h fd t c) fd u d) fd in
        (due h'.sockets_event fd ≡ none)
        × (lookup t h'.event_table ≡ some fd)
        × (lookup u h'.event_table ≡ none)
  delete_event-add_event_twice h fd t u c d free free' other known =
      let h1 = add_event h fd t c in
      let h2 = add_event h1 fd u d in
      let open_u = lookup-add_event h fd t u c free in
      let mine =
        due-add_event h1 fd u d (ground (arith, open_u)) (known-add_event h fd t c known) in
      let at_t = lookup-add_event h1 fd u t d (ground (arith, open_u)) in
      (
        ground (arith, due-delete_event h2 fd fd),
        ground (arith, lookup-delete_event h2 fd t, mine, at_t, lookup-add_event h fd t t c free),
        ground (arith, lookup-delete_event h2 fd u, mine),
      )

module _ {Cb W : Type 0} (call : Cb → EventHandler Cb × W → EventHandler Cb × W) where
  -- An entry of a socket that is not known.
  round-fatal :
      (loop : EventHandler Cb × W → Ended × EventHandler Cb × W) (now t fd : ℕ)
      (table : List (ℕ × ℕ)) (h : EventHandler Cb) (w : W)
      → t ≤ now
      → lookup fd h.sockets_event ≡ none
      → round call loop now ((t, fd) ∷ table) (h, w) ≡ (fatal, record h { event_table = table }, w)
  unfolding round fire go_on
  round-fatal loop now t fd table h w late gone = ground (arith, gone)

  -- `RemoveSocket` of the socket whose event is the first to come leaves its entry in the table. When
  -- it is due, `HandleEvent` returns early: it calls nothing, and leaves every later entry, those that
  -- are due too.
  pub handle_event-remove_socket :
      (h : EventHandler Cb) (w : W) (now t fd : ℕ) (nows : List ℕ) (table : List (ℕ × ℕ))
      → h.event_table ≡ (t, fd) ∷ table
      → t ≤ now
      → let h' = (remove_socket h fd false).1 in
        handle_event call (now ∷ nows) (h', w) ≡ (fatal, record h' { event_table = table }, w)
  unfolding handle_event remove_socket
  handle_event-remove_socket h w now t fd nows table e late =
      ap
        (λ m. round call (handle_event call nows) now m (
          record h { socket_fds = erase fd h.socket_fds; sockets_event = erase fd h.sockets_event },
          w,
        ))
        e
      ∙ round-fatal (handle_event call nows) now t fd table _ w late
          (ground (arith, lookup-erase fd fd h.sockets_event))
