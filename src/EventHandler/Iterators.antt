-- ===== src/EventHandler/Iterators.antt =====
-- No iterator of `sockets_event_` is left dangling, whatever is called, in whatever order.
use codec_single_thread.EventHandler.{
  EventHandler, Event, add_socket, remove_socket, add_event, delete_event,
}
use codec_single_thread.Base.{
  ℕ, ◌≡◌, refl, List, ◌∷◌, Bool, Option, none, some, arith, lookup, insert, erase, Rising,
  lookup-insert, lookup-erase, lookup-insert_sorted, insert_sorted-Rising, erase-Rising,
  Rising-weaken, Option-cases, inl, inr, ◌==◌, if◌then◌else◌, ap, ◌>>=◌, suc, inl, inr,
  if◌then◌else◌, ◌==◌, [],
}

module _ {Cb : Type 0} where
  -- When the event of a socket is due.
  unfoldable pub due : List (ℕ × Event Cb) → ℕ → Option ℕ
  due sockets fd = lookup fd sockets >>= λ e. e.it

  pub due-insert :
      (fd k : ℕ) (e : Event Cb) (m : List (ℕ × Event Cb))
      → due (insert k e m) fd ≡ (if fd == k then e.it else due m fd)
  unfolding due
  due-insert fd k e m = rw (lookup-insert fd k e m) (ground arith)

  pub due-erase :
      (fd k : ℕ) (m : List (ℕ × Event Cb))
      → due (erase k m) fd ≡ (if fd == k then none else due m fd)
  unfolding due
  due-erase fd k m = rw (lookup-erase fd k m) (ground arith)

  -- The table is in order, and holds the entry of each socket that has an event.
  pub record IsSafe (h : EventHandler Cb) : Type 0 where
    pub rising : Rising 0 h.event_table
    pub valid : (fd t : ℕ) → due h.sockets_event fd ≡ some t → lookup t h.event_table ≡ some fd

  -- A handler without events.
  pub empty-IsSafe : (h : EventHandler Cb) → h.event_table ≡ [] → h.sockets_event ≡ [] → IsSafe h
  unfolding due lookup
  empty-IsSafe h e e' = record {
    rising = rw e tt;
    valid = λ fd t d. ground (arith, d, ap (λ m. due m fd) e');
  }

  add_socket-valid :
      (h : EventHandler Cb) (fd : ℕ) (cb : Cb) (ctl_fails : Bool)
      → IsSafe h
      → (k t : ℕ) → due (add_socket h fd cb ctl_fails).1.sockets_event k ≡ some t
      → lookup t (add_socket h fd cb ctl_fails).1.event_table ≡ some k
  unfolding add_socket
  add_socket-valid h fd cb ctl_fails v k t d =
      ground (arith, due-insert k fd (record { it = none; cb = none }) h.sockets_event, v.valid k t)

  pub add_socket-IsSafe :
      (h : EventHandler Cb) (fd : ℕ) (cb : Cb) (ctl_fails : Bool)
      → IsSafe h
      → IsSafe (add_socket h fd cb ctl_fails).1
  unfolding add_socket
  add_socket-IsSafe h fd cb ctl_fails v = record {
    rising = ground (arith, v.rising);
    valid = add_socket-valid h fd cb ctl_fails v;
  }

  remove_socket-valid :
      (h : EventHandler Cb) (fd : ℕ) (ctl_fails : Bool)
      → IsSafe h
      → (k t : ℕ) → due (remove_socket h fd ctl_fails).1.sockets_event k ≡ some t
      → lookup t (remove_socket h fd ctl_fails).1.event_table ≡ some k
  unfolding remove_socket
  remove_socket-valid h fd ctl_fails v k t d =
      ground (arith, due-erase k fd h.sockets_event, v.valid k t)

  pub remove_socket-IsSafe :
      (h : EventHandler Cb) (fd : ℕ) (ctl_fails : Bool)
      → IsSafe h
      → IsSafe (remove_socket h fd ctl_fails).1
  unfolding remove_socket
  remove_socket-IsSafe h fd ctl_fails v = record {
    rising = ground (arith, v.rising);
    valid = remove_socket-valid h fd ctl_fails v;
  }

  add_event-valid :
      (h : EventHandler Cb) (fd next : ℕ) (cb : Cb)
      → IsSafe h
      → (k t : ℕ) → due (add_event h fd next cb).sockets_event k ≡ some t
      → lookup t (add_event h fd next cb).event_table ≡ some k
  unfolding add_event
  add_event-valid h fd next cb v k t d = ground (
    arith,
    due-insert k fd (record { it = some next; cb = some cb }) h.sockets_event,
    lookup-insert_sorted t next fd h.event_table,
    v.valid k t,
  )

  pub add_event-IsSafe :
      (h : EventHandler Cb) (fd next : ℕ) (cb : Cb) → IsSafe h → IsSafe (add_event h fd next cb)
  unfolding add_event
  add_event-IsSafe h fd next cb v = record {
    rising = ground (arith, v.rising, insert_sorted-Rising 0 next fd h.event_table);
    valid = add_event-valid h fd next cb v;
  }

  -- `DeleteEvent` ends the event of the socket, and takes its entry out of the table.
  pub due-delete_event :
      (h : EventHandler Cb) (fd k : ℕ)
      → due (delete_event h fd).sockets_event k ≡ (if k == fd then none else due h.sockets_event k)
  unfolding delete_event due
  due-delete_event h fd k = elim (Option-cases (lookup fd h.sockets_event)) [
    | inl e ↦ ground (arith, e)
    | inr (event, e) ↦
        ground (arith, e, lookup-insert k fd (record event { it = none }) h.sockets_event)
  ]

  pub lookup-delete_event :
      (h : EventHandler Cb) (fd j : ℕ)
      → lookup j (delete_event h fd).event_table ≡ (elim (due h.sockets_event fd) [
        | none ↦ lookup j h.event_table
        | some t ↦ if j == t then none else lookup j h.event_table
      ])
  unfolding delete_event due
  lookup-delete_event h fd j = elim (Option-cases (lookup fd h.sockets_event)) [
    | inl e ↦ ground (arith, e)
    | inr (event, e) ↦ elim (Option-cases event.it) [
      | inl n ↦ ground (arith, e, n)
      | inr (t, n) ↦ ground (arith, e, n, lookup-erase j t h.event_table)
    ]
  ]

  delete_event-valid :
      (h : EventHandler Cb) (fd : ℕ)
      → IsSafe h
      → (k t : ℕ) → due (delete_event h fd).sockets_event k ≡ some t
      → lookup t (delete_event h fd).event_table ≡ some k
  delete_event-valid h fd v k t d =
      ground (arith, due-delete_event h fd k, lookup-delete_event h fd t, v.valid k t, v.valid fd t)

  pub delete_event-IsSafe : (h : EventHandler Cb) (fd : ℕ) → IsSafe h → IsSafe (delete_event h fd)
  unfolding delete_event
  delete_event-IsSafe h fd v = record {
    rising = grind (arith, v.rising, erase-Rising);
    valid = delete_event-valid h fd v;
  }

  -- The handler that `fire` passes to the callback, or leaves: without the first entry, and the
  -- event of its socket ended.
  abbrev pub fired : EventHandler Cb → ℕ → Event Cb → List (ℕ × ℕ) → EventHandler Cb
  fired h fd event table = record h {
    event_table = table;
    sockets_event = insert fd (record event { it = none }) h.sockets_event;
  }

  fired-valid :
      (h : EventHandler Cb) (first fd : ℕ) (event : Event Cb) (table : List (ℕ × ℕ))
      → IsSafe h
      → h.event_table ≡ (first, fd) ∷ table
      → (k t : ℕ) → due (fired h fd event table).sockets_event k ≡ some t
      → lookup t table ≡ some k
  unfolding lookup
  fired-valid h first fd event table v e k t d = ground (
    arith,
    due-insert k fd (record event { it = none }) h.sockets_event,
    v.valid k t,
    ap (lookup t) e,
  )

  pub fired-IsSafe :
      (h : EventHandler Cb) (first fd : ℕ) (event : Event Cb) (table : List (ℕ × ℕ))
      → IsSafe h
      → h.event_table ≡ (first, fd) ∷ table
      → IsSafe (fired h fd event table)
  fired-IsSafe h first fd event table v e = record {
    rising = Rising-weaken (suc first) 0 table (omega arith) (rw e at v.rising).1;
    valid = fired-valid h first fd event table v e;
  }

  orphan-valid :
      (h : EventHandler Cb) (first fd : ℕ) (table : List (ℕ × ℕ))
      → IsSafe h
      → h.event_table ≡ (first, fd) ∷ table
      → due h.sockets_event fd ≡ none
      → (k t : ℕ) → due h.sockets_event k ≡ some t
      → lookup t table ≡ some k
  unfolding lookup
  orphan-valid h first fd table v e n k t d = ground (arith, v.valid k t, ap (lookup t) e)

  -- An entry whose socket is not known is only taken out.
  pub orphan-IsSafe :
      (h : EventHandler Cb) (first fd : ℕ) (table : List (ℕ × ℕ))
      → IsSafe h
      → h.event_table ≡ (first, fd) ∷ table
      → lookup fd h.sockets_event ≡ none
      → IsSafe (record h { event_table = table })
  unfolding due
  orphan-IsSafe h first fd table v e n = record {
    rising = Rising-weaken (suc first) 0 table (omega arith) (rw e at v.rising).1;
    valid = orphan-valid h first fd table v e (rw n refl);
  }
