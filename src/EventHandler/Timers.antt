-- ===== src/EventHandler/Timers.antt =====
-- The handler as a timer for each socket: what the table and the sockets' events stand for.
pub mod Simulation
pub mod Expiry
use native.Mathlib.Decide.{ℕ_discrete}
use codec_single_thread.EventHandler.{EventHandler, Event, add_event, delete_event}
use codec_single_thread.EventHandler.Iterators.{
  IsSafe, due, fired, lookup-delete_event, add_event-IsSafe, delete_event-IsSafe, fired-IsSafe,
  empty-IsSafe,
}
use codec_single_thread.Base.{
  ℕ, ◌≡◌, ◌≢◌, List, [], ◌∷◌, Option, none, some, arith, lookup, insert, erase, ◌>>=◌, ◌==◌, ap,
  ◌∙◌, if◌then◌else◌, lookup-insert, lookup-erase, lookup-insert_sorted, Option-cases, inl, inr,
  lookup-below, ◌≤◌, suc,
}

module _ {Cb : Type 0} where
  abbrev pub armed : Event Cb → Option (ℕ × Cb)
  armed e = e.it >>= λ t. e.cb >>= λ c. some (t, c)

  -- The time and the callback of the pending event of a socket.
  unfoldable pub timer : List (ℕ × Event Cb) → ℕ → Option (ℕ × Cb)
  timer sockets fd = lookup fd sockets >>= armed

  pub timer-insert :
      (fd k : ℕ) (e : Event Cb) (m : List (ℕ × Event Cb))
      → timer (insert k e m) fd ≡ (if fd == k then armed e else timer m fd)
  unfolding timer
  timer-insert fd k e m = rw (lookup-insert fd k e m) (ground arith)

  pub timer-erase :
      (fd k : ℕ) (m : List (ℕ × Event Cb))
      → timer (erase k m) fd ≡ (if fd == k then none else timer m fd)
  unfolding timer
  timer-erase fd k m = rw (lookup-erase fd k m) (ground arith)

  pub due-timer :
      (m : List (ℕ × Event Cb)) (fd t : ℕ) (c : Cb) → timer m fd ≡ some (t, c) → due m fd ≡ some t
  unfolding timer due
  due-timer m fd t c h = ground arith

  -- Every entry of the table is the pending event of its socket.
  pub record IsLinked (h : EventHandler Cb) : Type 0 where
    pub safe : IsSafe h
    pub owned :
        (fd t : ℕ)
        → lookup t h.event_table ≡ some fd
        → (c : Cb) × (timer h.sockets_event fd ≡ some (t, c))

  pub empty-IsLinked :
      (h : EventHandler Cb) → h.event_table ≡ [] → h.sockets_event ≡ [] → IsLinked h
  unfolding lookup
  empty-IsLinked h e e' = record {
    safe = empty-IsSafe h e e';
    owned = λ fd t l. ground (arith, l, ap (lookup t) e);
  }

  -- `AddEvent` sets the timer of a known socket, if its time is free.
  pub timer-add_event :
      (h : EventHandler Cb) (fd t k : ℕ) (cb : Cb)
      → lookup t h.event_table ≡ none
      → lookup fd h.sockets_event ≢ none
      → timer (add_event h fd t cb).sockets_event k
        ≡ (if k == fd then some (t, cb) else timer h.sockets_event k)
  unfolding add_event
  timer-add_event h fd t k cb free known =
      ground (arith, timer-insert k fd (record { it = some t; cb = some cb }) h.sockets_event)

  pub lookup-add_event :
      (h : EventHandler Cb) (fd t j : ℕ) (cb : Cb)
      → lookup t h.event_table ≡ none
      → lookup j (add_event h fd t cb).event_table
        ≡ (if j == t then some fd else lookup j h.event_table)
  unfolding add_event
  lookup-add_event h fd t j cb free = ground (arith, lookup-insert_sorted j t fd h.event_table)

  pub add_event-IsLinked :
      (h : EventHandler Cb) (fd t : ℕ) (cb : Cb)
      → lookup t h.event_table ≡ none
      → lookup fd h.sockets_event ≢ none
      → timer h.sockets_event fd ≡ none
      → IsLinked h
      → IsLinked (add_event h fd t cb)
  add_event-IsLinked h fd t cb free known idle v = record {
    safe = add_event-IsSafe h fd t cb v.safe;
    owned = λ k u e. elim (ℕ_discrete u t) [
      | yes same ↦
          (cb, ground (arith, timer-add_event h fd t k cb, lookup-add_event h fd t u cb free))
      | no other ↦
          let old = v.owned k u (ground (arith, lookup-add_event h fd t u cb free)) in
          (old.0, ground (arith, old.1, timer-add_event h fd t k cb))
    ];
  }

  -- `DeleteEvent` ends the timer of any socket.
  pub timer-delete_event :
      (h : EventHandler Cb) (fd k : ℕ)
      → timer (delete_event h fd).sockets_event k
        ≡ (if k == fd then none else timer h.sockets_event k)
  unfolding delete_event timer
  timer-delete_event h fd k = elim (Option-cases (lookup fd h.sockets_event)) [
    | inl e ↦ ground (arith, e)
    | inr (event, e) ↦
        ground (arith, e, lookup-insert k fd (record event { it = none }) h.sockets_event)
  ]

  pub delete_event-IsLinked :
      (h : EventHandler Cb) (fd : ℕ) → IsLinked h → IsLinked (delete_event h fd)
  delete_event-IsLinked h fd v = record {
    safe = delete_event-IsSafe h fd v.safe;
    owned = λ k u e.
        let old = v.owned k u (ground (arith, lookup-delete_event h fd u)) in
        let mine = due-timer h.sockets_event k u old.0 old.1 in
        (old.0, ground (arith, old.1, mine, timer-delete_event h fd k, lookup-delete_event h fd u));
  }

  -- The expiry of the first entry ends the timer of its socket.
  pub timer-fired :
      (h : EventHandler Cb) (fd k : ℕ) (event : Event Cb) (table : List (ℕ × ℕ))
      → timer (fired h fd event table).sockets_event k
        ≡ (if k == fd then none else timer h.sockets_event k)
  timer-fired h fd k event table =
      ground (arith, timer-insert k fd (record event { it = none }) h.sockets_event)

  pub fired-IsLinked :
      (h : EventHandler Cb) (t fd : ℕ) (event : Event Cb) (table : List (ℕ × ℕ))
      → h.event_table ≡ (t, fd) ∷ table
      → IsLinked h
      → IsLinked (fired h fd event table)
  unfolding lookup
  fired-IsLinked h t fd event table e v = record {
    safe = fired-IsSafe h t fd event table v.safe e;
    owned = λ k u l.
        let rising = rw e at v.safe.rising in
        let later = lookup-below u (suc t) table in
        let old = v.owned k u (ground (arith, ap (lookup u) e, later, rising)) in
        let mine = due-timer h.sockets_event k u old.0 old.1 in
        (
          old.0,
          ground (
            arith,
            old.1,
            mine,
            v.owned fd t,
            ap (lookup t) e,
            timer-fired h fd k event table,
            later,
            rising,
          ),
        );
  }
