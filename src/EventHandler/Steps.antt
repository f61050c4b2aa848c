-- ===== src/EventHandler/Steps.antt =====
-- The handler as a transition system: the calls of its methods, and the expiry of an entry.
use codec_single_thread.EventHandler.{
  EventHandler, Event, add_socket, remove_socket, add_event, delete_event, fire, go_on, round,
  handle_event, handle_socket, Seen, run_rounds, run, resume, Ended, done, fatal, no_callback,
  running,
}
use codec_single_thread.EventHandler.Iterators.{
  IsSafe, fired, add_socket-IsSafe, remove_socket-IsSafe, add_event-IsSafe, delete_event-IsSafe,
  fired-IsSafe, orphan-IsSafe,
}
use codec_single_thread.Base.{
  ℕ, ◌≡◌, refl, List, [], ◌∷◌, Bool, Bool-cases, ◌==◌, Option, none, some, lookup, Option-cases,
  ltb, inl, inr,
}

module _ {Cb : Type 0} where
  pub data Step (h : EventHandler Cb) : EventHandler Cb → Type 0 where
    socket_added : (fd : ℕ) (cb : Cb) (fails : Bool) → Step h (add_socket h fd cb fails).1
    socket_removed : (fd : ℕ) (fails : Bool) → Step h (remove_socket h fd fails).1
    event_added : (fd t : ℕ) (cb : Cb) → Step h (add_event h fd t cb)
    event_deleted : (fd : ℕ) → Step h (delete_event h fd)
    expired :
        (t fd : ℕ) (event : Event Cb) (table : List (ℕ × ℕ))
        → h.event_table ≡ (t, fd) ∷ table
        → lookup fd h.sockets_event ≡ some event
        → Step h (fired h fd event table)
    orphaned :
        (t fd : ℕ) (table : List (ℕ × ℕ))
        → h.event_table ≡ (t, fd) ∷ table
        → lookup fd h.sockets_event ≡ none
        → Step h (record h { event_table = table })

  pub data Reach (h : EventHandler Cb) : EventHandler Cb → Type 0 where
    here : Reach h h
    next : {a b : EventHandler Cb} → Reach h a → Step a b → Reach h b

  pub Reach-trans : {a b c : EventHandler Cb} → Reach a b → Reach b c → Reach a c
  Reach-trans r here = r
  Reach-trans r (next s st) = next (Reach-trans r s) st

  pub Step-IsSafe : {a b : EventHandler Cb} → Step a b → IsSafe a → IsSafe b
  Step-IsSafe {a} (socket_added fd cb fails) v = add_socket-IsSafe a fd cb fails v
  Step-IsSafe {a} (socket_removed fd fails) v = remove_socket-IsSafe a fd fails v
  Step-IsSafe {a} (event_added fd t cb) v = add_event-IsSafe a fd t cb v
  Step-IsSafe {a} (event_deleted fd) v = delete_event-IsSafe a fd v
  Step-IsSafe {a} (expired t fd event table e f) v = fired-IsSafe a t fd event table v e
  Step-IsSafe {a} (orphaned t fd table e f) v = orphan-IsSafe a t fd table v e f

  -- In every handler that can be reached by any calls, whatever their arguments and their order, the
  -- table is in order, and the iterator of each socket points to an entry of that socket.
  pub Reach-IsSafe : {a b : EventHandler Cb} → Reach a b → IsSafe a → IsSafe b
  Reach-IsSafe here v = v
  Reach-IsSafe (next r st) v = Step-IsSafe st (Reach-IsSafe r v)

module _ {Cb W : Type 0} (call : Cb → EventHandler Cb × W → EventHandler Cb × W) where
  -- A callback does to the handler only what its methods do.
  abbrev pub CallsMethods : Type 0
  CallsMethods = (cb : Cb) (h : EventHandler Cb) (w : W) → Reach h (call cb (h, w)).0

  fire-Reach :
      (h : EventHandler Cb) (w : W) (t fd : ℕ) (table : List (ℕ × ℕ))
      → CallsMethods
      → h.event_table ≡ (t, fd) ∷ table
      → Reach h (fire call fd (record h { event_table = table }, w)).1
  unfolding fire
  fire-Reach h w t fd table c e = elim (Option-cases (lookup fd h.sockets_event)) [
    | inl n ↦ rw (n, fire) (next here (orphaned t fd table e n))
    | inr (event, s) ↦
        let mid = next here (expired t fd event table e s) in
        elim (Option-cases event.cb) [
          | inl n ↦ rw (s, fire, n) mid
          | inr (cb, n) ↦ rw (s, fire, n) (Reach-trans mid (c cb (fired h fd event table) w))
        ]
  ]

  go_on-Reach :
      (loop : EventHandler Cb × W → Ended × EventHandler Cb × W)
      → ((h : EventHandler Cb) (w : W) → Reach h (loop (h, w)).1)
      → (o : EventHandler Cb) (r : Option Ended × EventHandler Cb × W) → Reach o r.1
      → Reach o (go_on call loop r).1
  unfolding go_on
  go_on-Reach loop ih o (none, h, w) reach = Reach-trans reach (ih h w)
  go_on-Reach loop ih o (some ended, h, w) reach = reach

  round-Reach :
      (loop : EventHandler Cb × W → Ended × EventHandler Cb × W) (now : ℕ)
      → CallsMethods
      → ((h : EventHandler Cb) (w : W) → Reach h (loop (h, w)).1)
      → (h : EventHandler Cb) (w : W) (table : List (ℕ × ℕ)) → h.event_table ≡ table
      → Reach h (round call loop now table (h, w)).1
  unfolding round
  round-Reach loop now c ih h w [] e = here
  round-Reach loop now c ih h w ((t, fd) ∷ table) e = elim (Bool-cases (ltb now t)) [
    | inl early ↦ rw early here
    | inr late ↦ rw late (go_on-Reach loop ih h _ (fire-Reach h w t fd table c e))
  ]

  pub handle_event-Reach :
      (nows : List ℕ)
      → CallsMethods
      → (h : EventHandler Cb) (w : W) → Reach h (handle_event call nows (h, w)).1
  unfolding handle_event
  handle_event-Reach [] c h w = here
  handle_event-Reach (now ∷ nows) c h w =
      round-Reach (handle_event call nows) now c (handle_event-Reach nows c) h w h.event_table refl

  handle_socket-Reach :
      (fds : List ℕ)
      → CallsMethods
      → (h : EventHandler Cb) (w : W) → Reach h (handle_socket call fds (h, w)).0
  unfolding handle_socket
  handle_socket-Reach [] c h w = here
  handle_socket-Reach (fd ∷ fds) c h w = elim (Option-cases (lookup fd h.socket_fds)) [
    | inl n ↦ rw (n, handle_socket) (handle_socket-Reach fds c h w)
    | inr (cb, s) ↦
        rw (s, handle_socket)
          (Reach-trans (c cb h w) (handle_socket-Reach fds c (call cb (h, w)).0 (call cb (h, w)).1))
  ]

  resume-Reach :
      (loop : EventHandler Cb × W → Bool × EventHandler Cb × W)
      → ((h : EventHandler Cb) (w : W) → Reach h (loop (h, w)).1)
      → (o : EventHandler Cb) (r : Ended × EventHandler Cb × W) → Reach o r.1
      → Reach o (resume call loop r).1
  unfolding resume
  resume-Reach loop ih o (done, h, w) reach = Reach-trans reach (ih h w)
  resume-Reach loop ih o (fatal, h, w) reach = Reach-trans reach (ih h w)
  resume-Reach loop ih o (no_callback, h, w) reach = reach
  resume-Reach loop ih o (running, h, w) reach = reach

  run_rounds-Reach :
      (seen : List Seen)
      → CallsMethods
      → (h : EventHandler Cb) (w : W) → Reach h (run_rounds call seen (h, w)).1
  unfolding run_rounds
  run_rounds-Reach [] c h w = here
  run_rounds-Reach (s ∷ later) c h w = elim (Option-cases s.ready) [
    | inl n ↦ rw (n, run_rounds) here
    | inr (fds, r) ↦
        let mid = handle_socket call fds (h, w) in
        let reach =
          Reach-trans (handle_socket-Reach fds c h w) (handle_event-Reach s.clock c mid.0 mid.1) in
        rw (r, run_rounds)
          (resume-Reach (run_rounds call later) (run_rounds-Reach later c) h
            (handle_event call s.clock mid) reach)
  ]

  -- Whatever sockets and times the world reports, in any number of rounds, `Run` leaves a safe handler
  -- safe, if callbacks change the handler by its methods only.
  pub run-IsSafe :
      (seen : List Seen) (h : EventHandler Cb) (w : W)
      → CallsMethods
      → IsSafe h
      → IsSafe (run call seen (h, w)).1
  unfolding run
  run-IsSafe seen h w c v = elim (Option-cases h.event_fd) [
    | inl n ↦ rw (n, run) v
    | inr (fd, e) ↦ elim (Bool-cases (fd == 0)) [
      | inl z ↦ rw (e, run, z) v
      | inr nz ↦ rw (e, run, nz) (Reach-IsSafe (run_rounds-Reach seen c h w) v)
    ]
  ]
