-- ===== src/EventHandler/Timers/Simulation.antt =====
-- The handler refines a timer for each socket, where it is used as it is meant to be.
use mathlib.Core.Path.{subst}
use codec_single_thread.EventHandler.{
  EventHandler, Event, fire, add_socket, remove_socket, add_event, delete_event,
}
use codec_single_thread.EventHandler.Iterators.{
  IsSafe, fired, add_socket-IsSafe, remove_socket-IsSafe,
}
use codec_single_thread.EventHandler.Timers.{
  IsLinked, timer, timer-insert, timer-erase, due-timer, timer-add_event, add_event-IsLinked,
  timer-delete_event, delete_event-IsLinked, timer-fired, fired-IsLinked,
}
use codec_single_thread.Base.{
  ℕ, ◌≡◌, ◌≢◌, List, ◌∷◌, Bool, Option, none, some, arith, lookup, ◌==◌, ap, sym, ◌∙◌,
  if◌then◌else◌, lookup-below, ◌≤◌, Rising,
}

-- The abstract timers, and what may happen to them: a free timer is set to a time of its own, any
-- is cleared, and the earliest expires.
abbrev pub Timers : Type 0 → Type 0
Timers Cb = ℕ → Option (ℕ × Cb)

pub first_lookup : (t fd : ℕ) (table : List (ℕ × ℕ)) → lookup t ((t, fd) ∷ table) ≡ some fd
unfolding lookup
first_lookup t fd table = ground arith

pub first-least :
    (t fd u k : ℕ) (table m : List (ℕ × ℕ))
    → m ≡ (t, fd) ∷ table
    → Rising 0 m
    → lookup u m ≡ some k
    → t ≤ u
first-least t fd u k table m e r l =
    let r' = rw e at r in
    let below = lookup-below u t ((t, fd) ∷ table) in ground (arith, below, ap (lookup u) e, r')

-- The calls. An expiry is the body of the loop in `HandleEvent`, for the socket of the first entry.
pub data Label (Cb : Type 0) : Type 0 where
  socket_added socket_removed event_deleted first_expired : (fd : ℕ) → Label Cb
  event_set : (fd t : ℕ) → Cb → Label Cb

module _ {Cb : Type 0} where
  abbrev pub Cleared : Timers Cb → ℕ → Timers Cb → Type 0
  Cleared a fd b = (k : ℕ) → b k ≡ (if k == fd then none else a k)

  -- What each of them does to the timers.
  pub data TimerStep (a b : Timers Cb) : Label Cb → Type 0 where
    idle_added : {fd : ℕ} → ((k : ℕ) → b k ≡ a k) → TimerStep a b (socket_added fd)
    idle_removed : {fd : ℕ} → ((k : ℕ) → b k ≡ a k) → TimerStep a b (socket_removed fd)
    set :
        {fd t : ℕ} {c : Cb}
        → a fd ≡ none
        → ((k u : ℕ) (c' : Cb) → a k ≡ some (u, c') → u ≢ t)
        → ((k : ℕ) → b k ≡ (if k == fd then some (t, c) else a k))
        → TimerStep a b (event_set fd t c)
    clear : {fd : ℕ} → Cleared a fd b → TimerStep a b (event_deleted fd)
    expire :
        {fd : ℕ} (t : ℕ) (c : Cb)
        → a fd ≡ some (t, c)
        → ((k u : ℕ) (c' : Cb) → a k ≡ some (u, c') → t ≤ u)
        → Cleared a fd b
        → TimerStep a b (first_expired fd)

  cb_of_event :
      (m : List (ℕ × Event Cb)) (fd t : ℕ) (c : Cb) (event : Event Cb)
      → lookup fd m ≡ some event
      → timer m fd ≡ some (t, c)
      → event.cb ≡ some c
  unfolding timer
  cb_of_event m fd t c event l p = ground (arith, l, p)

  timer-add_socket :
      (h : EventHandler Cb) (fd k : ℕ) (cb : Cb) (fails : Bool)
      → timer h.sockets_event fd ≡ none
      → timer (add_socket h fd cb fails).1.sockets_event k ≡ timer h.sockets_event k
  unfolding add_socket
  timer-add_socket h fd k cb fails free =
      ground (arith, timer-insert k fd (record { it = none; cb = none }) h.sockets_event)

  table-add_socket :
      (h : EventHandler Cb) (fd : ℕ) (cb : Cb) (fails : Bool)
      → (add_socket h fd cb fails).1.event_table ≡ h.event_table
  unfolding add_socket
  table-add_socket h fd cb fails = ground arith

  timer-remove_socket :
      (h : EventHandler Cb) (fd k : ℕ) (fails : Bool)
      → timer h.sockets_event fd ≡ none
      → timer (remove_socket h fd fails).1.sockets_event k ≡ timer h.sockets_event k
  unfolding remove_socket
  timer-remove_socket h fd k fails free = ground (arith, timer-erase k fd h.sockets_event)

  table-remove_socket :
      (h : EventHandler Cb) (fd : ℕ) (fails : Bool)
      → (remove_socket h fd fails).1.event_table ≡ h.event_table
  unfolding remove_socket
  table-remove_socket h fd fails = ground arith

  -- With the same timers and the same table a handler stays linked.
  same-IsLinked :
      (a b : EventHandler Cb)
      → IsSafe b
      → b.event_table ≡ a.event_table
      → ((k : ℕ) → timer b.sockets_event k ≡ timer a.sockets_event k)
      → IsLinked a
      → IsLinked b
  same-IsLinked a b safe table timers v = record {
    safe = safe;
    owned =
        λ k u l. let old = v.owned k u (sym (ap (lookup u) table) ∙ l) in (old.0, timers k ∙ old.1);
  }

module _ {Cb W : Type 0} (note : Cb → W → W) where
  -- A callback that leaves the handler alone.
  abbrev pub passive : Cb → EventHandler Cb × W → EventHandler Cb × W
  passive c (h, w) = (h, note c w)

  -- The calls as they are meant: an event is added for a known socket without one, at a free time,
  -- and a socket without an event is added or removed. The first entry expires as in `HandleEvent`,
  -- which has erased it.
  pub data Disciplined (h : EventHandler Cb) : Label Cb → EventHandler Cb → Type 0 where
    adds_socket :
        (fd : ℕ) (cb : Cb) (fails : Bool)
        → timer h.sockets_event fd ≡ none
        → Disciplined h (socket_added fd) (add_socket h fd cb fails).1
    removes_socket :
        (fd : ℕ) (fails : Bool)
        → timer h.sockets_event fd ≡ none
        → Disciplined h (socket_removed fd) (remove_socket h fd fails).1
    adds_event :
        (fd t : ℕ) (cb : Cb)
        → lookup t h.event_table ≡ none
        → lookup fd h.sockets_event ≢ none
        → timer h.sockets_event fd ≡ none
        → Disciplined h (event_set fd t cb) (add_event h fd t cb)
    deletes_event : (fd : ℕ) → Disciplined h (event_deleted fd) (delete_event h fd)
    expires :
        (t fd : ℕ) (event : Event Cb) (table : List (ℕ × ℕ)) (w : W)
        → h.event_table ≡ (t, fd) ∷ table
        → lookup fd h.sockets_event ≡ some event
        → Disciplined h (first_expired fd) (fire passive fd (record h { event_table = table }, w)).1

  pub fire_due :
      (fd : ℕ) (table : List (ℕ × ℕ)) (h : EventHandler Cb) (w : W) (event : Event Cb) (c : Cb)
      → lookup fd h.sockets_event ≡ some event
      → event.cb ≡ some c
      → fire passive fd (record h { event_table = table }, w)
        ≡ (none, fired h fd event table, note c w)
  unfolding fire
  fire_due fd table h w event c s ec = ground (arith, s, ec)

  -- Every call as it is meant, from a linked handler, leaves one, and does to the timers what it
  -- promises: `AddEvent` sets the timer of its socket to its time and callback, `DeleteEvent` clears
  -- that of its socket, the expiry of the first entry clears the earliest timer, and nothing else
  -- changes; `AddSocket` and `RemoveSocket` change no timer.
  pub Disciplined-refines :
      {a b : EventHandler Cb} {l : Label Cb}
      → Disciplined a l b
      → IsLinked a
      → IsLinked b × TimerStep (timer a.sockets_event) (timer b.sockets_event) l
  Disciplined-refines {a} (adds_socket fd cb fails free) v =
      let same = λ (k : ℕ). timer-add_socket a fd k cb fails free in
      (
        same-IsLinked a _ (add_socket-IsSafe a fd cb fails v.safe) (table-add_socket a fd cb fails)
            same v,
        idle_added same,
      )
  Disciplined-refines {a} (removes_socket fd fails free) v =
      let same = λ (k : ℕ). timer-remove_socket a fd k fails free in
      (
        same-IsLinked a _ (remove_socket-IsSafe a fd fails v.safe) (table-remove_socket a fd fails)
            same v,
        idle_removed same,
      )
  Disciplined-refines {a} (adds_event fd t cb free known none_yet) v = (
    add_event-IsLinked a fd t cb free known none_yet v,
    set none_yet
        (λ k u c e same.
          let l = v.safe.valid k u (due-timer a.sockets_event k u c e) in
          ground (arith, l, ap (λ (n : ℕ). lookup n a.event_table) same))
        (λ k. timer-add_event a fd t k cb free known),
  )
  Disciplined-refines {a} (deletes_event fd) v =
      (delete_event-IsLinked a fd v, clear (λ k. timer-delete_event a fd k))
  Disciplined-refines {a} (expires t fd event table w e s) v =
      let mine = v.owned fd t (ap (lookup t) e ∙ first_lookup t fd table) in
      let made =
        ap (λ r. r.1)
          (fire_due fd table a w event mine.0 s
            (cb_of_event a.sockets_event fd t mine.0 event s mine.1)) in
      subst
        (λ (b : EventHandler Cb).
          IsLinked b × TimerStep (timer a.sockets_event) (timer b.sockets_event) (first_expired fd))
        (sym made)
        (
          fired-IsLinked a t fd event table e v,
          expire t mine.0 mine.1
              (λ k u c h.
                first-least t fd u k table a.event_table e v.safe.rising
                  (v.safe.valid k u (due-timer a.sockets_event k u c h)))
              (λ k. timer-fired a fd k event table),
        )
