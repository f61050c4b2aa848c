-- ===== src/EventHandler.antt =====
-- `EventHandler` of src/event_handler.h and src/event_handler.cpp.
--
-- Time points are numbers of nanoseconds. A key of `event_table_` stands for the iterator to its
-- entry, none for `end()`. What the system calls answer is an argument: whether `epoll_ctl` fails,
-- the sockets that `epoll_wait` reports, and the readings of the clock, one for each that the code
-- takes. A callback changes the handler and the rest of the world, `W`, as the function `call` says.
-- `wait_time_` is not negative. How long `epoll_wait` sleeps changes no state, and neither does
-- `SetNoBlock`. A callback is a value: that a callback may replace the object that runs it, by
-- `AddEvent` or `RemoveSocket` for its own socket, is not seen.
-- The callback of an `Event` is none before one is set: calling it throws.
pub mod Iterators
pub mod Steps
pub mod Timers
pub mod Misuse
pub mod Waiting
mod Tests
use codec_single_thread.Base.{
  ℕ, ◌+◌, ◌-◌, ◌*◌, ◌/◌, ◌%◌, ◌^◌, List, [], ◌∷◌, Bool, Option, none, some, ltb, leb, if◌then◌else◌,
  lookup, insert, erase, insert_sorted, true, false, ◌==◌,
}

pub record Event (Cb : Type 0) : Type 0 where
  pub it : Option ℕ
  pub cb : Option Cb

pub record EventHandler (Cb : Type 0) : Type 0 where
  pub wait_time : ℕ
  pub event_fd : Option ℕ
  pub socket_fds : List (ℕ × Cb)
  pub event_table : List (ℕ × ℕ)
  pub sockets_event : List (ℕ × Event Cb)

-- The conversion of a number of milliseconds to `int`, and the larger of that and 0.
unfoldable pub at_least_0 : ℕ → ℕ
at_least_0 bits = if ltb (bits % 2 ^ 32) (2 ^ 31) then bits % 2 ^ 32 else 0

module _ {Cb : Type 0} where
  -- `epoll_fd` is what `epoll_create` gives, none if it fails; `event_fd_` then holds a negative
  -- number.
  pub init : EventHandler Cb → ℕ → Option ℕ → Option ℕ × EventHandler Cb
  init h wait_time none = (none, record h { event_fd = none })
  init h wait_time (some fd) = (some 0, record h { event_fd = some fd; wait_time = wait_time })

  unfoldable pub add_socket : EventHandler Cb → ℕ → Cb → Bool → Option ℕ × EventHandler Cb
  add_socket h socket_fd call_back ctl_fails = elim (lookup socket_fd h.socket_fds) [
    | some old ↦ (some 0, record h { socket_fds = insert socket_fd call_back h.socket_fds })
    | none ↦ if ctl_fails then (none, h) else (
      some 0,
      record h {
        socket_fds = insert socket_fd call_back h.socket_fds;
        sockets_event = insert socket_fd (record { it = none; cb = none }) h.sockets_event;
      },
    )
  ]

  unfoldable pub remove_socket : EventHandler Cb → ℕ → Bool → Option ℕ × EventHandler Cb
  remove_socket h socket_fd ctl_fails = if ctl_fails then (none, h) else (
    some 0,
    record h {
      socket_fds = erase socket_fd h.socket_fds;
      sockets_event = erase socket_fd h.sockets_event;
    },
  )

  -- The entry goes into the table before the socket is looked up.
  unfoldable pub add_event : EventHandler Cb → ℕ → ℕ → Cb → EventHandler Cb
  add_event h fd next_time cb = elim (lookup next_time h.event_table) [
    | some taken ↦ h
    | none ↦
        let h' : EventHandler Cb = record h {
          event_table = insert_sorted next_time fd h.event_table;
        } in
        elim (lookup fd h.sockets_event) [
          | none ↦ h'
          | some event ↦ record h' {
            sockets_event =
                insert fd (record { it = some next_time; cb = some cb }) h.sockets_event;
          }
        ]
  ]

  unfoldable pub delete_event : EventHandler Cb → ℕ → EventHandler Cb
  delete_event h fd = elim (lookup fd h.sockets_event) [
    | none ↦ h
    | some event ↦
        let h' : EventHandler Cb = record h {
          sockets_event = insert fd (record event { it = none }) h.sockets_event;
        } in
        elim event.it [ none ↦ h' | some t ↦ record h' { event_table = erase t h.event_table } ]
  ]

  -- The milliseconds are cut off towards zero on both sides.
  unfoldable pub get_wait_time : EventHandler Cb → ℕ → ℕ
  unfolding at_least_0
  get_wait_time h now = elim h.event_table [
    | [] ↦ h.wait_time
    | (first, fd) ∷ later ↦
        if leb now first
        then at_least_0 ((first - now) / 10 ^ 6)
        else at_least_0 (2 ^ 32 - (now - first) / 10 ^ 6 % 2 ^ 32)
  ]

-- How `HandleEvent` comes back: `fatal` is its early return, `no_callback` the exception of an empty
-- function, and `running` says that the readings of the clock are used up.
pub data Ended : Type 0 where
  done fatal no_callback running : Ended

-- What one round of `Run` sees: the sockets that `epoll_wait` reports, none for an error, and the
-- clock.
pub record Seen : Type 0 where
  pub ready : Option (List ℕ)
  pub clock : List ℕ

module _ {Cb W : Type 0} (call : Cb → EventHandler Cb × W → EventHandler Cb × W) where
  -- The body of the loop in `HandleEvent` behind `break`, on the first entry, which has been erased
  -- already. `none` goes on with the loop.
  unfoldable pub fire : ℕ → EventHandler Cb × W → Option Ended × EventHandler Cb × W
  fire fd (h, w) = elim (lookup fd h.sockets_event) [
    | none ↦ (some fatal, h, w)
    | some event ↦
        let h' : EventHandler Cb = record h {
          sockets_event = insert fd (record event { it = none }) h.sockets_event;
        } in
        elim event.cb [
          | none ↦ (some no_callback, h', w)
          | some cb ↦ let (h'', w') = call cb (h', w) in (none, h'', w')
        ]
  ]

  unfoldable pub go_on :
      (EventHandler Cb × W → Ended × EventHandler Cb × W)
      → Option Ended × EventHandler Cb × W
      → Ended × EventHandler Cb × W
  go_on loop (none, h, w) = loop (h, w)
  go_on loop (some ended, h, w) = (ended, h, w)

  -- `table` is the handler's `event_table`.
  unfoldable pub round :
      (EventHandler Cb × W → Ended × EventHandler Cb × W)
      → ℕ
      → List (ℕ × ℕ)
      → EventHandler Cb × W
      → Ended × EventHandler Cb × W
  unfolding fire go_on
  round loop now [] s = (done, s.0, s.1)
  round loop now ((t, fd) ∷ table) (h, w) =
      if ltb now t then (done, h, w) else go_on loop (fire fd (record h { event_table = table }, w))

  -- `HandleEvent`, over the readings of the clock: one for each round with an entry.
  unfoldable pub handle_event : List ℕ → EventHandler Cb × W → Ended × EventHandler Cb × W
  unfolding round
  handle_event [] (h, w) = (elim h.event_table [ [] ↦ done | first ∷ later ↦ running ], h, w)
  handle_event (now ∷ nows) (h, w) = round (handle_event nows) now h.event_table (h, w)

  -- `HandleSocket`, over the sockets of `data_events_`.
  unfoldable pub handle_socket : List ℕ → EventHandler Cb × W → EventHandler Cb × W
  handle_socket [] s = s
  handle_socket (fd ∷ fds) (h, w) =
      handle_socket fds (elim (lookup fd h.socket_fds) [ none ↦ (h, w) | some cb ↦ call cb (h, w) ])

  -- What `Run` does when `HandleEvent` has come back.
  unfoldable pub resume :
      (EventHandler Cb × W → Bool × EventHandler Cb × W)
      → Ended × EventHandler Cb × W
      → Bool × EventHandler Cb × W
  resume loop (done, h, w) = loop (h, w)
  resume loop (fatal, h, w) = loop (h, w)
  resume loop (no_callback, h, w) = (true, h, w)
  resume loop (running, h, w) = (true, h, w)

  -- `Run` behind its first test, for as long as the world goes on: true if `epoll_wait` has failed,
  -- or `HandleEvent` has not come back.
  unfoldable pub run_rounds : List Seen → EventHandler Cb × W → Bool × EventHandler Cb × W
  unfolding handle_event handle_socket resume
  run_rounds [] (h, w) = (false, h, w)
  run_rounds (seen ∷ later) s = elim seen.ready [
    | none ↦ (true, s.0, s.1)
    | some fds ↦ resume (run_rounds later) (handle_event seen.clock (handle_socket fds s))
  ]

  -- `event_fd_ <= 0` returns at once.
  pub run : List Seen → EventHandler Cb × W → Bool × EventHandler Cb × W
  unfolding run_rounds
  run seen (h, w) = elim h.event_fd [
    | none ↦ (true, h, w)
    | some fd ↦ if fd == 0 then (true, h, w) else run_rounds seen (h, w)
  ]
