-- ===== src/EventHandler/Tests.antt =====
-- The event handler at concrete sockets and times, where callbacks are numbers and the world is the
-- list of those that were called.
use native.Mathlib.Decide.{ℕ_discrete}
use codec_single_thread.EventHandler.{
  EventHandler, Event, done, fatal, add_event, remove_socket, delete_event, init, add_socket,
  handle_event, run, get_wait_time,
}
use codec_single_thread.EventHandler.Iterators.{IsSafe, due}
use codec_single_thread.EventHandler.Steps.{here, next, run-IsSafe, CallsMethods, event_added}
use codec_single_thread.EventHandler.Timers.{IsLinked, timer}
use codec_single_thread.EventHandler.Timers.Simulation.{
  Disciplined, Disciplined-refines, TimerStep, deletes_event, event_deleted, passive,
}
use codec_single_thread.EventHandler.Timers.Expiry.{expiry, note_all, due_callbacks, still}
use codec_single_thread.EventHandler.Waiting.{wait-bounds}
use codec_single_thread.EventHandler.Misuse.{
  delete_event-add_event_twice, handle_event-remove_socket,
}
use codec_single_thread.Base.{
  ℕ, ◌≡◌, refl, List, [], ◌∷◌, none, some, arith, lookup, true, false, ◌+◌, ◌*◌, ◌^◌, ◌≤◌, ◌-◌, ◌<◌,
  insert,
}

abbrev event : ℕ → ℕ → Event ℕ
event t c = record { it = some t; cb = some c }

-- Sockets 7 and 8 with an event each.
abbrev two : EventHandler ℕ
two = record {
  wait_time = 20;
  event_fd = some 3;
  socket_fds = (7, 70) ∷ (8, 80) ∷ [];
  event_table = (100, 7) ∷ (200, 8) ∷ [];
  sockets_event = (7, event 100 1) ∷ (8, event 200 2) ∷ [];
}

abbrev listed : ℕ → List ℕ → List ℕ
listed c w = c ∷ w

-- A callback that sets the next event of socket 7.
abbrev again : ℕ → EventHandler ℕ × List ℕ → EventHandler ℕ × List ℕ
again c (h, w) = (add_event h 7 (c + 300) c, c ∷ w)

again-CallsMethods : CallsMethods again
again-CallsMethods cb h w = next here (event_added 7 (cb + 300) cb)

two-IsSafe : IsSafe two
unfolding lookup due
two-IsSafe = record { rising = omega arith; valid = λ fd t d. ground arith }

two-owned :
    (fd t : ℕ)
    → lookup t two.event_table ≡ some fd
    → (c : ℕ) × (timer two.sockets_event fd ≡ some (t, c))
unfolding lookup timer
two-owned fd t l = elim (ℕ_discrete fd 7) [ yes e ↦ (1, ground arith) | no n ↦ (2, ground arith) ]

two-IsLinked : IsLinked two
two-IsLinked = record { safe = two-IsSafe; owned = two-owned }

-- `Run` with one round that reports socket 7, whose callback goes on to the next event.
one_round :
    (run
      (passive listed)
      (record { ready = some (7 ∷ []); clock = 150 ∷ 150 ∷ [] } ∷ [])
      (two, [])).2
    ≡ 1 ∷ 70 ∷ []
unfolding run handle_event lookup
one_round = refl

failed_wait : (run (passive listed) (record { ready = none; clock = [] } ∷ []) (two, [])).0 ≡ true
unfolding run
failed_wait = refl

no_init :
    run again
      (record { ready = some (7 ∷ []); clock = [] } ∷ [])
      (record two { event_fd = none }, [])
    ≡ (true, record two { event_fd = none }, [])
unfolding run
no_init = refl

abbrev added : EventHandler ℕ
added = (add_socket (init two 5 (some 4)).1 9 90 false).1

added_event : (add_event added 9 150 3).event_table ≡ (100, 7) ∷ (150, 9) ∷ (200, 8) ∷ []
unfolding add_event add_socket lookup init codec_single_thread.Base.insert
    codec_single_thread.Base.insert_sorted
added_event = refl

-- A time that is taken.
taken : add_event added 9 200 3 ≡ added
unfolding add_event add_socket lookup init
taken = refl

-- The callback of a deleted event is called, if two were added before.
deleted_called :
    (handle_event
      (passive listed)
      (160 ∷ 160 ∷ 160 ∷ [])
      (delete_event (add_event (add_event added 9 150 3) 9 300 4) 9, [])).2
    ≡ 4 ∷ 1 ∷ []
unfolding handle_event add_event delete_event add_socket lookup init codec_single_thread.Base.insert
    codec_single_thread.Base.insert_sorted codec_single_thread.Base.erase
deleted_called = refl

wait_100 : get_wait_time (record two { event_table = (3000000, 7) ∷ [] }) 1000001 ≡ 1
unfolding get_wait_time
wait_100 = refl

run-IsSafe_example :
    IsSafe
      (run again
        (record { ready = some (7 ∷ 8 ∷ []); clock = 150 ∷ 150 ∷ 400 ∷ [] } ∷ [])
        (two, [])).1
run-IsSafe_example =
    run-IsSafe again (record { ready = some (7 ∷ 8 ∷ []); clock = 150 ∷ 150 ∷ 400 ∷ [] } ∷ []) two
      [] again-CallsMethods two-IsSafe

deleted : Disciplined listed two (event_deleted 7) (delete_event two 7)
deleted = deletes_event 7

Disciplined-refines_example :
    IsLinked (delete_event two 7)
    × TimerStep
        (timer two.sockets_event)
        (timer (delete_event two 7).sockets_event)
        (event_deleted 7)
Disciplined-refines_example = Disciplined-refines listed deleted two-IsLinked

expiry_example :
    ((handle_event (passive listed) (150 ∷ 150 ∷ 150 ∷ []) (two, [])).0 ≡ done)
    × ((handle_event (passive listed) (150 ∷ 150 ∷ 150 ∷ []) (two, [])).2
        ≡ note_all listed (due_callbacks 150 two.event_table two.sockets_event) [])
    × ((k : ℕ)
        → timer (handle_event (passive listed) (150 ∷ 150 ∷ 150 ∷ []) (two, [])).1.sockets_event k
          ≡ still 150 (timer two.sockets_event k))
expiry_example = expiry listed 150 3 two [] two.event_table refl (omega arith) two-IsLinked

due_150 : due_callbacks 150 two.event_table two.sockets_event ≡ 1 ∷ []
unfolding due_callbacks lookup
due_150 = refl

wait-bounds_example :
    (get_wait_time two 90 * 10 ^ 6 ≤ 100 - 90) × (100 - 90 < (get_wait_time two 90 + 1) * 10 ^ 6)
wait-bounds_example = wait-bounds two 90 100 7 ((200, 8) ∷ []) refl (omega arith) (omega arith)

delete_event-add_event_twice_example :
    (due (delete_event (add_event (add_event added 9 150 3) 9 300 4) 9).sockets_event 9 ≡ none)
    × (lookup 150 (delete_event (add_event (add_event added 9 150 3) 9 300 4) 9).event_table
        ≡ some 9)
    × (lookup 300 (delete_event (add_event (add_event added 9 150 3) 9 300 4) 9).event_table ≡ none)
unfolding lookup add_socket init insert
delete_event-add_event_twice_example =
    delete_event-add_event_twice added 9 150 300 3 4 refl refl (omega arith)
      (λ e. ground (arith, e))

handle_event-remove_socket_example :
    handle_event (passive listed) (250 ∷ 250 ∷ []) ((remove_socket two 7 false).1, [])
    ≡ (fatal, record (remove_socket two 7 false).1 { event_table = (200, 8) ∷ [] }, [])
handle_event-remove_socket_example =
    handle_event-remove_socket (passive listed) two [] 250 100 7 (250 ∷ []) ((200, 8) ∷ []) refl
      (omega arith)
