-- ===== src/EventHandler/Waiting.antt =====
-- `GetWaitTime`: how long `epoll_wait` may sleep.
use codec_single_thread.EventHandler.{EventHandler, get_wait_time, at_least_0}
use codec_single_thread.Base.{
  ℕ, ◌≡◌, List, ◌∷◌, arith, refl, ◌<◌, ◌≤◌, if◌then◌else◌, leb, ◌+◌, ◌*◌, ◌-◌, ◌^◌, ◌/◌, ◌%◌,
}

module _ {Cb : Type 0} where
  wait_lem :
      (h : EventHandler Cb) (now t fd : ℕ) (table : List (ℕ × ℕ))
      → h.event_table ≡ (t, fd) ∷ table
      → get_wait_time h now ≡ (
          if leb now t
          then at_least_0 ((t - now) / 10 ^ 6)
          else at_least_0 (2 ^ 32 - (now - t) / 10 ^ 6 % 2 ^ 32))
  unfolding get_wait_time
  wait_lem h now t fd table e = rw e refl

  -- With an event, and less than 2^31 milliseconds between the clock and its time, `GetWaitTime`
  -- answers the whole milliseconds until the first event: the handler sleeps no longer than that, and
  -- wakes less than a millisecond before the event. It is 0 for an event that is due.
  pub wait-bounds :
      (h : EventHandler Cb) (now t fd : ℕ) (table : List (ℕ × ℕ))
      → h.event_table ≡ (t, fd) ∷ table
      → now < t + 2 ^ 31 * 10 ^ 6
      → t < now + 2 ^ 31 * 10 ^ 6
      → (get_wait_time h now * 10 ^ 6 ≤ t - now) × (t - now < (get_wait_time h now + 1) * 10 ^ 6)
  unfolding at_least_0
  wait-bounds h now t fd table e late early = ground (arith, wait_lem h now t fd table e)

  -- It never sleeps past the first event, however far away that is, where the conversion to `int`
  -- cuts the milliseconds off.
  pub wait-upper :
      (h : EventHandler Cb) (now t fd : ℕ) (table : List (ℕ × ℕ))
      → h.event_table ≡ (t, fd) ∷ table
      → now ≤ t
      → get_wait_time h now * 10 ^ 6 ≤ t - now
  unfolding at_least_0
  wait-upper h now t fd table e early = ground (arith, wait_lem h now t fd table e)
