-- ===== src/Sorter/Delivery.antt =====
-- Runs of the sorter: what is delivered at once, and where delivery stops.
use codec_single_thread.Sorter.{
  PacketStatus, packet_now, packet_next, Sorter, init, insert, get, get_from,
}
use codec_single_thread.Sorter.Window.{IsValid}
use codec_single_thread.Base.{
  [], ◌∷◌, some, true, false, List, ℕ, ◌≡◌, ◌<◌, u32, length, ◌^◌, ap, arith, ◌+◌, sym,
}

module _ {A : Type 0} where
  -- The statuses of the packets that are inserted in turn.
  unfoldable pub statuses : Sorter A → List (ℕ × A) → List PacketStatus
  statuses s [] = []
  statuses s ((sn, p) ∷ ps) = (insert s sn p).0 ∷ statuses (insert s sn p).1 ps

  get_from-not_first :
      (s : Sorter A) (m : List (ℕ × A)) {p : A}
      → (s.is_first ≡ true → length m ≡ 0)
      → (get_from s m).0 ≡ some p
      → ((get_from s m).1.is_first ≡ false)
        × ((get_from s m).1.now_sn ≡ s.now_sn)
        × ((get_from s m).1.increase ≡ s.increase)
  unfolding get_from
  get_from-not_first s [] e h = cc
  get_from-not_first s ((k, q) ∷ m) e h = ground arith

  next_step :
      (s : Sorter A) (n sn : ℕ) (q : A)
      → s.is_first ≡ false
      → s.now_sn < 2 ^ 32
      → 0 < n
      → n < 2 ^ 31
      → sn ≡ u32 (s.now_sn + n)
      → (insert s sn q).0 ≡ packet_next
  unfolding insert
  next_step s n sn q first fits pos_n small e = ground arith

  -- `Get` does not move the expectation on: when it has given out the packet with the expected
  -- number, the packet with the next number is not due, but stored.
  pub get_stalls :
      (s : Sorter A) (p q : A)
      → IsValid s
      → 0 < s.increase
      → (get s).0 ≡ some p
      → (insert (get s).1 (u32 (s.now_sn + s.increase)) q).0 ≡ packet_next
  unfolding get
  get_stalls s p q v inc h =
      let t : Sorter A = (get_from s s.entries).1 in
      let facts = get_from-not_first s s.entries v.empty_first h in
      next_step t s.increase (u32 (s.now_sn + s.increase)) q facts.0 (omega (arith, v, facts.1)) inc
        v.increase_fits (ap (λ (k : ℕ). u32 (k + s.increase)) (sym facts.1))

  -- `Insert` forgets to end the first-packet state for a packet numbered 0, which a fresh sorter
  -- expects: the second packet is then due, and sets the expectation, whatever its number.
  pub zero_first :
      (increase sn : ℕ) (p q : A)
      → let s = (insert (init increase) 0 p).1 in
        ((insert s sn q).0 ≡ packet_now) × ((insert s sn q).1.now_sn ≡ u32 (sn + increase))
  unfolding insert init
  zero_first increase sn p q = ground arith
