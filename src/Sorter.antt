-- ===== src/Sorter.antt =====
-- `PacketSorter` of src/utils.h and src/utils.cpp: puts packets back in the order of their 32-bit
-- sequence numbers.
--
-- `data_` is the `std::map` from sequence numbers to packets, as the list of its entries in the order
-- of `CmpLess`. A packet is a pointer of the source; here any type. `Less` subtracts two `int32_t`;
-- where the difference does not fit, C++ leaves the result open, and the model takes the wrapped one,
-- the circular order that the sorter is written for.
pub mod Circle
pub mod Window
pub mod Order
pub mod Delivery
pub mod Memory
mod Tests
use codec_single_thread.Base.{
  ℕ, ◌+◌, ◌-◌, ◌*◌, ◌%◌, ◌^◌, Bool, true, false, List, [], ◌∷◌, Option, none, some, leb, ◌==◌,
  if◌then◌else◌, u32,
}

-- lh - rh, as a bit pattern of 32 bits
abbrev pub diff32 : ℕ → ℕ → ℕ
diff32 lh rh = (lh + 2 ^ 32 - rh) % 2 ^ 32

-- int32_t(lh) - int32_t(rh) < 0: the top bit of the difference
abbrev pub less : ℕ → ℕ → Bool
less lh rh = leb (2 ^ 31) (diff32 lh rh)

pub data PacketStatus : Type 0 where
  packet_now packet_next packet_behind : PacketStatus

module _ {ℓ} {A : Type ℓ} where
  -- `data_.emplace(sn, data)`: nothing happens if an equivalent key is there.
  pub emplace : ℕ → A → List (ℕ × A) → List (ℕ × A)
  emplace sn packet [] = (sn, packet) ∷ []
  emplace sn packet ((k, p) ∷ m) =
      if less sn k
      then (sn, packet) ∷ ((k, p) ∷ m)
      else if less k sn
      then (k, p) ∷ emplace sn packet m
      else (k, p) ∷ m

pub record Sorter {ℓ} (A : Type ℓ) : Type ℓ where
  pub is_first : Bool
  pub increase : ℕ
  pub now_sn : ℕ
  pub entries : List (ℕ × A)

module _ {ℓ} {A : Type ℓ} where
  pub init : ℕ → Sorter A
  init increase = record { is_first = true; increase = increase; now_sn = 0; entries = [] }

  pub insert : Sorter A → ℕ → A → PacketStatus × Sorter A
  unfolding emplace
  insert s sn packet =
      if s.now_sn == sn
      then (packet_now, record s { now_sn = u32 (s.now_sn + s.increase) })
      else if s.is_first
      then (packet_now, record s { now_sn = u32 (sn + s.increase); is_first = false })
      else if less sn s.now_sn
      then (packet_behind, s)
      else if less s.now_sn sn
      then (packet_next, record s { entries = emplace sn packet s.entries })
      else (packet_now, s)

  get_from : Sorter A → List (ℕ × A) → Option A × Sorter A
  get_from s [] = (none, s)
  get_from s ((k, p) ∷ m) = if k == s.now_sn then (some p, record s { entries = m }) else (none, s)

  -- `none` is the null pointer.
  pub get : Sorter A → Option A × Sorter A
  unfolding get_from
  get s = get_from s s.entries

  -- The loop of `Skip`: the entries behind are deleted from the front.
  pub drop_behind : ℕ → List (ℕ × A) → List (ℕ × A)
  drop_behind now [] = []
  drop_behind now ((k, p) ∷ m) = if less k now then drop_behind now m else (k, p) ∷ m

  pub skip : Sorter A → ℕ → Sorter A
  unfolding drop_behind
  skip s num =
      let now : ℕ = u32 (s.now_sn + num * s.increase) in
      record s { now_sn = now; entries = drop_behind now s.entries }
