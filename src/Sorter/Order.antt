-- ===== src/Sorter/Order.antt =====
-- The sorter seen as a finite map from sequence numbers to packets.

use native.Mathlib.Decide.{dec_lt}
use codec_single_thread.Sorter.{
  diff32, emplace, drop_behind, skip, Sorter, get_from, insert, packet_now, packet_next,
  packet_behind, get,
}
use codec_single_thread.Sorter.Circle.{
  less_ahead, diff32_injective, diff32_overtaken, diff32-advance,
}
use codec_single_thread.Sorter.Window.{Ahead, IsValid}
use codec_single_thread.Base.{
  [], ◌∷◌, some, none, suc, refl, Option, ℕ, List, ◌<◌, ◌≡◌, ◌^◌, arith, if◌then◌else◌, ◌==◌, ◌≤◌,
  ◌*◌, u32, ◌+◌, ltb, ◌||◌, ◌%◌, not, ◌&&◌,
}

abbrev pub get_or_else {ℓ} : {A : Type ℓ} → Option A → A → A
get_or_else none p = p
get_or_else (some q) p = q

module _ {A : Type 0} where
  -- The packet of a number.
  unfoldable pub lookup : ℕ → List (ℕ × A) → Option A
  lookup j [] = none
  lookup j ((k, p) ∷ m) = if k == j then some p else lookup j m

  -- What lies nearer than every entry has none.
  pub lookup_before :
      (now lo j : ℕ) (m : List (ℕ × A)) → diff32 j now < lo → Ahead now lo m → lookup j m ≡ none
  unfolding lookup
  lookup_before now lo j [] h a = refl
  lookup_before now lo j ((k, p) ∷ m) h a =
      ground (arith, lookup_before now (suc (diff32 k now)) j m)

  -- `emplace` adds the packet under its number, if there is none yet.
  pub lookup-emplace :
      (now lo sn j : ℕ) (p : A) (m : List (ℕ × A))
      → now < 2 ^ 32
      → sn < 2 ^ 32
      → diff32 sn now < 2 ^ 31
      → Ahead now lo m
      → lookup j (emplace sn p m)
        ≡ (if j == sn then some (get_or_else (lookup sn m) p) else lookup j m)
  unfolding lookup emplace
  lookup-emplace now lo sn j p [] hn hs hw a = ground arith
  lookup-emplace now lo sn j p ((k, q) ∷ m) hn hs hw a = ground (
    arith,
    less_ahead now sn k hn hs a.0 hw a.2,
    less_ahead now k sn hn a.0 hs a.2 hw,
    diff32_injective now k sn hn a.0 hs,
    lookup_before now (suc (diff32 k now)) sn m,
    lookup-emplace now (suc (diff32 k now)) sn j p m hn hs hw a.3,
  )

  -- The number is that of an entry, or none is stored for it: after dropping, exactly what has
  -- been overtaken is gone.
  lookup-drop_behind :
      (now n lo j : ℕ) (m : List (ℕ × A))
      → now < 2 ^ 32
      → n ≤ 2 ^ 31
      → j < 2 ^ 32
      → Ahead now lo m
      → lookup j (drop_behind (u32 (now + n)) m)
        ≡ (if ltb (diff32 j now) n then none else lookup j m)
  unfolding lookup drop_behind
  lookup-drop_behind now n lo j [] hn h hj a = ground arith
  lookup-drop_behind now n lo j ((k, p) ∷ m) hn h hj a = elim (dec_lt (diff32 k now) n) [
    | yes gone ↦ ground (
      arith,
      diff32_overtaken now n k hn a.0 h gone,
      lookup-drop_behind now n (suc (diff32 k now)) j m hn h hj a.3,
      diff32_injective now k j hn a.0 hj,
    )
    | no stays ↦ ground (
      arith,
      diff32-advance now n k hn a.0,
      diff32_injective now k j hn a.0 hj,
      lookup_before now (suc (diff32 k now)) j m,
    )
  ]

  -- `Skip` moves the expected number on and forgets exactly the packets that it overtakes, if it
  -- moves by at most half a turn.
  pub skip_lem :
      (s : Sorter A) (num j : ℕ)
      → num * s.increase ≤ 2 ^ 31
      → j < 2 ^ 32
      → IsValid s
      → ((skip s num).now_sn ≡ (s.now_sn + num * s.increase) % 2 ^ 32)
        × (lookup j (skip s num).entries
            ≡ (if ltb (diff32 j s.now_sn) (num * s.increase) then none else lookup j s.entries))
  unfolding skip
  skip_lem s num j h hj v =
      (refl, lookup-drop_behind s.now_sn (num * s.increase) 0 j s.entries v.now_fits h hj v.ahead)

  insert_status :
      (s : Sorter A) (sn : ℕ) (p : A)
      → sn < 2 ^ 32
      → s.now_sn < 2 ^ 32
      → (insert s sn p).0 ≡ (
          if (s.now_sn == sn) || s.is_first
          then packet_now
          else if ltb (diff32 sn s.now_sn) (2 ^ 31)
          then packet_next
          else packet_behind)
  unfolding insert
  insert_status s sn p hs hn = ground arith

  insert_now :
      (s : Sorter A) (sn : ℕ) (p : A)
      → sn < 2 ^ 32
      → s.now_sn < 2 ^ 32
      → (insert s sn p).1.now_sn
        ≡ (if (s.now_sn == sn) || s.is_first then u32 (sn + s.increase) else s.now_sn)
  unfolding insert
  insert_now s sn p hs hn = ground arith

  insert_entries :
      (s : Sorter A) (sn j : ℕ) (p : A)
      → sn < 2 ^ 32
      → IsValid s
      → lookup j (insert s sn p).1.entries ≡ (
          if not ((s.now_sn == sn) || s.is_first)
            && (ltb (diff32 sn s.now_sn) (2 ^ 31) && (j == sn))
          then some (get_or_else (lookup sn s.entries) p)
          else lookup j s.entries)
  unfolding insert
  insert_entries s sn j p hs v =
      ground (arith, v.now_fits, lookup-emplace s.now_sn 0 sn j p s.entries v.now_fits hs, v.ahead)

  -- `Insert` by the circular distance of the number from the expected one. The expected number, or
  -- any for the first packet, is due now and moves the expectation on; up to half a turn ahead is
  -- stored under its number unless one is there; the rest is behind and changes nothing.
  pub insert_lem :
      (s : Sorter A) (sn j : ℕ) (p : A)
      → sn < 2 ^ 32
      → IsValid s
      → let (status, s') = insert s sn p in
        let due = (s.now_sn == sn) || s.is_first in
        (status ≡ (
          if due
          then packet_now
          else if ltb (diff32 sn s.now_sn) (2 ^ 31)
          then packet_next
          else packet_behind))
        × (s'.now_sn ≡ (if due then u32 (sn + s.increase) else s.now_sn))
        × (lookup j s'.entries ≡ (
            if not due && (ltb (diff32 sn s.now_sn) (2 ^ 31) && (j == sn))
            then some (get_or_else (lookup sn s.entries) p)
            else lookup j s.entries))
  insert_lem s sn j p hs v = (
    insert_status s sn p hs v.now_fits,
    insert_now s sn p hs v.now_fits,
    insert_entries s sn j p hs v,
  )

  get_from_lem :
      (s : Sorter A) (m : List (ℕ × A)) (j : ℕ)
      → s.now_sn < 2 ^ 32
      → j < 2 ^ 32
      → Ahead s.now_sn 0 m
      → ((get_from s m).0 ≡ lookup s.now_sn m) × ((get_from s m).1.now_sn ≡ s.now_sn)
  unfolding get_from lookup
  get_from_lem s [] j hn hj a = (refl, refl)
  get_from_lem s ((k, p) ∷ m) j hn hj a = ground (
    arith,
    lookup_before s.now_sn (suc (diff32 k s.now_sn)) s.now_sn m,
    diff32_injective s.now_sn k s.now_sn hn a.0 hn,
  )

  -- `Get` gives out the packet stored for the expected number, if there is one, and leaves the
  -- expectation as it is.
  pub get_lem :
      (s : Sorter A)
      → IsValid s
      → ((get s).0 ≡ lookup s.now_sn s.entries) × ((get s).1.now_sn ≡ s.now_sn)
  unfolding get
  get_lem s v = get_from_lem s s.entries 0 v.now_fits (omega arith) v.ahead
