-- ===== src/Sorter/Memory/Lost.antt =====
-- Which packets are lost: those that come again before they are due.
use codec_single_thread.Sorter
use codec_single_thread.Sorter.{Sorter, diff32, emplace, PacketStatus, packet_next}
use codec_single_thread.Sorter.Circle.{less_ahead, diff32_injective}
use codec_single_thread.Sorter.Window.{Ahead, IsValid, insert_cases}
use codec_single_thread.Sorter.Order.{lookup, lookup_before}
use codec_single_thread.Sorter.Memory.{insert_call, Memory, stores, on_status, perform}
use codec_single_thread.Base.{
  ℕ, suc, ◌<◌, ◌≤◌, ◌^◌, ◌≡◌, refl, arith, Bool, true, false, not, ◌&&◌, ◌==◌, List, [], ◌∷◌,
  Option, some, none, if◌then◌else◌, length, ◌+◌, ap, ◌∙◌,
}

abbrev pub is_none : Option ℕ → Bool
is_none none = true
is_none (some p) = false

stores-lookup :
    (now lo sn : ℕ) (m : List (ℕ × ℕ))
    → now < 2 ^ 32
    → sn < 2 ^ 32
    → diff32 sn now < 2 ^ 31
    → Ahead now lo m
    → stores sn m ≡ is_none (lookup sn m)
unfolding stores lookup
stores-lookup now lo sn [] hn hs hw a = refl
stores-lookup now lo sn ((k, q) ∷ m) hn hs hw a = ground (
  arith,
  less_ahead now sn k hn hs a.0 hw a.2,
  less_ahead now k sn hn a.0 hs a.2 hw,
  diff32_injective now k sn hn a.0 hs,
  lookup_before now (suc (diff32 k now)) sn m,
  stores-lookup now (suc (diff32 k now)) sn m hn hs hw a.3,
)

lookup_behind :
    (now lo sn : ℕ) (m : List (ℕ × ℕ))
    → 2 ^ 31 ≤ diff32 sn now
    → Ahead now lo m
    → lookup sn m ≡ none
unfolding lookup
lookup_behind now lo sn [] h a = refl
lookup_behind now lo sn ((k, q) ∷ m) h a =
    ground (arith, lookup_behind now (suc (diff32 k now)) sn m h a.3)

lookup_empty : (sn : ℕ) (m : List (ℕ × ℕ)) → length m ≡ 0 → lookup sn m ≡ none
unfolding lookup
lookup_empty sn [] h = refl
lookup_empty sn ((k, q) ∷ m) h = absurd (omega arith)

-- Whether a packet with the number is stored, and it is not the one that is due.
abbrev pub comes_again : Sorter ℕ → ℕ → Bool
comes_again s sn = not (is_none (lookup sn s.entries)) && not (s.now_sn == sn)

length-emplace :
    (sn p : ℕ) (m : List (ℕ × ℕ))
    → length (emplace sn p m) ≡ (if stores sn m then length m + 1 else length m)
unfolding emplace stores
length-emplace sn p [] = refl
length-emplace sn p ((k, q) ∷ m) = ground (arith, length-emplace sn p m)

emplace_kept : (sn p : ℕ) (m : List (ℕ × ℕ)) → stores sn m ≡ false → emplace sn p m ≡ m
unfolding emplace stores
emplace_kept sn p [] e = absurd (ground (arith, e))
emplace_kept sn p ((k, q) ∷ m) e = ground (arith, e, emplace_kept sn p m)

-- What `Insert` leaves where it says that the packet is stored: the sorter as it was, or one with a
-- packet more.
abbrev pub Kept : Sorter ℕ → Bool → PacketStatus × Sorter ℕ → Type 0
Kept s again r =
    (r.0 ≡ packet_next → again ≡ true → r.1 ≡ s)
    × (r.0 ≡ packet_next → again ≡ false → length r.1.entries ≡ length s.entries + 1)

lost_next :
    (s : Sorter ℕ) (sn p : ℕ) (again : Bool)
    → stores sn s.entries ≡ not again
    → Kept s again (packet_next, record s { entries = emplace sn p s.entries })
lost_next s sn p again e = (
  λ _ a.
      ap (λ (m : List (ℕ × ℕ)). record s { entries = m })
        (emplace_kept sn p s.entries (ground (arith, e, a))),
  λ _ a. ground (arith, length-emplace sn p s.entries, e, a),
)

-- A packet that a valid sorter is handed by `Insert` is lost exactly if another one with its number is
-- stored and is not yet due. `Insert` then says that it has stored the packet, and leaves the sorter as
-- it was; otherwise, where it says so, the sorter holds one packet more. Nothing else is lost.
pub insert_lost :
    (m : Memory) (sn p : ℕ)
    → sn < 2 ^ 32
    → IsValid m.sorter
    → ((perform m (insert_call sn p)).lost
        ≡ (if comes_again m.sorter sn then p ∷ m.lost else m.lost))
      × Kept m.sorter (comes_again m.sorter sn) (Sorter.insert m.sorter sn p)
unfolding perform on_status
insert_lost m sn p hs v =
    let s = m.sorter in
    insert_cases
      (λ r.
        ((on_status p (stores sn s.entries) r.0 (record m { sorter = r.1 })).lost
          ≡ (if comes_again s sn then p ∷ m.lost else m.lost))
        × Kept s (comes_again s sn) r)
      s sn p v.now_fits hs (λ due. (ground (arith, due), ground arith))
      (λ _ first. (rw (lookup_empty sn s.entries (v.empty_first first)) refl, ground arith))
      (λ _ _ behind. (rw (lookup_behind s.now_sn 0 sn s.entries behind v.ahead) refl, ground arith))
      (λ later _ near.
        let e = stores-lookup s.now_sn 0 sn s.entries v.now_fits hs near v.ahead in
        (
          rw e (ground (arith, later)),
          lost_next s sn p (comes_again s sn) (e ∙ ground (arith, later)),
        ))
