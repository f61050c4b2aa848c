-- ===== src/Sorter/Tests.antt =====
-- Runs of the packet sorter, and its theorems at concrete packets.
mod Memory
use codec_single_thread.Sorter.{
  packet_now, packet_next, packet_behind, Sorter, init, insert, get, less,
}
use codec_single_thread.Sorter.Window.{IsValid, insert-IsValid}
use codec_single_thread.Sorter.Order.{lookup, get_or_else, insert_lem}
use codec_single_thread.Sorter.Delivery.{statuses}
use codec_single_thread.Base.{[], ◌∷◌, some, true, false, refl, ℕ, ◌≡◌, arith}

-- Packets are named by numbers. The next packet due is 512; 1024 waits.
abbrev pub waiting : Sorter ℕ
waiting = record { is_first = false; increase = 256; now_sn = 512; entries = (1024, 70) ∷ [] }

abbrev due_stored : Sorter ℕ
due_stored = record waiting { now_sn = 1024 }

late_then_early :
    statuses {A = ℕ} (init 256) ((256, 1) ∷ (1024, 2) ∷ (256, 3) ∷ (512, 4) ∷ [])
    ≡ packet_now ∷ packet_next ∷ packet_behind ∷ packet_now ∷ []
unfolding statuses init insert
late_then_early = refl

get_stored : get due_stored ≡ (some 70, record due_stored { entries = [] })
unfolding get
get_stored = refl

wraps : less 0xFFFF_FF00 0x100 ≡ true
wraps = refl

pub waiting-IsValid : IsValid waiting
waiting-IsValid = record {
  now_fits = omega arith;
  increase_fits = omega arith;
  ahead = omega arith;
  empty_first = λ e. cc;
}

due_stored-IsValid : IsValid due_stored
due_stored-IsValid = record {
  now_fits = omega arith;
  increase_fits = omega arith;
  ahead = omega arith;
  empty_first = λ e. cc;
}

insert-IsValid_example : IsValid (insert waiting 768 71).1
insert-IsValid_example =
    insert-IsValid waiting 768 71 (omega arith) (λ e. absurd (omega arith)) waiting-IsValid

insert_lem_example :
    ((insert waiting 768 71).0 ≡ packet_next)
    × ((insert waiting 768 71).1.now_sn ≡ 512)
    × (lookup 768 (insert waiting 768 71).1.entries
        ≡ some (get_or_else (lookup 768 waiting.entries) 71))
insert_lem_example = insert_lem waiting 768 768 71 (omega arith) waiting-IsValid
