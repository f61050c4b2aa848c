-- ===== src/Sorter/Memory.antt =====
-- The memory of the packets that `PacketSorter` is handed, in src/utils.cpp: which pointers it deletes,
-- which it hands out, and which nobody keeps.
--
-- A packet is the number of its pointer.
pub mod Count
pub mod Lost
use codec_single_thread.Sorter
use codec_single_thread.Sorter.{Sorter, PacketStatus, packet_now, packet_next, packet_behind, less}
use codec_single_thread.Base.{
  ℕ, Bool, true, false, List, [], ◌∷◌, ◌++◌, none, some, map, if◌then◌else◌,
}

abbrev pub packets : List (ℕ × ℕ) → List ℕ
packets entries = map (λ e. e.1) entries

-- Whether `data_.emplace(sn, data)` stores: it does not where an equivalent key is there.
pub stores : ℕ → List (ℕ × ℕ) → Bool
stores sn [] = true
stores sn ((k, p) ∷ m) = if less sn k then true else if less k sn then stores sn m else false

-- The packets that the loop of `Skip` deletes.
pub overtaken : ℕ → List (ℕ × ℕ) → List ℕ
overtaken now [] = []
overtaken now ((k, p) ∷ m) = if less k now then p ∷ overtaken now m else []

-- The sorter, the packets that it has deleted and handed out, those that `Insert` has left with its
-- caller, and those that it has neither stored nor left.
pub record Memory : Type 0 where
  pub sorter : Sorter ℕ
  pub deleted : List ℕ
  pub given : List ℕ
  pub left : List ℕ
  pub lost : List ℕ

pub data Call : Type 0 where
  init_call : ℕ → Call
  insert_call : ℕ → ℕ → Call
  get_call : Call
  skip_call : ℕ → Call

-- A packet that `Insert` was handed, by its result: the caller takes `kPacketNext` to mean that the
-- sorter has it.
pub on_status : ℕ → Bool → PacketStatus → Memory → Memory
on_status p stored packet_now m = record m { left = p ∷ m.left }
on_status p stored packet_behind m = record m { left = p ∷ m.left }
on_status p stored packet_next m = if stored then m else record m { lost = p ∷ m.lost }

pub perform : Memory → Call → Memory
unfolding stores overtaken on_status
perform m (init_call increase) = record m {
  sorter = Sorter.init increase;
  deleted = packets m.sorter.entries ++ m.deleted;
}
perform m (insert_call sn p) =
    let (status, sorter) = Sorter.insert m.sorter sn p in
    on_status p (stores sn m.sorter.entries) status (record m { sorter = sorter })
perform m get_call =
    let (p, sorter) = Sorter.get m.sorter in
    record m { sorter = sorter; given = elim p [ none ↦ m.given | some q ↦ q ∷ m.given ] }
perform m (skip_call num) =
    let after : Sorter ℕ = Sorter.skip m.sorter num in
    record m { sorter = after; deleted = overtaken after.now_sn m.sorter.entries ++ m.deleted }

unfoldable pub perform_all : Memory → List Call → Memory
unfolding perform
perform_all m [] = m
perform_all m (c ∷ cs) = perform_all (perform m c) cs
