-- ===== src/Sorter/Tests/Memory.antt =====
-- A packet that comes twice, and what becomes of the two.
use codec_single_thread.Sorter
use codec_single_thread.Sorter.Memory.{
  init_call, insert_call, get_call, skip_call, Memory, Call, perform, perform_all,
}
use codec_single_thread.Sorter.Memory.Count.{accounts, handed, perform_all-accounts}
use codec_single_thread.Sorter.Memory.Lost.{comes_again, Kept, insert_lost}
use codec_single_thread.Sorter
use codec_single_thread.Sorter.Tests.{waiting, waiting-IsValid}
use codec_single_thread.Base.{◌+◌, ◌≡◌, refl, arith, List, [], ◌∷◌, if◌then◌else◌}

-- The pointer 70 waits with the number 1024.
abbrev memory : Memory
memory = record { sorter = waiting; deleted = []; given = []; left = []; lost = [] }

abbrev calls : List Call
calls =
    insert_call 768 71
    ∷ (insert_call 1024 72 ∷ (insert_call 512 73 ∷ (get_call ∷ (skip_call 2 ∷ (init_call 1 ∷ [])))))

twice : perform_all memory calls ≡ record {
  sorter = Sorter.init 1;
  deleted = 70 ∷ [];
  given = 71 ∷ [];
  left = 73 ∷ [];
  lost = 72 ∷ [];
}
unfolding perform_all Sorter.init Sorter.insert Sorter.get Sorter.skip
twice = refl

perform_all-accounts_example :
    accounts 72 (perform_all memory calls) ≡ accounts 72 memory + handed 72 calls
perform_all-accounts_example = perform_all-accounts 72 memory calls

insert_lost_example :
    ((perform memory (insert_call 1024 72)).lost
      ≡ (if comes_again memory.sorter 1024 then 72 ∷ memory.lost else memory.lost))
    × Kept memory.sorter (comes_again memory.sorter 1024) (Sorter.insert memory.sorter 1024 72)
insert_lost_example = insert_lost memory 1024 72 (omega arith) waiting-IsValid
