-- ===== src/Sorter/Memory/Count.antt =====
-- No packet disappears from the sorter's accounts, and none is in two of them.
use codec_single_thread.Sorter
use codec_single_thread.Sorter.{Sorter, emplace, drop_behind, get_from}
use codec_single_thread.Sorter.Memory.{
  init_call, insert_call, get_call, skip_call, Memory, Call, packets, stores, overtaken, perform,
  perform_all,
}
use codec_single_thread.Base.{
  ℕ, ◌+◌, ◌≡◌, refl, arith, List, [], ◌∷◌, ◌++◌, none, some, ◌==◌, if◌then◌else◌,
}

-- How often a pointer stands in a list.
pub count : ℕ → List ℕ → ℕ
count p [] = 0
count p (q ∷ qs) = let rest = count p qs in if q == p then rest + 1 else rest

-- How often it is handed to `Insert`.
pub handed : ℕ → List Call → ℕ
handed p [] = 0
handed p (insert_call sn q ∷ cs) = count p (q ∷ []) + handed p cs
handed p (init_call increase ∷ cs) = handed p cs
handed p (get_call ∷ cs) = handed p cs
handed p (skip_call num ∷ cs) = handed p cs

count-append : (p : ℕ) (xs ys : List ℕ) → count p (xs ++ ys) ≡ count p xs + count p ys
unfolding count
count-append p [] ys = omega arith
count-append p (x ∷ xs) ys = ground (arith, count-append p xs ys)

-- The accounts of a pointer.
abbrev pub accounts : ℕ → Memory → ℕ
accounts p m =
    count p (packets m.sorter.entries)
    + count p m.deleted
    + count p m.given
    + count p m.left
    + count p m.lost

count-emplace :
    (p sn q : ℕ) (m : List (ℕ × ℕ))
    → count p (packets (emplace sn q m))
      ≡ count p (packets m) + (if stores sn m then count p (q ∷ []) else 0)
unfolding count emplace stores
count-emplace p sn q [] = ground arith
count-emplace p sn q ((k, r) ∷ m) = ground (arith, count-emplace p sn q m)

count-drop_behind :
    (p now : ℕ) (m : List (ℕ × ℕ))
    → count p (packets (drop_behind now m)) + count p (overtaken now m) ≡ count p (packets m)
unfolding count drop_behind overtaken
count-drop_behind p now [] = refl
count-drop_behind p now ((k, r) ∷ m) = ground (arith, count-drop_behind p now m)

get-accounts :
    (p : ℕ) (s : Sorter ℕ) (m : List (ℕ × ℕ))
    → count p (packets m) ≡ count p (packets s.entries)
    → let (q, s') = get_from s m in
      count p (packets s'.entries) + elim q [ none ↦ 0 | some r ↦ count p (r ∷ []) ]
      ≡ count p (packets s.entries)
unfolding count get_from
get-accounts p s [] e = omega arith
get-accounts p s ((k, r) ∷ m) e = ground (arith, e)

perform-accounts :
    (p : ℕ) (m : Memory) (c : Call) → accounts p (perform m c) ≡ accounts p m + handed p (c ∷ [])
unfolding perform count handed Sorter.init Sorter.insert Sorter.get Sorter.skip
perform-accounts p m (init_call increase) =
    omega (arith, count-append p (packets m.sorter.entries) m.deleted)
perform-accounts p m (insert_call sn q) = ground (arith, count-emplace p sn q m.sorter.entries)
perform-accounts p m get_call = ground (arith, get-accounts p m.sorter m.sorter.entries refl)
perform-accounts p m (skip_call num) =
    let now = (Sorter.skip m.sorter num).now_sn in
    omega (
      arith,
      count-append p (overtaken now m.sorter.entries) m.deleted,
      count-drop_behind p now m.sorter.entries,
    )

handed-cons :
    (p : ℕ) (c : Call) (cs : List Call) → handed p (c ∷ cs) ≡ handed p (c ∷ []) + handed p cs
unfolding handed count
handed-cons p (init_call increase) cs = omega arith
handed-cons p (insert_call sn q) cs = ground arith
handed-cons p get_call cs = omega arith
handed-cons p (skip_call num) cs = omega arith

-- Whatever calls of `Init`, `Insert`, `Get` and `Skip` come, every packet that `Insert` was handed is
-- in one place for each time: stored, deleted, handed out, left with the caller, or lost. So a pointer
-- that is handed over once is never deleted twice, nor handed out or left after it was deleted.
pub perform_all-accounts :
    (p : ℕ) (m : Memory) (cs : List Call)
    → accounts p (perform_all m cs) ≡ accounts p m + handed p cs
unfolding perform_all handed
perform_all-accounts p m [] = omega arith
perform_all-accounts p m (c ∷ cs) =
    omega
      (arith, perform_all-accounts p (perform m c) cs, perform-accounts p m c, handed-cons p c cs)
