-- ===== src/AmrWb/Align/Shifted.antt =====
-- The bits that `AMRNoOctetAlign` writes, read back.
use codec_single_thread.AmrWb.Align.{set, align_loop, amr_no_octet_align}
use codec_single_thread.Base.{
  ℕ, zero, suc, ◌+◌, ◌*◌, ◌/◌, ◌%◌, ◌^◌, ◌<◌, ◌≡◌, refl, ap, ◌∙◌, arith, List, [], ◌∷◌, bit_or,
  bit_and, get_or, length, AllBytes, bit_or_sixes, bit_or_nibbles, bit_and_top, ◌==◌, if◌then◌else◌,
}

get_or-set :
    (xs : List ℕ) (i j v : ℕ)
    → i < length xs
    → get_or (set xs i v) j 0 ≡ (if j == i then v else get_or xs j 0)
get_or-set [] i j v h = absurd (omega arith)
get_or-set (x ∷ xs) zero zero v h = ground arith
get_or-set (x ∷ xs) zero (suc j) v h = ground arith
get_or-set (x ∷ xs) (suc i) zero v h = ground arith
get_or-set (x ∷ xs) (suc i) (suc j) v h = ground (arith, get_or-set xs i j v (omega arith))

length-set : (xs : List ℕ) (i v : ℕ) → length (set xs i v) ≡ length xs
length-set [] i v = refl
length-set (x ∷ xs) zero v = refl
length-set (x ∷ xs) (suc i) v = ap suc (length-set xs i v)

-- The target of a round of the loop.
abbrev step : ℕ → ℕ → List ℕ → List ℕ
step s offset tar =
    let tar' : List ℕ = set tar offset (bit_or (get_or tar offset 0) (s / 2 ^ 2)) in
    set tar' (offset + 1) (bit_and (s * 2 ^ 6 % 2 ^ 8) 0xc0)

length-step : (s offset : ℕ) (tar : List ℕ) → length (step s offset tar) ≡ length tar
length-step s offset tar =
    length-set (set tar offset (bit_or (get_or tar offset 0) (s / 2 ^ 2))) (offset + 1)
      (bit_and (s * 2 ^ 6 % 2 ^ 8) 0xc0)
    ∙ length-set tar offset (bit_or (get_or tar offset 0) (s / 2 ^ 2))

get_or-step :
    (s offset j : ℕ) (tar : List ℕ)
    → offset + 1 < length tar
    → get_or (step s offset tar) j 0 ≡ (
        if j == offset + 1
        then bit_and (s * 2 ^ 6 % 2 ^ 8) 0xc0
        else if j == offset
        then bit_or (get_or tar offset 0) (s / 2 ^ 2)
        else get_or tar j 0)
get_or-step s offset j tar room =
    let v = bit_or (get_or tar offset 0) (s / 2 ^ 2) in
    ground (
      arith,
      get_or-set (set tar offset v) (offset + 1) j (bit_and (s * 2 ^ 6 % 2 ^ 8) 0xc0)
          (omega (arith, length-set tar offset v)),
      get_or-set tar offset j v (omega arith),
    )

-- The loop leaves what stands before `offset`.
align_loop-below :
    (src : List ℕ) (offset i : ℕ) (tar : List ℕ)
    → offset + length src < length tar
    → i < offset
    → get_or (align_loop src offset tar) i 0 ≡ get_or tar i 0
unfolding align_loop
align_loop-below [] offset i tar room below = refl
align_loop-below (s ∷ src) offset i tar room below =
    align_loop-below src (offset + 1) i (step s offset tar)
      (omega (arith, length-step s offset tar)) (omega arith)
    ∙ ground (arith, get_or-step s offset i tar (omega arith))

-- Byte `j` of the source stands in the low six bits of one byte of the target and the high two of the
-- next.
abbrev Shifted : List ℕ → ℕ → List ℕ → Type 0
Shifted src offset out =
    (j : ℕ)
    → j < length src
    → get_or src j 0 ≡ get_or out (offset + j) 0 % 64 * 4 + get_or out (offset + (j + 1)) 0 / 64

Shifted-cons :
    (s offset : ℕ) (src out : List ℕ)
    → s ≡ get_or out offset 0 % 64 * 4 + get_or out (offset + 1) 0 / 64
    → Shifted src (offset + 1) out
    → Shifted (s ∷ src) offset out
Shifted-cons s offset src out first later zero h =
    first
    ∙ ap (λ n. get_or out n 0 % 64 * 4 + get_or out (offset + 1) 0 / 64) {y = offset + 0}
        (omega arith)
    ∙ ap (λ n. get_or out (offset + 0) 0 % 64 * 4 + get_or out n 0 / 64) {y = offset + (0 + 1)}
        (omega arith)
Shifted-cons s offset src out first later (suc j) h =
    later j (omega arith)
    ∙ ap (λ n. get_or out n 0 % 64 * 4 + get_or out (offset + 1 + (j + 1)) 0 / 64)
        {y = offset + suc j} (omega arith)
    ∙ ap (λ n. get_or out (offset + suc j) 0 % 64 * 4 + get_or out n 0 / 64)
        {y = offset + (suc j + 1)} (omega arith)

align_loop-Shifted :
    (src : List ℕ) (offset c : ℕ) (tar : List ℕ)
    → AllBytes src
    → offset + length src < length tar
    → c < 4
    → get_or tar offset 0 ≡ c * 64
    → Shifted src offset (align_loop src offset tar)
      × (get_or (align_loop src offset tar) offset 0 / 64 ≡ c)
unfolding align_loop
align_loop-Shifted [] offset c tar bytes room small at =
    (λ j h. absurd (omega arith), omega (arith, at))
align_loop-Shifted (s ∷ src) offset c tar bytes room small at =
    let next = step s offset tar in
    let size : length next ≡ length tar = length-step s offset tar in
    let out = align_loop src (offset + 1) next in
    let carried : get_or next (offset + 1) 0 ≡ s % 4 * 64 = ground (
      arith,
      get_or-step s offset (offset + 1) tar (omega arith),
      bit_and_top (s * 2 ^ 6 % 2 ^ 8) (omega arith),
      bytes.0,
    ) in
    let joined : get_or next offset 0 ≡ c * 64 + s / 4 = ground (
      arith,
      get_or-step s offset offset tar (omega arith),
      ap (λ k. bit_or k (s / 2 ^ 2)) at,
      bit_or_sixes c (s / 4) small (omega (arith, bytes.0)),
    ) in
    let kept = align_loop-below src (offset + 1) offset next (omega (arith, size)) (omega arith) in
    let (later, top) =
      align_loop-Shifted src (offset + 1) (s % 4) next bytes.1 (omega (arith, size)) (omega arith)
        carried in
    (
      Shifted-cons s offset src out (omega (arith, kept, joined, top, bytes.0)) later,
      omega (arith, kept, joined, bytes.0),
    )

-- A frame of the library with room behind it: every byte of it but the first stands in the aligned
-- target, in the low six bits of one byte and the high two of the next; the upper six bits of the
-- first stand behind the four bits of the mode request, which are all 1.
pub amr_no_octet_align-Shifted :
    (tar : List ℕ) (first : ℕ) (src : List ℕ)
    → AllBytes (first ∷ src)
    → length src + 1 < length tar
    → let out = (amr_no_octet_align tar (first ∷ src)).0 in
      (get_or out 0 0 / 16 ≡ 15)
      × (first / 4 ≡ get_or out 0 0 % 16 * 4 + get_or out 1 0 / 64)
      × ((j : ℕ)
          → j < length src
          → get_or src j 0 ≡ get_or out (1 + j) 0 % 64 * 4 + get_or out (1 + (j + 1)) 0 / 64)
unfolding amr_no_octet_align
amr_no_octet_align-Shifted tar first src bytes room =
    let one = set tar 0 (bit_or 0xf0 (first / 2 ^ 4)) in
    let start = set one 1 (bit_and (first * 2 ^ 4 % 2 ^ 8) 0xc0) in
    let size : length start ≡ length tar =
      length-set one 1 (bit_and (first * 2 ^ 4 % 2 ^ 8) 0xc0)
      ∙ length-set tar 0 (bit_or 0xf0 (first / 2 ^ 4)) in
    let at_0 : get_or start 0 0 ≡ 0xf0 + first / 16 = ground (
      arith,
      get_or-set one 1 0 (bit_and (first * 2 ^ 4 % 2 ^ 8) 0xc0)
          (omega (arith, length-set tar 0 (bit_or 0xf0 (first / 2 ^ 4)))),
      get_or-set tar 0 0 (bit_or 0xf0 (first / 2 ^ 4)) (omega arith),
      bit_or_nibbles 15 (first / 16) (omega arith) (omega (arith, bytes.0)),
    ) in
    let at_1 : get_or start 1 0 ≡ first / 4 % 4 * 64 = ground (
      arith,
      get_or-set one 1 1 (bit_and (first * 2 ^ 4 % 2 ^ 8) 0xc0)
          (omega (arith, length-set tar 0 (bit_or 0xf0 (first / 2 ^ 4)))),
      bit_and_top (first * 2 ^ 4 % 2 ^ 8) (omega arith),
      bytes.0,
    ) in
    let kept = align_loop-below src 1 0 start (omega (arith, size)) (omega arith) in
    let (shifted, top) =
      align_loop-Shifted src 1 (first / 4 % 4) start bytes.1 (omega (arith, size)) (omega arith)
        at_1 in
    (omega (arith, kept, at_0, bytes.0), omega (arith, kept, at_0, top, bytes.0), shifted)
