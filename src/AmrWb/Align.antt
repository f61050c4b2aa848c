-- ===== src/AmrWb/Align.antt =====
-- `AMRNoOctetAlign`: the octet-aligned frame of the library, moved up by the four bits of the mode
-- request and without the two padding bits of its first byte.
pub mod Shifted
use codec_single_thread.Base.{
  ℕ, ◌+◌, ◌*◌, ◌/◌, ◌%◌, ◌^◌, bit_and, bit_or, List, [], ◌∷◌, get_or, ◌==◌, if◌then◌else◌, length,
  zero, suc, drop,
}

-- A write out of range changes nothing.
abbrev pub set : List ℕ → ℕ → ℕ → List ℕ
set [] i v = []
set (x ∷ xs) zero v = v ∷ xs
set (x ∷ xs) (suc i) v = x ∷ set xs i v

-- The loop, over the bytes of the frame that are left, from `offset` on.
pub align_loop : List ℕ → ℕ → List ℕ → List ℕ
align_loop [] offset tar = tar
align_loop (s ∷ src) offset tar =
    let tar' : List ℕ = set tar offset (bit_or (get_or tar offset 0) (s / 2 ^ 2)) in
    align_loop src (offset + 1) (set tar' (offset + 1) (bit_and (s * 2 ^ 6 % 2 ^ 8) 0xc0))

-- The target, and the number that the function returns. `len` is the frame's length; the first byte
-- is read in any case.
unfoldable pub amr_no_octet_align : List ℕ → List ℕ → List ℕ × ℕ
unfolding align_loop
amr_no_octet_align tar src =
    let len : ℕ = length src in
    let first : ℕ = get_or src 0 0 in
    let start : List ℕ =
      set (set tar 0 (bit_or 0xf0 (first / 2 ^ 4))) 1 (bit_and (first * 2 ^ 4 % 2 ^ 8) 0xc0) in
    let aligned : List ℕ = align_loop (drop 1 src) 1 start in
    (aligned, if get_or aligned len 0 == 0 then len else len + 1)
