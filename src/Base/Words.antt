-- ===== src/Base/Words.antt =====
-- Machine words as native numbers, and the byte order of a little-endian host.
use Prim.Native.Nat.{ℕ, ◌+◌, ◌-◌, ◌*◌, ◌/◌, ◌%◌, ◌^◌, ◌<◌}
use mathlib.Core.Path.{◌≡◌, ap, ◌∙◌}
use mathlib.Core.List.{List, [], ◌∷◌}
use native.Mathlib.Omega.{arith}
use codec_single_thread.Base.Lists.{get_or}

abbrev pub u8 : ℕ → ℕ
u8 x = x % 2 ^ 8

abbrev pub u16 : ℕ → ℕ
u16 x = x % 2 ^ 16

abbrev pub u32 : ℕ → ℕ
u32 x = x % 2 ^ 32

-- uint32_t a - b
abbrev pub sub32 : ℕ → ℕ → ℕ
sub32 a b = (a + 2 ^ 32 - b % 2 ^ 32) % 2 ^ 32

-- Byte `i` of a word, the least significant first.
abbrev pub byte : ℕ → ℕ → ℕ
byte x i = x / 256 ^ i % 256

-- `htons`, `ntohs`, `htonl` and `ntohl` of a little-endian host swap the bytes.
unfoldable pub swap16 : ℕ → ℕ
swap16 x = byte x 0 * 2 ^ 8 + byte x 1

unfoldable pub swap32 : ℕ → ℕ
swap32 x = byte x 0 * 2 ^ 24 + byte x 1 * 2 ^ 16 + byte x 2 * 2 ^ 8 + byte x 3

-- The bytes of a word in memory.
abbrev pub store16 : ℕ → List ℕ
store16 x = byte x 0 ∷ byte x 1 ∷ []

abbrev pub store32 : ℕ → List ℕ
store32 x = byte x 0 ∷ byte x 1 ∷ byte x 2 ∷ byte x 3 ∷ []

-- The word at an offset of a buffer; a byte past the end reads as 0.
abbrev pub load16 : List ℕ → ℕ → ℕ
load16 xs i = get_or xs i 0 + get_or xs (i + 1) 0 * 2 ^ 8

abbrev pub load32 : List ℕ → ℕ → ℕ
load32 xs i =
    get_or xs i 0
    + get_or xs (i + 1) 0 * 2 ^ 8
    + get_or xs (i + 2) 0 * 2 ^ 16
    + get_or xs (i + 3) 0 * 2 ^ 24

pub swap16_twice : (x : ℕ) → x < 2 ^ 16 → swap16 (swap16 x) ≡ x
unfolding swap16
swap16_twice x h = omega arith

pub swap32_twice : (x : ℕ) → x < 2 ^ 32 → swap32 (swap32 x) ≡ x
unfolding swap32
swap32_twice x h = omega arith

pub swap16-lt : (x : ℕ) → swap16 x < 2 ^ 16
unfolding swap16
swap16-lt x = omega arith

pub swap32-lt : (x : ℕ) → swap32 x < 2 ^ 32
unfolding swap32
swap32-lt x = omega arith

-- A word put together from its bytes.
abbrev pub word16 : ℕ → ℕ
word16 x = byte x 0 + byte x 1 * 2 ^ 8

abbrev pub word32 : ℕ → ℕ
word32 x = byte x 0 + byte x 1 * 2 ^ 8 + byte x 2 * 2 ^ 16 + byte x 3 * 2 ^ 24

pub word16_lem : (x : ℕ) → x < 2 ^ 16 → word16 x ≡ x
word16_lem x h = omega arith

pub word32_lem : (x : ℕ) → x < 2 ^ 32 → word32 x ≡ x
word32_lem x h = omega arith

-- Into network order, through memory, and back into host order.
pub swap16_memory : (x : ℕ) → x < 2 ^ 16 → swap16 (word16 (swap16 x)) ≡ x
swap16_memory x h = ap swap16 (word16_lem (swap16 x) (swap16-lt x)) ∙ swap16_twice x h

pub swap32_memory : (x : ℕ) → x < 2 ^ 32 → swap32 (word32 (swap32 x)) ≡ x
swap32_memory x h = ap swap32 (word32_lem (swap32 x) (swap32-lt x)) ∙ swap32_twice x h
