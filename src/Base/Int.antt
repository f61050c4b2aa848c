-- ===== src/Base/Int.antt =====
-- Signed integers over the native numbers, and the `int16_t` that two bytes hold.
use Prim.Native.Nat.{ℕ, suc, ◌+◌, ◌-◌, ◌^◌, ◌<◌}
use mathlib.Core.Path.{◌≡◌}
use native.Mathlib.Omega.{arith}
use codec_single_thread.Base.Tests.{ltb, leb, if◌then◌else◌}

-- `negsuc n` is -(n + 1).
pub data ℤ : Type 0 where
  pos : ℕ → ℤ
  negsuc : ℕ → ℤ

-- a - b, as an integer
abbrev pub sub_ℕ : ℕ → ℕ → ℤ
sub_ℕ a b = if leb b a then pos (a - b) else negsuc (b - a - 1)

abbrev pub abs : ℤ → ℕ
abs (pos n) = n
abs (negsuc n) = suc n

-- |a - b|
abbrev pub distance : ℤ → ℤ → ℕ
distance (pos a) (pos b) = (a - b) + (b - a)
distance (pos a) (negsuc b) = a + suc b
distance (negsuc a) (pos b) = suc a + b
distance (negsuc a) (negsuc b) = (a - b) + (b - a)

-- The values of `int16_t`.
abbrev pub FitsInt16 : ℤ → Type 0
FitsInt16 (pos n) = n < 2 ^ 15
FitsInt16 (negsuc n) = n < 2 ^ 15

-- The bit pattern of an `int16_t`, and the value of a pattern.
abbrev pub bits16 : ℤ → ℕ
bits16 (pos n) = n
bits16 (negsuc n) = 2 ^ 16 - suc n

abbrev pub signed16 : ℕ → ℤ
signed16 w = if ltb w (2 ^ 15) then pos w else negsuc (2 ^ 16 - w - 1)

pub signed16-bits16 : (x : ℤ) → FitsInt16 x → signed16 (bits16 x) ≡ x
signed16-bits16 (pos n) h = ground arith
signed16-bits16 (negsuc n) h = ground arith

pub signed16-Fits : (w : ℕ) → w < 2 ^ 16 → FitsInt16 (signed16 w)
signed16-Fits w h = ground arith
