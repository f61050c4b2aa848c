-- ===== src/Base/Bits.antt =====
-- `&`, `|` and `^` on bytes, as arithmetic: every value is checked.
use Prim.Native.Nat.{ℕ, ◌+◌, ◌-◌, ◌*◌, ◌/◌, ◌%◌, ◌<◌, bit_and, bit_or, bit_xor}
use mathlib.Core.Path.{◌≡◌, refl, ap}
use mathlib.Core.Bool.{true}
use native.Mathlib.Omega.{arith}
use codec_single_thread.Base.Tests.{◌==◌, ==_iff, all_below, all_below_apply}

xor_table : all_below 256 (λ x. bit_xor x 0xFF == 255 - x) ≡ true
unfolding all_below
xor_table = refl

pub bit_xor_ones : (x : ℕ) → x < 256 → bit_xor x 0xFF ≡ 255 - x
bit_xor_ones x h = (==_iff _ _).0 (all_below_apply 256 _ x xor_table h)

xor7_table : all_below 128 (λ x. bit_xor x 0x7F == 127 - x) ≡ true
unfolding all_below
xor7_table = refl

pub bit_xor_seven_ones : (x : ℕ) → x < 128 → bit_xor x 0x7F ≡ 127 - x
bit_xor_seven_ones x h = (==_iff _ _).0 (all_below_apply 128 _ x xor7_table h)

or_table : all_below 256 (λ v. bit_or (v / 16 * 16) (v % 16) == v) ≡ true
unfolding all_below
or_table = refl

-- A nibble shifted up and another below it.
pub bit_or_nibbles : (hi lo : ℕ) → hi < 16 → lo < 16 → bit_or (hi * 16) lo ≡ hi * 16 + lo
bit_or_nibbles hi lo h l = ground (
  arith,
  ap (λ (k : ℕ). bit_or (k * 16) lo) {x = (hi * 16 + lo) / 16} {y = hi} (omega arith),
  ap (λ (k : ℕ). bit_or ((hi * 16 + lo) / 16 * 16) k) {x = (hi * 16 + lo) % 16} {y = lo}
      (omega arith),
  (==_iff _ _).0 (all_below_apply 256 _ (hi * 16 + lo) or_table (omega arith)),
)

and_table : all_below 4096 (λ x. bit_and x 0x0F == x % 16) ≡ true
unfolding all_below
and_table = refl

pub bit_and_nibble : (x : ℕ) → x < 4096 → bit_and x 0x0F ≡ x % 16
bit_and_nibble x h = (==_iff _ _).0 (all_below_apply 4096 _ x and_table h)

or_sixes_table : all_below 256 (λ v. bit_or (v / 64 * 64) (v % 64) == v) ≡ true
unfolding all_below
or_sixes_table = refl

-- Two bits shifted up and six below them.
pub bit_or_sixes : (hi lo : ℕ) → hi < 4 → lo < 64 → bit_or (hi * 64) lo ≡ hi * 64 + lo
bit_or_sixes hi lo h l = ground (
  arith,
  ap (λ (k : ℕ). bit_or (k * 64) lo) {x = (hi * 64 + lo) / 64} {y = hi} (omega arith),
  ap (λ (k : ℕ). bit_or ((hi * 64 + lo) / 64 * 64) k) {x = (hi * 64 + lo) % 64} {y = lo}
      (omega arith),
  (==_iff _ _).0 (all_below_apply 256 _ (hi * 64 + lo) or_sixes_table (omega arith)),
)

and_top_table : all_below 256 (λ x. bit_and x 0xc0 == x / 64 * 64) ≡ true
unfolding all_below
and_top_table = refl

pub bit_and_top : (x : ℕ) → x < 256 → bit_and x 0xc0 ≡ x / 64 * 64
bit_and_top x h = (==_iff _ _).0 (all_below_apply 256 _ x and_top_table h)
