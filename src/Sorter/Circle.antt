-- ===== src/Sorter/Circle.antt =====
-- Sequence numbers on a circle of 2^32: what `Less` says within half a turn.
use codec_single_thread.Sorter.{diff32, less, ℕ}
use codec_single_thread.Base.{ℕ, ◌<◌, ◌^◌, ◌≡◌, ◌≤◌, ◌≢◌, ltb, arith, not, ◌+◌, ◌%◌, ◌-◌, ◌⊎◌}

-- Both numbers lie less than half a turn ahead of `now`: `Less` compares how far.
pub less_ahead :
    (now a b : ℕ)
    → now < 2 ^ 32
    → a < 2 ^ 32
    → b < 2 ^ 32
    → diff32 a now < 2 ^ 31
    → diff32 b now < 2 ^ 31
    → less a b ≡ ltb (diff32 a now) (diff32 b now)
less_ahead now a b hn ha hb da db = ground arith

pub diff32_injective :
    (now a b : ℕ) → now < 2 ^ 32 → a < 2 ^ 32 → b < 2 ^ 32 → diff32 a now ≡ diff32 b now → a ≡ b
diff32_injective now a b hn ha hb e = omega arith

-- Moving `now` on by `n` brings everything at least `n` ahead nearer by `n`.
pub diff32-advance :
    (now n k : ℕ)
    → now < 2 ^ 32
    → k < 2 ^ 32
    → n < 2 ^ 32
    → n ≤ diff32 k now
    → diff32 k ((now + n) % 2 ^ 32) ≡ diff32 k now - n
diff32-advance now n k hn hk h le = omega arith

-- What is overtaken by at most half a turn falls behind.
pub diff32_overtaken :
    (now n k : ℕ)
    → now < 2 ^ 32
    → k < 2 ^ 32
    → n ≤ 2 ^ 31
    → diff32 k now < n
    → 2 ^ 31 ≤ diff32 k ((now + n) % 2 ^ 32)
diff32_overtaken now n k hn hk h lt = omega arith

-- Where the signed difference fits 32 bits, `Less` is the comparison of the signed numbers: for two
-- numbers below 2^31, that of the numbers themselves.
pub less_unsigned : (a b : ℕ) → a < 2 ^ 31 → b < 2 ^ 31 → less a b ≡ ltb a b
less_unsigned a b ha hb = ground arith

-- Two numbers that are not half a turn apart are equal, or `Less` holds one way and not the other.
pub less_trichotomy :
    (a b : ℕ) → a < 2 ^ 32 → b < 2 ^ 32 → a ≢ b → diff32 a b ≢ 2 ^ 31 → less a b ≡ not (less b a)
less_trichotomy a b ha hb ne half = ground arith

-- The order of `int32_t` values: that of their distances from the least one.
abbrev pub from_least : ℕ → ℕ
from_least bits = (bits + 2 ^ 31) % 2 ^ 32

-- Where the subtraction of `Less` does not overflow, `less` is the order of the two values, as C++ has
-- it; where it overflows, the wrapped difference gives the other order.
pub less_lem :
    (lh rh : ℕ)
    → lh < 2 ^ 32
    → rh < 2 ^ 32
    → let a = from_least lh in
      let b = from_least rh in
      ((a < b + 2 ^ 31) × (b ≤ a + 2 ^ 31) → less lh rh ≡ ltb a b)
      × ((b + 2 ^ 31 ≤ a) ⊎ (a + 2 ^ 31 < b) → less lh rh ≡ not (ltb a b))
less_lem lh rh h k = ground arith
