-- ===== src/Pcm/Segment.antt =====
-- The loop that both PCM encoders run to find a segment, and a test for equal samples.
use codec_single_thread.Base.{
  ℤ, pos, negsuc, ℕ, ℤ, ◌≡◌, ◌<◌, Bool, true, ◌⊎◌, ◌^◌, arith, ◌≤◌, ◌==◌, false,
}
use codec_single_thread.Pcm.{segment, seg_end}

abbrev pub same_ℤ : ℤ → ℤ → Bool
same_ℤ (pos a) (pos b) = a == b
same_ℤ (negsuc a) (negsuc b) = a == b
same_ℤ _ _ = false

pub same_ℤ_sound : (a b : ℤ) → same_ℤ a b ≡ true → a ≡ b
same_ℤ_sound a b h = ground arith

-- Where a magnitude below 2^15 falls: segment `s` is the range from 2^(s+7) to 2^(s+8).
abbrev pub SegmentOf : ℕ → ℕ → Type 0
SegmentOf m s =
    ((s ≡ 0) × (m < 256))
    ⊎ ((s ≡ 1) × (256 ≤ m) × (m < 512))
    ⊎ ((s ≡ 2) × (512 ≤ m) × (m < 1024))
    ⊎ ((s ≡ 3) × (1024 ≤ m) × (m < 2048))
    ⊎ ((s ≡ 4) × (2048 ≤ m) × (m < 4096))
    ⊎ ((s ≡ 5) × (4096 ≤ m) × (m < 8192))
    ⊎ ((s ≡ 6) × (8192 ≤ m) × (m < 16384))
    ⊎ ((s ≡ 7) × (16384 ≤ m) × (m < 32768))

pub segment-SegmentOf : (m : ℕ) → m < 2 ^ 15 → SegmentOf m (segment seg_end m)
unfolding segment
segment-SegmentOf m h = ground arith
