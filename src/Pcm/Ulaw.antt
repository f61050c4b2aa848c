-- ===== src/Pcm/Ulaw.antt =====
-- The mu-law coder against G.711.
use mathlib.Core.Path.{ap₂}
use codec_single_thread.Base.{
  ℕ, ◌+◌, ◌-◌, ◌*◌, ◌/◌, ◌%◌, ◌^◌, ◌≤◌, ◌<◌, ◌≡◌, refl, true, arith, ltb, ◌==◌, ==_iff,
  if◌then◌else◌, all_below, all_below_apply, ℤ, pos, negsuc, sub_ℕ, bit_and_nibble, bit_or_nibbles,
  bit_xor_ones, abs, bit_xor_seven_ones, distance, ap, suc, ◌∙◌,
}
use codec_single_thread.Pcm.Segment.{same_ℤ, same_ℤ_sound, SegmentOf, segment-SegmentOf}
use codec_single_thread.Pcm.{segment, seg_end, ulaw_encode, ulaw_decode, ulaw_uval, ulaw_byte}

-- The decoder of G.711 for 16-bit samples: sign, three bits of segment, four of step, all
-- complemented; the step's middle is scaled by the segment and the bias of 132 taken off.
abbrev pub g711_level : ℕ → ℕ → ℕ
g711_level seg step = (step * 8 + 132) * 2 ^ seg

abbrev pub g711_ulaw : ℕ → ℤ
g711_ulaw c =
    let u : ℕ = 255 - c in
    let level : ℕ = g711_level (u / 16 % 8) (u % 16) - 132 in
    if ltb c 128 then sub_ℕ 0 level else pos level

decode_table : all_below 256 (λ c. same_ℤ (ulaw_decode c) (g711_ulaw c)) ≡ true
unfolding all_below ulaw_decode
decode_table = refl

-- On every byte the table of the decoder is the G.711 formula.
pub ulaw_decode_lem : (c : ℕ) → c < 256 → ulaw_decode c ≡ g711_ulaw c
ulaw_decode_lem c h = same_ℤ_sound _ _ (all_below_apply 256 _ c decode_table h)

roundtrip_table :
    all_below 256 (λ c. ulaw_encode (ulaw_decode c) == (if c == 0x7F then 0xFF else c)) ≡ true
unfolding all_below ulaw_decode ulaw_encode
roundtrip_table = refl

-- Every byte but one is the code of the sample that it decodes to; 0x7F, the second zero, comes
-- back as 0xFF.
pub ulaw_encode-decode :
    (c : ℕ) → c < 256 → ulaw_encode (ulaw_decode c) ≡ (if c == 0x7F then 0xFF else c)
ulaw_encode-decode c h = (==_iff _ _).0 (all_below_apply 256 _ c roundtrip_table h)

-- The level that a magnitude is decoded to: within a thirty-second of it.
abbrev level : ℕ → ℕ → ℕ
level s m = g711_level s (m / 2 ^ (s + 3) % 16)

abbrev Close : ℕ → ℕ → Type 0
Close s m =
    (32 * ((level s m - m) + (m - level s m)) ≤ m)
    × (132 ≤ level s m)
    × (s < 8)
    × (m / 2 ^ (s + 3) < 4096)

level-Close : (m s : ℕ) → 132 ≤ m → SegmentOf m s → Close s m
level-Close m s h c = ground arith

-- The byte of a code below 128, and what the decoder makes of it.
abbrev code_of : ℕ → ℕ → ℕ
code_of s m = s * 16 + m / 2 ^ (s + 3) % 16

ulaw_uval-code : (s m : ℕ) → s < 8 → m / 2 ^ (s + 3) < 4096 → ulaw_uval s m ≡ code_of s m
unfolding ulaw_uval
ulaw_uval-code s m hs hm =
    ground (arith, bit_and_nibble (m / 2 ^ (s + 3)), bit_or_nibbles s (m / 2 ^ (s + 3) % 16))

pos_table :
    all_below 128 (λ v. same_ℤ (ulaw_decode (255 - v)) (pos (g711_level (v / 16) (v % 16) - 132)))
    ≡ true
unfolding all_below ulaw_decode
pos_table = refl

neg_table :
    all_below 128
      (λ v. same_ℤ (ulaw_decode (127 - v)) (sub_ℕ 0 (g711_level (v / 16) (v % 16) - 132)))
    ≡ true
unfolding all_below ulaw_decode
neg_table = refl

code_of-level : (s m : ℕ) → g711_level (code_of s m / 16) (code_of s m % 16) ≡ level s m
code_of-level s m = ap₂ g711_level (omega arith) (omega arith)

ulaw_byte-code :
    (s m : ℕ)
    → s < 8
    → m / 2 ^ (s + 3) < 4096
    → (ulaw_byte s m 0xFF ≡ 255 - code_of s m) × (ulaw_byte s m 0x7F ≡ 127 - code_of s m)
unfolding ulaw_byte
ulaw_byte-code s m hs hm =
    ground (
      arith,
      ulaw_uval-code s m hs hm,
      bit_xor_ones (code_of s m),
      bit_xor_seven_ones (code_of s m),
    )

-- What the decoder makes of the two bytes of a magnitude.
ulaw_decode-byte :
    (s m : ℕ)
    → s < 8
    → m / 2 ^ (s + 3) < 4096
    → (ulaw_decode (ulaw_byte s m 0xFF) ≡ pos (level s m - 132))
      × (ulaw_decode (ulaw_byte s m 0x7F) ≡ sub_ℕ 0 (level s m - 132))
ulaw_decode-byte s m hs hm =
    let v : ℕ = code_of s m in
    let small : v < 128 = omega arith in
    let bytes = ulaw_byte-code s m hs hm in
    (
      ap ulaw_decode bytes.0
          ∙ same_ℤ_sound _ _ (all_below_apply 128 _ v pos_table small)
          ∙ ap (λ (l : ℕ). pos (l - 132)) (code_of-level s m),
      ap ulaw_decode bytes.1
          ∙ same_ℤ_sound _ _ (all_below_apply 128 _ v neg_table small)
          ∙ ap (λ (l : ℕ). sub_ℕ 0 (l - 132)) (code_of-level s m),
    )

-- Coding is lossy by little: a sample of magnitude up to 32635 is decoded to within a
-- thirty-second of its biased magnitude |x| + 132.
pub ulaw_error :
    (x : ℤ) → abs x ≤ 32635 → 32 * distance (ulaw_decode (ulaw_encode x)) x ≤ abs x + 132
unfolding ulaw_encode
ulaw_error (pos n) h =
    let m : ℕ = n + 132 in
    let c = level-Close m (segment seg_end m) (omega arith) (segment-SegmentOf m (omega arith)) in
    rw (ulaw_decode-byte (segment seg_end m) m c.2 c.3).0 (omega (arith, c))
ulaw_error (negsuc n) h =
    let m : ℕ = 132 + suc n in
    let c = level-Close m (segment seg_end m) (omega arith) (segment-SegmentOf m (omega arith)) in
    rw (ulaw_decode-byte (segment seg_end m) m c.2 c.3).1 (ground (arith, c))

pub ulaw_encode-lt : (x : ℤ) → abs x ≤ 32635 → ulaw_encode x < 256
unfolding ulaw_encode
ulaw_encode-lt (pos n) h =
    let m : ℕ = n + 132 in
    let c = level-Close m (segment seg_end m) (omega arith) (segment-SegmentOf m (omega arith)) in
    rw (ulaw_byte-code (segment seg_end m) m c.2 c.3).0 (omega arith)
ulaw_encode-lt (negsuc n) h =
    let m : ℕ = 132 + suc n in
    let c = level-Close m (segment seg_end m) (omega arith) (segment-SegmentOf m (omega arith)) in
    rw (ulaw_byte-code (segment seg_end m) m c.2 c.3).1 (omega arith)

-- Louder samples are clipped: they are coded as the largest level of their sign.
pub ulaw_clips :
    (n : ℕ)
    → 32635 < n
    → (ulaw_decode (ulaw_encode (pos n)) ≡ pos 32124)
      × (ulaw_decode (ulaw_encode (negsuc (n - 1))) ≡ negsuc 32123)
unfolding ulaw_encode ulaw_decode
ulaw_clips n h = ground arith
