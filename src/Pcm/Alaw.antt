-- ===== src/Pcm/Alaw.antt =====
-- The A-law coder against G.711.
use mathlib.Core.Path.{ap₂}
use codec_single_thread.Base.{
  ℕ, ◌+◌, ◌-◌, ◌*◌, ◌/◌, ◌%◌, ◌^◌, ◌≤◌, ◌<◌, ◌≡◌, refl, ◌⊎◌, Bool, true, false, arith, ltb, ◌==◌,
  if◌then◌else◌, all_below, all_below_apply, ℤ, pos, sub_ℕ, bit_or_nibbles, bit_and_nibble, bit_xor,
  FitsInt16, ◌∙◌, ap, distance, abs, negsuc, suc,
}
use codec_single_thread.Pcm.{
  segment, seg_end, AlawStep, code, leave, alaw_aval, alaw_encode, alaw_decode,
}
use codec_single_thread.Pcm.Segment.{same_ℤ, same_ℤ_sound, SegmentOf, segment-SegmentOf}

-- The decoder of G.711 for 16-bit samples: every second bit is complemented; the first two
-- segments have steps of 16, and each later one doubles them.
abbrev pub g711_level : ℕ → ℕ → ℕ
g711_level seg step = if seg == 0 then step * 16 + 8 else (step * 16 + 264) * 2 ^ (seg - 1)

abbrev pub g711_alaw : ℕ → ℤ
g711_alaw c =
    let a : ℕ = bit_xor c 0x55 in
    let level : ℕ = g711_level (a / 16 % 8) (a % 16) in
    if ltb a 128 then sub_ℕ 0 level else pos level

decode_table : all_below 256 (λ c. same_ℤ (alaw_decode c) (g711_alaw c)) ≡ true
unfolding all_below alaw_decode
decode_table = refl

-- On every byte the table of the decoder is the G.711 formula.
pub alaw_decode_lem : (c : ℕ) → c < 256 → alaw_decode c ≡ g711_alaw c
alaw_decode_lem c h = same_ℤ_sound _ _ (all_below_apply 256 _ c decode_table h)

abbrev is_code : AlawStep → ℕ → Bool
is_code (code a) c = a == c
is_code (leave v) c = false

is_code_sound : (s : AlawStep) (c : ℕ) → is_code s c ≡ true → s ≡ code c
is_code_sound s c h = ground arith

roundtrip_table : all_below 256 (λ c. is_code (alaw_encode (alaw_decode c)) c) ≡ true
unfolding all_below alaw_decode alaw_encode
roundtrip_table = refl

-- Every byte is the code of the sample that it decodes to.
pub alaw_encode-decode : (c : ℕ) → c < 256 → alaw_encode (alaw_decode c) ≡ code c
alaw_encode-decode c h = is_code_sound _ c (all_below_apply 256 _ c roundtrip_table h)

-- The four bits below the segment.
abbrev step_of : ℕ → ℕ → ℕ
step_of s m = (if ltb s 2 then m / 16 else m / 2 ^ (s + 3)) % 16

abbrev level : ℕ → ℕ → ℕ
level s m = g711_level s (step_of s m)

abbrev code_of : ℕ → ℕ → ℕ
code_of s m = s * 16 + step_of s m

-- A magnitude's level is within 8 of it, or within a thirty-second.
abbrev Close : ℕ → ℕ → Type 0
Close s m =
    (((level s m ≤ m + 8) × (m ≤ level s m + 7)) ⊎ (32 * ((level s m - m) + (m - level s m)) ≤ m))
    × (s < 8)
    × (m / 16 < 4096)
    × (m / 2 ^ (s + 3) < 4096)

level-Close : (m s : ℕ) → SegmentOf m s → Close s m
level-Close m s c = ground arith

alaw_aval-code :
    (s m : ℕ) → s < 8 → m / 16 < 4096 → m / 2 ^ (s + 3) < 4096 → alaw_aval s m ≡ code_of s m
unfolding alaw_aval
alaw_aval-code s m hs hm hk = ground (
  arith,
  bit_and_nibble (m / 2 ^ (s + 3)),
  bit_and_nibble (m / 16),
  bit_or_nibbles s (m / 2 ^ (s + 3) % 16),
  bit_or_nibbles s (m / 16 % 16),
)

pos_table :
    all_below 128 (λ v. same_ℤ (alaw_decode (bit_xor v 0xD5)) (pos (g711_level (v / 16) (v % 16))))
    ≡ true
unfolding all_below alaw_decode
pos_table = refl

neg_table :
    all_below 128
      (λ v. same_ℤ (alaw_decode (bit_xor v 0x55)) (sub_ℕ 0 (g711_level (v / 16) (v % 16))))
    ≡ true
unfolding all_below alaw_decode
neg_table = refl

code_of-level : (s m : ℕ) → g711_level (code_of s m / 16) (code_of s m % 16) ≡ level s m
code_of-level s m = ap₂ g711_level (ground arith) (ground arith)

alaw_decode-byte :
    (s m : ℕ)
    → s < 8
    → (alaw_decode (bit_xor (code_of s m) 0xD5) ≡ pos (level s m))
      × (alaw_decode (bit_xor (code_of s m) 0x55) ≡ sub_ℕ 0 (level s m))
alaw_decode-byte s m hs =
    let v : ℕ = code_of s m in
    let small : v < 128 = omega arith in
    (
      same_ℤ_sound _ _ (all_below_apply 128 _ v pos_table small) ∙ ap pos (code_of-level s m),
      same_ℤ_sound _ _ (all_below_apply 128 _ v neg_table small) ∙ ap (sub_ℕ 0) (code_of-level s m),
    )

-- Every 16-bit sample has a code, so the encoder never takes its early return; the code decodes to
-- within 15, or a thirty-second of the sample and 8.
pub alaw_error :
    (x : ℤ)
    → FitsInt16 x
    → (c : ℕ) × (alaw_encode x ≡ code c) × (32 * distance (alaw_decode c) x ≤ abs x + 480)
unfolding alaw_encode
alaw_error (pos n) h =
    let s : ℕ = segment seg_end n in
    let c = level-Close n s (segment-SegmentOf n h) in
    (
      bit_xor (code_of s n) 0xD5,
      ground (arith, c, alaw_aval-code s n c.1 c.2 c.3),
      rw (alaw_decode-byte s n c.1).0 (ground (arith, c)),
    )
alaw_error (negsuc n) h =
    let m : ℕ = suc n - 8 in
    let s : ℕ = segment seg_end m in
    let c = level-Close m s (segment-SegmentOf m (omega arith)) in
    (
      bit_xor (code_of s m) 0x55,
      ground (arith, c, alaw_aval-code s m c.1 c.2 c.3),
      rw (alaw_decode-byte s m c.1).1 (ground (arith, c)),
    )
