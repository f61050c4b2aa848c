-- ===== src/Pcm/Buffers.antt =====
-- The PCM coders over whole buffers.
use mathlib.Core.Path.{ap₂}
use codec_single_thread.Base.{
  ℕ, ◌+◌, ◌*◌, ◌^◌, ◌≤◌, ◌<◌, ◌≡◌, ◌≢◌, refl, List, [], ◌∷◌, some, arith, length, take, map,
  overwrite, take-overwrite, All, AllBytes, ℤ, pos, negsuc, FitsInt16, signed16, bits16,
  signed16-bits16, byte, Bool, true, all_below, ltb, all_below_apply, ap, length-map, sym, ◌∙◌, ◌/◌,
}
use codec_single_thread.Pcm.{
  speech, speech_bytes, ulaw_encode, ulaw_decode, alaw_decode, ulaw_en_codec, ulaw_de_codec,
}
use codec_single_thread.Pcm.Ulaw.{ulaw_encode-decode}

pub length-speech_bytes : (xs : List ℤ) → length (speech_bytes xs) ≡ length xs * 2
unfolding speech_bytes
length-speech_bytes [] = refl
length-speech_bytes (x ∷ xs) = omega (arith, length-speech_bytes xs)

bits16-bytes : (x : ℤ) → FitsInt16 x → byte (bits16 x) 0 + byte (bits16 x) 1 * 2 ^ 8 ≡ bits16 x
bits16-bytes x h = ground arith

pub length-speech : (xs : List ℕ) → length (speech xs) ≡ length xs / 2
unfolding speech
length-speech [] = refl
length-speech (x ∷ []) = refl
length-speech (lo ∷ hi ∷ rest) = omega (arith, length-speech rest)

-- Samples stored little-endian are read back.
pub speech-speech_bytes : (xs : List ℤ) → All FitsInt16 xs → speech (speech_bytes xs) ≡ xs
unfolding speech speech_bytes
speech-speech_bytes [] h = refl
speech-speech_bytes (x ∷ xs) h =
    ap₂ ◌∷◌ (ap signed16 (bits16-bytes x h.0) ∙ signed16-bits16 x h.0) (speech-speech_bytes xs h.1)

fits_int16 : ℤ → Bool
fits_int16 (pos n) = ltb n (2 ^ 15)
fits_int16 (negsuc n) = ltb n (2 ^ 15)

fits_int16_sound : (x : ℤ) → fits_int16 x ≡ true → FitsInt16 x
unfolding fits_int16
fits_int16_sound (pos n) h = ground arith
fits_int16_sound (negsuc n) h = ground arith

ulaw_table_fits : all_below 256 (λ c. fits_int16 (ulaw_decode c)) ≡ true
unfolding all_below fits_int16 ulaw_decode
ulaw_table_fits = refl

alaw_table_fits : all_below 256 (λ c. fits_int16 (alaw_decode c)) ≡ true
unfolding all_below fits_int16 alaw_decode
alaw_table_fits = refl

All-map-decode :
    (f : ℕ → ℤ)
    → all_below 256 (λ c. fits_int16 (f c)) ≡ true
    → (cs : List ℕ) → AllBytes cs
    → All FitsInt16 (map f cs)
All-map-decode f table [] h = tt
All-map-decode f table (c ∷ cs) h =
    (fits_int16_sound _ (all_below_apply 256 _ c table h.0), All-map-decode f table cs h.1)

pub map-ulaw_decode-Fits : (cs : List ℕ) → AllBytes cs → All FitsInt16 (map ulaw_decode cs)
map-ulaw_decode-Fits = All-map-decode ulaw_decode ulaw_table_fits

-- Bytes other than the second zero.
abbrev pub UlawCodes : List ℕ → Type 0
UlawCodes = All (λ b. (b < 256) × (b ≢ 0x7F))

UlawCodes-AllBytes : (cs : List ℕ) → UlawCodes cs → AllBytes cs
UlawCodes-AllBytes [] h = tt
UlawCodes-AllBytes (c ∷ cs) h = (h.0.0, UlawCodes-AllBytes cs h.1)

map-ulaw : (cs : List ℕ) → UlawCodes cs → map ulaw_encode (map ulaw_decode cs) ≡ cs
map-ulaw [] h = refl
map-ulaw (c ∷ cs) h = ap₂ ◌∷◌ (ground (arith, ulaw_encode-decode c h.0.0)) (map-ulaw cs h.1)

de_codec_bytes :
    (cs out : List ℕ)
    → length cs * 2 ≤ length out
    → ulaw_de_codec cs out (length out)
      ≡ (some (length cs * 2), overwrite (speech_bytes (map ulaw_decode cs)) out)
unfolding ulaw_de_codec
de_codec_bytes cs out room = ground arith

pub length-decoded : (f : ℕ → ℤ) (cs : List ℕ) → length (speech_bytes (map f cs)) ≡ length cs * 2
length-decoded f cs = omega (arith, length-speech_bytes (map f cs), length-map f cs)

-- The part of the output buffer that a decoder has written.
pub take-decoded :
    (f : ℕ → ℤ) (cs pcm : List ℕ)
    → length cs * 2 ≤ length pcm
    → take (length cs * 2) (overwrite (speech_bytes (map f cs)) pcm) ≡ speech_bytes (map f cs)
take-decoded f cs pcm room =
    ap (λ (n : ℕ). take n (overwrite (speech_bytes (map f cs)) pcm)) (sym (length-decoded f cs))
    ∙ take-overwrite (speech_bytes (map f cs)) pcm (omega (arith, length-decoded f cs))

en_codec_decoded :
    (cs out : List ℕ)
    → UlawCodes cs
    → length cs ≤ length out
    → ulaw_en_codec (speech_bytes (map ulaw_decode cs)) out (length out)
      ≡ (some (length cs), overwrite cs out)
unfolding ulaw_en_codec
en_codec_decoded cs out codes room = ground (
  arith,
  length-decoded ulaw_decode cs,
  speech-speech_bytes (map ulaw_decode cs) (map-ulaw_decode-Fits cs (UlawCodes-AllBytes cs codes)),
  map-ulaw cs codes,
)

-- Decoding a buffer of mu-law codes and encoding what the decoder wrote gives the codes back, in
-- buffers that are large enough, if no code is the second zero 0x7F.
pub ulaw_en_codec-de_codec :
    (cs pcm out : List ℕ)
    → UlawCodes cs
    → length cs * 2 ≤ length pcm
    → length cs ≤ length out
    → let (r, pcm') = ulaw_de_codec cs pcm (length pcm) in
      let (r', out') = ulaw_en_codec (take (length cs * 2) pcm') out (length out) in
      (r ≡ some (length cs * 2)) × (r' ≡ some (length cs)) × (take (length cs) out' ≡ cs)
ulaw_en_codec-de_codec cs pcm out codes room room' =
    rw
      (
        de_codec_bytes cs pcm room,
        take-decoded ulaw_decode cs pcm room,
        en_codec_decoded cs out codes room',
      )
      (refl, refl, take-overwrite cs out room')

-- Where there is room the coders go through the whole input.
pub ulaw_en_codec-fits :
    (pcm out : List ℕ) (room : ℕ)
    → length pcm / 2 ≤ room
    → ulaw_en_codec pcm out room
      ≡ (some (length pcm / 2), overwrite (map ulaw_encode (speech pcm)) out)
unfolding ulaw_en_codec
ulaw_en_codec-fits pcm out room h = ground arith

pub ulaw_de_codec-fits :
    (cs out : List ℕ) (room : ℕ)
    → length cs * 2 ≤ room
    → ulaw_de_codec cs out room
      ≡ (some (length cs * 2), overwrite (speech_bytes (map ulaw_decode cs)) out)
unfolding ulaw_de_codec
ulaw_de_codec-fits cs out room h = ground arith
