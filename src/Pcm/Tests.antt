-- ===== src/Pcm/Tests.antt =====
-- Runs of the PCM coders, and their theorems at concrete samples and buffers.
use codec_single_thread.Pcm.{
  ulaw_encode, ulaw_decode, alaw_encode, alaw_decode, code, speech, ulaw_en_codec, ulaw_de_codec,
  alaw_en_codec, de_get_white, alaw_de_codec,
}
use codec_single_thread.Pcm.Ulaw.{ulaw_error}
use codec_single_thread.Pcm.Alaw.{alaw_error}
use codec_single_thread.Pcm.Buffers.{ulaw_en_codec-de_codec}
use codec_single_thread.Pcm.InPlace.{Encodes, stripped, alaw_en_codec_lem}
use codec_single_thread.Base.{
  [], ◌∷◌, negsuc, some, none, refl, List, replicate, ◌≡◌, ℕ, ◌*◌, arith, distance, take, ◌≤◌,
  length,
}

-- The samples 1000, -1000 and -32768.
abbrev pcm : List ℕ
pcm = 0xE8 ∷ 0x03 ∷ 0x18 ∷ 0xFC ∷ 0 ∷ 0x80 ∷ []

ulaw_run : ulaw_en_codec pcm (replicate 4 9) 4 ≡ (some 3, 0xCE ∷ 0x4E ∷ 0 ∷ 9 ∷ [])
unfolding ulaw_en_codec
ulaw_run = refl

alaw_run :
    alaw_en_codec pcm (replicate 3 9) 3
    ≡ (some 3, 0xFA ∷ 0x7A ∷ 0x2A ∷ [], 0xE8 ∷ 0x03 ∷ 0xE0 ∷ 0x03 ∷ 0xF8 ∷ 0x7F ∷ [])
unfolding alaw_en_codec
alaw_run = refl

no_room : (ulaw_en_codec pcm [] 2).0 ≡ none
unfolding ulaw_en_codec
no_room = refl

silence : de_get_white (replicate 4 9) 4 2 ≡ (some 4, replicate 4 0)
unfolding de_get_white
silence = refl

alaw_decoded : alaw_de_codec (0xFA ∷ []) (replicate 2 0) 2 ≡ (some 2, 0xF0 ∷ 0x03 ∷ [])
unfolding alaw_de_codec
alaw_decoded = refl

ulaw_error_example : 32 * distance (ulaw_decode (ulaw_encode (negsuc 999))) (negsuc 999) ≤ 1132
ulaw_error_example = ulaw_error (negsuc 999) (omega arith)

alaw_error_example :
    (c : ℕ) × (alaw_encode (negsuc 999) ≡ code c)
    × (32 * distance (alaw_decode c) (negsuc 999) ≤ 1480)
alaw_error_example = alaw_error (negsuc 999) (omega arith)

ulaw_en_codec-de_codec_example :
    let (r, pcm') = ulaw_de_codec (0xCE ∷ 0x4E ∷ []) (replicate 5 0) 5 in
    let (r', out') = ulaw_en_codec (take 4 pcm') (replicate 3 0) 3 in
    (r ≡ some 4) × (r' ≡ some 2) × (take 2 out' ≡ 0xCE ∷ 0x4E ∷ [])
ulaw_en_codec-de_codec_example =
    ulaw_en_codec-de_codec (0xCE ∷ 0x4E ∷ []) (replicate 5 0) (replicate 3 0) (omega arith)
      (omega arith) (omega arith)

alaw_en_codec_lem_example :
    let (r, output', input') = alaw_en_codec pcm (replicate 3 9) 3 in
    (r ≡ some 3)
    × Encodes (speech pcm) (take 3 output')
    × (speech input' ≡ stripped (speech pcm))
    × (length input' ≡ 6)
alaw_en_codec_lem_example = alaw_en_codec_lem pcm (replicate 3 9) (omega arith) (omega arith)
