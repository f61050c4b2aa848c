-- ===== src/Pcm.antt =====
-- The PCM coders of src/codec.h and src/codec.cpp: `PcmUEnCoder`, `PcmUDeCoder`, `PcmAEnCoder` and
-- `PcmADeCoder`. They keep no state, and their `Init` returns 0.
--
-- A buffer is the list of its bytes, and `length` is that of the input list. A method returns what
-- the C++ method returns, `none` for its -1, and the output buffer; the input is another buffer.
mod Tables
mod Segment
pub mod Ulaw
pub mod Alaw
pub mod Buffers
pub mod InPlace
pub mod White
mod Tests
use Tables.{ulaw_table, a_law_table}
use codec_single_thread.Base.{
  ℕ, suc, ◌+◌, ◌-◌, ◌*◌, ◌/◌, ◌^◌, bit_and, bit_or, bit_xor, List, [], ◌∷◌, ◌++◌, Option, none,
  some, ltb, leb, if◌then◌else◌, length, get_or, map, replicate, overwrite, store16, u8, ℤ, pos,
  negsuc, signed16, bits16,
}

abbrev pub seg_end : List ℕ
seg_end = 0xFF ∷ 0x1FF ∷ 0x3FF ∷ 0x7FF ∷ 0xFFF ∷ 0x1FFF ∷ 0x3FFF ∷ 0x7FFF ∷ []

-- `for (; seg < 8; ++seg) if (pcm_val <= seg_end[seg]) break;` over the ends that are left: how many
-- are passed, 8 if all are.
pub segment : List ℕ → ℕ → ℕ
segment [] v = 0
segment (e ∷ es) v = if leb v e then 0 else suc (segment es v)

-- The biased magnitude and the mask of a sample.
pub ulaw_magnitude : ℤ → ℕ
ulaw_magnitude (pos n) = n + 0x84
ulaw_magnitude (negsuc n) = 0x84 + suc n

pub ulaw_mask : ℤ → ℕ
ulaw_mask (pos n) = 0xFF
ulaw_mask (negsuc n) = 0x7F

-- The code of a magnitude in a segment, and the byte for it. `uval` is an unsigned char.
pub ulaw_uval : ℕ → ℕ → ℕ
ulaw_uval seg m = u8 (bit_or (seg * 2 ^ 4) (bit_and (m / 2 ^ (seg + 3)) 0xF))

pub ulaw_byte : ℕ → ℕ → ℕ → ℕ
ulaw_byte seg m mask = if leb 8 seg then bit_xor 0x7F mask else bit_xor (ulaw_uval seg m) mask

-- The body of the encoder's loop.
pub ulaw_encode : ℤ → ℕ
unfolding ulaw_magnitude ulaw_mask ulaw_byte ulaw_uval segment
ulaw_encode pcm = let m = ulaw_magnitude pcm in ulaw_byte (segment seg_end m) m (ulaw_mask pcm)

-- `speech[i]` for each i below length >> 1: an odd last byte is not read.
unfoldable pub speech : List ℕ → List ℤ
speech (lo ∷ hi ∷ rest) = signed16 (lo + hi * 2 ^ 8) ∷ speech rest
speech _ = []

-- The bytes of the samples that a decoder stores.
pub speech_bytes : List ℤ → List ℕ
speech_bytes [] = []
speech_bytes (x ∷ xs) = store16 (bits16 x) ++ speech_bytes xs

unfoldable pub ulaw_en_codec : List ℕ → List ℕ → ℕ → Option ℕ × List ℕ
unfolding speech ulaw_encode
ulaw_en_codec input output output_length =
    if ltb output_length (length input / 2)
    then (none, output)
    else (some (length input / 2), overwrite (map ulaw_encode (speech input)) output)

-- `GetWhite` of both encoders, and of both decoders.
pub en_get_white : List ℕ → ℕ → ℕ → Option ℕ × List ℕ
en_get_white output length frames =
    if ltb length frames
    then (none, output)
    else (some frames, overwrite (replicate frames 0) output)

pub de_get_white : List ℕ → ℕ → ℕ → Option ℕ × List ℕ
de_get_white output length frames =
    if ltb length (frames * 2)
    then (none, output)
    else (some (frames * 2), overwrite (replicate (frames * 2) 0) output)

pub ulaw_decode : ℕ → ℤ
ulaw_decode c = get_or ulaw_table c (pos 0)

unfoldable pub ulaw_de_codec : List ℕ → List ℕ → ℕ → Option ℕ × List ℕ
unfolding ulaw_decode speech_bytes
ulaw_de_codec input output output_length =
    if ltb output_length (length input * 2)
    then (none, output)
    else (some (length input * 2), overwrite (speech_bytes (map ulaw_decode input)) output)

-- `pcm_val` after the sign has been taken off: `-pcm_val - 8`, and 0 where that is negative.
pub alaw_magnitude : ℤ → ℕ
alaw_magnitude (pos n) = n
alaw_magnitude (negsuc n) = suc n - 8

pub alaw_mask : ℤ → ℕ
alaw_mask (pos n) = 0xD5
alaw_mask (negsuc n) = 0x55

pub alaw_aval : ℕ → ℕ → ℕ
alaw_aval seg m =
    if ltb seg 2
    then bit_or (u8 (seg * 2 ^ 4)) (bit_and (m / 2 ^ 4) 0x0f)
    else bit_or (u8 (seg * 2 ^ 4)) (bit_and (m / 2 ^ (seg + 3)) 0x0f)

-- The body of the loop: a code, or the value that the function returns at once.
pub data AlawStep : Type 0 where
  code : ℕ → AlawStep
  leave : ℕ → AlawStep

pub alaw_encode : ℤ → AlawStep
unfolding alaw_magnitude alaw_mask alaw_aval segment
alaw_encode pcm =
    let m = alaw_magnitude pcm in
    let seg = segment seg_end m in
    if leb 8 seg
    then leave (bit_xor 0x7F (alaw_mask pcm))
    else code (bit_xor (alaw_aval seg m) (alaw_mask pcm))

-- What the loop leaves: the early return, the codes written, and the input buffer, in which
-- `pcm_val`, a reference to `speech[i]`, has been assigned.
pub record AlawRun : Type 0 where
  pub early : Option ℕ
  pub codes : List ℕ
  pub input : List ℕ

pub alaw_loop : List ℕ → AlawRun
unfolding alaw_magnitude
alaw_loop (lo ∷ hi ∷ rest) =
    let pcm : ℤ = signed16 (lo + hi * 2 ^ 8) in
    let after : AlawRun = alaw_loop rest in
    let stored : List ℕ = store16 (alaw_magnitude pcm) in
    elim (alaw_encode pcm) [
      | code c ↦ record after { codes = c ∷ after.codes; input = stored ++ after.input }
      | leave v ↦ record { early = some v; codes = []; input = stored ++ rest }
    ]
alaw_loop input = record { early = none; codes = []; input = input }

-- The result, the output buffer and the input buffer.
pub alaw_en_codec : List ℕ → List ℕ → ℕ → Option ℕ × List ℕ × List ℕ
unfolding alaw_loop alaw_encode
alaw_en_codec input output output_length =
    let run : AlawRun = alaw_loop input in
    if ltb output_length (length input / 2) then (none, output, input) else (
      elim run.early [ none ↦ some (length input / 2) | some v ↦ some v ],
      overwrite run.codes output,
      run.input,
    )

pub alaw_decode : ℕ → ℤ
alaw_decode c = get_or a_law_table c (pos 0)

pub alaw_de_codec : List ℕ → List ℕ → ℕ → Option ℕ × List ℕ
unfolding alaw_decode speech_bytes
alaw_de_codec input output output_length =
    if ltb output_length (length input * 2)
    then (none, output)
    else (some (length input * 2), overwrite (speech_bytes (map alaw_decode input)) output)
