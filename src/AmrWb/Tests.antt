-- ===== src/AmrWb/Tests.antt =====
-- Runs of the AMR-WB coders over stand-in libraries, and their theorems at them.
use codec_single_thread.AmrWb.Decoder
use codec_single_thread.RateConverter.{SrcLib, RateConverter}
use codec_single_thread.AmrWb.{fault, running, ℕ, List}
use codec_single_thread.AmrWb.Align.{amr_no_octet_align}
use codec_single_thread.AmrWb.Align.Shifted.{amr_no_octet_align-Shifted}
use codec_single_thread.AmrWb.Lifetime.{AmrWbCoder, en_init, destroy}
use codec_single_thread.RateConverter
use codec_single_thread.AmrWb.Encoder.White.{CodesSilence}
use codec_single_thread.AmrWb.Decoder.{block_of, mode_of}
use codec_single_thread.AmrWb.Decoder.Progress.{Framing, codec_ends, codec_hangs}
use codec_single_thread.AmrWb.Decoder.Overrun.{Halves, IsHalving, Speaks, repeat, codec_overruns}
use codec_single_thread.Base.{
  [], ◌∷◌, some, false, refl, take, arith, replicate, ℕ, List, Option, ◌+◌, ◌≡◌, ◌≢◌, ◌⊎◌, none,
  get_or, ◌/◌, ◌%◌, ◌*◌, ◌<◌, length,
}

-- A converter library that always makes 160 samples.
abbrev lib : SrcLib
lib = record {
  State = ℕ;
  src_new = λ quality. some 0;
  src_set_ratio = λ st rate. (st, false);
  src_process = λ st ratio is_end xs. (st, some (replicate 160 1));
}

abbrev converter : RateConverter lib
converter = record { p_state = some 0; rate = 0; ratio = record { num = 1; den = 2 } }

-- The coder of silence codes three bytes; the decoder counts frames.
abbrev encode : ℕ → List ℕ → ℕ × Option (List ℕ)
encode st x = (st + 1, some (0x44 ∷ 0xFF ∷ 0x03 ∷ []))

abbrev decode : ℕ → List ℕ → ℕ → ℕ × List ℕ
decode st x bfi = (st + 1, replicate 320 7)

-- CMR 15, then the frame moved up by four bits, less its two padding bits.
aligned :
    take 5 (amr_no_octet_align (replicate 128 0) (0x44 ∷ 0xFF ∷ 0x03 ∷ [])).0
    ≡ 0xF4 ∷ 0x7F ∷ 0xC0 ∷ 0xC0 ∷ 0 ∷ []
unfolding amr_no_octet_align
aligned = refl

encode-CodesSilence : CodesSilence encode
encode-CodesSilence st = (0x44 ∷ 0xFF ∷ 0x03 ∷ [], refl, omega arith)

-- Two blocks of mode 9, of six bytes each: comfort noise.
abbrev noise : List ℕ
noise = repeat 2 (0x48 ∷ 0 ∷ 0 ∷ 0 ∷ 0 ∷ 0 ∷ [])

noise-Framing : Framing noise
unfolding block_of
noise-Framing = omega arith

codec_ends_example :
    (Decoder.codec lib decode 13 0 converter noise (replicate 640 0) 640).0 ≢ running
codec_ends_example = codec_ends lib decode 0 converter noise (replicate 640 0) 640 noise-Framing

codec_hangs_example :
    let o = (Decoder.codec lib decode 1000 0 converter (0x58 ∷ []) (replicate 320 0) 320).0 in
    (o ≡ running) ⊎ (o ≡ fault)
unfolding mode_of
codec_hangs_example =
    codec_hangs lib decode 1000 0 converter 0x58 [] (replicate 320 0) 320 (omega arith)
      (omega arith)

lib-Halves : Halves lib (λ st. Unit) 160
lib-Halves st ratio x warm half e = (replicate 160 1, st, refl, omega arith, omega arith, tt)

converter-IsHalving : IsHalving lib (λ st. Unit) 160 converter
converter-IsHalving = record {
  rate_low = omega arith;
  halving = refl;
  st = 0;
  set_up = refl;
  warm = tt;
}

decode-Speaks : Speaks lib decode
decode-Speaks st x bfi = refl

-- 640 bytes for an output of 400.
codec_overruns_example :
    (Decoder.codec lib decode 3 0 converter noise
      (replicate 400 0)
      (length {A = ℕ} (replicate 400 0))).0
    ≡ fault
unfolding block_of
codec_overruns_example =
    codec_overruns lib decode (λ st. Unit) 160 2 3 0 converter 0x48 (0 ∷ 0 ∷ 0 ∷ 0 ∷ 0 ∷ [])
      (replicate 400 0) lib-Halves decode-Speaks converter-IsHalving refl (omega arith)
      (omega arith) (omega arith)

amr_no_octet_align-Shifted_example :
    let out = (amr_no_octet_align (replicate 128 0) (0x44 ∷ 0xFF ∷ 0x03 ∷ [])).0 in
    (get_or out 0 0 / 16 ≡ 15)
    × (0x44 / 4 ≡ get_or out 0 0 % 16 * 4 + get_or out 1 0 / 64)
    × ((j : ℕ)
        → j < 2
        → get_or (0xFF ∷ 0x03 ∷ []) j 0
          ≡ get_or out (1 + j) 0 % 64 * 4 + get_or out (1 + (j + 1)) 0 / 64)
amr_no_octet_align-Shifted_example =
    amr_no_octet_align-Shifted (replicate 128 0) 0x44 (0xFF ∷ 0x03 ∷ []) (omega arith) (omega arith)

-- A converter that fails: the next `Init` fails as well.
abbrev broken : SrcLib
broken = record lib { src_new = λ quality. none }

abbrev coder : AmrWbCoder broken ℕ
coder = record {
  coder_base = none;
  converter = record { p_state = none; rate = 0; ratio = record { num = 1; den = 2 } };
}

stuck :
    let (r, c) = en_init broken ℕ coder (some 4) in
    (r ≡ none) × ((en_init broken ℕ c (some 5)).0 ≡ none) × (destroy broken ℕ c ≡ (some 4, none))
unfolding en_init destroy RateConverter.init
stuck = (refl, refl, refl)
