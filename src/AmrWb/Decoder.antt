-- ===== src/AmrWb/Decoder.antt =====
-- `AmrWbDeCoder::Codec` and `AmrWbDeCoder::GetWhite`.
pub mod Progress
pub mod Overrun
use codec_single_thread.RateConverter.{SrcLib, RateConverter, convert}
use codec_single_thread.AmrWb.{
  Outcome, ret, err, fault, running, amr_wb_frame_sample, amr_block_size, ℕ, List,
}
use codec_single_thread.Base.{
  [], ◌∷◌, some, none, false, zero, suc, ℕ, List, ◌/◌, get_or, store16, if◌then◌else◌, ◌^◌, ◌++◌,
  ltb, ◌==◌, ◌%◌, replicate, ◌*◌, length, overwrite, drop, ◌+◌, write_at,
}

abbrev pub pcm_frame_length : ℕ
pcm_frame_length = 320

-- `*input >> 3 & 0x0f`, and the size of the block that it announces.
unfoldable pub mode_of : ℕ → ℕ
mode_of b = b / 2 ^ 3 % 2 ^ 4

unfoldable pub block_of : ℕ → ℕ
unfolding mode_of
block_of b = get_or amr_block_size (mode_of b) 0

-- The bytes of samples in memory.
pub sample_bytes : List ℕ → List ℕ
sample_bytes [] = []
sample_bytes (s ∷ ss) = store16 s ++ sample_bytes ss

-- `amr_good_frame` and `amr_lost_frame` of `enum` in src/amr.h
abbrev pub amr_good_frame : ℕ
amr_good_frame = 0

abbrev pub amr_lost_frame : ℕ
amr_lost_frame = 2

module _ {State : Type 0} (lib : SrcLib) (d_if_decode : State → List ℕ → ℕ → State × List ℕ) where
  abbrev pub Decoded : Type 0
  Decoded = Outcome × State × RateConverter lib × List ℕ

  -- The loop of `Codec` on fuel; `running` means that it was used up. `output_size` is also where
  -- `output` points. A failed conversion is a fault: `memset` gets a negative length. So are samples
  -- that do not fit in what is left of `output`: the conversion writes past its end.
  pub decode_loop : ℕ → State → RateConverter lib → List ℕ → ℕ → ℕ → List ℕ → Decoded
  unfolding block_of sample_bytes
  decode_loop zero st c input output_length output_size output = (running, st, c, output)
  decode_loop (suc fuel) st c [] output_length output_size output = (ret output_size, st, c, output)
  decode_loop (suc fuel) st c (b ∷ rest) output_length output_size output =
      let input : List ℕ = b ∷ rest in
      let (st', speech) = d_if_decode st input amr_good_frame in
      let speech' : List ℕ =
        if ltb 8 (mode_of b) then replicate amr_wb_frame_sample 0 else speech in
      let (made, c') = convert lib c speech' (output_length / 2) false in
      if ltb (length input) (block_of b)
      then (ret output_size, st, c, output)
      else if ltb output_length pcm_frame_length
      then (err, st', c, output)
      else elim made [
        | none ↦ (fault, st', c', output)
        | some samples ↦
            let later =
              decode_loop fuel st' c' (drop (block_of b) input) output_length
                (output_size + length samples * 2)
                (write_at output_size (sample_bytes samples) output) in
            if ltb (length output) (output_size + length samples * 2)
            then (fault, st', c', output)
            else later
      ]

  pub codec : ℕ → State → RateConverter lib → List ℕ → List ℕ → ℕ → Decoded
  unfolding decode_loop
  codec fuel st c input output output_length = decode_loop fuel st c input output_length 0 output

  -- The library decodes a lost frame into `output`, over which the silence is then written.
  pub get_white : State → List ℕ → ℕ → ℕ → Outcome × State × List ℕ
  unfolding sample_bytes
  get_white st output length frames =
      if frames == 0
      then (ret 0, st, output)
      else if ltb length (frames * pcm_frame_length)
      then (err, st, output)
      else let (st', lost) = d_if_decode st (replicate 64 0) amr_lost_frame in
        (
          ret (frames * pcm_frame_length),
          st',
          overwrite (replicate (frames * pcm_frame_length) 0)
              (overwrite (sample_bytes lost) output),
        )
