-- ===== src/AmrWb/Encoder.antt =====
-- `AmrWbEnCoder::Codec` and `AmrWbEnCoder::GetWhite`.
pub mod Room
pub mod White
use codec_single_thread.RateConverter.{SrcLib, RateConverter, convert}
use codec_single_thread.AmrWb.{Outcome, ret, err, fault, amr_wb_frame_sample, List, ℕ}
use codec_single_thread.AmrWb.Align.{amr_no_octet_align}
use codec_single_thread.Base.{
  [], ◌∷◌, some, none, false, zero, suc, List, ℕ, ◌+◌, length, Option, ◌*◌, if◌then◌else◌,
  replicate, ◌^◌, ◌==◌, ltb, ◌/◌, write_at, overwrite, take, drop, ◌-◌,
}

-- The result, the library's state and the output buffer.
abbrev pub Coded : Type 0 → Type 0
Coded State = Outcome × State × List ℕ

-- The 16-bit words of the input bytes, `(int16_t*)input`.
unfoldable pub words : List ℕ → List ℕ
words (lo ∷ hi ∷ rest) = (lo + hi * 2 ^ 8) ∷ words rest
words _ = []

-- `coded_size`, where `length` is a parameter
abbrev size : List ℕ → ℕ
size frame = length frame

module _ {State : Type 0} (e_if_encode : State → List ℕ → State × Option (List ℕ)) where
  -- The loop of `Codec`, over the rounds left: there is one for each 320 of `last_frames`. `total` is
  -- also where `output` points. A negative size makes `AMRNoOctetAlign` read out of bounds.
  unfoldable pub encode_loop : ℕ → State → List ℕ → ℕ → ℕ → List ℕ → Coded State
  unfolding amr_no_octet_align
  encode_loop zero st in_frame output_length total output = (ret total, st, output)
  encode_loop (suc n) st in_frame output_length total output =
      let (st', coded) = e_if_encode st (take amr_wb_frame_sample in_frame) in
      elim coded [
        | none ↦ (fault, st', output)
        | some frame ↦
            let (aligned, align_len) = amr_no_octet_align (replicate 128 0) frame in
            let codec_size : ℕ = align_len + 1 in
            if ltb output_length codec_size
            then (ret total, st', output)
            else encode_loop n st' (drop amr_wb_frame_sample in_frame) (output_length - codec_size)
                (total + codec_size) (write_at total (take codec_size aligned) output)
      ]

  -- `last_frames` starts at `length`, the bytes of the input, which is the number of samples at
  -- twice the rate. `buff` is a new array of `length` words, in which the converter's samples stand
  -- first; what it leaves open reads as 0 here.
  unfoldable pub codec :
      (lib : SrcLib)
      → RateConverter lib
      → State
      → List ℕ
      → List ℕ
      → ℕ
      → Coded State × RateConverter lib
  unfolding encode_loop words
  codec lib c st input output output_length =
      if length input == 0
      then ((err, st, output), c)
      else let (made, c') = convert lib c (words input) (length input) false in
        (
          elim made [
            | none ↦ (err, st, output)
            | some samples ↦
                encode_loop (length input / amr_wb_frame_sample) st
                  (overwrite samples (replicate (length input) 0)) output_length 0 output
          ],
          c',
        )

  -- The loop of `GetWhite`: the source runs it `length` times, the size of the buffer, and not
  -- `frames` times. `total` is also where `output` points.
  pub white_loop : ℕ → State → ℕ → ℕ → List ℕ → Coded State
  white_loop zero st length total output = (ret total, st, output)
  white_loop (suc n) st length total output =
      let (st', coded) = e_if_encode st (replicate amr_wb_frame_sample 0) in
      elim coded [
        | none ↦ (err, st', output)
        | some frame ↦
            let total' : ℕ = total + size frame in
            if ltb length total'
            then (err, st', output)
            else white_loop n st' length total' (write_at total frame output)
      ]

  pub get_white : State → List ℕ → ℕ → ℕ → Coded State
  unfolding white_loop
  get_white st output length frames = white_loop length st length 0 output
