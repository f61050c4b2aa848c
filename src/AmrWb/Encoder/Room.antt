-- ===== src/AmrWb/Encoder/Room.antt =====
-- `AmrWbEnCoder::Codec` stays inside its output.
use codec_single_thread.RateConverter.{SrcLib, RateConverter, convert}
use codec_single_thread.AmrWb.{ret, amr_wb_frame_sample, List, ℕ}
use codec_single_thread.AmrWb.Align.{amr_no_octet_align}
use codec_single_thread.AmrWb.Encoder.{
  encode_loop, codec, words, Option, length, take, replicate, overwrite, drop, write_at,
}
use codec_single_thread.Base.{
  false, zero, suc, inl, inr, List, ℕ, Option, ◌≡◌, ◌≤◌, ◌<◌, ◌+◌, arith, length, Option-cases,
  take, ◌/◌, replicate, overwrite, drop, ◌-◌, write_at,
}

module _ {State : Type 0} (e_if_encode : State → List ℕ → State × Option (List ℕ)) where
  encode_loop_room :
      (n : ℕ) (st : State) (samples : List ℕ) (room total : ℕ) (output : List ℕ) (m : ℕ)
      → (encode_loop e_if_encode n st samples room total output).0 ≡ ret m
      → (total ≤ m) × (m ≤ total + room)
  unfolding encode_loop
  encode_loop_room zero st samples room total output m h = ground arith
  encode_loop_room (suc n) st samples room total output m h =
      elim (Option-cases (e_if_encode st (take amr_wb_frame_sample samples)).1) [
        | inl e ↦ ground (arith, e)
        | inr (frame, e) ↦
            let aligned = amr_no_octet_align (replicate 128 0) frame in
            let size : ℕ = aligned.1 + 1 in
            ground (
              arith,
              e,
              encode_loop_room n (e_if_encode st (take amr_wb_frame_sample samples)).0
                  (drop amr_wb_frame_sample samples) (room - size) (total + size)
                  (write_at total (take size aligned.0) output) m,
            )
      ]

  -- The size that `Codec` returns never exceeds the room in the output, and an empty input is an
  -- error.
  pub codec_room :
      (lib : SrcLib) (c : RateConverter lib) (st : State) (input output : List ℕ) (room m : ℕ)
      → (codec e_if_encode lib c st input output room).0.0 ≡ ret m
      → (m ≤ room) × (0 < length input)
  unfolding codec
  codec_room lib c st input output room m h =
      elim (Option-cases (convert lib c (words input) (length input) false).0) [
        | inl e ↦ ground (arith, e)
        | inr (samples, e) ↦ ground (
          arith,
          e,
          encode_loop_room (length input / amr_wb_frame_sample) st
              (overwrite samples (replicate (length input) 0)) room 0 output m,
        )
      ]
