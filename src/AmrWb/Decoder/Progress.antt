-- ===== src/AmrWb/Decoder/Progress.antt =====
-- When the decoder's loop ends, and when it does not.
use codec_single_thread.RateConverter.{SrcLib, RateConverter, convert}
use codec_single_thread.AmrWb.{fault, running, amr_wb_frame_sample, List, ℕ}
use codec_single_thread.Base.{
  write_at, drop, ltb, replicate, length-drop, length, if◌then◌else◌, false, inl, inr, refl, ◌/◌,
  Option-cases, ap, ◌*◌,
}
use codec_single_thread.AmrWb.Decoder.{
  amr_good_frame, mode_of, block_of, sample_bytes, decode_loop, codec, drop, length,
}
use codec_single_thread.Base.{
  [], ◌∷◌, zero, suc, List, ℕ, All, ◌<◌, drop, length, ◌≢◌, ◌≤◌, ◌+◌, arith, ◌≡◌, ◌⊎◌,
}

-- Bytes that announce a block with at least one byte: those of no mode from 11 to 13.
abbrev pub Framing : List ℕ → Type 0
Framing = All (λ b. 0 < block_of b)

Framing-drop : (n : ℕ) (bs : List ℕ) → Framing bs → Framing (drop n bs)
Framing-drop zero bs f = f
Framing-drop (suc n) [] f = tt
Framing-drop (suc n) (b ∷ bs) f = Framing-drop n bs f.1

module _ {State : Type 0} (lib : SrcLib) (d_if_decode : State → List ℕ → ℕ → State × List ℕ) where
  -- The samples that a round converts.
  abbrev pub speech_of : State → List ℕ → ℕ → List ℕ
  speech_of st input b =
      if ltb 8 (mode_of b)
      then replicate amr_wb_frame_sample 0
      else (d_if_decode st input amr_good_frame).1

  decode_loop-ends :
      (fuel : ℕ) (st : State) (c : RateConverter lib) (input : List ℕ) (room size : ℕ)
      (output : List ℕ)
      → length input < fuel
      → Framing input
      → (decode_loop lib d_if_decode fuel st c input room size output).0 ≢ running
  unfolding decode_loop
  decode_loop-ends zero st c input room size output h f = absurd (omega arith)
  decode_loop-ends (suc fuel) st c [] room size output h f = ground arith
  decode_loop-ends (suc fuel) st c (b ∷ rest) room size output h f =
      let input : List ℕ = b ∷ rest in
      let st' : State = (d_if_decode st input amr_good_frame).0 in
      let conv = convert lib c (speech_of st input b) (room / 2) false in
      elim (Option-cases conv.0) [
        | inl e ↦ ground (arith, e)
        | inr (samples, e) ↦ ground (
          arith,
          e,
          length-drop (block_of b) input,
          decode_loop-ends fuel st' conv.1 (drop (block_of b) input) room
              (size + length samples * 2) (write_at size (sample_bytes samples) output)
              (omega (arith, f.0, length-drop (block_of b) input))
              (Framing-drop (block_of b) input f),
        )
      ]

  -- `Codec` ends on every input whose bytes announce no empty block: one round more than the input
  -- has bytes is enough.
  pub codec_ends :
      (st : State) (c : RateConverter lib) (input output : List ℕ) (room : ℕ)
      → Framing input
      → (codec lib d_if_decode (length input + 1) st c input output room).0 ≢ running
  unfolding codec
  codec_ends st c input output room f =
      decode_loop-ends (length input + 1) st c input room 0 output (omega arith) f

  decode_loop-hangs :
      (fuel : ℕ) (st : State) (c : RateConverter lib) (b : ℕ) (rest : List ℕ) (room size : ℕ)
      (output : List ℕ)
      → block_of b ≡ 0
      → 320 ≤ room
      → let o = (decode_loop lib d_if_decode fuel st c (b ∷ rest) room size output).0 in
        (o ≡ running) ⊎ (o ≡ fault)
  unfolding decode_loop
  decode_loop-hangs zero st c b rest room size output empty h = inl refl
  decode_loop-hangs (suc fuel) st c b rest room size output empty h =
      let input : List ℕ = b ∷ rest in
      let st' : State = (d_if_decode st input amr_good_frame).0 in
      let conv = convert lib c (speech_of st input b) (room / 2) false in
      elim (Option-cases conv.0) [
        | inl e ↦ ground (arith, e, empty)
        | inr (samples, e) ↦ ground (
          arith,
          e,
          empty,
          ap (λ (k : ℕ). drop k input) empty,
          decode_loop-hangs fuel st' conv.1 b rest room (size + length samples * 2)
              (write_at size (sample_bytes samples) output) empty h,
        )
      ]

  empty_block : (b : ℕ) → 10 < mode_of b → mode_of b < 14 → block_of b ≡ 0
  unfolding block_of
  empty_block b lo hi = ground arith

  -- On an input that starts with mode 11, 12 or 13, in a buffer with room for a frame, it never
  -- returns: whatever the fuel, the loop is still running or has met a fault.
  pub codec_hangs :
      (fuel : ℕ) (st : State) (c : RateConverter lib) (b : ℕ) (rest output : List ℕ) (room : ℕ)
      → (10 < mode_of b) × (mode_of b < 14)
      → 320 ≤ room
      → let o = (codec lib d_if_decode fuel st c (b ∷ rest) output room).0 in
        (o ≡ running) ⊎ (o ≡ fault)
  unfolding codec
  codec_hangs fuel st c b rest output room modes h =
      decode_loop-hangs fuel st c b rest room 0 output (empty_block b modes.0 modes.1) h
