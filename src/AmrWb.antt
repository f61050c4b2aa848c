-- ===== src/AmrWb.antt =====
-- `AmrWbEnCoder` and `AmrWbDeCoder` of src/codec.h and src/codec.cpp, without `__AMR_IF2__`.
--
-- The AMR-WB library of src/amr.h is not part of the repository. `E_IF_encode` is an argument: from a
-- state and 320 samples to the state after and the coded frame, none for a negative size;
-- `D_IF_decode`: from a state, the bytes from the frame on and a flag to 320 samples.
pub mod Align
pub mod Encoder
pub mod Decoder
pub mod Lifetime
mod Tests
use codec_single_thread.Base.{ℕ, List, [], ◌∷◌}

abbrev pub amr_wb_frame_sample : ℕ
amr_wb_frame_sample = 320

abbrev pub amr_block_size : List ℕ
amr_block_size = 18 ∷ 24 ∷ 33 ∷ 37 ∷ 41 ∷ 47 ∷ 51 ∷ 59 ∷ 61 ∷ 6 ∷ 6 ∷ 0 ∷ 0 ∷ 0 ∷ 1 ∷ 1 ∷ []

-- What a call ends in. A fault is where C++ leaves the result open, and `running` that the fuel of a
-- loop was used up.
pub data Outcome : Type 0 where
  ret : ℕ → Outcome
  err fault running : Outcome
