-- ===== src/AmrWb/Encoder/White.antt =====
-- The white frames of the AMR-WB encoder.
use codec_single_thread.AmrWb.{err, amr_wb_frame_sample, List, ℕ}
use codec_single_thread.AmrWb.Encoder.{white_loop, get_white, Option, replicate, length, write_at}
use codec_single_thread.Base.{
  some, zero, suc, List, ℕ, Option, ◌≤◌, ◌<◌, replicate, ◌≡◌, ◌+◌, arith, length, ◌*◌, write_at,
}

module _ {State : Type 0} (e_if_encode : State → List ℕ → State × Option (List ℕ)) where
  -- The library codes silence as two bytes or more.
  abbrev pub CodesSilence : Type 0
  CodesSilence =
      (st : State)
      → (frame : List ℕ) × ((e_if_encode st (replicate amr_wb_frame_sample 0)).1 ≡ some frame)
        × (2 ≤ length frame)

  white_loop-overruns :
      (n : ℕ) (st : State) (room total : ℕ) (output : List ℕ)
      → CodesSilence
      → total ≤ room
      → room < total + 2 * n
      → (white_loop e_if_encode n st room total output).0 ≡ err
  unfolding white_loop
  white_loop-overruns zero st room total output codes le lt = absurd (omega arith)
  white_loop-overruns (suc n) st room total output codes le lt =
      let st' : State = (e_if_encode st (replicate amr_wb_frame_sample 0)).0 in
      let (frame, e, long) = codes st in
      ground (
        arith,
        e,
        long,
        white_loop-overruns n st' room (total + length frame) (write_at total frame output) codes,
      )

  -- `GetWhite` runs its loop as many times as the buffer has bytes. So it fails for every buffer that
  -- is not empty, however large, and however few frames are asked for, if silence is coded as two
  -- bytes or more.
  pub get_white_fails :
      (st : State) (output : List ℕ) (room frames : ℕ)
      → CodesSilence
      → 0 < room
      → (get_white e_if_encode st output room frames).0 ≡ err
  unfolding get_white
  get_white_fails st output room frames codes pos_room =
      white_loop-overruns room st room 0 output codes (omega arith) (omega arith)
