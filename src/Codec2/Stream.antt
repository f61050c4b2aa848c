-- ===== src/Codec2/Stream.antt =====
-- The frame loops against the concatenation of the coded frames.

use mathlib.Core.List.{append-nil, append_assoc}
use codec_single_thread.Codec2.{frame_loop, code_frames}
use codec_single_thread.Base.{
  [], zero, suc, Option, List, ℕ, take, length, drop, ◌≡◌, ◌++◌, ◌*◌, arith, overwrite,
  length-append, some, ap, ◌%◌, sym, ◌/◌, write_at, ◌≤◌, ◌∙◌, overwrite-append, ◌+◌, drop-drop,
}

module _ {State : Type 0} (step : Option State → List ℕ → Option State × List ℕ) where
  -- The reference: the frames of the input in turn, each coded in the state that the last one left.
  pub coded : ℕ → ℕ → Option State → List ℕ → Option State × List ℕ
  coded in_size zero st input = (st, [])
  coded in_size (suc n) st input =
      let (st', frame) = step st (take in_size input) in
      let (st'', frames) = coded in_size n st' (drop in_size input) in (st'', frame ++ frames)

  -- Every coded frame has the same number of bytes.
  abbrev pub Sized : ℕ → Type 0
  Sized out_size = (st : Option State) (x : List ℕ) → length (step st x).1 ≡ out_size

  pub length-coded :
      (in_size out_size n : ℕ) (st : Option State) (input : List ℕ)
      → Sized out_size
      → length (coded in_size n st input).1 ≡ n * out_size
  unfolding coded
  length-coded in_size out_size zero st input sized = omega arith
  length-coded in_size out_size (suc n) st input sized =
      let st' : Option State = (step st (take in_size input)).0 in
      omega (
        arith,
        length-append (step st (take in_size input)).1 (coded in_size n st' (drop in_size input)).1,
        length-coded in_size out_size n st' (drop in_size input) sized,
        sized st (take in_size input),
      )

  frame_loop-coded :
      (in_size out_size n i : ℕ) (st : Option State) (input output done : List ℕ)
      → Sized out_size
      → length done ≡ i * out_size
      → frame_loop step in_size out_size n i st input (overwrite done output) ≡ (
        (coded in_size n st (drop (i * in_size) input)).0,
        overwrite (done ++ (coded in_size n st (drop (i * in_size) input)).1) output,
      )
  unfolding frame_loop coded
  frame_loop-coded in_size out_size zero i st input output done sized e =
      ap (λ (b : List ℕ). (st, overwrite b output)) (sym (append-nil done))
  frame_loop-coded in_size out_size (suc n) i st input output done sized e =
      let r = step st (take in_size (drop (i * in_size) input)) in
      let written : write_at (i * out_size) r.1 (overwrite done output)
          ≡ overwrite (done ++ r.1) output =
        ap (λ (k : ℕ). write_at k r.1 (overwrite done output)) (sym e)
        ∙ overwrite-append done r.1 output in
      let size : length (done ++ r.1) ≡ (i + 1) * out_size =
        omega
          (arith, length-append done r.1, sized st (take in_size (drop (i * in_size) input)), e) in
      let next : drop in_size (drop (i * in_size) input) ≡ drop ((i + 1) * in_size) input =
        drop-drop (i * in_size) in_size input ∙ ap (λ (k : ℕ). drop k input) (omega arith) in
      ap (λ (b : List ℕ). frame_loop step in_size out_size n (i + 1) r.0 input b) written
      ∙ frame_loop-coded in_size out_size n (i + 1) r.0 input output (done ++ r.1) sized size
      ∙ ap
          (λ (x : List ℕ). (
            (coded in_size n r.0 x).0,
            overwrite ((done ++ r.1) ++ (coded in_size n r.0 x).1) output,
          ))
          (sym next)
      ∙ ap
          (λ (b : List ℕ).
            ((coded in_size n r.0 (drop in_size (drop (i * in_size) input))).0, overwrite b output))
          (append_assoc done r.1 (coded in_size n r.0 (drop in_size (drop (i * in_size) input))).1)

  -- On whole frames, with room for the result, `Codec` codes the frames in turn and writes them one
  -- behind the other to the front of the output, which stays as it was behind them.
  pub code_frames-coded :
      (in_size out_size : ℕ) (st : Option State) (input output : List ℕ)
      → Sized out_size
      → length input % in_size ≡ 0
      → length input / in_size * out_size ≤ length output
      → code_frames step in_size out_size st input output (length output) ≡ (
        some (length input / in_size * out_size),
        (coded in_size (length input / in_size) st input).0,
        overwrite (coded in_size (length input / in_size) st input).1 output,
      )
  unfolding code_frames
  code_frames-coded in_size out_size st input output sized whole room =
      ground (
        arith,
        frame_loop-coded in_size out_size (length input / in_size) 0 st input output [] sized,
      )
