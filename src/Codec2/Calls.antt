-- ===== src/Codec2/Calls.antt =====
-- The methods of the two Codec2 coders.
use codec_single_thread.Codec2.{code_frames, en_codec, de_codec, de_get_white, init, destroy}
use codec_single_thread.Codec2.Stream.{coded, Sized, code_frames-coded, length-coded}
use codec_single_thread.Base.{
  some, none, refl, Option, List, ℕ, ◌≡◌, length, ◌*◌, ◌↔◌, arith, ◌≤◌, ◌%◌, ◌≢◌, overwrite, ◌/◌,
  ◌⊎◌, replicate, ◌<◌, ap, ◌∙◌, sym, inl,
}

module _ {State : Type 0} where
  -- The coder is created once: after a successful `Init` another fails, whatever `codec2_create`
  -- returns, and keeps the state, which the destructor then hands back, leaving a null pointer.
  pub init_once :
      (st created again : Option State)
      → (init st created).0 ≡ some 0
      → (init (init st created).1 again ≡ (none, created))
        × (destroy (init st created).1 ≡ (created, none))
        × (st ≡ none)
  unfolding init destroy
  init_once (some old) created again h = cc
  init_once none none again h = cc
  init_once none (some s) again h = (refl, refl, refl)

  code_frames-refuses :
      (step : Option State → List ℕ → Option State × List ℕ) (in_size out_size : ℕ)
      (st : Option State) (input output : List ℕ) (output_length : ℕ)
      → ((code_frames step in_size out_size st input output output_length).0 ≡ none)
        ↔ ((length input % in_size ≢ 0) ⊎ (output_length < length input / in_size * out_size))
  unfolding code_frames
  code_frames-refuses step in_size out_size st input output output_length = ground arith

  code_frames-keeps :
      (step : Option State → List ℕ → Option State × List ℕ) (in_size out_size : ℕ)
      (st : Option State) (input output : List ℕ) (output_length : ℕ)
      → (code_frames step in_size out_size st input output output_length).0 ≡ none
      → code_frames step in_size out_size st input output output_length ≡ (none, st, output)
  unfolding code_frames
  code_frames-keeps step in_size out_size st input output output_length h = ground arith

  -- `Codec2EnCoder::Codec` on two buffers fails exactly if the input is no whole number of frames of
  -- 320 bytes or the output has no room for 6 bytes a frame, and then changes nothing.
  pub en_codec-refuses :
      (codec2_encode : Option State → List ℕ → Option State × List ℕ) (st : Option State)
      (input output : List ℕ) (output_length : ℕ)
      → let run = en_codec codec2_encode st (some input) (some output) output_length in
        ((run.0 ≡ none) ↔ ((length input % 320 ≢ 0) ⊎ (output_length < length input / 320 * 6)))
        × (run.0 ≡ none → run ≡ (none, st, some output))
  unfolding en_codec
  en_codec-refuses encode st input output room = (
    code_frames-refuses encode 320 6 st input output room,
    λ h.
        ap (λ (r : Option ℕ × Option State × List ℕ). (r.0, r.1, some r.2))
          (code_frames-keeps encode 320 6 st input output room h),
  )

  -- The decoder fails on what is no whole number of frames of 6 bytes.
  pub de_codec-refuses :
      (codec2_decode : Option State → List ℕ → Option State × List ℕ) (st : Option State)
      (input output : List ℕ) (output_length : ℕ)
      → length input % 6 ≢ 0
      → (de_codec codec2_decode st (some input) (some output) output_length).0 ≡ none
  unfolding de_codec
  de_codec-refuses decode st input output room h =
      (code_frames-refuses decode 6 320 st input output room).1 (inl h)

  -- `Codec` on two buffers and whole frames, with room for the result.
  pub en_codec-coded :
      (codec2_encode : Option State → List ℕ → Option State × List ℕ) (st : Option State)
      (input output : List ℕ)
      → Sized codec2_encode 6
      → length input % 320 ≡ 0
      → length input / 320 * 6 ≤ length output
      → en_codec codec2_encode st (some input) (some output) (length output) ≡ (
        some (length input / 320 * 6),
        (coded codec2_encode 320 (length input / 320) st input).0,
        some (overwrite (coded codec2_encode 320 (length input / 320) st input).1 output),
      )
  unfolding en_codec
  en_codec-coded encode st input output sized whole room =
      ap (λ (r : Option ℕ × Option State × List ℕ). (r.0, r.1, some r.2))
        (code_frames-coded encode 320 6 st input output sized whole room)

  pub de_codec-coded :
      (codec2_decode : Option State → List ℕ → Option State × List ℕ) (st : Option State)
      (input output : List ℕ)
      → Sized codec2_decode 320
      → length input % 6 ≡ 0
      → length input / 6 * 320 ≤ length output
      → de_codec codec2_decode st (some input) (some output) (length output) ≡ (
        some (length input / 6 * 320),
        (coded codec2_decode 6 (length input / 6) st input).0,
        some (overwrite (coded codec2_decode 6 (length input / 6) st input).1 output),
      )
  unfolding de_codec
  de_codec-coded decode st input output sized whole room =
      ap (λ (r : Option ℕ × Option State × List ℕ). (r.0, r.1, some r.2))
        (code_frames-coded decode 6 320 st input output sized whole room)

  -- Encoding whole frames and decoding the result gives back as many bytes, if the library codes a
  -- frame as 6 bytes and decodes to 320, and both outputs have room.
  pub de_codec-en_codec_length :
      (codec2_encode codec2_decode : Option State → List ℕ → Option State × List ℕ)
      (st st' : Option State) (input codes pcm : List ℕ)
      → Sized codec2_encode 6
      → Sized codec2_decode 320
      → length input % 320 ≡ 0
      → length input / 320 * 6 ≤ length codes
      → length input ≤ length pcm
      → let bits = (coded codec2_encode 320 (length input / 320) st input).1 in
        ((en_codec codec2_encode st (some input) (some codes) (length codes)).0
          ≡ some (length bits))
        × ((en_codec codec2_encode st (some input) (some codes) (length codes)).2
            ≡ some (overwrite bits codes))
        × ((de_codec codec2_decode st' (some bits) (some pcm) (length pcm)).0 ≡ some (length input))
  unfolding en_codec de_codec
  de_codec-en_codec_length encode decode st st' input codes pcm sized sized' whole room room' =
      let n : ℕ = length input / 320 in
      let bits : List ℕ = (coded encode 320 n st input).1 in
      let size : length bits ≡ n * 6 = length-coded encode 320 6 n st input sized in
      let en = code_frames-coded encode 320 6 st input codes sized whole room in
      let de =
        code_frames-coded decode 6 320 st' bits pcm sized' (omega (arith, size))
          (omega (arith, size)) in
      (
        ap (λ (r : Option ℕ × Option State × List ℕ). r.0) en ∙ ap some (sym size),
        ap (λ (r : Option ℕ × Option State × List ℕ). some r.2) en,
        ap (λ (r : Option ℕ × Option State × List ℕ). r.0) de
            ∙ ap some {y = length input} (omega (arith, size)),
      )

-- The decoder's `GetWhite` writes silence of 320 bytes a frame where there is room. Where there is
-- none it writes nothing, and returns 0 where the header promises a negative number.
pub de_get_white_lem :
    (output : List ℕ) (frames : ℕ)
    → (frames * 320 ≤ length output
        → de_get_white output (length output) frames
          ≡ (some (320 * frames), overwrite (replicate (320 * frames) 0) output))
      × (length output < frames * 320
          → de_get_white output (length output) frames ≡ (some 0, output))
unfolding de_get_white
de_get_white_lem output frames = ground arith
