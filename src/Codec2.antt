-- ===== src/Codec2.antt =====
-- `Codec2EnCoder` and `Codec2DeCoder` of src/codec.h and src/codec.cpp.
--
-- The Codec2 library is not part of the repository: its encoder and its decoder of one frame are
-- arguments, functions of the coder's state. `coder_base` is the pointer to that state. A buffer is
-- the list of its bytes, none for a null pointer; a result is none for the C++ method's -1.
pub mod Stream
pub mod Calls
mod Tests
use codec_single_thread.Base.{
  ℕ, zero, suc, ◌+◌, ◌*◌, ◌/◌, ◌%◌, List, Option, none, some, ltb, not, ◌==◌, if◌then◌else◌, length,
  take, drop, replicate, overwrite, write_at,
}

abbrev pub pcm_frame_length : ℕ
pcm_frame_length = 320

abbrev pub codec2_frame_length : ℕ
codec2_frame_length = 6

module _ {State : Type 0} where
  -- `Init`, with what `codec2_create` returns: a second call fails and keeps the first state.
  pub init : Option State → Option State → Option ℕ × Option State
  init (some old) created = (none, some old)
  init none none = (none, none)
  init none (some s) = (some 0, some s)

  -- The destructor: the state that it hands to `codec2_destroy`, and the pointer after it.
  pub destroy : Option State → Option State × Option State
  destroy (some s) = (some s, none)
  destroy none = (none, none)

  -- `Codec2PrintCoderMsg`, from what `codec2_create` returns: the samples and the bits of a frame that
  -- it prints, and the coder that it hands to `codec2_destroy`.
  pub print_coder_msg : (State → ℕ) → (State → ℕ) → Option State → Option (ℕ × ℕ) × Option State
  print_coder_msg samples_per_frame bits_per_frame none = (none, none)
  print_coder_msg samples_per_frame bits_per_frame (some test_coder) =
      (some (samples_per_frame test_coder, bits_per_frame test_coder), some test_coder)

  module _ (step : Option State → List ℕ → Option State × List ℕ) where
    -- The loops of the two `Codec` methods: frame `i` is read at `i * in_size` and written at
    -- `i * out_size`. The first argument counts the frames left.
    pub frame_loop : ℕ → ℕ → ℕ → ℕ → Option State → List ℕ → List ℕ → Option State × List ℕ
    frame_loop in_size out_size zero i st input output = (st, output)
    frame_loop in_size out_size (suc n) i st input output =
        let (st', frame) = step st (take in_size (drop (i * in_size) input)) in
        frame_loop in_size out_size n (i + 1) st' input (write_at (i * out_size) frame output)

    -- What follows the null test in `Codec`.
    pub code_frames : ℕ → ℕ → Option State → List ℕ → List ℕ → ℕ → Option ℕ × Option State × List ℕ
    unfolding frame_loop
    code_frames in_size out_size st input output output_length =
        let frames : ℕ = length input / in_size in
        if not (length input % in_size == 0)
        then (none, st, output)
        else if ltb output_length (frames * out_size)
        then (none, st, output)
        else let (st', output') = frame_loop in_size out_size frames 0 st input output in
          (some (frames * out_size), st', output')

    -- The loop of the encoder's `GetWhite`: the same frame is coded again and again.
    pub white_loop : ℕ → ℕ → Option State → List ℕ → Option State × List ℕ
    white_loop zero i st output = (st, output)
    white_loop (suc n) i st output =
        let (st', frame) = step st (replicate pcm_frame_length 0) in
        white_loop n (i + 1) st' (write_at (i * codec2_frame_length) frame output)

  module _ (codec2_encode : Option State → List ℕ → Option State × List ℕ) where
    pub en_codec :
        Option State
        → Option (List ℕ)
        → Option (List ℕ)
        → ℕ
        → Option ℕ × Option State × Option (List ℕ)
    unfolding code_frames
    en_codec st (some input) (some output) output_length =
        let (r, st', output') =
          code_frames codec2_encode pcm_frame_length codec2_frame_length st input output
            output_length in
        (r, st', some output')
    en_codec st _ output output_length = (none, st, output)

    pub en_get_white : Option State → List ℕ → ℕ → ℕ → Option ℕ × Option State × List ℕ
    unfolding white_loop
    en_get_white st output length frames =
        if ltb length (codec2_frame_length * frames)
        then (none, st, output)
        else let (st', output') = white_loop codec2_encode frames 0 st output in
          (some (frames * codec2_frame_length), st', output')

  module _ (codec2_decode : Option State → List ℕ → Option State × List ℕ) where
    pub de_codec :
        Option State
        → Option (List ℕ)
        → Option (List ℕ)
        → ℕ
        → Option ℕ × Option State × Option (List ℕ)
    unfolding code_frames
    de_codec st (some input) (some output) output_length =
        let (r, st', output') =
          code_frames codec2_decode codec2_frame_length pcm_frame_length st input output
            output_length in
        (r, st', some output')
    de_codec st _ output output_length = (none, st, output)

-- The decoder's `GetWhite` fills in silence. Where the buffer is short it returns 0, not -1.
pub de_get_white : List ℕ → ℕ → ℕ → Option ℕ × List ℕ
de_get_white output length frames =
    if ltb length (frames * pcm_frame_length) then (some 0, output) else (
      some (pcm_frame_length * frames),
      overwrite (replicate (pcm_frame_length * frames) 0) output,
    )
