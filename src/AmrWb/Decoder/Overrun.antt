-- ===== src/AmrWb/Decoder/Overrun.antt =====
-- The decoder's loop does not count down the room in its output.
use codec_single_thread.Base.{
  write_at, drop, drop-append, length-replicate, length, [], ◌∷◌, some, false, zero, suc, ℕ, List,
  ◌≡◌, ◌≤◌, ◌++◌, arith, ◌<◌, ◌+◌, ◌*◌, ◌∙◌, ◌/◌, ap, length-append, inl, inr, Bool-cases, ltb,
  length-write_at,
}
use codec_single_thread.RateConverter.{SrcLib, RateConverter, convert, Rate}
use codec_single_thread.AmrWb.{ℕ, List, fault}
use codec_single_thread.AmrWb.Decoder.{
  block_of, sample_bytes, decode_loop, codec, amr_good_frame, ltb,
}
use codec_single_thread.AmrWb.Decoder.Progress.{speech_of}

abbrev pub repeat : ℕ → List ℕ → List ℕ
repeat zero frame = []
repeat (suc k) frame = frame ++ repeat k frame

module _ (lib : SrcLib) (Warm : lib.State → Type 0) (least : ℕ) where
  -- To half the rate, a library that is past its delay makes at least `least` samples of the 320 of a
  -- frame, and at most 160.
  abbrev pub Halves : Type 0
  Halves =
      (st : lib.State) (ratio : Rate) (x : List ℕ)
      → Warm st
      → ratio.num * 2 ≡ ratio.den
      → length x ≡ 320
      → (out : List ℕ) × (st' : lib.State) × (lib.src_process (some st) ratio false x
          ≡ (some st', some out))
        × (least ≤ length out)
        × (length out ≤ 160)
        × Warm st'

  -- A converter to half the rate that has been set up.
  pub record IsHalving (c : RateConverter lib) : Type 0 where
    pub rate_low : c.rate ≤ 5
    pub halving : c.ratio.num * 2 ≡ c.ratio.den
    pub st : lib.State
    pub set_up : c.p_state ≡ some st
    pub warm : Warm st

  convert_halves :
      (c : RateConverter lib) (x : List ℕ) (room : ℕ)
      → Halves
      → length x ≡ 320
      → IsHalving c
      → 160 ≤ room
      → (out : List ℕ) × ((convert lib c x room false).0 ≡ some out)
        × (least ≤ length out)
        × IsHalving (convert lib c x room false).1
  unfolding convert
  convert_halves c x room halves e ready fits =
      let (out, st', made, some_made, few, warm) =
        halves ready.st c.ratio x ready.warm ready.halving e in
      let low : length x * c.rate ≤ 1600 = grind (arith, ready.rate_low) in
      let made' : lib.src_process c.p_state c.ratio false x ≡ (some st', some out) =
        ap (λ p. lib.src_process p c.ratio false x) ready.set_up ∙ made in
      (
        out,
        ground (arith, made', e, low, few, fits),
        some_made,
        record {
          rate_low = ground (arith, made', e, low, few, fits, ready.rate_low);
          halving = ground (arith, made', e, low, few, fits, ready.halving);
          st = st';
          set_up = ground (arith, made', e, low, few, fits);
          warm = warm;
        },
      )

module _ {State : Type 0} (lib : SrcLib) (d_if_decode : State → List ℕ → ℕ → State × List ℕ) where
  -- The library decodes a frame to 320 samples.
  abbrev pub Speaks : Type 0
  Speaks = (st : State) (x : List ℕ) (bfi : ℕ) → length (d_if_decode st x bfi).1 ≡ 320

  length-speech_of :
      (st : State) (x : List ℕ) (b : ℕ) → Speaks → length (speech_of lib d_if_decode st x b) ≡ 320
  length-speech_of st x b speaks =
      ground (arith, speaks st x amr_good_frame, length-replicate {A = ℕ} 320 0)

  decode_loop-repeat :
      (Warm : lib.State → Type 0) (least k fuel : ℕ) (st : State) (c : RateConverter lib) (b : ℕ)
      (rest : List ℕ) (room size : ℕ) (output : List ℕ)
      → Halves lib Warm least
      → Speaks
      → IsHalving lib Warm least c
      → block_of b ≡ length (b ∷ rest)
      → 320 ≤ room
      → k < fuel
      → size ≤ length output
      → length output < size + k * (least * 2)
      → (decode_loop lib d_if_decode fuel st c (repeat k (b ∷ rest)) room size output).0 ≡ fault
  unfolding decode_loop
  decode_loop-repeat Warm least k zero st c b rest room size output halves speaks ready block h lt
        within over =
      absurd (omega arith)
  decode_loop-repeat Warm least zero (suc fuel) st c b rest room size output halves speaks ready
        block h lt within over =
      absurd (omega arith)
  decode_loop-repeat Warm least (suc k) (suc fuel) st c b rest room size output halves speaks ready
        block h lt within over =
      let input : List ℕ = repeat (suc k) (b ∷ rest) in
      let st' : State = (d_if_decode st input amr_good_frame).0 in
      let speech : List ℕ = speech_of lib d_if_decode st input b in
      let conv = convert lib c speech (room / 2) false in
      let half =
        convert_halves lib Warm least c speech (room / 2) halves
          (length-speech_of st input b speaks) ready (omega arith) in
      let next : drop (block_of b) input ≡ repeat k (b ∷ rest) =
        ap (λ (n : ℕ). drop n input) block ∙ drop-append (b ∷ rest) (repeat k (b ∷ rest)) in
      let size' : ℕ = size + length half.0 * 2 in
      let output' : List ℕ = write_at size (sample_bytes half.0) output in
      let kept = length-write_at size (sample_bytes half.0) output in
      let gained : least * 2 + k * (least * 2) ≡ suc k * (least * 2) = grind arith in
      elim (Bool-cases (ltb (length output) size')) [
        | inl past ↦ ground (arith, half.1, block, length-append rest (repeat k (b ∷ rest)), past)
        | inr fits ↦
            let within' : size' ≤ length output = ground (arith, fits) in
            let later =
              decode_loop-repeat Warm least k fuel st' conv.1 b rest room size' output' halves
                speaks half.3 block h (omega arith) (omega (arith, within', kept))
                (omega (arith, kept, gained, over, half.2)) in
            ground
              (arith, half.1, block, next, length-append rest (repeat k (b ∷ rest)), fits, later)
      ]

  -- A packet of `k` equal whole blocks makes `Codec` write past the end of its output, whatever the
  -- room in that, from 320 bytes on, if `k` is large enough: the room is not counted down. The library
  -- decodes a block to 320 samples, and a converter to half the rate, which is set up, makes at least
  -- `least` samples of them, and at most 160; `k` is large enough if k * least samples do not fit.
  pub codec_overruns :
      (Warm : lib.State → Type 0) (least k fuel : ℕ) (st : State) (c : RateConverter lib) (b : ℕ)
      (rest output : List ℕ)
      → Halves lib Warm least
      → Speaks
      → IsHalving lib Warm least c
      → block_of b ≡ length (b ∷ rest)
      → 320 ≤ length output
      → length output < k * (least * 2)
      → k < fuel
      → (codec lib d_if_decode fuel st c (repeat k (b ∷ rest)) output (length output)).0 ≡ fault
  unfolding codec
  codec_overruns Warm least k fuel st c b rest output halves speaks ready block h over lt =
      decode_loop-repeat Warm least k fuel st c b rest (length output) 0 output halves speaks ready
        block h lt (omega arith) (omega (arith, over))
