-- ===== src/RateConverter.antt =====
-- `RateConverter` of src/codec.h and src/codec.cpp.
--
-- libsamplerate is not part of the repository. Its functions are arguments, over the type of what
-- `SRC_STATE` points to: `src_new` gives a state or a null pointer, `src_set_ratio` tells whether it
-- failed, and `src_process`, together with the conversions between `int16_t` and `float` on both
-- sides, takes samples and gives none on an error, or the samples generated. A `double` rate is a
-- fraction. A sample is the bit pattern of its `int16_t`.
pub mod Bounds
mod Tests
use codec_single_thread.Base.{
  ℕ, ◌*◌, ◌/◌, Bool, false, ◌||◌, List, Option, none, some, ltb, if◌then◌else◌, length, replicate,
}

pub record Rate : Type 0 where
  pub num : ℕ
  pub den : ℕ

-- `rate_ = rate` cuts the fraction off: 2 for 16000/8000, 0 for 8000/16000.
abbrev pub truncated : Rate → ℕ
truncated r = r.num / r.den

abbrev pub buff_size : ℕ
buff_size = 1600

pub record SrcLib : Type 1 where
  pub State : Type 0
  pub src_new : ℕ → Option State
  pub src_set_ratio : State → Rate → State × Bool
  pub src_process : Option State → Rate → Bool → List ℕ → Option State × Option (List ℕ)

module _ (lib : SrcLib) where
  open lib use {State, src_new, src_set_ratio, src_process}

  pub record RateConverter : Type 0 where
    pub p_state : Option State
    pub rate : ℕ
    pub ratio : Rate

  -- The samples that `Convert` stores through `output`, or none for its -1. Its result is their
  -- number. The input may be the output: it is read before anything is written.
  unfoldable pub convert : RateConverter → List ℕ → ℕ → Bool → Option (List ℕ) × RateConverter
  convert c input output_frames is_end =
      if ltb buff_size (length input) || ltb buff_size (length input * c.rate)
      then (none, c)
      else let (st, made) = src_process c.p_state c.ratio is_end input in
        let c' : RateConverter = record c { p_state = st } in
        (
          elim made [
            | none ↦ none
            | some out ↦ if ltb output_frames (length out) then none else some out
          ],
          c',
        )

  -- `Init`: the first conversion, of 320 zeros, only warms the filter up.
  unfoldable pub init : RateConverter → Rate → ℕ → Option ℕ × RateConverter
  unfolding convert
  init c rate quality =
      let c' : RateConverter = record c { rate = truncated rate; p_state = src_new quality } in
      elim (src_new quality) [
        | none ↦ (none, c')
        | some st ↦
            let (st', failed) = src_set_ratio st rate in
            if failed
            then (none, record c' { p_state = some st' })
            else let (st'', _) = src_set_ratio st' rate in
              let ready : RateConverter = record c' { p_state = some st''; ratio = rate } in
              (some 0, (convert ready (replicate 320 0) 640 false).1)
      ]
