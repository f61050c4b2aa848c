-- ===== src/AmrWb/Lifetime.antt =====
-- `Init` and the destructors of the AMR-WB coders, with the destructor of `RateConverter`.
--
-- What `E_IF_init` and `D_IF_init` create is an argument, none for a null pointer. A destructor gives
-- what it hands to the libraries. That the two arrays of the converter are released is left out, as is
-- `amr_buff_`.
use codec_single_thread.RateConverter
use codec_single_thread.RateConverter.{SrcLib, RateConverter, Rate}
use codec_single_thread.Base.{ℕ, ◌≡◌, refl, Option, none, some, ◌>>=◌}

-- SRC_SINC_MEDIUM_QUALITY
abbrev pub medium_quality : ℕ
medium_quality = 1

abbrev pub encoder_rate : Rate
encoder_rate = record { num = 16000; den = 8000 }

abbrev pub decoder_rate : Rate
decoder_rate = record { num = 8000; den = 16000 }

module _ (lib : SrcLib) (State : Type 0) where
  pub record AmrWbCoder : Type 0 where
    pub coder_base : Option State
    pub converter : RateConverter lib

  -- `Init` of both coders, which differ in the rate. A converter that fails leaves the coder's state.
  unfoldable pub init_coder : Rate → AmrWbCoder → Option State → Option ℕ × AmrWbCoder
  init_coder rate c created = elim c.coder_base [
    | some old ↦ (none, c)
    | none ↦ elim created [
      | none ↦ (none, c)
      | some s ↦
          let (r, converter) = RateConverter.init lib c.converter rate medium_quality in
          (r >>= λ n. some 0, record { coder_base = some s; converter = converter })
    ]
  ]

  unfoldable pub en_init : AmrWbCoder → Option State → Option ℕ × AmrWbCoder
  unfolding init_coder
  en_init = init_coder encoder_rate

  unfoldable pub de_init : AmrWbCoder → Option State → Option ℕ × AmrWbCoder
  unfolding init_coder
  de_init = init_coder decoder_rate

  -- What `E_IF_exit` or `D_IF_exit` is given, and `src_delete`.
  unfoldable pub destroy : AmrWbCoder → Option State × Option lib.State
  destroy c = (c.coder_base, c.converter.p_state)

  -- A coder that was given a state keeps it, whether `Init` succeeded or the converter failed: every
  -- later `Init` fails and changes nothing, and the destructor hands that state back.
  pub init_coder-final :
      (rate : Rate) (c : AmrWbCoder) (s : State)
      → c.coder_base ≡ none
      → let c' = (init_coder rate c (some s)).1 in
        ((destroy c').0 ≡ some s) × ((again : Option State) → init_coder rate c' again ≡ (none, c'))
  unfolding init_coder destroy
  init_coder-final rate c s empty = rw empty (refl, λ again. refl)
