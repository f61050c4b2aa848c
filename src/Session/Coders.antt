-- ===== src/Session/Coders.antt =====
-- The coders of src/codec.h as `Coder`s of the sessions, and the `switch`es of `Init` over them in
-- src/session.cpp.
--
-- The PCM and the Codec2 coders fail on a negative size. The PCM coders keep no state. The Codec2 library and the AMR-WB coders are arguments: what the latter
-- do can be undefined in C++, which a `Coder` does not say. `PcmAEnCoder` also writes over its input, a
-- buffer that the sessions do not read again.
pub mod Lengths
use codec_single_thread.Pcm.{ulaw_en_codec, ulaw_de_codec, alaw_en_codec, alaw_de_codec}
use codec_single_thread.Codec2
use codec_single_thread.Codec2.{en_codec, de_codec}
use codec_single_thread.Session.{Coder}
use codec_single_thread.Session.Setup.{CodecType, amr_wb, codec2, pcm_a, pcm_u, unknown}
use codec_single_thread.Base.{ℕ, List, Option, none, some}

abbrev pub pcm_u_encoder : Coder
pcm_u_encoder = record {
  State = Unit;
  codec =
      λ st input output len. let (r, output') = ulaw_en_codec input output len in (r, st, output');
  codec_negative = λ st input output below. (none, st, output);
}

abbrev pub pcm_u_decoder : Coder
pcm_u_decoder = record {
  State = Unit;
  codec =
      λ st input output len. let (r, output') = ulaw_de_codec input output len in (r, st, output');
  codec_negative = λ st input output below. (none, st, output);
}

abbrev pub pcm_a_encoder : Coder
pcm_a_encoder = record {
  State = Unit;
  codec = λ st input output len.
      let (r, output', _) = alaw_en_codec input output len in (r, st, output');
  codec_negative = λ st input output below. (none, st, output);
}

abbrev pub pcm_a_decoder : Coder
pcm_a_decoder = record {
  State = Unit;
  codec =
      λ st input output len. let (r, output') = alaw_de_codec input output len in (r, st, output');
  codec_negative = λ st input output below. (none, st, output);
}

-- An output buffer that is not a null pointer.
abbrev pub written : List ℕ → Option (List ℕ) → List ℕ
written old none = old
written old (some new) = new

module _ {S : Type 0} where
  abbrev pub codec2_encoder : (Option S → List ℕ → Option S × List ℕ) → Coder
  codec2_encoder encode = record {
    State = Option S;
    codec = λ st input output len.
        let (r, st', output') = en_codec encode st (some input) (some output) len in
        (r, st', written output output');
    codec_negative = λ st input output below. (none, st, output);
  }

  abbrev pub codec2_decoder : (Option S → List ℕ → Option S × List ℕ) → Coder
  codec2_decoder decode = record {
    State = Option S;
    codec = λ st input output len.
        let (r, st', output') = de_codec decode st (some input) (some output) len in
        (r, st', written output output');
    codec_negative = λ st input output below. (none, st, output);
  }

-- A coder and the state that its `Init` has left.
pub record Started : Type 1 where
  pub coder : Coder
  pub state : coder.State

-- What the sessions use of the libraries: the frames of Codec2, what `codec2_create` returns to the
-- encoder and to the decoder, and the coders of AMR-WB.
pub record Libraries : Type 1 where
  pub Codec2State : Type 0
  pub codec2_encode : Option Codec2State → List ℕ → Option Codec2State × List ℕ
  pub codec2_decode : Option Codec2State → List ℕ → Option Codec2State × List ℕ
  pub encoder_created : Option Codec2State
  pub decoder_created : Option Codec2State
  pub amr_wb_encoder : Started
  pub amr_wb_decoder : Started

-- The coder that `Init` makes for a type, none for its `default`.
unfoldable pub encoder_of : Libraries → CodecType → Option Started
encoder_of lib amr_wb = some lib.amr_wb_encoder
encoder_of lib codec2 = some (record {
  coder = codec2_encoder lib.codec2_encode;
  state = (Codec2.init none lib.encoder_created).1;
})
encoder_of lib pcm_a = some (record { coder = pcm_a_encoder; state = tt })
encoder_of lib pcm_u = some (record { coder = pcm_u_encoder; state = tt })
encoder_of lib unknown = none

unfoldable pub decoder_of : Libraries → CodecType → Option Started
decoder_of lib amr_wb = some lib.amr_wb_decoder
decoder_of lib codec2 = some (record {
  coder = codec2_decoder lib.codec2_decode;
  state = (Codec2.init none lib.decoder_created).1;
})
decoder_of lib pcm_a = some (record { coder = pcm_a_decoder; state = tt })
decoder_of lib pcm_u = some (record { coder = pcm_u_decoder; state = tt })
decoder_of lib unknown = none
