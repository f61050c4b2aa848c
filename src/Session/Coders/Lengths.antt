-- ===== src/Session/Coders/Lengths.antt =====
-- How many bytes the coders make of the 960 bytes of a datagram's speech.
use codec_single_thread.Pcm.{ulaw_encode, speech, ulaw_en_codec, ulaw_decode, speech_bytes}
use codec_single_thread.Codec2.{en_codec}
use codec_single_thread.Codec2.Stream.{Sized, coded, length-coded}
use codec_single_thread.Codec2.Calls.{en_codec-coded, de_codec-refuses}
use codec_single_thread.Pcm.Buffers.{length-speech, ulaw_en_codec-fits, ulaw_de_codec-fits}
use codec_single_thread.Session.{Coder}
use codec_single_thread.Session.Coders.{
  pcm_u_encoder, pcm_u_decoder, codec2_encoder, codec2_decoder, written,
}
use codec_single_thread.Session.Download.Relay.{Codes}
use codec_single_thread.Session.Download.Payloads.{CodesAs}
use codec_single_thread.Session.Upload.Relay.{Refuses}
use codec_single_thread.Session.Upload.Numbered.{Steady}
use codec_single_thread.Base.{
  ℕ, ◌≡◌, ap, ◌∙◌, arith, List, Option, some, length, map, length-replicate, ◌*◌, ◌/◌, ◌≤◌,
  replicate, overwrite, length-overwrite, refl, length-map,
}

-- The mu-law encoder makes a byte for each sample, in a buffer of the loop.
ulaw_codes :
    (input out : List ℕ) (n : ℕ)
    → length input ≡ n * 2
    → n ≤ 65524
    → ulaw_en_codec input out 65524 ≡ (some n, overwrite (map ulaw_encode (speech input)) out)
ulaw_codes input out n e small =
    ulaw_en_codec-fits input out 65524 (omega (arith, e))
    ∙ ap (λ k. (some k, overwrite (map ulaw_encode (speech input)) out)) {x = length input / 2}
        {y = n} (omega (arith, e))

encodes :
    (n : ℕ) (st : Unit {0}) (input out : List ℕ)
    → n ≤ 65524
    → length input ≡ n * 2
    → length out ≡ 65524
    → (st' : Unit {0}) × (coded : List ℕ) × (pcm_u_encoder.codec st input out 65524
        ≡ (some n, st', coded))
      × (n ≤ length coded)
      × (length coded ≡ 65524)
encodes n st input out small e e' =
    let coded = overwrite (map ulaw_encode (speech input)) out in
    let size = length-overwrite (map ulaw_encode (speech input)) out ∙ e' in
    (
      st,
      coded,
      ap (λ (r : Option ℕ × List ℕ). (r.0, st, r.1)) (ulaw_codes input out n e small),
      omega (arith, size),
      size,
    )

-- What it makes of 960 bytes: the codes of their samples.
pub pcm_u-CodesAs : CodesAs pcm_u_encoder 480 (λ st f. (st, map ulaw_encode (speech f)))
pcm_u-CodesAs st input out e e' = (
  ap (λ (r : Option ℕ × List ℕ). (r.0, st, r.1)) (ulaw_codes input out 480 e (omega arith)),
  omega (arith, length-map ulaw_encode (speech input), length-speech input, e),
)

-- Of 960 bytes it makes 480.
pub pcm_u-Codes : (decoder : Coder) → Codes pcm_u_encoder decoder 480
pcm_u-Codes decoder st input out e e' = encodes 480 st input out (omega arith) e e'

decodes :
    (st : Unit {0}) (input : List ℕ)
    → length input ≡ 320
    → (st' : Unit {0}) × (pcm : List ℕ) × (pcm_u_decoder.codec st input (replicate 2048 0) 2048
        ≡ (some 640, st', pcm))
      × (640 ≤ length pcm)
decodes st input e =
    let bytes = speech_bytes (map ulaw_decode input) in
    let pcm = overwrite bytes (replicate 2048 0) in
    (
      st,
      pcm,
      ap (λ (r : Option ℕ × List ℕ). (r.0, st, r.1))
          (ulaw_de_codec-fits input (replicate 2048 0) 2048 (omega (arith, e))
            ∙ ap (λ k. (some (k * 2), pcm)) e),
      omega (arith, length-overwrite bytes (replicate 2048 0), length-replicate {A = ℕ} 2048 0),
    )

-- Of 320 mu-law codes the decoder makes 640 bytes of speech, and the encoder 320 codes of those.
pub pcm_u-Steady : Steady pcm_u_encoder pcm_u_decoder 640 320
pcm_u-Steady = record {
  whole = refl;
  decodes = decodes;
  encodes = λ st input out e e'. encodes 320 st input out (omega arith) e e';
}

module _ {S : Type 0} (codec2_encode : Option S → List ℕ → Option S × List ℕ) where
  codec2_codes :
      (st : Option S) (input out : List ℕ)
      → Sized codec2_encode 6
      → length input ≡ 960
      → length out ≡ 65524
      → en_codec codec2_encode st (some input) (some out) 65524 ≡ (
        some 18,
        (coded codec2_encode 320 3 st input).0,
        some (overwrite (coded codec2_encode 320 3 st input).1 out),
      )
  codec2_codes st input out sized e e' =
      let run =
        en_codec-coded codec2_encode st input out sized (omega (arith, e)) (omega (arith, e, e')) in
      rw (e, e') at run

  -- The Codec2 encoder makes the codes of the three frames, of 18 bytes.
  pub codec2-CodesAs :
      Sized codec2_encode 6 → CodesAs (codec2_encoder codec2_encode) 18 (coded codec2_encode 320 3)
  codec2-CodesAs sized st input out e e' = (
    ap (λ (r : Option ℕ × Option S × Option (List ℕ)). (r.0, r.1, written out r.2))
        (codec2_codes st input out sized e e'),
    omega (arith, length-coded codec2_encode 320 6 3 st input sized),
  )

  -- The Codec2 encoder makes 18 bytes, where the library codes a frame as 6.
  pub codec2-Codes :
      (decoder : Coder) → Sized codec2_encode 6 → Codes (codec2_encoder codec2_encode) decoder 18
  codec2-Codes decoder sized st input out e e' =
      let bits = coded codec2_encode 320 3 st input in
      let size = length-overwrite bits.1 out ∙ e' in
      (
        bits.0,
        overwrite bits.1 out,
        ap (λ (r : Option ℕ × Option S × Option (List ℕ)). (r.0, r.1, written out r.2))
            (codec2_codes st input out sized e e'),
        omega (arith, size),
        size,
      )

  -- The Codec2 decoder fails on 320 bytes, which are no whole number of its frames.
  pub codec2-Refuses : (encoder : Coder) → Refuses encoder (codec2_decoder codec2_encode) 320
  codec2-Refuses encoder st input e =
      de_codec-refuses codec2_encode st input (replicate 2048 0) 2048 (omega (arith, e))
