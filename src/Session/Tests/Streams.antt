-- ===== src/Session/Tests/Streams.antt =====
-- Streams of datagrams through the sessions.

use codec_single_thread.Pcm.{ulaw_encode, speech, ulaw_en_codec}
use codec_single_thread.Session.Loop.{Loop}
use codec_single_thread.Session.Download.Relay.{
  Relay, Codes, IsDatagram, process_loop, process_loop-sends,
}
use codec_single_thread.Base.{
  ℕ, List, [], ◌∷◌, some, refl, ◌≡◌, replicate, length, arith, Option, overwrite, length-replicate,
  All, map, length-overwrite, ◌∙◌, ap,
}
use codec_single_thread.Session.Samples.{sc, sc-FitsHeader, session}
use codec_single_thread.Session.Coders.{pcm_u_encoder, pcm_u_decoder}

-- The mu-law encoder in a buffer of the loop.
ulaw_codes :
    (input out : List ℕ)
    → length input ≡ 960
    → ulaw_en_codec input out 65524 ≡ (some 480, overwrite (map ulaw_encode (speech input)) out)
unfolding ulaw_en_codec
ulaw_codes input out e = ground (arith, e)

pcm_u-Codes : Codes pcm_u_encoder pcm_u_decoder 480
pcm_u-Codes st input out e e' =
    let coded = overwrite (map ulaw_encode (speech input)) out in
    let size = length-overwrite (map ulaw_encode (speech input)) out ∙ e' in
    (
      st,
      coded,
      ap (λ (r : Option ℕ × List ℕ). (r.0, st, r.1)) (ulaw_codes input out e),
      omega (arith, size),
      size,
    )

abbrev relay : Loop (Relay pcm_u_encoder pcm_u_decoder)
relay = record {
  session = record {
    session = session;
    codec_buff = replicate 65536 0;
    send_buff = replicate 65536 0;
  };
  frame_buff = [];
  decoded = [];
  frames = [];
  sent = [];
}

relay_buff : length {A = ℕ} (replicate 65536 0) ≡ 65536
relay_buff = length-replicate {A = ℕ} 65536 0

process_loop-sends_example :
    let l = process_loop pcm_u_encoder pcm_u_decoder 480 relay (replicate 200 7 ∷ (1 ∷ []) ∷ []) in
    All (IsDatagram pcm_u_encoder pcm_u_decoder 480 sc) l.sent × (length l.sent ≡ length l.frames)
process_loop-sends_example =
    process_loop-sends pcm_u_encoder pcm_u_decoder 480 sc relay (replicate 200 7 ∷ (1 ∷ []) ∷ [])
      pcm_u-Codes (omega arith) refl (sc-FitsHeader, relay_buff) tt refl
