-- ===== src/Session/Tests/Speech.antt =====
-- Loud speech through the two sessions.
use codec_single_thread.Pcm.{ulaw_de_codec, speech}
use codec_single_thread.Session.Coders.{pcm_u_encoder, pcm_u_decoder}
use codec_single_thread.Session.Samples.{upload, session, in_step}
use codec_single_thread.Session.Fidelity.Call.{
  Turn, IsRoomy, Spoken, AllNear, said_all, exchange_all, exchange_all-AllNear,
}
use codec_single_thread.Session.Fidelity.{InRange}
use codec_single_thread.Base.{
  ℕ, ◌≡◌, refl, arith, List, [], ◌∷◌, ◌++◌, replicate, take, Bool, true, ◌&&◌, leb, ℤ, abs,
  length-replicate,
}

quiet : List ℤ → Bool
quiet [] = true
quiet (x ∷ xs) = leb (abs x) 32635 && quiet xs

quiet_sound : (xs : List ℤ) → quiet xs ≡ true → InRange xs
unfolding quiet
quiet_sound [] h = tt
quiet_sound (x ∷ xs) h = (ground arith, quiet_sound xs (ground arith))

-- A tone at the largest levels of both signs.
abbrev tone : List ℕ
tone = replicate 80 0x80 ++ replicate 80 0x00

abbrev pcm : List ℕ
pcm = (ulaw_de_codec tone (replicate 2048 0) 2048).1

abbrev turn : Turn
turn = record { input = tone; send_buff = replicate 1048 9; codec_buff = replicate 2048 9 }

pcm_quiet : quiet (speech (take 320 pcm)) ≡ true
unfolding quiet ulaw_de_codec speech
pcm_quiet = refl

tone-Spoken : (st : Unit) → Spoken pcm_u_encoder pcm_u_decoder st turn
unfolding ulaw_de_codec
tone-Spoken st = record {
  bytes = 320;
  after = tt;
  pcm = pcm;
  run = refl;
  whole = refl;
  fits = omega arith;
  inside = omega arith;
  in_range = quiet_sound _ pcm_quiet;
}

roomy : IsRoomy turn
roomy =
    (omega (arith, length-replicate {A = ℕ} 1048 9), omega (arith, length-replicate {A = ℕ} 2048 9))

exchange_all-AllNear_example :
    AllNear pcm_u_encoder pcm_u_decoder
      (said_all pcm_u_encoder pcm_u_decoder tt (turn ∷ turn ∷ []))
      (exchange_all pcm_u_encoder pcm_u_decoder upload session (turn ∷ turn ∷ []))
exchange_all-AllNear_example =
    exchange_all-AllNear pcm_u_encoder pcm_u_decoder upload session (turn ∷ turn ∷ [])
      (roomy, (roomy, tt)) (tone-Spoken, (tone-Spoken, tt)) in_step
