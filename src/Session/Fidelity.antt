-- ===== src/Session/Fidelity.antt =====
-- Speech from an upload session to a download session, with the mu-law coder in between: `Send` of
-- src/session.cpp, the network, and `Recv`.
pub mod Call
use mathlib.Core.Path.{subst}
use codec_single_thread.Pcm.{ulaw_encode, ulaw_decode, speech, speech_bytes, ulaw_de_codec}
use codec_single_thread.Pcm.Ulaw.{ulaw_error, ulaw_encode-lt}
use codec_single_thread.Pcm.Buffers.{
  ulaw_en_codec-fits, ulaw_de_codec-fits, length-speech, speech-speech_bytes, map-ulaw_decode-Fits,
  take-decoded,
}
use codec_single_thread.Session.{Coder}
use codec_single_thread.Session.Coders.{pcm_u_encoder, pcm_u_decoder}
use codec_single_thread.Session.Upload
use codec_single_thread.Session.Download
use codec_single_thread.Session.Link.{recv-upload_send, InStep}
use codec_single_thread.Base.{
  ℕ, ◌+◌, ◌-◌, ◌*◌, ◌/◌, ◌%◌, ◌^◌, ◌≤◌, ◌<◌, ◌≡◌, sym, ap, ◌∙◌, arith, List, [], ◌∷◌, ◌++◌, some,
  length, take, map, replicate, overwrite, All, AllBytes, ℤ, abs, distance, length-map, length-take,
  take-overwrite, Option, length-overwrite,
}

-- Samples that are not louder than the coder's range.
abbrev pub InRange : List ℤ → Type 0
InRange = All (λ x. abs x ≤ 32635)

-- Each sample is within a thirty-second of its biased magnitude of the original's.
abbrev pub Near : List ℤ → List ℤ → Type 0
Near [] [] = Unit
Near [] (y ∷ ys) = ⊥
Near (x ∷ xs) [] = ⊥
Near (x ∷ xs) (y ∷ ys) = (32 * distance y x ≤ abs x + 132) × Near xs ys

coded-Near : (xs : List ℤ) → InRange xs → Near xs (map ulaw_decode (map ulaw_encode xs))
coded-Near [] h = tt
coded-Near (x ∷ xs) h = (ulaw_error x h.0, coded-Near xs h.1)

coded-AllBytes : (xs : List ℤ) → InRange xs → AllBytes (map ulaw_encode xs)
coded-AllBytes [] h = tt
coded-AllBytes (x ∷ xs) h = (ulaw_encode-lt x h.0, coded-AllBytes xs h.1)

-- The codes of a piece of speech.
abbrev codes : List ℕ → List ℕ
codes pcm = map ulaw_encode (speech pcm)

length-codes : (pcm : List ℕ) → length (codes pcm) ≡ length pcm / 2
length-codes pcm = length-map ulaw_encode (speech pcm) ∙ length-speech pcm

-- What stands at the front of the decoder's buffer is near the speech that was coded.
heard-Near :
    (pcm out : List ℕ) (n : ℕ)
    → length pcm ≡ n
    → n % 2 ≡ 0
    → n ≤ length out
    → InRange (speech pcm)
    → Near
        (speech pcm)
        (speech (take n (overwrite (speech_bytes (map ulaw_decode (codes pcm))) out)))
heard-Near pcm out n e even room quiet =
    let cs = codes pcm in
    let size : length cs * 2 ≡ n = omega (arith, length-codes pcm, e) in
    let back =
      ap (λ k. speech (take k (overwrite (speech_bytes (map ulaw_decode cs)) out))) (sym size)
      ∙ ap speech (take-decoded ulaw_decode cs out (omega (arith, size)))
      ∙ speech-speech_bytes (map ulaw_decode cs)
          (map-ulaw_decode-Fits cs (coded-AllBytes (speech pcm) quiet)) in
    subst (Near (speech pcm)) (sym back) (coded-Near (speech pcm) quiet)

module _ (encoder' decoder : Coder) where
  -- Speech survives the way through an upload session that encodes with mu-law and a download session
  -- that decodes it, if the two are in step: if the upload's decoder gives whole frames of `n` bytes,
  -- none of whose samples is louder than 32635, and the buffers have room, then `Send` returns the
  -- `n / 2` codes and the 24 bytes of headers, `Recv` returns `n`, and the speech that it leaves is as
  -- long as the one sent, with each sample within a thirty-second of the original's magnitude plus 132.
  -- The upload's decoder has the state that its call has left, and the sessions are in step again.
  pub recv-upload_send_heard :
      (s : Upload.UploadSession pcm_u_encoder decoder)
      (d : Download.DownloadSession encoder' pcm_u_decoder)
      (input pcm f_sc f_rtp rest output : List ℕ) (dst : decoder.State) (n room room' : ℕ)
      → decoder.codec s.decoder_state input (replicate 2048 0) 2048 ≡ (some n, dst, pcm)
      → n % 320 ≡ 0
      → n ≤ length pcm
      → InRange (speech (take n pcm))
      → n / 2 + 12 < 2 ^ 16
      → (n / 2 + 24 ≤ room) × (n / 2 ≤ length rest)
      → (n ≤ room') × (n ≤ length output)
      → (length f_sc ≡ 12) × (length f_rtp ≡ 12)
      → InStep pcm_u_encoder decoder encoder' pcm_u_decoder s d
      → let sent = Upload.send pcm_u_encoder decoder s input ((f_sc ++ f_rtp) ++ rest) room in
        let got = Download.recv encoder' pcm_u_decoder d (take (n / 2 + 24) sent.2) output room' in
        (sent.0 ≡ some (n / 2 + 24))
        × (got.0 ≡ some n)
        × Near (speech (take n pcm)) (speech (take n got.2))
        × (sent.1.decoder_state ≡ dst)
        × InStep pcm_u_encoder decoder encoder' pcm_u_decoder sent.1 got.1
  recv-upload_send_heard s d input pcm f_sc f_rtp rest output dst n room room' dec whole all quiet
        small fits fits' fronts v =
      let said = take n pcm in
      let size : length said ≡ n = omega (arith, length-take n pcm) in
      let cs = codes said in
      let count : length cs ≡ n / 2 = omega (arith, length-codes said, size) in
      let enc =
        ulaw_en_codec-fits said rest (room - 24) (omega (arith, size))
        ∙ ap (λ k. (some (k / 2), overwrite cs rest)) size in
      let cut =
        ap (λ k. take k (overwrite cs rest)) (sym count)
        ∙ take-overwrite cs rest (omega (arith, count)) in
      let run =
        recv-upload_send pcm_u_encoder decoder encoder' pcm_u_decoder s d input pcm f_sc f_rtp rest
          (overwrite cs rest) output dst tt n (n / 2) room room' dec whole
          (ap (λ (r : Option ℕ × List ℕ). (r.0, tt, r.1)) enc)
          (omega (arith, count, length-overwrite cs rest, fits)) small (omega (arith, fits)) fronts
          v in
      let heard =
        ap (λ k. ulaw_de_codec k output room') cut
        ∙ ulaw_de_codec-fits cs output room' (omega (arith, count))
        ∙ ap (λ k. (some k, overwrite (speech_bytes (map ulaw_decode cs)) output))
            {x = length cs * 2} {y = n} (omega (arith, count)) in
      (
        run.0,
        run.1 ∙ ap (λ (r : Option ℕ × List ℕ). r.0) heard,
        subst (λ k. Near (speech said) (speech (take n k)))
            (sym (run.2 ∙ ap (λ (r : Option ℕ × List ℕ). r.1) heard))
            (heard-Near said output n size (omega arith) fits'.1 quiet),
        run.3,
        run.6,
      )
