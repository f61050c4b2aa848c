-- ===== src/Session/Download/Stripped.antt =====
-- `DownloadSession::Recv` on the headers that the modules of the sender write.
use codec_single_thread.Sc
use codec_single_thread.Rtp.{RtpHeader, header_bytes}
use codec_single_thread.Rtp.Stream.{IsPlain, decode_front, length-header_bytes}
use codec_single_thread.Session.{Coder}
use codec_single_thread.Session.Download.{
  DownloadSession, strip_sc, strip_udpip, strip_rtp, strip, recv, decode,
}
use codec_single_thread.Base.{
  false, ℕ, ◌≡◌, refl, ap, ◌∙◌, List, ◌++◌, some, length, drop, true, arith, length-append,
  drop-front,
}

module _ (encoder decoder : Coder) where
  strip_rtp_front :
      (h : RtpHeader) (xs : List ℕ)
      → IsPlain h
      → strip_rtp encoder decoder (header_bytes h ++ xs) ≡ some xs
  unfolding strip_rtp
  strip_rtp_front h xs v =
      rw
        (
          strip_rtp,
          decode_front h xs (length (header_bytes h ++ xs)) v
              (omega (arith, length-append (header_bytes h) xs, length-header_bytes h)),
          drop-front 12 (header_bytes h) xs (length-header_bytes h),
        )
        refl

  pub strip_front :
      (d : DownloadSession encoder decoder) (h : RtpHeader) (xs : List ℕ)
      → d.if_add_udpip ≡ false
      → IsPlain h
      → strip encoder decoder d (header_bytes h ++ xs) ≡ some xs
  unfolding strip strip_udpip
  strip_front d h xs off w = rw off (strip_rtp_front h xs w)

  strip_sc-run :
      (d : DownloadSession encoder decoder) (packet : List ℕ)
      → d.if_send_sc ≡ true
      → (Sc.recv d.sc_recv packet (length packet) 0).0 ≡ some 12
      → strip_sc encoder decoder d packet ≡ (
        some (drop 12 packet),
        record d { sc_recv = (Sc.recv d.sc_recv packet (length packet) 0).1 },
      )
  unfolding strip_sc
  strip_sc-run d packet on accepted = rw (on, accepted) refl

  decode-run :
      (d : DownloadSession encoder decoder) (input xs output : List ℕ) (room : ℕ)
      → strip encoder decoder d input ≡ some xs
      → let (r, st, output') = decoder.codec d.decoder_state xs output room in
        decode encoder decoder output room (some input, d)
        ≡ (r, record d { decoder_state = st }, output')
  unfolding decode
  decode-run d input xs output room stripped = rw (decode, stripped) refl

  -- With the SC2 header accepted, the decoder gets what the other headers leave.
  pub recv-run :
      (d : DownloadSession encoder decoder) (packet xs output : List ℕ) (room : ℕ)
      → d.if_send_sc ≡ true
      → (Sc.recv d.sc_recv packet (length packet) 0).0 ≡ some 12
      → let d' : DownloadSession encoder decoder = record d {
        sc_recv = (Sc.recv d.sc_recv packet (length packet) 0).1;
      } in
        let (r, st, output') = decoder.codec d.decoder_state xs output room in
        strip encoder decoder d' (drop 12 packet) ≡ some xs
        → recv encoder decoder d packet output room ≡ (r, record d' { decoder_state = st }, output')
  unfolding recv
  recv-run d packet xs output room on accepted stripped =
      ap (decode encoder decoder output room) (strip_sc-run d packet on accepted)
      ∙ decode-run _ (drop 12 packet) xs output room stripped
