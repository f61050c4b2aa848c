-- ===== src/Session/Upload/Bare.antt =====
-- `UploadSession::Send` of a session that adds neither the SC2 nor the UDP/IP header: an RTP packet.
use codec_single_thread.Rtp.{header_bytes, advance}
use codec_single_thread.Session.{Coder}
use codec_single_thread.Session.Upload.{
  UploadSession, udp_offset, rtp_offset, add_rtp, add_udp, add_sc, pack, send,
}
use codec_single_thread.Session.Upload.Packed.{add_rtp_front, encode_front}
use codec_single_thread.Session.Upload.Layers.{pack_whole}
use codec_single_thread.Base.{
  ℕ, ◌+◌, ◌-◌, ◌/◌, ◌%◌, ◌≡◌, refl, ap, ◌∙◌, List, [], ◌++◌, some, replicate, take, length, false,
  ◌≤◌,
}

module _ (encoder decoder : Coder) where
  -- The session that `Send` leaves, for `n` bytes of speech.
  abbrev pub after :
      UploadSession encoder decoder
      → decoder.State
      → encoder.State
      → ℕ
      → UploadSession encoder decoder
  after s dst st n = record s {
    decoder_state = dst;
    encoder_state = st;
    rtp = record s.rtp { send_header = advance s.rtp (n / 320) };
  }

  add_none :
      (len : ℕ) (s : UploadSession encoder decoder) (output : List ℕ)
      → s.if_send_sc ≡ false
      → s.if_add_udpip ≡ false
      → add_sc encoder decoder (add_udp encoder decoder (some len, s, output))
        ≡ (some len, s, output)
  unfolding add_sc add_udp
  add_none len s output no_sc no_udp = rw (no_udp, no_sc) refl

  pub send_bare :
      (s : UploadSession encoder decoder) (input pcm f_rtp rest coded : List ℕ)
      (dst : decoder.State) (st : encoder.State) (n m room : ℕ)
      → decoder.codec s.decoder_state input (replicate 2048 0) 2048 ≡ (some n, dst, pcm)
      → n % 320 ≡ 0
      → encoder.codec s.encoder_state (take n pcm) rest (room - 12) ≡ (some m, st, coded)
      → s.if_send_sc ≡ false
      → s.if_add_udpip ≡ false
      → length f_rtp ≡ 12
      → 12 ≤ room
      → send encoder decoder s input (f_rtp ++ rest) room
        ≡ (some (m + 12), after s dst st n, header_bytes s.rtp.send_header ++ coded)
  unfolding send pack udp_offset rtp_offset
  send_bare s input pcm f_rtp rest coded dst st n m room dec whole enc no_sc no_udp e fits =
      let s1 : UploadSession encoder decoder = record s { decoder_state = dst } in
      let s2 : UploadSession encoder decoder = record s1 { encoder_state = st } in
      let encoded =
        encode_front encoder decoder s1 (take n pcm) f_rtp rest coded st m room
          (rw (no_sc, no_udp) e) (rw (no_sc, no_udp) fits) (rw (no_sc, no_udp) enc) in
      ap (pack encoder decoder s (f_rtp ++ rest) room) dec
      ∙ pack_whole encoder decoder s (f_rtp ++ rest) pcm dst n room whole
      ∙ ap
          (λ t.
            add_sc encoder decoder (add_udp encoder decoder (add_rtp encoder decoder (n / 320) t)))
          encoded
      ∙ ap (λ t. add_sc encoder decoder (add_udp encoder decoder t))
          (add_rtp_front encoder decoder (n / 320) m s2 [] f_rtp coded (rw (no_sc, no_udp) refl) e)
      ∙ add_none (m + 12) (after s dst st n) (header_bytes s.rtp.send_header ++ coded) no_sc no_udp
