-- ===== src/Session/Upload/Layers.antt =====
-- The whole of `UploadSession::Send` of a session that adds the SC2 header and not the UDP/IP header:
-- SC2 and RTP headers, and the code.
use codec_single_thread.Sc.{sc_copy_to_net, store_header, next_header}
use codec_single_thread.Rtp.{header_bytes, advance}
use codec_single_thread.Session.{Coder}
use codec_single_thread.Session.Upload.{
  UploadSession, udp_offset, rtp_offset, encode, add_rtp, add_udp, add_sc, pack, send,
}
use codec_single_thread.Session.Upload.Packed.{
  add_rtp_front, add_udp_off, add_sc_front, encode_front,
}
use codec_single_thread.Base.{
  false, ◌≤◌, ℕ, ◌<◌, ◌+◌, ◌-◌, ◌^◌, ◌/◌, ◌%◌, ◌≡◌, refl, ap, ◌∙◌, List, ◌++◌, some, replicate,
  take, length, true, arith, length-append, ++-assoc,
}

module _ (encoder decoder : Coder) where
  -- The bytes of an RTP packet around a code, and the SC2 header in front of that.
  abbrev pub rtp_packet : UploadSession encoder decoder → List ℕ → List ℕ
  rtp_packet s code = header_bytes s.rtp.send_header ++ code

  abbrev pub sc_header : UploadSession encoder decoder → ℕ → List ℕ
  sc_header s len = store_header (sc_copy_to_net (next_header s.sc_send.send_header len))

  pub pack_whole :
      (s : UploadSession encoder decoder) (output pcm : List ℕ) (st : decoder.State) (n room : ℕ)
      → n % 320 ≡ 0
      → pack encoder decoder s output room (some n, st, pcm)
        ≡ add_sc encoder decoder (
            add_udp encoder decoder (
              add_rtp encoder decoder (n / 320) (
                encode encoder decoder
                  (take n pcm)
                  room
                  (record s { decoder_state = st }, output))))
  unfolding pack
  pack_whole s output pcm st n room whole = rw whole refl

  -- The session that `Send` leaves, for `n` bytes of speech and a code of `m` bytes.
  abbrev pub after :
      UploadSession encoder decoder
      → decoder.State
      → encoder.State
      → ℕ
      → ℕ
      → UploadSession encoder decoder
  after s dst st n m = record s {
    decoder_state = dst;
    encoder_state = st;
    rtp = record s.rtp { send_header = advance s.rtp (n / 320) };
    sc_send = record s.sc_send { send_header = next_header s.sc_send.send_header (m + 12) };
  }

  pub send_layers :
      (s : UploadSession encoder decoder) (input pcm f_sc f_rtp rest coded : List ℕ)
      (dst : decoder.State) (st : encoder.State) (n m room : ℕ)
      → decoder.codec s.decoder_state input (replicate 2048 0) 2048 ≡ (some n, dst, pcm)
      → n % 320 ≡ 0
      → encoder.codec s.encoder_state (take n pcm) rest (room - 24) ≡ (some m, st, coded)
      → s.if_send_sc ≡ true
      → s.if_add_udpip ≡ false
      → length f_sc ≡ 12
      → length f_rtp ≡ 12
      → 24 ≤ room
      → m + 12 < 2 ^ 16
      → send encoder decoder s input ((f_sc ++ f_rtp) ++ rest) room
        ≡ (some (m + 24), after s dst st n m, sc_header s (m + 12) ++ rtp_packet s coded)
  unfolding send pack udp_offset rtp_offset
  send_layers s input pcm f_sc f_rtp rest coded dst st n m room dec whole enc sc_on udp_off e1 e2
        fits small =
      let s1 : UploadSession encoder decoder = record s { decoder_state = dst } in
      let s2 : UploadSession encoder decoder = record s1 { encoder_state = st } in
      let s3 : UploadSession encoder decoder = record s2 {
        rtp = record s.rtp { send_header = advance s.rtp (n / 320) };
      } in
      let f2 : length f_sc ≡ rtp_offset encoder decoder s2 = rw (sc_on, udp_off) e1 in
      let f3 : length (f_sc ++ f_rtp) ≡ rtp_offset encoder decoder s1 + 12 =
        rw (sc_on, udp_off) (omega (arith, length-append f_sc f_rtp)) in
      let encoded =
        encode_front encoder decoder s1 (take n pcm) (f_sc ++ f_rtp) rest coded st m room f3
          (rw (sc_on, udp_off) fits) (rw (sc_on, udp_off) enc) in
      ap (pack encoder decoder s ((f_sc ++ f_rtp) ++ rest) room) dec
      ∙ pack_whole s ((f_sc ++ f_rtp) ++ rest) pcm dst n room whole
      ∙ ap
          (λ t.
            add_sc encoder decoder (add_udp encoder decoder (add_rtp encoder decoder (n / 320) t)))
          (encoded ∙ ap (λ k. (some m, s2, k)) (++-assoc f_sc f_rtp coded))
      ∙ ap (λ t. add_sc encoder decoder (add_udp encoder decoder t))
          (add_rtp_front encoder decoder (n / 320) m s2 f_sc f_rtp coded f2 e2)
      ∙ ap (λ t. add_sc encoder decoder t)
          (add_udp_off encoder decoder (m + 12) s3 (f_sc ++ rtp_packet s coded) udp_off)
      ∙ add_sc_front encoder decoder (m + 12) s3 f_sc (rtp_packet s coded) sc_on small e1
      ∙ ap (λ k. (some k, after s dst st n m, sc_header s (m + 12) ++ rtp_packet s coded))
          {x = m + 12 + 12} {y = m + 24} (omega arith)
