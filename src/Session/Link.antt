-- ===== src/Session/Link.antt =====
-- The two sessions back to back: `UploadSession::Send` and `DownloadSession::Recv`, with the SC2 header
-- and without the UDP/IP header, for which no session sets its packer up.
use mathlib.Core.Path.{subst}
use codec_single_thread.Sc.{sc_copy_to_net, next_header}
use codec_single_thread.Sc.Sender.{next_header_lem}
use codec_single_thread.Sc.Wire.{FitsHeader, length-store_header}
use codec_single_thread.Sc.Receiver.{recv-front, Follows}
use codec_single_thread.Rtp.{header_bytes}
use codec_single_thread.Rtp.Stream.{length-header_bytes, IsPlain, advance-IsPlain}
use codec_single_thread.Session.{Coder}
use codec_single_thread.Session.Upload
use codec_single_thread.Session.Upload.Layers.{rtp_packet, sc_header, send_layers, after}
use codec_single_thread.Session.Download
use codec_single_thread.Session.Download.Stripped.{strip_front, recv-run}
use codec_single_thread.Base.{
  false, ℕ, ◌<◌, ◌≤◌, ◌+◌, ◌-◌, ◌^◌, ◌%◌, ◌≡◌, ap, sym, ◌/◌, ◌∙◌, List, ◌++◌, some, replicate, take,
  length, true, arith, length-append, length-take, take-suffix, drop-front,
}

module _ (encoder decoder encoder' decoder' : Coder) where
  take-layers :
      (s : Upload.UploadSession encoder decoder) (len m : ℕ) (code : List ℕ)
      → take (m + 24) (sc_header encoder decoder s len ++ rtp_packet encoder decoder s code)
        ≡ sc_header encoder decoder s len ++ rtp_packet encoder decoder s (take m code)
  take-layers s len m code =
      let hdr : List ℕ = sc_header encoder decoder s len in
      let rtp : List ℕ = header_bytes s.rtp.send_header in
      ap (λ k. take k (hdr ++ (rtp ++ code))) {x = m + 24} {y = length hdr + (length rtp + m)}
        (omega (
          arith,
          length-store_header (sc_copy_to_net (next_header s.sc_send.send_header len)),
          length-header_bytes s.rtp.send_header,
        ))
      ∙ take-suffix (length rtp + m) hdr (rtp ++ code)
      ∙ ap (λ xs. hdr ++ xs) (take-suffix m rtp code)

  -- Both sessions use the SC2 header and not the UDP/IP header, the RTP header is plain, the SC2 header
  -- fits, and the receiver has seen nothing or the sender's direction.
  pub record InStep (s : Upload.UploadSession encoder decoder)
      (d : Download.DownloadSession encoder' decoder') : Type 0 where
    pub sends_sc : s.if_send_sc ≡ true
    pub no_udpip : s.if_add_udpip ≡ false
    pub takes_sc : d.if_send_sc ≡ true
    pub takes_no_udpip : d.if_add_udpip ≡ false
    pub plain : IsPlain s.rtp.send_header
    pub fits : FitsHeader s.sc_send.send_header
    pub follows : Follows d.sc_recv s.sc_send

  -- `Recv` of a download session gives its decoder exactly the code of the packet that `Send` of an
  -- upload session has made, and what the decoder then returns, if the two are in step: for decoded
  -- speech of whole frames, a code of `m` bytes below 65524, and a buffer with 24 bytes in front of it.
  -- The packet has m + 24 bytes, which is what `Send` returns. Afterwards the coders have the states
  -- that their calls have left, and the sessions are in step again.
  pub recv-upload_send :
      (s : Upload.UploadSession encoder decoder) (d : Download.DownloadSession encoder' decoder')
      (input pcm f_sc f_rtp rest coded output : List ℕ) (dst : decoder.State) (st : encoder.State)
      (n m room room' : ℕ)
      → decoder.codec s.decoder_state input (replicate 2048 0) 2048 ≡ (some n, dst, pcm)
      → n % 320 ≡ 0
      → encoder.codec s.encoder_state (take n pcm) rest (room - 24) ≡ (some m, st, coded)
      → m ≤ length coded
      → m + 12 < 2 ^ 16
      → 24 ≤ room
      → (length f_sc ≡ 12) × (length f_rtp ≡ 12)
      → InStep s d
      → let sent = Upload.send encoder decoder s input ((f_sc ++ f_rtp) ++ rest) room in
        let got = Download.recv encoder' decoder' d (take (m + 24) sent.2) output room' in
        let decoded = decoder'.codec d.decoder_state (take m coded) output room' in
        (sent.0 ≡ some (m + 24))
        × (got.0 ≡ decoded.0)
        × (got.2 ≡ decoded.2)
        × (sent.1.decoder_state ≡ dst)
        × (sent.1.encoder_state ≡ st)
        × (got.1.decoder_state ≡ decoded.1)
        × InStep sent.1 got.1
  recv-upload_send s d input pcm f_sc f_rtp rest coded output dst st n m room room' dec whole enc
        full small holds fronts v =
      let run =
        send_layers encoder decoder s input pcm f_sc f_rtp rest coded dst st n m room dec whole enc
          v.sends_sc v.no_udpip fronts.0 fronts.1 holds small in
      let code : List ℕ = take m coded in
      let inner : List ℕ = rtp_packet encoder decoder s code in
      let hdr : List ℕ = sc_header encoder decoder s (m + 12) in
      let cut = ap (λ t. take (m + 24) t.2) run ∙ take-layers s (m + 12) m coded in
      let size : length inner ≡ m + 12 = omega (
        arith,
        length-append (header_bytes s.rtp.send_header) code,
        length-header_bytes s.rtp.send_header,
        length-take m coded,
      ) in
      let accepted = recv-front s.sc_send d.sc_recv (m + 12) inner v.fits small size v.follows in
      let bare =
        drop-front 12 hdr inner
          (length-store_header (sc_copy_to_net (next_header s.sc_send.send_header (m + 12)))) in
      let heard =
        recv-run encoder' decoder' d (hdr ++ inner) code output room' v.takes_sc accepted.0 (
          rw bare
            (strip_front encoder' decoder' _ s.rtp.send_header code v.takes_no_udpip v.plain)) in
      let same = ap (λ p. Download.recv encoder' decoder' d p output room') cut ∙ heard in
      let left = after encoder decoder s dst st n m in
      let got =
        Download.recv encoder' decoder' d
          (take (m + 24) (Upload.send encoder decoder s input ((f_sc ++ f_rtp) ++ rest) room).2)
          output room' in
      (
        ap (λ t. t.0) run,
        ap (λ t. t.0) same,
        ap (λ t. t.2) same,
        ap (λ t. t.1.decoder_state) run,
        ap (λ t. t.1.encoder_state) run,
        ap (λ t. t.1.decoder_state) same,
        subst (λ k. InStep k got.1) (sym (ap (λ t. t.1) run))
            (subst (λ k. InStep left k) (sym (ap (λ t. t.1) same))
              (record {
                sends_sc = v.sends_sc;
                no_udpip = v.no_udpip;
                takes_sc = v.takes_sc;
                takes_no_udpip = v.takes_no_udpip;
                plain = advance-IsPlain s.rtp (n / 320) v.plain;
                fits = (next_header_lem s.sc_send.send_header (m + 12) small v.fits).4;
                follows = accepted.1;
              })),
      )
