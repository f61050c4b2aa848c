-- ===== src/Session/Upload/Numbered.antt =====
-- The RTP packets of `UploadSession::ProcessLoop`: numbers and timestamps.
use mathlib.Core.Path.{subst}
use codec_single_thread.Rtp.{header_bytes, advance, decode_rtp_header, RtpSession}
use codec_single_thread.Rtp.Stream.{IsPlain, advance-IsPlain, decode_plain, length-header_bytes}
use codec_single_thread.Session.{Coder}
use codec_single_thread.Session.Upload.{UploadSession, send}
use codec_single_thread.Session.Upload.Bare.{send_bare}
use codec_single_thread.Session.Upload.Relay.{
  UploadRelay, Recv, upload_send, relay_size, upload_recv, upload_loop,
}
use codec_single_thread.Session.Loop.{Loop, send_frame}
use codec_single_thread.Session.Loop.Stable.{Stable, process_packets-Holds}
use codec_single_thread.Session.Upload.Relay.{upload_recv, upload_loop}
use codec_single_thread.Base.{
  ℕ, ◌+◌, ◌*◌, ◌/◌, ◌%◌, ◌^◌, ◌≤◌, ◌≡◌, sym, ap, ◌∙◌, arith, List, [], ◌∷◌, ◌++◌, some, length,
  take, drop, replicate, false, take-drop, length-take, length-drop, length-append, take-suffix,
  refl,
}

-- Where a stream starts, how far the timestamp goes on with each packet, and the bytes of a code.
pub record Stream : Type 0 where
  pub number : ℕ
  pub stamp : ℕ
  pub step : ℕ
  pub code : ℕ

-- The packet `k` of the stream, as `DecodeRtpHeader` reads it.
pub record IsPacket (t : Stream) (k : ℕ) (p : List ℕ) : Type 0 where
  pub size : length p ≡ 12 + t.code
  pub accepted : (decode_rtp_header p (length p) 0 0).result ≡ some 12
  pub counted : (decode_rtp_header p (length p) 0 0).sequence_number ≡ (t.number + k) % 2 ^ 16
  pub timed : (decode_rtp_header p (length p) 0 0).time_stamp ≡ (t.stamp + k * t.step) % 2 ^ 32

-- All packets in their order, from number `k` on.
abbrev pub AllPackets : Stream → ℕ → List (List ℕ) → Type 0
AllPackets t k [] = Unit
AllPackets t k (p ∷ ps) = IsPacket t k p × AllPackets t (k + 1) ps

AllPackets-snoc :
    (t : Stream) (k : ℕ) (ps : List (List ℕ)) (p : List ℕ)
    → AllPackets t k ps
    → IsPacket t (k + length ps) p
    → AllPackets t k (ps ++ (p ∷ []))
AllPackets-snoc t k [] p all good =
    (subst (λ n. IsPacket t n p) {x = k + 0} {y = k} (omega arith) good, tt)
AllPackets-snoc t k (q ∷ ps) p all good = (
  all.0,
  AllPackets-snoc t (k + 1) ps p all.1 (
      subst (λ n. IsPacket t n p) {x = k + length (q ∷ ps)} {y = k + 1 + length ps} (omega arith)
        good),
)

next_stamp :
    (stamp k step now samples : ℕ)
    → now ≡ (stamp + k * step) % 2 ^ 32
    → step ≡ samples
    → (now + samples) % 2 ^ 32 ≡ (stamp + (k + 1) * step) % 2 ^ 32
next_stamp stamp k step now samples e e' = grind (arith, e, e')

module _ (encoder decoder : Coder) where
  -- The coders make `n` bytes of speech of 320 bytes of code, and `m` bytes of code of that.
  pub record Steady (n m : ℕ) : Type 0 where
    pub whole : n % 320 ≡ 0
    pub decodes :
        (st : decoder.State) (input : List ℕ)
        → length input ≡ 320
        → (dst : decoder.State) × (pcm : List ℕ) × (decoder.codec st input (replicate 2048 0) 2048
            ≡ (some n, dst, pcm))
          × (n ≤ length pcm)
    pub encodes :
        (st : encoder.State) (input out : List ℕ)
        → length input ≡ n
        → length out ≡ 65524
        → (st' : encoder.State) × (coded : List ℕ) × (encoder.codec st input out 65524
            ≡ (some m, st', coded))
          × (m ≤ length coded)
          × (length coded ≡ 65524)

  -- The session adds no header but that of RTP, which is plain and `k` packets on in the stream.
  pub record IsAt (t : Stream) (n k : ℕ) (r : UploadRelay encoder decoder) : Type 0 where
    pub no_sc : r.session.if_send_sc ≡ false
    pub no_udpip : r.session.if_add_udpip ≡ false
    pub room : length r.send_buff ≡ 65536
    pub plain : IsPlain r.session.rtp.send_header
    pub number : r.session.rtp.send_header.sequence_num ≡ (t.number + k) % 2 ^ 16
    pub stamp : r.session.rtp.send_header.timestamp ≡ (t.stamp + k * t.step) % 2 ^ 32
    pub step : t.step ≡ n / 320 * r.session.rtp.param.samples_pre_frames

  -- `Recv` leaves the parameters of the session and its RTP half alone.
  pub record KeepsRtp (recv : Recv encoder decoder) : Type 0 where
    pub keeps_sc :
        (s : UploadSession encoder decoder) (p : List ℕ) → (recv s p).1.if_send_sc ≡ s.if_send_sc
    pub keeps_udpip :
        (s : UploadSession encoder decoder) (p : List ℕ)
        → (recv s p).1.if_add_udpip ≡ s.if_add_udpip
    pub keeps_rtp : (s : UploadSession encoder decoder) (p : List ℕ) → (recv s p).1.rtp ≡ s.rtp

  -- A frame makes one packet of the stream.
  upload_send-IsPacket :
      (t : Stream) (n k : ℕ) (r : UploadRelay encoder decoder) (f : List ℕ)
      → Steady n t.code
      → IsAt t n k r
      → length f ≡ 320
      → let (made, r') = upload_send encoder decoder r f in
        (p : List ℕ) × (made ≡ some p) × IsPacket t k p × IsAt t n (k + 1) r'
  unfolding upload_send advance
  upload_send-IsPacket t n k r f steady v e =
      let s = r.session in
      let b = r.send_buff in
      let (dst, pcm, dec, inside) = steady.decodes s.decoder_state f e in
      let (st, coded, enc, fits, size) =
        steady.encodes s.encoder_state (take n pcm) (drop 12 b) (omega (arith, length-take n pcm))
          (omega (arith, length-drop 12 b, v.room)) in
      let packet = header_bytes s.rtp.send_header ++ coded in
      let run =
        ap (λ k. send encoder decoder s f k relay_size) (sym (take-drop 12 b))
        ∙ send_bare encoder decoder s f pcm (take 12 b) (drop 12 b) coded dst st n t.code relay_size
            dec steady.whole enc v.no_sc v.no_udpip (omega (arith, length-take 12 b, v.room))
            (omega arith) in
      let hdr = header_bytes s.rtp.send_header in
      let p = hdr ++ take t.code coded in
      let long : length p ≡ 12 + t.code = omega (
        arith,
        length-append hdr (take t.code coded),
        length-header_bytes s.rtp.send_header,
        length-take t.code coded,
        fits,
      ) in
      let cut : take (t.code + 12) packet ≡ p =
        ap (λ k. take k packet) {x = t.code + 12} {y = length hdr + t.code}
          (omega (arith, length-header_bytes s.rtp.send_header))
        ∙ take-suffix t.code hdr coded in
      let read =
        decode_plain s.rtp.send_header (take t.code coded) (length p) 0 0 v.plain
          (omega (arith, long)) in
      rw run (
        p,
        ground (arith, cut),
        record {
          size = long;
          accepted = read.0;
          counted = read.1 ∙ v.number;
          timed = read.2 ∙ v.stamp;
        },
        record {
          no_sc = v.no_sc;
          no_udpip = v.no_udpip;
          room =
              omega (arith, length-append hdr coded, length-header_bytes s.rtp.send_header, size);
          plain = advance-IsPlain s.rtp (n / 320) v.plain;
          number = omega (arith, v.number);
          stamp = next_stamp t.stamp k t.step _ _ v.stamp v.step;
          step = v.step;
        },
      )

  recv-IsAt :
      (recv : Recv encoder decoder) (t : Stream) (n k : ℕ) (r : UploadRelay encoder decoder)
      (p : List ℕ)
      → KeepsRtp recv
      → IsAt t n k r
      → IsAt t n k (upload_recv encoder decoder recv r p).1
  unfolding upload_recv
  recv-IsAt recv t n k r p keeps v =
      let same = keeps.keeps_rtp r.session p in
      record {
        no_sc = keeps.keeps_sc r.session p ∙ v.no_sc;
        no_udpip = keeps.keeps_udpip r.session p ∙ v.no_udpip;
        room = v.room;
        plain = subst (λ (x : RtpSession). IsPlain x.send_header) (sym same) v.plain;
        number = ap (λ (x : RtpSession). x.send_header.sequence_num) same ∙ v.number;
        stamp = ap (λ (x : RtpSession). x.send_header.timestamp) same ∙ v.stamp;
        step = v.step ∙ ap (λ (x : RtpSession). n / 320 * x.param.samples_pre_frames) (sym same);
      }

  -- What the loop keeps of the session, the frames, and the packets that were sent.
  abbrev Going : Stream → ℕ → UploadRelay encoder decoder → List (List ℕ) → List (List ℕ) → Type 0
  Going t n r frames sent =
      IsAt t n (length sent) r × AllPackets t 0 sent × (length sent ≡ length frames)

  Going-Stable :
      (recv : Recv encoder decoder) (t : Stream) (n : ℕ)
      → Steady n t.code
      → KeepsRtp recv
      → Stable (upload_recv encoder decoder recv) (upload_send encoder decoder) 320 (Going t n)
  unfolding send_frame
  Going-Stable recv t n steady keeps = record {
    recv_stable = λ r frames sent p v. (recv-IsAt recv t n (length sent) r p keeps v.0, v.1, v.2);
    send_stable = λ l f e v.
        let (p, made, good, next) =
          upload_send-IsPacket t n (length l.sent) l.session f steady v.0 e in
        let count : length (l.sent ++ (p ∷ [])) ≡ length l.sent + 1 =
          omega (arith, length-append l.sent (p ∷ [])) in
        rw (made, send_frame)
          (
            subst (λ k. IsAt t n k (upload_send encoder decoder l.session f).1) (sym count) next,
            AllPackets-snoc t 0 l.sent p v.1 (
                subst (λ k. IsPacket t k p) {x = length l.sent} {y = 0 + length l.sent}
                  (omega arith) good),
            omega (arith, v.2, count, length-append l.frames (f ∷ [])),
          );
  }

  -- Whatever datagrams come, the loop of an upload session without SC2 and UDP/IP header sends an RTP
  -- packet for each frame of 320 bytes, and the packets are one stream: each is accepted, the sequence
  -- numbers go on by one modulo 2^16 and the timestamps by the samples of a packet modulo 2^32, from
  -- those that the session has at first. The coders make `n` bytes of speech, whole frames of 320, of
  -- a frame of code, and codes of one size of that; `Recv` leaves the RTP half of the session alone.
  pub upload_loop-AllPackets :
      (recv : Recv encoder decoder) (t : Stream) (n : ℕ) (l : Loop (UploadRelay encoder decoder))
      (packets : List (List ℕ))
      → Steady n t.code
      → KeepsRtp recv
      → IsAt t n 0 l.session
      → l.sent ≡ []
      → l.frames ≡ []
      → let l' = upload_loop encoder decoder recv 160 l packets in
        AllPackets t 0 l'.sent × (length l'.sent ≡ length l'.frames)
  unfolding upload_loop
  upload_loop-AllPackets recv t n l packets steady keeps v none_sent no_frames =
      let start : Going t n l.session l.frames l.sent = rw (none_sent, no_frames) (v, tt, refl) in
      let kept =
        process_packets-Holds (upload_recv encoder decoder recv) (upload_send encoder decoder) 320
          (Going t n) l packets (Going-Stable recv t n steady keeps) start in
      (kept.1, kept.2)
