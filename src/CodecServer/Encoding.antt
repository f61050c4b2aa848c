-- ===== src/CodecServer/Encoding.antt =====
-- `EncodeLoop`: what goes out for each datagram that comes in.
pub mod Rounds
pub mod Start
use codec_single_thread.CodecServer.{Encoder, encode_rtp, encode_packet}
use mathlib.Core.List.{append_assoc}
use codec_single_thread.Codec2.{en_codec}
use codec_single_thread.Codec2.Stream.{coded, Sized, length-coded}
use codec_single_thread.Codec2.Calls.{en_codec-coded}
use codec_single_thread.Pcm.{ulaw_encode, ulaw_en_codec, speech}
use codec_single_thread.Pcm.Buffers.{length-speech}
use codec_single_thread.Rtp.{header_bytes, advance, generate_rtp_header}
use codec_single_thread.Rtp.Stream.{IsPlain, advance-IsPlain, generate_front, length-header_bytes}
use codec_single_thread.Socket.{System, UdpSocket, send, part}
use codec_single_thread.Base.{
  ℕ, ◌≡◌, refl, sym, ap, ◌∙◌, arith, List, ◌++◌, map, Option, some, length, take, drop, overwrite,
  length-take, length-drop, length-append, length-overwrite, length-map, take-overwrite,
  overwrite-eq, take-front, take-whole, ◌≤◌,
}

-- The mu-law codes of the speech that `buff` starts with.
abbrev pub codes : List ℕ → List ℕ
codes buff = map ulaw_encode (speech (take 960 buff))

length-codes : (buff : List ℕ) → length buff ≡ 1600 → length (codes buff) ≡ 480
length-codes buff e = omega (
  arith,
  length-map ulaw_encode (speech (take 960 buff)),
  length-speech (take 960 buff),
  length-take 960 buff,
  e,
)

-- The mu-law half of the round.
ulaw_room :
    (buff rtp_buff : List ℕ)
    → length buff ≡ 1600
    → ulaw_en_codec (take 960 buff) (drop 12 rtp_buff) 1588
      ≡ (some 480, overwrite (codes buff) (drop 12 rtp_buff))
unfolding ulaw_en_codec
ulaw_room buff rtp_buff e = ground (arith, length-take 960 buff, e)

module _ {State : Type 0} where
  -- The buffers have their sizes, and the header and the parameters are those that `Init` leaves.
  pub record IsReady (e : Encoder State) : Type 0 where
    pub buff_size : length e.buff ≡ 1600
    pub send_size : length e.send_buff ≡ 1600
    pub rtp_size : length e.rtp_buff ≡ 1600
    pub plain : IsPlain e.rtp.send_header
    pub samples : e.rtp.param.samples_pre_frames ≡ 160

  -- The RTP packet of a round.
  abbrev pub rtp_packet : Encoder State → List ℕ
  rtp_packet e = header_bytes e.rtp.send_header ++ codes e.buff

  abbrev rtp_buff_after : Encoder State → List ℕ
  rtp_buff_after e = header_bytes e.rtp.send_header ++ overwrite (codes e.buff) (drop 12 e.rtp_buff)

  generate_packet :
      (e : Encoder State)
      → IsReady e
      → generate_rtp_header e.rtp
          (take 12 e.rtp_buff ++ overwrite (codes e.buff) (drop 12 e.rtp_buff))
          12
          3
        ≡ (some 12, record e.rtp { send_header = advance e.rtp 3 }, rtp_buff_after e)
  generate_packet e v =
      generate_front e.rtp (take 12 e.rtp_buff) (overwrite (codes e.buff) (drop 12 e.rtp_buff)) 3
        (omega (arith, length-take 12 e.rtp_buff, v.rtp_size))

  length-rtp_packet : (e : Encoder State) → IsReady e → length (rtp_packet e) ≡ 492
  length-rtp_packet e v = omega (
    arith,
    length-append (header_bytes e.rtp.send_header) (codes e.buff),
    length-header_bytes e.rtp.send_header,
    length-codes e.buff v.buff_size,
  )

  -- What the RTP socket is given: the first 492 bytes.
  part-rtp :
      (e : Encoder State)
      → IsReady e
      → part (rtp_buff_after e) (some 492) ≡ part (rtp_packet e) (some 492)
  part-rtp e v =
      let tail : List ℕ = drop 12 e.rtp_buff in
      let size : length (rtp_packet e) ≡ 492 = length-rtp_packet e v in
      let behind : List ℕ = drop (length (codes e.buff)) tail in
      let room : length (codes e.buff) ≤ length tail =
        omega (arith, length-codes e.buff v.buff_size, length-drop 12 e.rtp_buff, v.rtp_size) in
      let split : rtp_buff_after e ≡ rtp_packet e ++ behind =
        ap (λ k. header_bytes e.rtp.send_header ++ k) (overwrite-eq (codes e.buff) tail room)
        ∙ sym (append_assoc (header_bytes e.rtp.send_header) (codes e.buff) behind) in
      ap (λ k. part k (some 492)) split
      ∙ ap some
          (take-front 492 (rtp_packet e) behind size ∙ sym (take-whole 492 (rtp_packet e) size))

  -- The encoder after the RTP half of a round.
  abbrev rtp_sent : Encoder State → Encoder State
  rtp_sent e = record e {
    rtp = record e.rtp { send_header = advance e.rtp 3 };
    rtp_buff = rtp_buff_after e;
  }

  sent-IsReady : (e : Encoder State) → IsReady e → IsReady (rtp_sent e)
  sent-IsReady e v = record {
    buff_size = v.buff_size;
    send_size = v.send_size;
    rtp_size = omega (
      arith,
      length-append (header_bytes e.rtp.send_header)
          (overwrite (codes e.buff) (drop 12 e.rtp_buff)),
      length-header_bytes e.rtp.send_header,
      length-overwrite (codes e.buff) (drop 12 e.rtp_buff),
      length-drop 12 e.rtp_buff,
      v.rtp_size,
    );
    plain = advance-IsPlain e.rtp 3 v.plain;
    samples = v.samples;
  }

module _ {W : Type 0} (system : System W) where
  pub send-part :
      (s : UdpSocket) (a b : List ℕ) (n : Option ℕ) (w : W)
      → part a n ≡ part b n
      → send system s a n w ≡ send system s b n w
  unfolding send
  send-part s a b n w same = ground (arith, same)

module _ {W State : Type 0} (system : System W) where
  encode_rtp_lem :
      (e : Encoder State) (w : W)
      → IsReady e
      → encode_rtp system (e, w)
        ≡ (rtp_sent e, (send system e.test_socket (rtp_packet e) (some 492) w).1)
  unfolding encode_rtp
  encode_rtp_lem e w v = rw (ulaw_room e.buff e.rtp_buff v.buff_size) (
      rw (generate_packet e v) (
        ap
          (λ (m : Option ℕ × W). (
            record e {
              rtp = record e.rtp { send_header = advance e.rtp 3 };
              rtp_buff = rtp_buff_after e;
            },
            m.1,
          ))
          (send-part system e.test_socket (rtp_buff_after e) (rtp_packet e) (some 492) w
            (part-rtp e v))))

module _ {State : Type 0} (codec2_encode : Option State → List ℕ → Option State × List ℕ) where
  -- The state and the bits of the three frames of a packet.
  abbrev pub bits : Encoder State → Option State × List ℕ
  bits e = coded codec2_encode 320 3 e.encoder (take 960 e.buff)

  en_codec_packet :
      (st : Option State) (input output : List ℕ)
      → Sized codec2_encode 6
      → length input ≡ 960
      → length output ≡ 1600
      → en_codec codec2_encode st (some input) (some output) 1600 ≡ (
        some 18,
        (coded codec2_encode 320 3 st input).0,
        some (overwrite (coded codec2_encode 320 3 st input).1 output),
      )
  en_codec_packet st input output sized e e' =
      let run =
        en_codec-coded codec2_encode st input output sized (omega (arith, e))
          (omega (arith, e, e')) in
      rw (e, e') at run

  -- The encoder after the Codec2 half of a round.
  abbrev coded_once : Encoder State → Encoder State
  coded_once e = record e { encoder = (bits e).0; send_buff = overwrite (bits e).1 e.send_buff }

  coded_once-IsReady : (e : Encoder State) → IsReady e → IsReady (coded_once e)
  coded_once-IsReady e v = record {
    buff_size = v.buff_size;
    send_size = length-overwrite (bits e).1 e.send_buff ∙ v.send_size;
    rtp_size = v.rtp_size;
    plain = v.plain;
    samples = v.samples;
  }

  part-bits :
      (e : Encoder State)
      → IsReady e
      → Sized codec2_encode 6
      → part (overwrite (bits e).1 e.send_buff) (some 18) ≡ part (bits e).1 (some 18)
  part-bits e v sized =
      let size = length-coded codec2_encode 320 6 3 e.encoder (take 960 e.buff) sized in
      ap some (
        ap (λ n. take n (overwrite (bits e).1 e.send_buff)) (sym size)
        ∙ take-overwrite (bits e).1 e.send_buff (omega (arith, size, v.send_size))
        ∙ sym (take-whole 18 (bits e).1 size))

module _ {W State : Type 0} (system : System W)
    (codec2_encode : Option State → List ℕ → Option State × List ℕ) where
  encode_packet-coded :
      (e : Encoder State) (w : W)
      → IsReady e
      → Sized codec2_encode 6
      → encode_packet system codec2_encode (some 960) (e, w)
        ≡ encode_rtp system (
          coded_once codec2_encode e,
          (send system e.udp_server (bits codec2_encode e).1 (some 18) w).1,
        )
  unfolding encode_packet
  encode_packet-coded e w v sized =
      rw
        (en_codec_packet codec2_encode e.encoder (take 960 e.buff) e.send_buff sized
          (omega (arith, length-take 960 e.buff, v.buff_size)) v.send_size)
        (ap (λ (m : Option ℕ × W). encode_rtp system (coded_once codec2_encode e, m.1))
          (send-part system e.udp_server _ (bits codec2_encode e).1 (some 18) w
            (part-bits codec2_encode e v sized)))

  -- A round on a datagram of 960 bytes, where the library codes a frame as 6 bytes: the socket of the
  -- server is given the 18 bytes of its three frames, and the other one a packet of 492 bytes, the
  -- header of the RTP session and the mu-law codes of the speech. The encoder and the session are one
  -- packet further.
  pub encode_packet_lem :
      (e : Encoder State) (w : W)
      → IsReady e
      → Sized codec2_encode 6
      → let (e', w') = encode_packet system codec2_encode (some 960) (e, w) in
        (w'
          ≡ (send system e.test_socket
              (rtp_packet e)
              (some 492)
              (send system e.udp_server (bits codec2_encode e).1 (some 18) w).1).1)
        × (e'.encoder ≡ (bits codec2_encode e).0)
        × (e'.rtp ≡ record e.rtp { send_header = advance e.rtp 3 })
        × IsReady e'
  encode_packet_lem e w v sized = rw (encode_packet-coded e w v sized) (
      rw
        (encode_rtp_lem system (coded_once codec2_encode e)
          (send system e.udp_server (bits codec2_encode e).1 (some 18) w).1
          (coded_once-IsReady codec2_encode e v))
        (refl, refl, refl, sent-IsReady _ (coded_once-IsReady codec2_encode e v)))
