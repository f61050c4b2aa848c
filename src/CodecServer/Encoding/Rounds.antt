-- ===== src/CodecServer/Encoding/Rounds.antt =====
-- Any number of rounds of `EncodeLoop`.
use mathlib.Core.Path.{subst}
use codec_single_thread.CodecServer.{
  Encoder, encode_packet, encode_round, encode_rounds, is_length, buff_size,
}
use codec_single_thread.CodecServer.Encoding.{IsReady, codes, rtp_packet, encode_packet_lem}
use codec_single_thread.Codec2.Stream.{Sized}
use codec_single_thread.Rtp.{advance, decode_rtp_header}
use codec_single_thread.Rtp.Stream.{decode_plain}
use codec_single_thread.Socket.{System, UdpSocket, recv_from}
use codec_single_thread.Base.{
  ℕ, zero, suc, ◌≡◌, refl, ap, sym, ◌∙◌, arith, List, Option, some, none, if◌then◌else◌, length,
  length-overwrite, Bool-cases, Option-cases, ◌==◌, ◌≤◌, Bool, inl, inr, ◌+◌, ◌*◌, ◌%◌, ◌^◌, Bool,
}

module _ {W State : Type 0} (system : System W)
    (codec2_encode : Option State → List ℕ → Option State × List ℕ) where
  -- What a round receives has the length of a speech packet.
  abbrev pub hears : Encoder State × W → Bool
  hears (e, w) = is_length 960 (recv_from system e.udp_server e.buff buff_size w).0

  -- The number of speech packets that a number of rounds receive.
  unfoldable pub heard : ℕ → Encoder State × W → ℕ
  heard zero s = 0
  heard (suc n) s =
      let later = heard n (encode_round system codec2_encode s) in
      if hears s then suc later else later

  -- The number and the timestamp of the session, `k` packets on.
  pub record IsAt (e : Encoder State) (k : ℕ) (e' : Encoder State) : Type 0 where
    pub ready : IsReady e'
    pub sn : e'.rtp.send_header.sequence_num ≡ (e.rtp.send_header.sequence_num + k) % 2 ^ 16
    pub ts : e'.rtp.send_header.timestamp ≡ (e.rtp.send_header.timestamp + 480 * k) % 2 ^ 32

  IsAt-here : (e : Encoder State) → IsReady e → IsAt e 0 e
  IsAt-here e v = record {
    ready = v;
    sn = omega (arith, v.plain.sn_fits);
    ts = omega (arith, v.plain.ts_fits);
  }

  IsAt-trans : (a b c : Encoder State) (j k : ℕ) → IsAt a j b → IsAt b k c → IsAt a (j + k) c
  IsAt-trans a b c j k p q = record {
    ready = q.ready;
    sn = omega (arith, p.sn, q.sn);
    ts = omega (arith, p.ts, q.ts);
  }

  length-recv_from :
      (fd : UdpSocket) (buff : List ℕ) (room : ℕ) (w : W)
      → length (recv_from system fd buff room w).1 ≡ length buff
  unfolding recv_from
  length-recv_from fd buff room w = elim (Option-cases (system.recvfrom fd.fd room w).0) [
    | inl e ↦ rw e refl
    | inr (bytes, e) ↦ rw e (length-overwrite bytes buff)
  ]

  recv-IsReady :
      (e : Encoder State) (w : W)
      → IsReady e
      → IsReady (record e { buff = (recv_from system e.udp_server e.buff buff_size w).1 })
  recv-IsReady e w v = record {
    buff_size = length-recv_from e.udp_server e.buff buff_size w ∙ v.buff_size;
    send_size = v.send_size;
    rtp_size = v.rtp_size;
    plain = v.plain;
    samples = v.samples;
  }

  advanced :
      (e e' : Encoder State)
      → IsReady e
      → e'.rtp ≡ record e.rtp { send_header = advance e.rtp 3 }
      → IsReady e'
      → IsAt e 1 e'
  unfolding advance
  advanced e e' v at_rtp v' = record {
    ready = v';
    sn = ap (λ r. r.send_header.sequence_num) at_rtp;
    ts =
        ap (λ r. r.send_header.timestamp) at_rtp
        ∙ ap (λ n. (e.rtp.send_header.timestamp + 3 * n) % 2 ^ 32) v.samples;
  }

  packet-IsAt :
      (r : Option ℕ) (e : Encoder State) (w : W)
      → IsReady e
      → Sized codec2_encode 6
      → IsAt e (if is_length 960 r then 1 else 0) (encode_packet system codec2_encode r (e, w)).0
  unfolding encode_packet
  packet-IsAt none e w v sized = IsAt-here e v
  packet-IsAt (some n) e w v sized = elim (Bool-cases (n == 960)) [
    | inl same ↦
        let at_960 : n ≡ 960 = ground (arith, same) in
        let run = encode_packet_lem system codec2_encode e w v sized in
        subst
          (λ k.
            IsAt e (if is_length 960 (some k) then 1 else 0)
              (encode_packet system codec2_encode (some k) (e, w)).0)
          (sym at_960) (advanced e _ v run.2 run.3)
    | inr other ↦ rw other (IsAt-here e v)
  ]

  round-IsAt :
      (e : Encoder State) (w : W)
      → IsReady e
      → Sized codec2_encode 6
      → IsAt e (if hears (e, w) then 1 else 0) (encode_round system codec2_encode (e, w)).0
  unfolding encode_round
  round-IsAt e w v sized =
      let (r, buff, _, w') = recv_from system e.udp_server e.buff buff_size w in
      let step = packet-IsAt r (record e { buff = buff }) w' (recv-IsReady e w v) sized in
      record { ready = step.ready; sn = step.sn; ts = step.ts }

  -- Any number of rounds, whatever is received: the buffers keep their sizes, and the RTP session has
  -- moved on by one number modulo 2^16 and 480 of the timestamp modulo 2^32 for each datagram of 960
  -- bytes that was received, and for no other.
  pub encode_rounds-IsAt :
      (n : ℕ) (e : Encoder State) (w : W)
      → IsReady e
      → Sized codec2_encode 6
      → IsAt e (heard n (e, w)) (encode_rounds system codec2_encode n (e, w)).0
  unfolding heard encode_rounds
  encode_rounds-IsAt zero e w v sized = IsAt-here e v
  encode_rounds-IsAt (suc n) e w v sized =
      let next = encode_round system codec2_encode (e, w) in
      let first = round-IsAt e w v sized in
      let later = encode_rounds-IsAt n next.0 next.1 first.ready sized in
      subst (λ k. IsAt e k (encode_rounds system codec2_encode n next).0) (ground arith)
        (IsAt-trans e next.0 _ (if hears (e, w) then 1 else 0) (heard n next) first later)

-- The packet of a round, as `DecodeRtpHeader` reads it: the number and the timestamp of the session.
pub decode-rtp_packet :
    {State : Type 0} (e : Encoder State) (len : ℕ)
    → IsReady e
    → 12 ≤ len
    → let d = decode_rtp_header (rtp_packet e) len 0 0 in
      (d.result ≡ some 12)
      × (d.sequence_number ≡ e.rtp.send_header.sequence_num)
      × (d.time_stamp ≡ e.rtp.send_header.timestamp)
decode-rtp_packet e len v room = decode_plain e.rtp.send_header (codes e.buff) len 0 0 v.plain room
