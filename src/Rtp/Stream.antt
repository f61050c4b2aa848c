-- ===== src/Rtp/Stream.antt =====
-- A stream of RTP headers: what a session writes, a receiver reads.
use codec_single_thread.Rtp.{
  RtpHeader, RtpSession, MediaParam, sizeof_rtp_header, header_bytes, advance, generate_rtp_header,
  bad_head, host_order, decode_rtp_header, init,
}
use codec_single_thread.Base.{
  some, false, ◌≡◌, List, ℕ, ◌<◌, arith, load16, ◌%◌, ◌++◌, load32, ◌^◌, ◌+◌, ◌*◌, refl, word16_lem,
  ◌≤◌, swap16-lt, length, ◌∙◌, drop, swap16_memory, overwrite-eq, word32_lem, swap32-lt,
  swap32_memory, ap, length-append, sym, drop-append,
}

-- The header of a session: version 2, no extension, sources or marker, and members that fit.
pub record IsPlain (h : RtpHeader) : Type 0 where
  pub version : h.v ≡ 2
  pub no_extension : h.x ≡ 0
  pub no_sources : h.cc ≡ 0
  pub no_padding : h.p ≡ 0
  pub no_marker : h.m ≡ 0
  pub pt_fits : h.pt < 2 ^ 7
  pub sn_fits : h.sequence_num < 2 ^ 16
  pub ts_fits : h.timestamp < 2 ^ 32

-- `Init` leaves a plain header, with the payload type of the parameters.
pub init-IsPlain :
    (md5 : List ℕ → List ℕ) (s : RtpSession) (param : MediaParam) (rand_sn rand_ts : ℕ)
    (entropy : List ℕ)
    → let (r, s') = init md5 s param rand_sn rand_ts entropy in
      (r ≡ some 0) × IsPlain s'.send_header × (s'.send_header.pt ≡ param.payload_type % 2 ^ 7)
unfolding init
init-IsPlain md5 s param rand_sn rand_ts entropy = ground arith

pub init_param :
    (md5 : List ℕ → List ℕ) (s : RtpSession) (param : MediaParam) (rand_sn rand_ts : ℕ)
    (entropy : List ℕ)
    → (init md5 s param rand_sn rand_ts entropy).1.param ≡ param
unfolding init
init_param md5 s param rand_sn rand_ts entropy = ground arith

pub advance-IsPlain : (s : RtpSession) (n : ℕ) → IsPlain s.send_header → IsPlain (advance s n)
unfolding advance
advance-IsPlain s n v = ground arith

plain_head : (h : RtpHeader) (rest : List ℕ) → IsPlain h → bad_head (header_bytes h ++ rest) ≡ false
unfolding bad_head header_bytes
plain_head h rest v = ground arith

host_order_fields :
    (h : RtpHeader) (rest : List ℕ)
    → IsPlain h
    → (load16 (host_order (header_bytes h ++ rest)) 2 ≡ h.sequence_num)
      × (load32 (host_order (header_bytes h ++ rest)) 4 ≡ h.timestamp)
unfolding host_order header_bytes
host_order_fields h rest v = (
  word16_lem _ (swap16-lt _) ∙ swap16_memory h.sequence_num v.sn_fits,
  word32_lem _ (swap32-lt _) ∙ swap32_memory h.timestamp v.ts_fits,
)

-- What `DecodeRtpHeader` reports of a buffer that starts with a plain header.
pub decode_plain :
    (h : RtpHeader) (rest : List ℕ) (len sn ts : ℕ)
    → IsPlain h
    → sizeof_rtp_header ≤ len
    → let d = decode_rtp_header (header_bytes h ++ rest) len sn ts in
      (d.result ≡ some sizeof_rtp_header)
      × (d.sequence_number ≡ h.sequence_num)
      × (d.time_stamp ≡ h.timestamp)
unfolding decode_rtp_header
decode_plain h rest len sn ts v room =
    ground (arith, plain_head h rest v, host_order_fields h rest v)

generate_room :
    (s : RtpSession) (buff : List ℕ) (n : ℕ)
    → sizeof_rtp_header ≤ length buff
    → generate_rtp_header s buff (length buff) n ≡ (
      some sizeof_rtp_header,
      record s { send_header = advance s n },
      header_bytes s.send_header ++ drop sizeof_rtp_header buff,
    )
unfolding generate_rtp_header
generate_room s buff n room = ground (arith, overwrite-eq (header_bytes s.send_header) buff)

-- A header that a session with a plain header writes into a buffer with room is decoded to the
-- session's sequence number and timestamp. Then the number is one further modulo 2^16, the timestamp
-- by the samples of the frames modulo 2^32, and the session's header is plain again.
pub decode-generate :
    (s : RtpSession) (buff : List ℕ) (n len sn ts : ℕ)
    → IsPlain s.send_header
    → sizeof_rtp_header ≤ length buff
    → sizeof_rtp_header ≤ len
    → let (r, s', pkt) = generate_rtp_header s buff (length buff) n in
      let d = decode_rtp_header pkt len sn ts in
      (r ≡ some sizeof_rtp_header)
      × (d.result ≡ some sizeof_rtp_header)
      × (d.sequence_number ≡ s.send_header.sequence_num)
      × (d.time_stamp ≡ s.send_header.timestamp)
      × (s'.send_header.sequence_num ≡ (s.send_header.sequence_num + 1) % 2 ^ 16)
      × (s'.send_header.timestamp
          ≡ (s.send_header.timestamp + n * s.param.samples_pre_frames) % 2 ^ 32)
      × IsPlain s'.send_header
unfolding advance
decode-generate s buff n len sn ts v room room' =
    let d = decode_plain s.send_header (drop sizeof_rtp_header buff) len sn ts v room' in
    rw (generate_room s buff n room) (refl, d.0, d.1, d.2, refl, refl, advance-IsPlain s n v)

pub generate_front :
    (s : RtpSession) (front xs : List ℕ) (n : ℕ)
    → length front ≡ sizeof_rtp_header
    → generate_rtp_header s (front ++ xs) sizeof_rtp_header n ≡ (
      some sizeof_rtp_header,
      record s { send_header = advance s n },
      header_bytes s.send_header ++ xs,
    )
unfolding generate_rtp_header header_bytes
generate_front s front xs n e =
    ap (λ k. (some sizeof_rtp_header, record s { send_header = advance s n }, k))
      (overwrite-eq (header_bytes s.send_header) (front ++ xs)
          (omega (arith, length-append front xs))
        ∙ ap (λ k. header_bytes s.send_header ++ k)
            (ap (λ k. drop k (front ++ xs)) (sym e) ∙ drop-append front xs))

pub decode_front :
    (h : RtpHeader) (rest : List ℕ) (len : ℕ)
    → IsPlain h
    → sizeof_rtp_header ≤ len
    → (decode_rtp_header (header_bytes h ++ rest) len 0 0).result ≡ some sizeof_rtp_header
decode_front h rest len v room = (decode_plain h rest len 0 0 v room).0

pub length-header_bytes : (h : RtpHeader) → length (header_bytes h) ≡ sizeof_rtp_header
unfolding header_bytes
length-header_bytes h = refl
