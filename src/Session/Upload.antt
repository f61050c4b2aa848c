-- ===== src/Session/Upload.antt =====
-- `UploadSession`: `UnPak` and `Send`.
--
-- The source of `Send` declares `len` a second time; the second one counts the bytes written. The
-- offsets into `output` are those of the pointer as it is moved on and back.
pub mod Packed
pub mod Layers
pub mod Start
pub mod Arrival
pub mod Relay
pub mod Bare
pub mod Numbered
use codec_single_thread.Sc
use codec_single_thread.Sc.{Sc, to_4g, sc_head_size, get_sc_sn}
use codec_single_thread.UdpPacker.{UdpPacker, generate_header, udp_ip_len}
use codec_single_thread.Rtp.{RtpSession, generate_rtp_header, rtp_header_size}
use codec_single_thread.Session.{Coder, codec_behind}
use codec_single_thread.Base.{
  ℕ, ◌+◌, ◌-◌, ◌/◌, ◌%◌, Bool, false, not, List, ◌++◌, Option, none, some, take, drop, replicate,
  ◌==◌, if◌then◌else◌, u16,
}

abbrev pub pcm_frame_length : ℕ
pcm_frame_length = 320

-- `kBuffSize` of session.cpp
abbrev pub session_buff_size : ℕ
session_buff_size = 2048

module _ (encoder decoder : Coder) where
  pub record UploadSession : Type 0 where
    pub first_pack : Bool
    pub if_send_sc : Bool
    pub if_add_udpip : Bool
    pub sc_recv : Sc
    pub sc_send : Sc
    pub udp : UdpPacker
    pub rtp : RtpSession
    pub encoder_state : encoder.State
    pub decoder_state : decoder.State

  -- The result, the session and the output parameter `sc`.
  unfoldable pub un_pak : UploadSession → List ℕ → ℕ → ℕ → Option ℕ × UploadSession × ℕ
  un_pak s data' len sc =
      let (status, recv', sn) = Sc.recv s.sc_recv data' len sc in
      let (_, send') =
        Sc.init s.sc_send recv'.recv_header.ueid to_4g (get_sc_sn recv'.recv_header) in
      if s.first_pack
      then (status, record s { sc_recv = recv'; first_pack = false; sc_send = send' }, sn)
      else (status, record s { sc_recv = recv' }, sn)

  -- Where the UDP/IP header, the RTP header and the code stand in the output.
  unfoldable pub udp_offset : UploadSession → ℕ
  udp_offset s = if s.if_send_sc then sc_head_size else 0

  unfoldable pub rtp_offset : UploadSession → ℕ
  unfolding udp_offset
  rtp_offset s = if s.if_add_udpip then udp_offset s + udp_ip_len else udp_offset s

  -- The steps of `Send` behind the decoder: each takes the bytes counted so far, or an error, with
  -- the session and the whole output.
  abbrev pub Sent : Type 0
  Sent = Option ℕ × UploadSession × List ℕ

  unfoldable pub encode : List ℕ → ℕ → UploadSession × List ℕ → Sent
  unfolding rtp_offset codec_behind
  encode pcm output_len (s, output) =
      let code : ℕ = rtp_offset s + rtp_header_size in
      let (r, st, coded) =
        codec_behind encoder s.encoder_state pcm (drop code output) output_len code in
      (r, record s { encoder_state = st }, take code output ++ coded)

  unfoldable pub add_rtp : ℕ → Sent → Sent
  unfolding rtp_offset
  add_rtp frames (none, s, output) = (none, s, output)
  add_rtp frames (some len, s, output) =
      let (r, rtp, part) =
        generate_rtp_header s.rtp (drop (rtp_offset s) output) rtp_header_size frames in
      (
        elim r [ none ↦ none | some n ↦ some (len + n) ],
        record s { rtp = rtp },
        take (rtp_offset s) output ++ part,
      )

  -- The source passes `kUdpIpLen` where `GenerateHeader` takes the payload's length.
  unfoldable pub add_udp : Sent → Sent
  unfolding udp_offset
  add_udp (none, s, output) = (none, s, output)
  add_udp (some len, s, output) =
      let (r, udp, part) = generate_header s.udp (drop (udp_offset s) output) udp_ip_len in
      if not s.if_add_udpip then (some len, s, output) else (
        elim r [ none ↦ none | some n ↦ some (len + n) ],
        record s { udp = udp },
        take (udp_offset s) output ++ part,
      )

  unfoldable pub add_sc : Sent → Sent
  add_sc (none, s, output) = (none, s, output)
  add_sc (some len, s, output) =
      let (r, sc, packet) = Sc.send s.sc_send (u16 len) output sc_head_size in
      if not s.if_send_sc
      then (some len, s, output)
      else (elim r [ none ↦ none | some n ↦ some (len + n) ], record s { sc_send = sc }, packet)

  -- What `Send` does with the decoder's result: speech of whole frames is encoded, and the headers
  -- are put in front of the code.
  unfoldable pub pack : UploadSession → List ℕ → ℕ → Option ℕ × decoder.State × List ℕ → Sent
  unfolding encode add_rtp add_udp add_sc
  pack s output output_len (none, st, pcm) = (none, record s { decoder_state = st }, output)
  pack s output output_len (some input_len, st, pcm) =
      let s' : UploadSession = record s { decoder_state = st } in
      if not (input_len % pcm_frame_length == 0)
      then (none, s', output)
      else add_sc (
          add_udp (
            add_rtp (input_len / pcm_frame_length)
              (encode (take input_len pcm) output_len (s', output))))

  pub send : UploadSession → List ℕ → List ℕ → ℕ → Sent
  unfolding pack
  send s input output output_len =
      pack s output output_len
        (decoder.codec s.decoder_state input (replicate session_buff_size 0) session_buff_size)
