-- ===== src/Session/Download.antt =====
-- `DownloadSession`: `Recv` and `Send`, and `ProcessLoop` over them.
--
-- `Recv` and the definition of `SC::Recv` name their output parameters differently; what they are
-- used for in the session is only logged. The session passes `kSCHeadSize` as the room for the SC2
-- header, and never what is behind it.
pub mod Framed
pub mod Stripped
pub mod Relay
pub mod Payloads
use codec_single_thread.Sc.{Sc, sc_head_size, sc_frames}
use codec_single_thread.Sc
use codec_single_thread.UdpPacker.{udp_parser}
use codec_single_thread.Rtp.{decode_rtp_header}
use codec_single_thread.Session.{Coder, codec_behind}
use codec_single_thread.Base.{
  ℕ, ◌*◌, Bool, not, List, ◌++◌, Option, none, some, length, take, drop, ◌==◌, if◌then◌else◌, u16,
  ◌>>=◌, ◌-◌, ◌+◌,
}

module _ (encoder decoder : Coder) where
  pub record DownloadSession : Type 0 where
    pub if_send_sc : Bool
    pub if_add_udpip : Bool
    pub sc_recv : Sc
    pub sc_send : Sc
    pub encoder_state : encoder.State
    pub decoder_state : decoder.State

  -- The SC2 header is taken off where the parameters say so. `none` is the error.
  pub strip_sc : DownloadSession → List ℕ → Option (List ℕ) × DownloadSession
  strip_sc s input =
      if not s.if_send_sc
      then (some input, s)
      else let (r, sc, lost_pack) = Sc.recv s.sc_recv input (length input) 0 in
        (
          elim r [ none ↦ none | some _ ↦ some (drop sc_head_size input) ],
          record s { sc_recv = sc },
        )

  pub strip_udpip : DownloadSession → List ℕ → Option (List ℕ)
  strip_udpip s input =
      if not s.if_add_udpip then some input else elim (udp_parser input (length input)) [
        | none ↦ none
        | some found ↦ some (drop found.0 input)
      ]

  pub strip_rtp : List ℕ → Option (List ℕ)
  strip_rtp input = elim (decode_rtp_header input (length input) 0 0).result [
    | none ↦ none
    | some rtp_len ↦ some (drop rtp_len input)
  ]

  -- What follows the SC2 header: the UDP/IP header and the RTP header.
  pub strip : DownloadSession → List ℕ → Option (List ℕ)
  unfolding strip_udpip strip_rtp
  strip s input = do rtp ← strip_udpip s input; strip_rtp rtp

  -- The result, the session and the output buffer. The first function is `Recv` from the SC2 header
  -- on.
  unfoldable pub decode :
      List ℕ → ℕ → Option (List ℕ) × DownloadSession → Option ℕ × DownloadSession × List ℕ
  unfolding strip
  decode output output_length (none, s) = (none, s, output)
  decode output output_length (some input, s) = elim (strip s input) [
    | none ↦ (none, s, output)
    | some bits ↦
        let (r, st, output') = decoder.codec s.decoder_state bits output output_length in
        (r, record s { decoder_state = st }, output')
  ]

  pub recv : DownloadSession → List ℕ → List ℕ → ℕ → Option ℕ × DownloadSession × List ℕ
  unfolding strip_sc decode
  recv s input output output_length = decode output output_length (strip_sc s input)

  -- The sum that `Send` returns, or its error.
  unfoldable pub total :
      DownloadSession → ℕ → Option ℕ × Sc × List ℕ → Option ℕ × DownloadSession × List ℕ
  total s codec_len (none, sc, packet) = (none, record s { sc_send = sc }, packet)
  total s codec_len (some sc_len, sc, packet) =
      (some (sc_len + codec_len), record s { sc_send = sc }, packet)

  -- What `Send` does with the encoder's result: the header is written in front of the code.
  -- `payload_length` of `SC::Send` has 16 bits.
  unfoldable pub add_header :
      DownloadSession
      → List ℕ
      → Option ℕ × encoder.State × List ℕ
      → Option ℕ × DownloadSession × List ℕ
  unfolding total
  add_header s output (none, st, coded) =
      (none, record s { encoder_state = st }, take sc_head_size output ++ coded)
  add_header s output (some codec_len, st, coded) =
      total (record s { encoder_state = st }) codec_len
        (Sc.send s.sc_send (u16 codec_len) (take sc_head_size output ++ coded) sc_head_size)

  pub send : DownloadSession → List ℕ → List ℕ → ℕ → Option ℕ × DownloadSession × List ℕ
  unfolding add_header codec_behind
  send s input output output_length =
      if not (length input == sc_frames * 320)
      then (none, s, output)
      else add_header s output (
          codec_behind encoder s.encoder_state input (drop sc_head_size output) output_length
            sc_head_size)
