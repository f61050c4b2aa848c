-- ===== src/Startup/Loops/Stream.antt =====
-- Upload sessions with mu-law on both sides: from an entry of the configuration to the RTP stream.

use codec_single_thread.Startup
use codec_single_thread.Startup.{Config, thread_of, param_of, string_to_type, string_to_forward}
use codec_single_thread.Startup.Threads.{IsGood}
use codec_single_thread.Startup.Sessions.{Opens, Starts-Opens}
use codec_single_thread.Startup.Loops
use codec_single_thread.Startup.Loops.{Run, AnyRecv, process_upload, up_relay, succeeds}
use codec_single_thread.Sc.{to_4g}
use codec_single_thread.UdpPacker.{UdpPacker}
use codec_single_thread.Rtp.{RtpSession}
use codec_single_thread.Rtp.Stream.{IsPlain}
use codec_single_thread.Session.Setup.{Answers, Members, pcm_u, upload_init}
use codec_single_thread.Session.Setup.Ready.{upload_init_lem, upload_init-param}
use codec_single_thread.Session.Coders.{
  Libraries, encoder_of, decoder_of, pcm_u_encoder, pcm_u_decoder,
}
use codec_single_thread.Session.Coders.Lengths.{pcm_u-Steady}
use codec_single_thread.Session.Framing.{joined, length-joined, process_packets-IsFramed}
use codec_single_thread.Session.Upload.Relay.{upload_recv, upload_send, upload_loop}
use codec_single_thread.Session.Upload.Numbered.{
  Stream, AllPackets, KeepsRtp, upload_loop-AllPackets,
}
use codec_single_thread.Base.{
  ℕ, ◌+◌, ◌*◌, ◌/◌, ◌<◌, ◌≡◌, refl, sym, ap, ◌∙◌, arith, List, some, length, false, length-append,
  length-replicate,
}

-- The stream of a session, from the packet that is next, with codes of 320 bytes.
abbrev pub stream_of : RtpSession → Stream
stream_of rtp = record {
  number = rtp.send_header.sequence_num;
  stamp = rtp.send_header.timestamp;
  step = 2 * rtp.param.samples_pre_frames;
  code = 320;
}

-- One packet of the stream for each 320 bytes that have been decoded.
abbrev pub Streams : RtpSession → Run → Type 0
Streams rtp run =
    AllPackets (stream_of rtp) 0 run.sent × (length run.sent ≡ length run.decoded / 320)

process_upload-Streams :
    (lib : Libraries) (recv : AnyRecv) (udp : UdpPacker) (s : Members) (packets : List (List ℕ))
    → KeepsRtp pcm_u_encoder pcm_u_decoder (recv pcm_u_encoder pcm_u_decoder)
    → s.param.if_send_sc ≡ false
    → s.param.if_add_udpip ≡ false
    → IsPlain s.rtp.send_header
    → Streams s.rtp
        (process_upload recv (encoder_of lib pcm_u) (decoder_of lib pcm_u) udp s packets)
unfolding process_upload encoder_of decoder_of upload_loop joined
process_upload-Streams lib recv udp s packets keeps no_sc no_udpip plain =
    let r = recv pcm_u_encoder pcm_u_decoder in
    let l =
      up_relay (record { coder = pcm_u_encoder; state = tt })
        (record { coder = pcm_u_decoder; state = tt }) udp s in
    let sends =
      upload_loop-AllPackets pcm_u_encoder pcm_u_decoder r (stream_of s.rtp) 640 l packets
        pcm_u-Steady keeps
        (record {
          no_sc = no_sc;
          no_udpip = no_udpip;
          room = length-replicate {A = ℕ} 65536 0;
          plain = plain;
          number = omega (arith, plain);
          stamp = omega (arith, plain);
          step = omega arith;
        })
        refl refl in
    let framed =
      process_packets-IsFramed (upload_recv pcm_u_encoder pcm_u_decoder r)
        (upload_send pcm_u_encoder pcm_u_decoder) 320 l packets (omega arith)
        (record { whole = tt; kept = refl }) (omega arith) in
    let l' = upload_loop pcm_u_encoder pcm_u_decoder r 160 l packets in
    let whole : length (joined l'.frames) ≡ length l'.frames * 320 =
      length-joined 320 l'.frames framed.0.whole in
    let bytes : length l'.decoded ≡ length (joined l'.frames) + length l'.frame_buff =
      ap length (sym framed.0.kept) ∙ length-append (joined l'.frames) l'.frame_buff in
    let waits : length l'.frame_buff < 320 = framed.1 in
    let count : length l'.sent ≡ length l'.frames = sends.1 in (sends.0, omega arith)

module _ (a : Answers) where
  -- A good entry to 4G with mu-law on both sides, without SC2 and UDP/IP header, gets an upload thread
  -- that is an RTP stream, where the sockets open and the coders start: for any datagrams that come, it
  -- sends one packet for each 320 bytes that `Recv` has decoded, and the packets are accepted, with
  -- sequence numbers that go on by one modulo 2^16 and timestamps that go on by the samples of two
  -- frames modulo 2^32, from those that `Init` has chosen; if `Recv` leaves the RTP half alone.
  pub up_loop-Streams :
      (lib : Libraries) (md5 : List ℕ → List ℕ) (rand_sn rand_ts : ℕ) (entropy : List ℕ)
      (recv : AnyRecv) (udp : UdpPacker) (s : Members) (c : Config) (packets : List (List ℕ))
      → IsGood c
      → string_to_forward c.forward ≡ to_4g
      → Opens a c
      → (string_to_type c.src_codec ≡ pcm_u) × (string_to_type c.dst_codec ≡ pcm_u)
      → (c.send_sc ≡ false) × (c.add_udpip ≡ false)
      → KeepsRtp pcm_u_encoder pcm_u_decoder (recv pcm_u_encoder pcm_u_decoder)
      → let (_, s') = upload_init a md5 rand_sn rand_ts entropy s (param_of c) in
        (thread_of c ≡ Startup.up_loop (param_of c))
        × Streams s'.rtp
            (Loops.up_loop a lib md5 rand_sn rand_ts entropy recv udp s (param_of c) packets)
  unfolding Loops.up_loop thread_of param_of
  up_loop-Streams lib md5 rand_sn rand_ts entropy recv udp s c packets good up opens types plain
        keeps =
      let run = upload_init a md5 rand_sn rand_ts entropy s (param_of c) in
      let init = upload_init_lem a md5 rand_sn rand_ts entropy s (param_of c) in
      let ok = init.0.1 ((Starts-Opens a c good).1 opens) in
      let left = init.1 ok in
      let param = upload_init-param a md5 rand_sn rand_ts entropy s (param_of c) ok in
      (
        rw (up, thread_of) refl,
        rw (ok, left.0 ∙ ap some types.1, left.1 ∙ ap some types.0, succeeds, Loops.up_loop)
            (process_upload-Streams lib recv udp run.1 packets keeps
              (ap (λ p. p.if_send_sc) param ∙ plain.0) (ap (λ p. p.if_add_udpip) param ∙ plain.1)
              left.2),
      )
