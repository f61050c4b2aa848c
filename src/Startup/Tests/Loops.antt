-- ===== src/Startup/Tests/Loops.antt =====
-- A download session of the configuration, with a Codec2 library that makes the same frame of anything.
use codec_single_thread.Startup
use codec_single_thread.Startup.{
  joined, start_sessions, Config, codes, param_of, thread_of, string_to_type, string_to_forward,
}
use codec_single_thread.Startup.Threads.{IsGood}
use codec_single_thread.Startup.Loops
use codec_single_thread.Startup.Loops.Download.{Answered, code_length, codes_by, down_loop-Answered}
use codec_single_thread.Startup.Tests.{answers, unset, upload, upload-IsGood}
use codec_single_thread.Sc.{Sc, zero_header, from_4g, to_4g}
use codec_single_thread.Session.Setup.{codec2, pcm_u, upload_init, download_init}
use codec_single_thread.Session.Coders.{
  Libraries, Started, pcm_a_encoder, pcm_a_decoder, pcm_u_encoder, pcm_u_decoder,
}
use codec_single_thread.UdpPacker.{UdpPacker}
use codec_single_thread.Startup.Loops.{AnyRecv}
use codec_single_thread.Startup.Loops.{up_relay, down_relay}
use codec_single_thread.Session.Setup.Ready.{upload_init_lem, download_init_lem}
use codec_single_thread.Startup.Sessions.{Starts-Opens}
use codec_single_thread.Sc.Wire.{FitsHeader}
use codec_single_thread.Sc.Receiver.{Follows}
use codec_single_thread.Startup.Loops.Begin.{init-InStep}
use codec_single_thread.Session.Link.{InStep}
use codec_single_thread.Startup.Loops.Upload.{IsSilent, up_loop-IsSilent}
use codec_single_thread.Startup.Loops.Stream.{Streams, up_loop-Streams}
use codec_single_thread.Session.Upload.Numbered.{KeepsRtp}
use codec_single_thread.Base.{
  ℕ, ◌≡◌, refl, arith, List, [], ◌∷◌, ◌++◌, replicate, true, false, some, inr, length-replicate,
}

abbrev library : Libraries
library = record {
  Codec2State = ℕ;
  codec2_encode = λ st frame. (st, replicate 6 9);
  codec2_decode = λ st frame. (st, replicate 320 0);
  encoder_created = some 0;
  decoder_created = some 0;
  amr_wb_encoder = record { coder = pcm_a_encoder; state = tt };
  amr_wb_decoder = record { coder = pcm_a_decoder; state = tt };
}

abbrev from_core : Config
from_core = record {
  src_codec = codes "PCMU";
  dst_codec = codes "Codec2";
  forward = codes "From4G";
  recv_port = 6000;
  ip = codes "10.0.0.1";
  send_port = 5000;
  add_udpip = false;
  send_sc = false;
  udpip_sip = [];
  udpip_dip = [];
}

from_core-IsGood : IsGood from_core
unfolding Startup.string_to_type Startup.is_err Startup.too_long
from_core-IsGood = record {
  encoder_known = refl;
  decoder_known = refl;
  ip_fits = refl;
  sip_fits = λ h. ground (arith, h);
  dip_fits = λ h. ground (arith, h);
}

goes_down : Startup.string_to_forward from_core.forward ≡ from_4g
unfolding Startup.string_to_forward
goes_down = refl

is_codec2 : string_to_type from_core.dst_codec ≡ codec2
unfolding string_to_type
is_codec2 = refl

-- Three RTP packets of 160 codes, and one that is none.
abbrev rtp_packet : List ℕ
rtp_packet = (0x80 ∷ 0 ∷ 0 ∷ 1 ∷ replicate 8 0) ++ replicate 160 0xFF

abbrev packets : List (List ℕ)
packets = rtp_packet ∷ rtp_packet ∷ (1 ∷ 2 ∷ []) ∷ rtp_packet ∷ []

abbrev fresh : Sc
fresh = record { send_header = zero_header; recv_header = zero_header; first_pack = true }

down_loop-Answered_example :
    (thread_of from_core ≡ Startup.down_loop (param_of from_core))
    × Answered
        (code_length (string_to_type from_core.dst_codec))
        fresh
        (codes_by library (string_to_type from_core.dst_codec))
        (Loops.down_loop answers library unset (param_of from_core) packets)
down_loop-Answered_example =
    down_loop-Answered answers library unset from_core packets fresh from_core-IsGood goes_down
      (refl, refl, refl, refl, refl) (inr (is_codec2, λ st x. length-replicate {A = ℕ} 6 9)) refl

-- A packer that was never set.
abbrev packer : UdpPacker
packer = record {
  iphdr = record {
    ip_hl = 0;
    ip_v = 0;
    ip_tos = 0;
    ip_len = 0;
    ip_id = 0;
    ip_off = 0;
    ip_ttl = 0;
    ip_p = 0;
    ip_sum = 0;
    ip_src = 0;
    ip_dst = 0;
  };
  udphdr = record { uh_sport = 0; uh_dport = 0; uh_ulen = 0; uh_sum = 0 };
  fake = record {
    src_ip = 0;
    dst_ip = 0;
    proto = 0;
    zero' = 0;
    udp_len = 0;
    src_port = 0;
    dst_port = 0;
    len = 0;
    sum = 0;
  };
}

-- A `Recv` that takes datagrams as they are.
abbrev any_recv : AnyRecv
any_recv = λ e d s packet. (some packet, s)

from_codec2 :
    (string_to_forward upload.forward ≡ to_4g) × (string_to_type upload.src_codec ≡ codec2)
unfolding string_to_forward string_to_type
from_codec2 = (refl, refl)

up_loop-IsSilent_example :
    (start_sessions (some upload ∷ []) [] ≡ (joined, Startup.up_loop (param_of upload) ∷ []))
    × IsSilent (
        Loops.up_loop answers library
          (λ s. replicate 16 1)
          3
          4
          []
          any_recv
          packer
          unset
          (param_of upload)
          (replicate 400 7 ∷ packets))
up_loop-IsSilent_example =
    up_loop-IsSilent answers library (λ s. replicate 16 1) 3 4 [] any_recv packer unset upload
      (replicate 400 7 ∷ packets) upload-IsGood from_codec2.0 from_codec2.1

abbrev to_core : Config
to_core = record from_core { dst_codec = codes "PCMU"; forward = codes "To4G" }

to_core-IsGood : IsGood to_core
unfolding Startup.string_to_type Startup.is_err Startup.too_long
to_core-IsGood = record {
  encoder_known = refl;
  decoder_known = refl;
  ip_fits = refl;
  sip_fits = λ h. ground (arith, h);
  dip_fits = λ h. ground (arith, h);
}

is_pcm_u :
    (string_to_forward to_core.forward ≡ to_4g)
    × (string_to_type to_core.src_codec ≡ pcm_u)
    × (string_to_type to_core.dst_codec ≡ pcm_u)
unfolding string_to_forward string_to_type
is_pcm_u = (refl, refl, refl)

any_recv-KeepsRtp : KeepsRtp pcm_u_encoder pcm_u_decoder (any_recv pcm_u_encoder pcm_u_decoder)
any_recv-KeepsRtp = record {
  keeps_sc = λ s p. refl;
  keeps_udpip = λ s p. refl;
  keeps_rtp = λ s p. refl;
}

up_loop-Streams_example :
    let (_, s') = upload_init answers (λ s. replicate 16 1) 3 4 [] unset (param_of to_core) in
    (thread_of to_core ≡ Startup.up_loop (param_of to_core))
    × Streams s'.rtp (
        Loops.up_loop answers library
          (λ s. replicate 16 1)
          3
          4
          []
          any_recv
          packer
          unset
          (param_of to_core)
          (replicate 400 7 ∷ packets))
up_loop-Streams_example =
    up_loop-Streams answers library (λ s. replicate 16 1) 3 4 [] any_recv packer unset to_core
      (replicate 400 7 ∷ packets) to_core-IsGood is_pcm_u.0 (refl, refl, refl, refl, refl)
      (is_pcm_u.1, is_pcm_u.2) (refl, refl) any_recv-KeepsRtp

-- With SC2 header and mu-law on both sides, from memory of zeros.
abbrev to_sc : Config
to_sc = record to_core { send_sc = true }

abbrev from_sc : Config
from_sc = record from_core { dst_codec = codes "PCMU"; send_sc = true }

abbrev law : Started
law = record { coder = pcm_u_encoder; state = tt }

abbrev law_back : Started
law_back = record { coder = pcm_u_decoder; state = tt }

zero-Fits : FitsHeader zero_header
zero-Fits = omega arith

same_direction : Follows unset.sc_recv unset.sc_send
same_direction = inr refl

to_sc-IsGood : IsGood to_sc
unfolding Startup.string_to_type Startup.is_err Startup.too_long
to_sc-IsGood = record {
  encoder_known = refl;
  decoder_known = refl;
  ip_fits = refl;
  sip_fits = λ h. ground (arith, h);
  dip_fits = λ h. ground (arith, h);
}

from_sc-IsGood : IsGood from_sc
unfolding Startup.string_to_type Startup.is_err Startup.too_long
from_sc-IsGood = record {
  encoder_known = refl;
  decoder_known = refl;
  ip_fits = refl;
  sip_fits = λ h. ground (arith, h);
  dip_fits = λ h. ground (arith, h);
}

up_starts : (upload_init answers (λ s. replicate 16 1) 3 4 [] unset (param_of to_sc)).0 ≡ some 0
up_starts =
    (upload_init_lem answers (λ s. replicate 16 1) 3 4 [] unset (param_of to_sc)).0.1
      ((Starts-Opens answers to_sc to_sc-IsGood).1 (refl, refl, refl, refl, refl))

down_starts : (download_init answers unset (param_of from_sc)).0 ≡ some 0
down_starts =
    (download_init_lem answers unset (param_of from_sc)
      ((Starts-Opens answers from_sc from_sc-IsGood).1 (refl, refl, refl, refl, refl))).0

init-InStep_example :
    let (_, s') = upload_init answers (λ s. replicate 16 1) 3 4 [] unset (param_of to_sc) in
    let (_, t') = download_init answers unset (param_of from_sc) in
    InStep pcm_u_encoder pcm_u_decoder pcm_u_encoder pcm_u_decoder
      (up_relay law law_back packer s').session.session
      (down_relay law law_back t').session.session
unfolding param_of
init-InStep_example =
    init-InStep answers answers (λ s. replicate 16 1) 3 4 [] packer law law_back law law_back unset
      unset (param_of to_sc) (param_of from_sc) ((refl, refl), (refl, refl)) (omega arith)
      (inr refl) up_starts down_starts
