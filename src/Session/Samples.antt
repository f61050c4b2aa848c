-- ===== src/Session/Samples.antt =====
-- Sample sessions with mu-law coders, for the tests.
use codec_single_thread.Sc.{Sc, zero_header}
use codec_single_thread.Sc.Wire.{FitsHeader}
use codec_single_thread.Session.Coders.{pcm_u_encoder, pcm_u_decoder}
use codec_single_thread.Session.Download.{DownloadSession}
use codec_single_thread.UdpPacker.{UdpPacker}
use codec_single_thread.Rtp.{RtpSession}
use codec_single_thread.Rtp.Stream.{IsPlain}
use codec_single_thread.Session.Upload.{UploadSession}
use codec_single_thread.Session.Link.{InStep}
use codec_single_thread.Base.{refl, inl, true, false, arith}

abbrev pub sc : Sc
sc = record {
  send_header = record zero_header { sn_forward = 0x01000005; ueid = 7 };
  recv_header = zero_header;
  first_pack = true;
}

pub sc-FitsHeader : FitsHeader sc.send_header
sc-FitsHeader = record {
  ueid_fits = omega arith;
  sn_fits = omega arith;
  length_fits = omega arith;
  rev_fits = omega arith;
}

abbrev pub session : DownloadSession pcm_u_encoder pcm_u_decoder
session = record {
  if_send_sc = true;
  if_add_udpip = false;
  sc_recv = sc;
  sc_send = sc;
  encoder_state = tt;
  decoder_state = tt;
}

-- The packer of a session, which is never set up.
abbrev pub packer : UdpPacker
packer = record {
  iphdr = record {
    ip_hl = 0;
    ip_v = 0;
    ip_tos = 0;
    ip_len = 0;
    ip_id = 0;
    ip_off = 0;
    ip_ttl = 0;
    ip_p = 0;
    ip_sum = 0;
    ip_src = 0;
    ip_dst = 0;
  };
  udphdr = record { uh_sport = 0; uh_dport = 0; uh_ulen = 0; uh_sum = 0 };
  fake = record {
    src_ip = 0;
    dst_ip = 0;
    proto = 0;
    zero' = 0;
    udp_len = 0;
    src_port = 0;
    dst_port = 0;
    len = 0;
    sum = 0;
  };
}

abbrev pub rtp : RtpSession
rtp = record {
  param = record { payload_type = 0; clock_rate = 8000; samples_pre_frames = 160 };
  send_header = record {
    cc = 0;
    x = 0;
    p = 0;
    v = 2;
    pt = 0;
    m = 0;
    sequence_num = 0xFFFF;
    timestamp = 3;
    ssrc = 7;
  };
  decode_first_packet = true;
}

pub rtp-IsPlain : IsPlain rtp.send_header
rtp-IsPlain = omega arith

abbrev pub upload : UploadSession pcm_u_encoder pcm_u_decoder
upload = record {
  first_pack = false;
  if_send_sc = true;
  if_add_udpip = false;
  sc_recv = sc;
  sc_send = sc;
  udp = packer;
  rtp = rtp;
  encoder_state = tt;
  decoder_state = tt;
}

pub in_step : InStep pcm_u_encoder pcm_u_decoder pcm_u_encoder pcm_u_decoder upload session
in_step = record {
  sends_sc = refl;
  no_udpip = refl;
  takes_sc = refl;
  takes_no_udpip = refl;
  plain = rtp-IsPlain;
  fits = sc-FitsHeader;
  follows = inl refl;
}
