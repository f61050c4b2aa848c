-- ===== src/Session/Setup/Tests.antt =====
-- `UploadSession::Init` where everything answers, and where the port is taken.
use codec_single_thread.Sc.{Sc, zero_header}
use codec_single_thread.Rtp.{RtpSession}
use codec_single_thread.Session.Setup.{
  amr_wb, pcm_u, unknown, SessionParam, Members, Answers, download_init, generate_default_param,
}
use codec_single_thread.Base.{◌≡◌, refl, [], ◌∷◌, none, true, false, ◌==◌}

-- Only port 5000 is taken.
abbrev answers : Answers
answers = record {
  recv_init_fails = false;
  send_init_fails = false;
  bind_fails = λ port. port == 5000;
  encoder_init_fails = λ t. false;
  decoder_init_fails = λ t. false;
}

abbrev param : SessionParam
param = record {
  recv_port = 5001;
  remote_port = 5002;
  ip = 49 ∷ [];
  ueid = 7;
  encoder_type = amr_wb;
  decoder_type = pcm_u;
  if_add_udpip = true;
  if_send_sc = false;
}

abbrev sc : Sc
sc = record { send_header = zero_header; recv_header = zero_header; first_pack = false }

abbrev rtp : RtpSession
rtp = record {
  param = generate_default_param unknown;
  send_header = record {
    cc = 0;
    x = 0;
    p = 0;
    v = 0;
    pt = 0;
    m = 0;
    sequence_num = 0;
    timestamp = 0;
    ssrc = 0;
  };
  decode_first_packet = false;
}

abbrev members : Members
members = record {
  param = param;
  first_pack = false;
  sc_recv = sc;
  sc_send = sc;
  rtp = rtp;
  remote = none;
  encoder = none;
  decoder = none;
}

taken : (download_init answers members (record param { recv_port = 5000 })).0 ≡ none
unfolding download_init
taken = refl
