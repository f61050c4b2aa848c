-- ===== src/Startup/Tests.antt =====
-- Configurations, and the threads that they start.
mod Loops
mod Files
use codec_single_thread.Startup.{
  param_of, c_string, is_err, too_long, Config, joined, overflow, up_loop, codes, thread_of,
  start_sessions, string_to_type, string_to_forward,
}
use codec_single_thread.Startup.Threads.{IsGood, start_sessions-overflow}
use codec_single_thread.Sc.{to_4g}
use codec_single_thread.Startup.Sessions.{Opens, thread_of-upload_init}
use codec_single_thread.Sc.{zero_header}
use codec_single_thread.Session.Setup.{
  Answers, Members, upload_init, generate_default_param, codec2, pcm_u, unknown,
}
use codec_single_thread.Base.{
  ◌≡◌, refl, [], ◌∷◌, ◌++◌, true, false, none, some, arith, replicate, ◌↔◌, ◌==◌, ◌%◌, ◌^◌,
}

abbrev pub upload : Config
upload = record {
  src_codec = codes "Codec2";
  dst_codec = codes "PCMU";
  forward = codes "To4G";
  recv_port = 65537;
  ip = codes "10.0.0.1";
  send_port = 5000;
  add_udpip = false;
  send_sc = true;
  udpip_sip = [];
  udpip_dip = [];
}

abbrev pub download : Config
download = record upload { forward = codes "FROM4G"; src_codec = codes "AMR" }

-- A name in the wrong letters.
abbrev pub wrong : Config
wrong = record upload { src_codec = codes "Amr" }

-- An address of 16 bytes.
abbrev padded : Config
padded = record upload {
  add_udpip = true;
  udpip_sip = codes "192.168.100.200 ";
  udpip_dip = codes "10.0.0.2";
}

mixed_case : string_to_type (codes "Amr") ≡ unknown
unfolding string_to_type
mixed_case = refl

not_known : string_to_forward (codes "from4g") ≡ to_4g
unfolding string_to_forward
not_known = refl

-- A port of more than 16 bits is cut off.
first_port : start_sessions (some upload ∷ []) [] ≡ (
  joined,
  up_loop (record {
    recv_port = 1;
    remote_port = 5000;
    ip = codes "10.0.0.1";
    ueid = 32;
    encoder_type = pcm_u;
    decoder_type = codec2;
    if_add_udpip = false;
    if_send_sc = true;
  })
      ∷ [],
)
unfolding start_sessions
first_port = refl

-- An address of 17 bytes skips the entry.
skipped :
    start_sessions (some (record padded { udpip_dip = replicate 17 49 }) ∷ []) [] ≡ (joined, [])
unfolding start_sessions
skipped = refl

pub upload-IsGood : IsGood upload
unfolding string_to_type is_err too_long
upload-IsGood = record {
  encoder_known = refl;
  decoder_known = refl;
  ip_fits = refl;
  sip_fits = λ h. ground (arith, h);
  dip_fits = λ h. ground (arith, h);
}

pub download-IsGood : IsGood download
unfolding string_to_type is_err too_long
download-IsGood = record {
  encoder_known = refl;
  decoder_known = refl;
  ip_fits = refl;
  sip_fits = λ h. ground (arith, h);
  dip_fits = λ h. ground (arith, h);
}

known_codecs :
    (is_err (string_to_type padded.dst_codec) ≡ false)
    × (is_err (string_to_type padded.src_codec) ≡ false)
unfolding string_to_type is_err
known_codecs = (refl, refl)

start_sessions-overflow_example :
    start_sessions (some padded ∷ some upload ∷ []) [] ≡ (overflow, [])
start_sessions-overflow_example =
    start_sessions-overflow padded (some upload ∷ []) [] known_codecs.0 known_codecs.1 refl refl
      (omega arith) (omega arith)

-- Nothing fails but `Bind` to the port 5000.
abbrev pub answers : Answers
answers = record {
  recv_init_fails = false;
  send_init_fails = false;
  bind_fails = λ port. port == 5000;
  encoder_init_fails = λ t. false;
  decoder_init_fails = λ t. false;
}

abbrev pub unset : Members
unset = record {
  param = param_of download;
  first_pack = false;
  sc_recv = record { send_header = zero_header; recv_header = zero_header; first_pack = false };
  sc_send = record { send_header = zero_header; recv_header = zero_header; first_pack = false };
  rtp = record {
    param = record { payload_type = 0; clock_rate = 0; samples_pre_frames = 0 };
    send_header = record {
      cc = 0;
      x = 0;
      p = 0;
      v = 0;
      pt = 0;
      m = 0;
      sequence_num = 0;
      timestamp = 0;
      ssrc = 0;
    };
    decode_first_packet = false;
  };
  remote = none;
  encoder = none;
  decoder = none;
}

goes_up : string_to_forward upload.forward ≡ to_4g
unfolding string_to_forward
goes_up = refl

thread_of-upload_init_example :
    let (r, s') = upload_init answers (λ s. replicate 16 1) 3 4 [] unset (param_of upload) in
    (thread_of upload ≡ up_loop (param_of upload))
    × ((r ≡ some 0) ↔ Opens answers upload)
    × (r ≡ some 0
        → (s'.encoder ≡ some (string_to_type upload.dst_codec))
          × (s'.decoder ≡ some (string_to_type upload.src_codec))
          × (s'.rtp.send_header.pt
              ≡ (generate_default_param (string_to_type upload.dst_codec)).payload_type % 2 ^ 7)
          × (s'.remote ≡ some (c_string upload.ip, upload.send_port % 2 ^ 16)))
thread_of-upload_init_example =
    thread_of-upload_init answers (λ s. replicate 16 1) 3 4 [] unset upload upload-IsGood goes_up
