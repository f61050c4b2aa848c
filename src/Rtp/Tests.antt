-- ===== src/Rtp/Tests.antt =====
-- Runs of the RTP model, and its theorems at a concrete session.
use codec_single_thread.Rtp.{
  MediaParam, RtpSession, generate_rtp_header, decode_rtp_header, ssrc_of_digest,
}
use codec_single_thread.Rtp.Stream.{IsPlain, decode-generate}
use codec_single_thread.Base.{
  [], ◌∷◌, some, none, true, refl, swap16, replicate, swap32, ◌≡◌, arith,
}

abbrev pcm_u : MediaParam
pcm_u = record { payload_type = 0; clock_rate = 8000; samples_pre_frames = 160 }

abbrev session : RtpSession
session = record {
  param = pcm_u;
  send_header = record {
    cc = 0;
    x = 0;
    p = 0;
    v = 2;
    pt = 8;
    m = 0;
    sequence_num = 0xFFFF;
    timestamp = 0x0102_0304;
    ssrc = 7;
  };
  decode_first_packet = true;
}

generated :
    (generate_rtp_header session (replicate 13 0xEE) 13 3).2
    ≡ 0x80 ∷ 8 ∷ 0xFF ∷ 0xFF ∷ 1 ∷ 2 ∷ 3 ∷ 4 ∷ 0 ∷ 0 ∷ 0 ∷ 7 ∷ 0xEE ∷ []
unfolding generate_rtp_header swap16 swap32
generated = refl

refused : (decode_rtp_header (0x40 ∷ replicate 11 0) 12 5 6).result ≡ none
unfolding decode_rtp_header
refused = refl

ssrc_xor : ssrc_of_digest (replicate 16 0x5A) ≡ 0
unfolding ssrc_of_digest
ssrc_xor = refl

decode-generate_example :
    let (r, s', pkt) = generate_rtp_header session (replicate 13 0xEE) 13 3 in
    let d = decode_rtp_header pkt 13 0 0 in
    (r ≡ some 12)
    × (d.result ≡ some 12)
    × (d.sequence_number ≡ 0xFFFF)
    × (d.time_stamp ≡ 0x0102_0304)
    × (s'.send_header.sequence_num ≡ 0)
    × (s'.send_header.timestamp ≡ 0x0102_04E4)
    × IsPlain s'.send_header
decode-generate_example =
    decode-generate session (replicate 13 0xEE) 3 13 0 0
      (record {
        version = refl;
        no_extension = refl;
        no_sources = refl;
        no_padding = refl;
        no_marker = refl;
        pt_fits = omega arith;
        sn_fits = omega arith;
        ts_fits = omega arith;
      })
      (omega arith) (omega arith)
