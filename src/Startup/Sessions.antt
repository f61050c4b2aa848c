-- ===== src/Startup/Sessions.antt =====
-- The session of an accepted entry: how the thread of `main` and `UploadSession::Init` fit together.
use codec_single_thread.Startup.{
  Config, up_loop, thread_of, param_of, c_string, string_to_type, string_to_forward, is_err,
}
use codec_single_thread.Startup.Threads.{IsGood}
use codec_single_thread.Sc.{to_4g}
use codec_single_thread.Session.Setup.{
  CodecType, amr_wb, codec2, pcm_a, pcm_u, unknown, Members, Answers, upload_init,
  generate_default_param,
}
use codec_single_thread.Session.Setup.Ready.{upload_init_lem, is_unknown, Starts}
use codec_single_thread.Base.{ℕ, ◌≡◌, ◌↔◌, refl, ◌∙◌, List, some, false, ◌%◌, ◌^◌}

err-unknown : (t : CodecType) → is_unknown t ≡ is_err t
unfolding is_err is_unknown
err-unknown amr_wb = refl
err-unknown codec2 = refl
err-unknown pcm_a = refl
err-unknown pcm_u = refl
err-unknown unknown = refl

module _ (a : Answers) where
  -- The sockets open, and the coders that the entry names start.
  abbrev pub Opens : Config → Type 0
  Opens c =
      (a.recv_init_fails ≡ false)
      × (a.send_init_fails ≡ false)
      × (a.bind_fails (c.recv_port % 2 ^ 16) ≡ false)
      × (a.encoder_init_fails (string_to_type c.dst_codec) ≡ false)
      × (a.decoder_init_fails (string_to_type c.src_codec) ≡ false)

  pub Starts-Opens : (c : Config) → IsGood c → Starts a (param_of c) ↔ Opens c
  unfolding param_of
  Starts-Opens c v = (
    λ h. (h.0, h.1, h.2, h.5, h.6),
    λ h. (
      h.0,
      h.1,
      h.2,
      err-unknown (string_to_type c.dst_codec) ∙ v.encoder_known,
      err-unknown (string_to_type c.src_codec) ∙ v.decoder_known,
      h.3,
      h.4,
    ),
  )

  -- An accepted entry to 4G gets an upload thread, whose `Init` succeeds exactly if the sockets open
  -- and the named coders start. Then the encoder is that of "dst_codec" and the decoder that of
  -- "src_codec", the RTP header has the payload type of the encoder, and packets go to the address
  -- and the port of the entry.
  pub thread_of-upload_init :
      (md5 : List ℕ → List ℕ) (rand_sn rand_ts : ℕ) (entropy : List ℕ) (s : Members) (c : Config)
      → IsGood c
      → string_to_forward c.forward ≡ to_4g
      → let (r, s') = upload_init a md5 rand_sn rand_ts entropy s (param_of c) in
        (thread_of c ≡ up_loop (param_of c))
        × ((r ≡ some 0) ↔ Opens c)
        × (r ≡ some 0
            → (s'.encoder ≡ some (string_to_type c.dst_codec))
              × (s'.decoder ≡ some (string_to_type c.src_codec))
              × (s'.rtp.send_header.pt
                  ≡ (generate_default_param (string_to_type c.dst_codec)).payload_type % 2 ^ 7)
              × (s'.remote ≡ some (c_string c.ip, c.send_port % 2 ^ 16)))
  unfolding thread_of param_of
  thread_of-upload_init md5 rand_sn rand_ts entropy s c v up =
      let run = upload_init_lem a md5 rand_sn rand_ts entropy s (param_of c) in
      let opens = Starts-Opens c v in
      (
        rw (up, thread_of) refl,
        (λ ok. opens.0 (run.0.0 ok), λ h. run.0.1 (opens.1 h)),
        λ ok. let left = run.1 ok in (left.0, left.1, left.3, left.5),
      )
