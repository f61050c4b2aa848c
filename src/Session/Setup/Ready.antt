-- ===== src/Session/Setup/Ready.antt =====
-- What a successful `Init` leaves.
use codec_single_thread.Sc
use codec_single_thread.Sc.{to_4g}
use codec_single_thread.Sc.Sender.{init_fresh}
use codec_single_thread.Rtp
use codec_single_thread.Rtp.Stream.{IsPlain, init-IsPlain}
use codec_single_thread.Session.Setup.{
  CodecType, unknown, amr_wb, codec2, pcm_a, pcm_u, Members, new_coder, Answers, init_coders,
  SessionParam, init_sockets, upload_init, download_init, generate_default_param,
}
use codec_single_thread.Base.{
  ◌≡◌, refl, none, some, true, false, arith, ◌⊎◌, inl, inr, Bool, ◌↔◌, List, ℕ, ◌%◌, ◌^◌,
}

unfoldable pub is_unknown : CodecType → Bool
is_unknown unknown = true
is_unknown _ = false

new_coder-cases :
    (t : CodecType)
    → ((new_coder t ≡ none) × (is_unknown t ≡ true))
      ⊎ ((new_coder t ≡ some t) × (is_unknown t ≡ false))
unfolding is_unknown new_coder
new_coder-cases unknown = inl (refl, refl)
new_coder-cases amr_wb = inr (refl, refl)
new_coder-cases codec2 = inr (refl, refl)
new_coder-cases pcm_a = inr (refl, refl)
new_coder-cases pcm_u = inr (refl, refl)

-- What the answers and the parameters must be for `Init` to succeed.
abbrev pub Starts : Answers → SessionParam → Type 0
Starts a param =
    (a.recv_init_fails ≡ false)
    × (a.send_init_fails ≡ false)
    × (a.bind_fails param.recv_port ≡ false)
    × (is_unknown param.encoder_type ≡ false)
    × (is_unknown param.decoder_type ≡ false)
    × (a.encoder_init_fails param.encoder_type ≡ false)
    × (a.decoder_init_fails param.decoder_type ≡ false)

module _ (a : Answers) where
  init_sockets_iff : (s : Members) → ((init_sockets a s).0 ≡ some 0) ↔ Starts a s.param
  unfolding init_sockets init_coders
  init_sockets_iff s =
      ground (arith, new_coder-cases s.param.encoder_type, new_coder-cases s.param.decoder_type)

  init_sockets_kept :
      (s : Members)
      → (init_sockets a s).0 ≡ some 0
      → ((init_sockets a s).1.encoder ≡ some s.param.encoder_type)
        × ((init_sockets a s).1.decoder ≡ some s.param.decoder_type)
        × ((init_sockets a s).1.rtp ≡ s.rtp)
        × ((init_sockets a s).1.sc_recv ≡ s.sc_recv)
        × ((init_sockets a s).1.remote ≡ some (s.param.ip, s.param.remote_port))
        × ((init_sockets a s).1.sc_send ≡ s.sc_send)
        × ((init_sockets a s).1.param ≡ s.param)
  unfolding init_sockets init_coders
  init_sockets_kept s h =
      ground (arith, new_coder-cases s.param.encoder_type, new_coder-cases s.param.decoder_type)

  -- `UploadSession::Init` succeeds exactly if the sockets open, both coder types are known and both
  -- coders start. Then both coders are of their types, the RTP header is plain with the payload type
  -- of the encoder, the SC2 receiver has seen nothing, and the remote address is set.
  pub upload_init_lem :
      (md5 : List ℕ → List ℕ) (rand_sn rand_ts : ℕ) (entropy : List ℕ) (s : Members)
      (param : SessionParam)
      → let (r, s') = upload_init a md5 rand_sn rand_ts entropy s param in
        ((r ≡ some 0) ↔ Starts a param)
        × (r ≡ some 0
            → (s'.encoder ≡ some param.encoder_type)
              × (s'.decoder ≡ some param.decoder_type)
              × IsPlain s'.rtp.send_header
              × (s'.rtp.send_header.pt
                  ≡ (generate_default_param param.encoder_type).payload_type % 2 ^ 7)
              × (s'.sc_recv.first_pack ≡ true)
              × (s'.remote ≡ some (param.ip, param.remote_port)))
  unfolding upload_init
  upload_init_lem md5 rand_sn rand_ts entropy s param =
      let media = generate_default_param param.encoder_type in
      let rtp = Rtp.init md5 s.rtp media rand_sn rand_ts entropy in
      let begun : Members = record s {
        param = param;
        first_pack = true;
        rtp = rtp.1;
        sc_recv = (Sc.init s.sc_recv param.ueid to_4g 0).1;
      } in
      let plain = init-IsPlain md5 s.rtp media rand_sn rand_ts entropy in
      (
        init_sockets_iff begun,
        λ ok.
            let kept = init_sockets_kept begun ok in
            (
              kept.0,
              kept.1,
              rw kept.2 plain.1,
              rw kept.2 plain.2,
              rw kept.3 (init_fresh s.sc_recv param.ueid to_4g 0),
              kept.4,
            ),
      )

  -- What `DownloadSession::Init` leaves where it succeeds, which is where everything starts.
  pub download_init_lem :
      (s : Members) (param : SessionParam)
      → Starts a param
      → let (r, s') = download_init a s param in
        (r ≡ some 0)
        × (s'.encoder ≡ some param.encoder_type)
        × (s'.decoder ≡ some param.decoder_type)
        × (s'.sc_send ≡ (Sc.init s.sc_send param.ueid to_4g 0).1)
  unfolding download_init
  download_init_lem s param starts =
      let begun : Members = record s {
        param = param;
        first_pack = true;
        sc_send = (Sc.init s.sc_send param.ueid to_4g 0).1;
      } in
      let ok = (init_sockets_iff begun).1 starts in
      let kept = init_sockets_kept begun ok in (ok, kept.0, kept.1, kept.5)

  pub upload_init-param :
      (md5 : List ℕ → List ℕ) (rand_sn rand_ts : ℕ) (entropy : List ℕ) (s : Members)
      (param : SessionParam)
      → let (r, s') = upload_init a md5 rand_sn rand_ts entropy s param in
        r ≡ some 0 → s'.param ≡ param
  unfolding upload_init
  upload_init-param md5 rand_sn rand_ts entropy s param ok =
      let media = generate_default_param param.encoder_type in
      (init_sockets_kept
        (record s {
          param = param;
          first_pack = true;
          rtp = (Rtp.init md5 s.rtp media rand_sn rand_ts entropy).1;
          sc_recv = (Sc.init s.sc_recv param.ueid to_4g 0).1;
        })
        ok).6

  pub upload_init-sc_send :
      (md5 : List ℕ → List ℕ) (rand_sn rand_ts : ℕ) (entropy : List ℕ) (s : Members)
      (param : SessionParam)
      → let (r, s') = upload_init a md5 rand_sn rand_ts entropy s param in
        r ≡ some 0 → s'.sc_send ≡ s.sc_send
  unfolding upload_init
  upload_init-sc_send md5 rand_sn rand_ts entropy s param ok =
      let media = generate_default_param param.encoder_type in
      (init_sockets_kept
        (record s {
          param = param;
          first_pack = true;
          rtp = (Rtp.init md5 s.rtp media rand_sn rand_ts entropy).1;
          sc_recv = (Sc.init s.sc_recv param.ueid to_4g 0).1;
        })
        ok).5

  pub download_init-kept :
      (s : Members) (param : SessionParam)
      → let (r, s') = download_init a s param in
        r ≡ some 0 → (s'.sc_recv ≡ s.sc_recv) × (s'.param ≡ param)
  unfolding download_init
  download_init-kept s param ok =
      let kept =
        init_sockets_kept
          (record s {
            param = param;
            first_pack = true;
            sc_send = (Sc.init s.sc_send param.ueid to_4g 0).1;
          })
          ok in
      (kept.3, kept.6)
