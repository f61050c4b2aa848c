-- ===== src/Session/Setup.antt =====
-- `Init` of the two sessions, with `CodecType` and `GenerateDefaultParam` of src/utils.h and
-- src/utils.cpp.
--
-- What the sockets and the coders answer is a parameter: whether their `Init` and `Bind` fail.
-- `encoder_` and `decoder_` are null pointers, or coders of a type.
pub mod Ready
mod Tests
use codec_single_thread.Sc
use codec_single_thread.Sc.{Sc, to_4g}
use codec_single_thread.Rtp
use codec_single_thread.Rtp.{MediaParam, RtpSession}
use codec_single_thread.Base.{ℕ, Bool, true, ◌||◌, List, Option, none, some, if◌then◌else◌}

pub data CodecType : Type 0 where
  amr_wb codec2 pcm_a pcm_u unknown : CodecType

unfoldable pub generate_default_param : CodecType → MediaParam
generate_default_param amr_wb = record {
  payload_type = 99;
  clock_rate = 16000;
  samples_pre_frames = 320;
}
generate_default_param codec2 = record {
  payload_type = 96;
  clock_rate = 8000;
  samples_pre_frames = 160;
}
generate_default_param pcm_a = record {
  payload_type = 8;
  clock_rate = 8000;
  samples_pre_frames = 160;
}
generate_default_param pcm_u = record {
  payload_type = 0;
  clock_rate = 8000;
  samples_pre_frames = 160;
}
generate_default_param unknown = record { payload_type = 0; clock_rate = 0; samples_pre_frames = 0 }

-- The members `udpip_sip`, `udpip_dip`, `udpip_sport` and `udpip_dport` are left out: no method of a
-- session reads them.
pub record SessionParam : Type 0 where
  pub recv_port : ℕ
  pub remote_port : ℕ
  pub ip : List ℕ
  pub ueid : ℕ
  pub encoder_type : CodecType
  pub decoder_type : CodecType
  pub if_add_udpip : Bool
  pub if_send_sc : Bool

-- The members that `Init` sets. `remote` is what `SetSendIp` is given.
pub record Members : Type 0 where
  pub param : SessionParam
  pub first_pack : Bool
  pub sc_recv : Sc
  pub sc_send : Sc
  pub rtp : RtpSession
  pub remote : Option (List ℕ × ℕ)
  pub encoder : Option CodecType
  pub decoder : Option CodecType

-- The two `switch`es: a coder of the type, or their `default`.
unfoldable pub new_coder : CodecType → Option CodecType
new_coder unknown = none
new_coder amr_wb = some amr_wb
new_coder codec2 = some codec2
new_coder pcm_a = some pcm_a
new_coder pcm_u = some pcm_u

pub record Answers : Type 0 where
  pub recv_init_fails : Bool
  pub send_init_fails : Bool
  pub bind_fails : ℕ → Bool
  pub encoder_init_fails : CodecType → Bool
  pub decoder_init_fails : CodecType → Bool

module _ (a : Answers) where
  -- The part of `Init` that both sessions share, from the coders on and from the sockets on.
  unfoldable pub init_coders : Members → Option ℕ × Members
  unfolding new_coder
  init_coders s = elim (new_coder s.param.encoder_type) [
    | none ↦ (none, s)
    | some e ↦
        let with_encoder : Members = record s { encoder = some e } in
        elim (new_coder s.param.decoder_type) [
          | none ↦ (none, with_encoder)
          | some d ↦
              let with_both : Members = record with_encoder { decoder = some d } in
              if a.encoder_init_fails e
              then (none, with_both)
              else if a.decoder_init_fails d
              then (none, with_both)
              else (some 0, with_both)
        ]
  ]

  unfoldable pub init_sockets : Members → Option ℕ × Members
  unfolding init_coders
  init_sockets s =
      if a.recv_init_fails || a.send_init_fails
      then (none, s)
      else if a.bind_fails s.param.recv_port
      then (none, s)
      else init_coders (record s { remote = some (s.param.ip, s.param.remote_port) })

  -- `rand_sn`, `rand_ts` and `entropy` are those of `RtpSession::Init`, whose result is not read.
  pub upload_init : (List ℕ → List ℕ) → ℕ → ℕ → List ℕ → Members → SessionParam → Option ℕ × Members
  unfolding init_sockets generate_default_param
  upload_init md5 rand_sn rand_ts entropy s param =
      let media : MediaParam = generate_default_param param.encoder_type in
      init_sockets (record s {
        param = param;
        first_pack = true;
        rtp = (Rtp.init md5 s.rtp media rand_sn rand_ts entropy).1;
        sc_recv = (Sc.init s.sc_recv param.ueid to_4g 0).1;
      })

  pub download_init : Members → SessionParam → Option ℕ × Members
  unfolding init_sockets
  download_init s param = init_sockets (record s {
    param = param;
    first_pack = true;
    sc_send = (Sc.init s.sc_send param.ueid to_4g 0).1;
  })
