-- ===== src/CodecServer/Encoding/Start.antt =====
-- The start of `EncodeLoop`.
use mathlib.Core.Path.{subst}
use codec_single_thread.CodecServer.{Encoder, encode_start, open_server}
use codec_single_thread.CodecServer.Encoding.{IsReady}
use codec_single_thread.Codec2
use codec_single_thread.Rtp
use codec_single_thread.Rtp.{RtpSession, MediaParam}
use codec_single_thread.Rtp.Stream.{init_param, init-IsPlain}
use codec_single_thread.Socket.{Address, System, default, set_send_ip}
use codec_single_thread.Socket
use codec_single_thread.Base.{
  ap, ℕ, ◌≡◌, refl, List, Option, some, none, length, arith, Option-cases, inl, inr,
}

module _ {W State : Type 0} (system : System W) (inet_addr : List ℕ → ℕ)
    (md5 : List ℕ → List ℕ) where
  -- The start of `EncodeLoop` leaves the sizes of the arrays and a plain header of 160 samples a
  -- frame, where it comes to the loop.
  pub encode_start-IsReady :
      (unset : Address) (buff send_buff rtp_buff : List ℕ) (raw : RtpSession) (rand_sn rand_ts : ℕ)
      (entropy : List ℕ) (created : Option State) (listen_port : ℕ) (ip : Option (List ℕ))
      (remote_port : ℕ) (test_ip : List ℕ) (w : W) (e : Encoder State)
      → length buff ≡ 1600
      → length send_buff ≡ 1600
      → length rtp_buff ≡ 1600
      → (encode_start system inet_addr md5 unset buff send_buff rtp_buff raw rand_sn rand_ts entropy
          created listen_port ip remote_port test_ip w).0
        ≡ some e
      → IsReady e × (e.encoder ≡ (Codec2.init none created).1)
  unfolding encode_start
  encode_start-IsReady unset buff send_buff rtp_buff raw rand_sn rand_ts entropy created listen_port
        ip remote_port test_ip w e h h' h'' made =
      let param : MediaParam = record {
        payload_type = 0;
        clock_rate = 8000;
        samples_pre_frames = 160;
      } in
      let plain = init-IsPlain md5 raw param rand_sn rand_ts entropy in
      let opened = open_server system inet_addr unset listen_port ip remote_port w in
      let test = Socket.init system (default unset) opened.1 in
      elim (Option-cases opened.0) [
        | inl failed ↦ ground (arith, failed, made)
        | inr (s, success) ↦
            let begun : Encoder State = record {
              udp_server = s;
              test_socket = set_send_ip inet_addr test.1 (some test_ip) remote_port;
              buff = buff;
              send_buff = send_buff;
              rtp_buff = rtp_buff;
              rtp = (Rtp.init md5 raw param rand_sn rand_ts entropy).1;
              encoder = (Codec2.init none created).1;
            } in
            let same : begun ≡ e =
              ap (λ (o : Option (Encoder State)). elim o [ none ↦ begun | some x ↦ x ])
                (rw (encode_start, success) at made) in
            subst (λ (x : Encoder State). IsReady x × (x.encoder ≡ (Codec2.init none created).1))
              same
              (
                record {
                  buff_size = h;
                  send_size = h';
                  rtp_size = h'';
                  plain = plain.1;
                  samples =
                      ap (λ p. p.samples_pre_frames)
                        (init_param md5 raw param rand_sn rand_ts entropy);
                },
                refl,
              )
      ]
