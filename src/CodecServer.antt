-- ===== src/CodecServer.antt =====
-- The loops of codec_server/codec_server.cpp, over the sockets of src/udp.cpp and the Codec2, mu-law
-- and RTP code of src.
--
-- The Codec2 library, MD5 and `inet_addr` are arguments, and so are the system calls, by the interface
-- of the sockets. An array starts with any contents. What is printed, with the counter for it, has no
-- counterpart.
pub mod Encoding
pub mod Decoding
pub mod Main
mod Tests
use codec_single_thread.Socket.{Address, System, UdpSocket, default, recv_from, set_send_ip}
use codec_single_thread.Socket
use codec_single_thread.Rtp
use codec_single_thread.Rtp.{RtpSession, MediaParam, generate_rtp_header, rtp_header_size}
use codec_single_thread.Codec2
use codec_single_thread.Codec2.{en_codec, de_codec}
use codec_single_thread.Pcm.{ulaw_en_codec}
use codec_single_thread.Startup.{same_text, codes}
use codec_single_thread.Base.{
  ℕ, ◌+◌, ◌-◌, Bool, true, false, List, [], ◌∷◌, ◌++◌, Option, none, some, ◌==◌, if◌then◌else◌,
  take, drop, ◌||◌, zero, suc,
}

abbrev pub buff_size : ℕ
buff_size = 1600

-- `length == n` of an `int`
abbrev pub is_length : ℕ → Option ℕ → Bool
is_length n none = false
is_length n (some k) = k == n

-- An output buffer that is not a null pointer.
abbrev pub written : List ℕ → Option (List ℕ) → List ℕ
written old none = old
written old (some new) = new

-- The local variables of `EncodeLoop`.
pub record Encoder (State : Type 0) : Type 0 where
  pub udp_server : UdpSocket
  pub test_socket : UdpSocket
  pub buff : List ℕ
  pub send_buff : List ℕ
  pub rtp_buff : List ℕ
  pub rtp : RtpSession
  pub encoder : Option State

pub record Decoder (State : Type 0) : Type 0 where
  pub udp_server : UdpSocket
  pub buff : List ℕ
  pub send_buff : List ℕ
  pub decoder : Option State

module _ {W : Type 0} (system : System W) (inet_addr : List ℕ → ℕ) where
  -- `Init`, `Bind` and `SetSendIp`: none where the function returns, and its socket is closed.
  unfoldable pub open_server : Address → ℕ → Option (List ℕ) → ℕ → W → Option UdpSocket × W
  open_server unset listen_port ip remote_port w =
      let (r, s, w1) = Socket.init system (default unset) w in
      let (bound, w2) = Socket.bind system s listen_port w1 in
      if is_length 0 r
      then if is_length 0 bound
        then (some (set_send_ip inet_addr s ip remote_port), w2)
        else (none, (Socket.close system s w2).1)
      else (none, (Socket.close system s w1).1)

  module _ {State : Type 0} (md5 : List ℕ → List ℕ) where
    -- The start of `EncodeLoop`, with the contents of the three arrays, the members of `rtp` before
    -- `Init`, the results of `rand()`, the text that is hashed, and the state that the Codec2 library
    -- creates.
    pub encode_start :
        Address
        → List ℕ
        → List ℕ
        → List ℕ
        → RtpSession
        → ℕ
        → ℕ
        → List ℕ
        → Option State
        → ℕ
        → Option (List ℕ)
        → ℕ
        → List ℕ
        → W
        → Option (Encoder State) × W
    unfolding open_server
    encode_start unset buff send_buff rtp_buff raw rand_sn rand_ts entropy created listen_port ip
          remote_port test_ip w =
        let (server, w1) = open_server unset listen_port ip remote_port w in
        let param : MediaParam = record {
          payload_type = 0;
          clock_rate = 8000;
          samples_pre_frames = 160;
        } in
        let (_, rtp) = Rtp.init md5 raw param rand_sn rand_ts entropy in
        let (_, test, w2) = Socket.init system (default unset) w1 in
        let (_, encoder) = Codec2.init none created in
        elim server [
          | none ↦ (none, w1)
          | some s ↦ (
            some (record {
              udp_server = s;
              test_socket = set_send_ip inet_addr test (some test_ip) remote_port;
              buff = buff;
              send_buff = send_buff;
              rtp_buff = rtp_buff;
              rtp = rtp;
              encoder = encoder;
            }),
            w2,
          )
        ]

  -- The start of `DecodeLoop`.
  pub decode_start :
      {State : Type 0}
      → Address
      → List ℕ
      → List ℕ
      → Option State
      → ℕ
      → Option (List ℕ)
      → ℕ
      → W
      → Option (Decoder State) × W
  unfolding open_server
  decode_start unset buff send_buff created listen_port ip remote_port w =
      let (server, w1) = open_server unset listen_port ip remote_port w in
      let (_, decoder) = Codec2.init none created in
      elim server [
        | none ↦ (none, w1)
        | some s ↦ (
          some (record { udp_server = s; buff = buff; send_buff = send_buff; decoder = decoder }),
          w1,
        )
      ]

module _ {W State : Type 0} (system : System W) where
  -- The RTP half of a round: the speech is coded behind the room for the header.
  unfoldable pub encode_rtp : Encoder State × W → Encoder State × W
  encode_rtp (e, w) =
      let (pcm_len, coded) =
        ulaw_en_codec (take 960 e.buff) (drop rtp_header_size e.rtp_buff)
          (buff_size - rtp_header_size) in
      let e' : Encoder State = record e { rtp_buff = take rtp_header_size e.rtp_buff ++ coded } in
      let (test_rtp, rtp, packet) =
        generate_rtp_header e.rtp (take rtp_header_size e.rtp_buff ++ coded) rtp_header_size 3 in
      let e'' : Encoder State = record e' { rtp = rtp; rtp_buff = packet } in
      let (_, w') = Socket.send system e.test_socket packet (some (rtp_header_size + 480)) w in
      if is_length 480 pcm_len
      then if is_length rtp_header_size test_rtp then (e'', w') else (e'', w)
      else (e', w)

  module _ (codec2_encode : Option State → List ℕ → Option State × List ℕ) where
    -- What follows `RecvFrom` in a round. The code is sent even where the encoder has failed.
    unfoldable pub encode_packet : Option ℕ → Encoder State × W → Encoder State × W
    unfolding encode_rtp
    encode_packet length (e, w) =
        let (r, st, output) =
          en_codec codec2_encode e.encoder (some (take 960 e.buff)) (some e.send_buff) buff_size in
        let send_buff : List ℕ = written e.send_buff output in
        let (_, w') = Socket.send system e.udp_server send_buff r w in
        let rest : Encoder State × W =
          encode_rtp (record e { encoder = st; send_buff = send_buff }, w') in
        if is_length 960 length then rest else (e, w)

    unfoldable pub encode_round : Encoder State × W → Encoder State × W
    unfolding encode_packet
    encode_round (e, w) =
        let (r, buff, _, w') = recv_from system e.udp_server e.buff buff_size w in
        encode_packet r (record e { buff = buff }, w')

    -- `while (true)`, for a number of rounds.
    unfoldable pub encode_rounds : ℕ → Encoder State × W → Encoder State × W
    unfolding encode_round
    encode_rounds zero s = s
    encode_rounds (suc n) s = encode_rounds n (encode_round s)

  module _ (codec2_decode : Option State → List ℕ → Option State × List ℕ) where
    unfoldable pub decode_packet : Option ℕ → Decoder State × W → Decoder State × W
    decode_packet length (d, w) =
        let (r, st, output) =
          de_codec codec2_decode d.decoder (some (take 18 d.buff)) (some d.send_buff) buff_size in
        let send_buff : List ℕ = written d.send_buff output in
        let (_, w') = Socket.send system d.udp_server send_buff r w in
        if is_length 18 length
        then (record d { decoder = st; send_buff = send_buff }, w')
        else (d, w)

    unfoldable pub decode_round : Decoder State × W → Decoder State × W
    unfolding decode_packet
    decode_round (d, w) =
        let (r, buff, _, w') = recv_from system d.udp_server d.buff buff_size w in
        decode_packet r (record d { buff = buff }, w')

    -- `while (work)`, over the values that are read of `work`; the socket is closed at the end. A run
    -- that goes on is cut off there.
    unfoldable pub decode_rounds : List Bool → Decoder State × W → Decoder State × W
    unfolding decode_round
    decode_rounds [] s = s
    decode_rounds (true ∷ works) s = decode_rounds works (decode_round s)
    decode_rounds (false ∷ works) (d, w) =
        let (s, w') = Socket.close system d.udp_server w in (record d { udp_server = s }, w')

-- `HandleConsole`: `work` after the words that are typed.
pub handle_console : List (List ℕ) → Bool → Bool
unfolding same_text
handle_console [] work = work
handle_console (str ∷ strs) work =
    if same_text str (codes "q") || same_text str (codes "quit")
    then false
    else handle_console strs work
