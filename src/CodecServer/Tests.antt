-- ===== src/CodecServer/Tests.antt =====
-- The loops of the codec server at concrete packets, over stand-ins for Codec2 and the system.
use codec_single_thread.CodecServer.{
  handle_console, Encoder, Decoder, encode_packet, encode_rounds, decode_rounds,
}
use codec_single_thread.CodecServer.Encoding.{IsReady, rtp_packet, bits, encode_packet_lem}
use codec_single_thread.CodecServer.Encoding.Rounds.{IsAt, heard, encode_rounds-IsAt}
use codec_single_thread.CodecServer.Decoding.{IsSized}
use codec_single_thread.Codec2.Stream.{Sized}
use codec_single_thread.Rtp.{RtpSession, advance}
use codec_single_thread.Socket.{recv_from, close, Address, System, UdpSocket, send}
use codec_single_thread.Startup.{codes}
use codec_single_thread.Startup.Reading.{Json}
use codec_single_thread.CodecServer.Main.{serve, encoding, thrown}
use codec_single_thread.Base.{
  ℕ, ◌+◌, ◌^◌, ltb, if◌then◌else◌, ◌≡◌, refl, arith, List, [], ◌∷◌, Option, some, none, length,
  replicate, true, false, take,
}

abbrev encode : Option ℕ → List ℕ → Option ℕ × List ℕ
encode st x = (st, replicate 6 7)

abbrev decode : Option ℕ → List ℕ → Option ℕ × List ℕ
decode st x = (st, replicate 320 9)

encode-Sized : Sized encode 6
encode-Sized st x = refl

decode-Sized : Sized decode 320
decode-Sized st x = refl

abbrev address : Address
address = record { s_addr = 0x0100_007F; sin_port = 80 }

-- A world that is the datagrams to come, and the lengths of those that were sent.
abbrev system : System (List (List ℕ) × List ℕ)
system = record {
  socket = λ w. (some 3, w);
  bind = λ fd to w. (some 0, w);
  close = λ fd w. w;
  sendto = λ fd to bytes w. elim bytes [
    | none ↦ (none, w)
    | some b ↦ (some (length b), (w.0, length b ∷ w.1))
  ];
  recvfrom = λ fd room w. elim w.0 [
    | [] ↦ (none, address, w)
    | d ∷ ds ↦ (some (take room d), address, (ds, w.1))
  ];
}

abbrev socket : UdpSocket
socket = record { fd = some 3; remote_set = true; remote_addr = address }

abbrev rtp : RtpSession
rtp = record {
  param = record { payload_type = 0; clock_rate = 8000; samples_pre_frames = 160 };
  send_header = record {
    cc = 0;
    x = 0;
    p = 0;
    v = 2;
    pt = 0;
    m = 0;
    sequence_num = 65535;
    timestamp = 10;
    ssrc = 5;
  };
  decode_first_packet = true;
}

abbrev encoder : Encoder ℕ
encoder = record {
  udp_server = socket;
  test_socket = socket;
  buff = replicate 1600 0;
  send_buff = replicate 1600 0;
  rtp_buff = replicate 1600 0;
  rtp = rtp;
  encoder = some 1;
}

abbrev decoder : Decoder ℕ
decoder = record {
  udp_server = socket;
  buff = replicate 1600 0;
  send_buff = replicate 1600 0;
  decoder = some 1;
}

encoder-IsReady : IsReady encoder
encoder-IsReady = record {
  buff_size = refl;
  send_size = refl;
  rtp_size = refl;
  plain = record {
    version = refl;
    no_extension = refl;
    no_sources = refl;
    no_padding = refl;
    no_marker = refl;
    pt_fits = omega arith;
    sn_fits = omega arith;
    ts_fits = omega arith;
  };
  samples = refl;
}

decoder-IsSized : IsSized decode decoder
decoder-IsSized = record { buff_size = refl; send_size = refl }

abbrev input : List (List ℕ) × List ℕ
input = (replicate 960 1 ∷ (replicate 959 1 ∷ []), [])

-- A datagram of three bytes is dropped.
short : (encode_rounds system encode 1 (encoder, ((1 ∷ 2 ∷ 3 ∷ []) ∷ [], []))).1 ≡ ([], [])
unfolding encode_rounds recv_from
short = refl

-- `work` is false.
stopped :
    decode_rounds system decode (false ∷ true ∷ []) (decoder, input)
    ≡ (record decoder { udp_server = record socket { fd = none } }, input)
unfolding decode_rounds close
stopped = refl

encode_packet_lem_example :
    let (e', w') = encode_packet system encode (some 960) (encoder, input) in
    (w'
      ≡ (send system encoder.test_socket
          (rtp_packet encoder)
          (some 492)
          (send system encoder.udp_server (bits encode encoder).1 (some 18) input).1).1)
    × (e'.encoder ≡ (bits encode encoder).0)
    × (e'.rtp ≡ record rtp { send_header = advance rtp 3 })
    × IsReady e'
encode_packet_lem_example =
    encode_packet_lem system encode encoder input encoder-IsReady encode-Sized

encode_rounds-IsAt_example :
    IsAt system encode encoder
      (heard system encode 2 (encoder, input))
      (encode_rounds system encode 2 (encoder, input)).0
encode_rounds-IsAt_example =
    encode_rounds-IsAt system encode 2 encoder input encoder-IsReady encode-Sized

quits : handle_console (codes "go" ∷ codes "quit" ∷ []) true ≡ false
unfolding handle_console
quits = refl

-- Values are numbers, and a member lies as far on as its name is long; a number of 30 or more is no
-- text.
abbrev json : Json
json = record {
  Value = ℕ;
  null = 0;
  member = λ v key. some (v + length key);
  is_array = λ v. false;
  elements = λ v. [];
  as_string = λ v. if ltb v 30 then some (replicate v 65) else none;
  as_uint = λ v. some (v + 2 ^ 16);
  as_bool = λ v. none;
  parse = λ v text. (false, v + length text);
}

-- The ports are cut to 16 bits; only the arguments of the encoder go on.
starts_encoder :
    serve json none
    ≡ encoding
        (record { listen_port = 16; ip = replicate 14 65; remote_port = 16 })
        (replicate 7 65)
unfolding serve
starts_encoder = refl

wrong_type : serve json (some (replicate 20 7)) ≡ thrown
unfolding serve
wrong_type = refl
