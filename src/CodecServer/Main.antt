-- ===== src/CodecServer/Main.antt =====
-- `main` of codec_server/codec_server.cpp.
--
-- The configuration is read as in src/main.cpp, over jsoncpp as a parameter. `Codec2PrintCoderMsg` only
-- prints what its coder answers.
use codec_single_thread.Startup.{codes}
use codec_single_thread.Startup.Reading.{Json, read_config, text_of, uint_of}
use codec_single_thread.Base.{ℕ, ◌%◌, ◌^◌, List, Option, none, some, ◌>>=◌}

-- The arguments of `EncodeLoop`, or of `DecodeLoop` before its last.
pub record LoopArguments : Type 0 where
  pub listen_port : ℕ
  pub ip : List ℕ
  pub remote_port : ℕ

-- How `main` goes on: an exception that nothing catches, or the thread of `EncodeLoop`, which reads
-- `test_ip`.
pub data Server : Type 0 where
  thrown : Server
  encoding : LoopArguments → List ℕ → Server

module _ (json : Json) where
  -- The members of "encoder" or "decoder"; the ports are cut to 16 bits where a loop is called.
  pub arguments_of : json.Value → Option LoopArguments
  unfolding text_of uint_of
  arguments_of config = do
    recv_port ← uint_of json config (codes "recv_port")
    ip ← text_of json config (codes "send_ip")
    send_port ← uint_of json config (codes "send_port")
    some (record { listen_port = recv_port % 2 ^ 16; ip = ip; remote_port = send_port % 2 ^ 16 })

  -- `main`; the arguments of the decoder are only printed.
  unfoldable pub serve : Option (List ℕ) → Server
  unfolding read_config arguments_of
  serve file =
      let (_, root) = read_config json file json.null in
      let read : Option (LoopArguments × List ℕ) = (do
        encoder_config ← json.member root (codes "encoder")
        decoder_config ← json.member root (codes "decoder")
        encoder ← arguments_of encoder_config
        decoder ← arguments_of decoder_config
        test_ip ← text_of json root (codes "test_ip")
        some (encoder, test_ip)) in
      elim read [ none ↦ thrown | some (encoder, test_ip) ↦ encoding encoder test_ip ]
