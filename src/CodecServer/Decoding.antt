-- ===== src/CodecServer/Decoding.antt =====
-- `DecodeLoop`: the speech of each packet of bits.
use codec_single_thread.CodecServer.{Decoder, decode_packet, decode_round, decode_rounds}
use codec_single_thread.Codec2.Stream.{coded, Sized, length-coded}
use codec_single_thread.Codec2.Calls.{de_codec-coded}
use codec_single_thread.Codec2.{de_codec}
use codec_single_thread.Socket.{System, send, close, part}
use codec_single_thread.CodecServer.Encoding.{send-part}
use codec_single_thread.Base.{
  ℕ, ◌≡◌, refl, ap, sym, ◌∙◌, arith, List, Option, some, none, length, take, overwrite, ◌++◌,
  length-take, take-overwrite, take-whole, Bool, true, false, ◌∷◌, replicate, zero, suc,
}

module _ {State : Type 0} (codec2_decode : Option State → List ℕ → Option State × List ℕ) where
  -- The state and the speech of the three frames of a packet.
  abbrev pub pcm : Decoder State → Option State × List ℕ
  pcm d = coded codec2_decode 6 3 d.decoder (take 18 d.buff)

  pub record IsSized (d : Decoder State) : Type 0 where
    pub buff_size : length d.buff ≡ 1600
    pub send_size : length d.send_buff ≡ 1600

  de_codec_packet :
      (st : Option State) (input output : List ℕ)
      → Sized codec2_decode 320
      → length input ≡ 18
      → length output ≡ 1600
      → de_codec codec2_decode st (some input) (some output) 1600 ≡ (
        some 960,
        (coded codec2_decode 6 3 st input).0,
        some (overwrite (coded codec2_decode 6 3 st input).1 output),
      )
  de_codec_packet st input output sized e e' =
      let run =
        de_codec-coded codec2_decode st input output sized (omega (arith, e))
          (omega (arith, e, e')) in
      rw (e, e') at run

  part-pcm :
      (d : Decoder State)
      → IsSized d
      → Sized codec2_decode 320
      → part (overwrite (pcm d).1 d.send_buff) (some 960) ≡ part (pcm d).1 (some 960)
  part-pcm d v sized =
      let size = length-coded codec2_decode 6 320 3 d.decoder (take 18 d.buff) sized in
      ap some (
        ap (λ n. take n (overwrite (pcm d).1 d.send_buff)) (sym size)
        ∙ take-overwrite (pcm d).1 d.send_buff (omega (arith, size, v.send_size))
        ∙ sym (take-whole 960 (pcm d).1 size))

  module _ {W : Type 0} (system : System W) where
    -- A round on a datagram of 18 bytes, where the library decodes a frame to 320 bytes: the 960 bytes
    -- of its three frames are sent on, and the decoder is three frames further.
    pub decode_packet_lem :
        (d : Decoder State) (w : W)
        → IsSized d
        → Sized codec2_decode 320
        → decode_packet system codec2_decode (some 18) (d, w) ≡ (
          record d { decoder = (pcm d).0; send_buff = overwrite (pcm d).1 d.send_buff },
          (send system d.udp_server (pcm d).1 (some 960) w).1,
        )
    unfolding decode_packet
    decode_packet_lem d w v sized =
        rw
          (de_codec_packet d.decoder (take 18 d.buff) d.send_buff sized
            (omega (arith, length-take 18 d.buff, v.buff_size)) v.send_size)
          (ap
            (λ (m : Option ℕ × W).
              (record d { decoder = (pcm d).0; send_buff = overwrite (pcm d).1 d.send_buff }, m.1))
            (send-part system d.udp_server _ (pcm d).1 (some 960) w (part-pcm d v sized)))

    -- Once `work` is false the loop ends, and leaves a socket that is closed.
    pub decode_rounds-closed :
        (n : ℕ) (works : List Bool) (s : Decoder State × W)
        → (decode_rounds system codec2_decode
            (replicate n true ++ (false ∷ works))
            s).0.udp_server.fd
          ≡ none
    unfolding decode_rounds close
    decode_rounds-closed zero works s = refl
    decode_rounds-closed (suc n) works s =
        decode_rounds-closed n works (decode_round system codec2_decode s)
