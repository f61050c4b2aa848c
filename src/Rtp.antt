-- ===== src/Rtp.antt =====
-- `RtpSession` of src/rtp.h and src/rtp.cpp: RTP headers, written and read.
--
-- A bit field is kept as its value; `first_word` lays the two bytes out as the little-endian struct
-- does. A packet is the list of its bytes. The values of `rand()` and the text that
-- `SSRCGenerator` hashes are arguments, and so is MD5, which src/md5.cpp has from RSA Data Security.
-- `DecodeRtpHeader` has the parameters of its definition in rtp.cpp; the assignment to the undeclared
-- `lost_samples` there has no counterpart.
pub mod Stream
mod Tests
use codec_single_thread.Base.{
  ℕ, ◌+◌, ◌*◌, ◌/◌, ◌%◌, ◌^◌, bit_xor, Bool, not, ◌||◌, List, [], ◌∷◌, ◌++◌, Option, none, some,
  ltb, ◌==◌, if◌then◌else◌, get_or, overwrite, write_at, swap16, swap32, store16, store32, load16,
  load32, u16, u32, true,
}

-- `MediaParam` of src/codec.h.
pub record MediaParam : Type 0 where
  pub payload_type : ℕ
  pub clock_rate : ℕ
  pub samples_pre_frames : ℕ

pub record RtpHeader : Type 0 where
  pub cc : ℕ
  pub x : ℕ
  pub p : ℕ
  pub v : ℕ
  pub pt : ℕ
  pub m : ℕ
  pub sequence_num : ℕ
  pub timestamp : ℕ
  pub ssrc : ℕ

-- sizeof(RtpHeader) and the constant that the code compares it with
abbrev pub sizeof_rtp_header : ℕ
sizeof_rtp_header = 2 + 2 + 4 + 4

abbrev pub rtp_header_size : ℕ
rtp_header_size = 12

-- The bit fields in memory: cc, x, p, v from the lowest bit of the first byte, pt and m in the second.
abbrev pub first_word : RtpHeader → List ℕ
first_word h = (h.cc + h.x * 2 ^ 4 + h.p * 2 ^ 5 + h.v * 2 ^ 6) ∷ (h.pt + h.m * 2 ^ 7) ∷ []

pub record RtpSession : Type 0 where
  pub param : MediaParam
  pub send_header : RtpHeader
  pub decode_first_packet : Bool

-- The exclusive or of the digest's four words.
pub ssrc_of_digest : List ℕ → ℕ
ssrc_of_digest buff =
    bit_xor (bit_xor (bit_xor (load32 buff 0) (load32 buff 4)) (load32 buff 8)) (load32 buff 12)

module _ (md5 : List ℕ → List ℕ) where
  pub ssrc_generator : List ℕ → ℕ
  unfolding ssrc_of_digest
  ssrc_generator s = ssrc_of_digest (md5 s)

  -- `entropy` is what `SSRCGenerator` gathers, `rand_sn` and `rand_ts` the two results of `rand()`.
  pub init : RtpSession → MediaParam → ℕ → ℕ → List ℕ → Option ℕ × RtpSession
  unfolding ssrc_generator
  init s param rand_sn rand_ts entropy =
      if not (sizeof_rtp_header == rtp_header_size) then (none, s) else (
        some 0,
        record {
          param = param;
          send_header = record {
            cc = 0;
            x = 0;
            p = 0;
            v = 2;
            pt = param.payload_type % 2 ^ 7;
            m = 0;
            sequence_num = rand_sn % 2 ^ 16;
            timestamp = u32 rand_ts;
            ssrc = ssrc_generator entropy;
          };
          decode_first_packet = true;
        },
      )

-- The bytes that `GenerateRtpHeader` writes.
unfoldable pub header_bytes : RtpHeader → List ℕ
header_bytes h =
    first_word h
    ++ (store16 (swap16 h.sequence_num)
        ++ (store32 (swap32 h.timestamp) ++ store32 (swap32 h.ssrc)))

-- The header of the next packet.
unfoldable pub advance : RtpSession → ℕ → RtpHeader
advance s frame_num = record s.send_header {
  sequence_num = u16 (s.send_header.sequence_num + 1);
  timestamp = u32 (s.send_header.timestamp + frame_num * s.param.samples_pre_frames);
}

-- The result, the session and the buffer.
pub generate_rtp_header : RtpSession → List ℕ → ℕ → ℕ → Option ℕ × RtpSession × List ℕ
unfolding header_bytes advance
generate_rtp_header s buff length frame_num =
    if ltb length sizeof_rtp_header then (none, s, buff) else (
      some sizeof_rtp_header,
      record s { send_header = advance s frame_num },
      overwrite (header_bytes s.send_header) buff,
    )

-- `now_head->v != 2 || now_head->x != 0 || now_head->cc != 0 || now_head->m != 0`
pub bad_head : List ℕ → Bool
bad_head pkt =
    not (get_or pkt 0 0 / 2 ^ 6 % 4 == 2)
    || (not (get_or pkt 0 0 / 2 ^ 4 % 2 == 0)
        || (not (get_or pkt 0 0 % 2 ^ 4 == 0) || not (get_or pkt 1 0 / 2 ^ 7 % 2 == 0)))

-- The struct's last three members in host order, written over the packet.
pub host_order : List ℕ → List ℕ
host_order pkt =
    write_at 2
      (store16 (swap16 (load16 pkt 2))
        ++ (store32 (swap32 (load32 pkt 4)) ++ store32 (swap32 (load32 pkt 8))))
      pkt

-- What the call leaves: the result, the packet, and the two output parameters.
pub record Decoded : Type 0 where
  pub result : Option ℕ
  pub packet : List ℕ
  pub sequence_number : ℕ
  pub time_stamp : ℕ

pub decode_rtp_header : List ℕ → ℕ → ℕ → ℕ → Decoded
unfolding bad_head host_order
decode_rtp_header pkt pkt_len sequence_number time_stamp =
    if ltb pkt_len sizeof_rtp_header || bad_head pkt
    then record {
      result = none;
      packet = pkt;
      sequence_number = sequence_number;
      time_stamp = time_stamp;
    }
    else record {
      result = some sizeof_rtp_header;
      packet = host_order pkt;
      sequence_number = load16 (host_order pkt) 2;
      time_stamp = load32 (host_order pkt) 4;
    }
