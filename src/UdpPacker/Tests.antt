-- ===== src/UdpPacker/Tests.antt =====
-- Runs of the UDP/IP model, and its theorems at a concrete packer.
use mathlib.Core.Option
use codec_single_thread.UdpPacker.{
  UdpPacker, IpHeader, TransInfo, set_ip_port, generate_header, udp_parser, check_sum, udp_checksum,
}
use codec_single_thread.UdpPacker.Checksum.OnesSum.{ones_sum, words, whole_words, check_sum_lem}
use codec_single_thread.UdpPacker.Checksum.{FitsIp}
use codec_single_thread.UdpPacker.Parse.{IsReady, parse-generate}
use codec_single_thread.Base.{
  [], ◌∷◌, some, none, refl, ℕ, arith, swap16, ◌≡◌, replicate, Option, take, swap32, drop,
  if◌then◌else◌, ◌^◌, ◌==◌, ◌-◌, ◌++◌,
}

-- An address parses to the word 127.0.0.1 as it is stored, from the text 1 only.
abbrev pton : ℕ → Option ℕ
pton t = if t == 1 then some 0x0100_007F else none

abbrev iphdr : IpHeader
iphdr = record {
  ip_hl = 5;
  ip_v = 4;
  ip_tos = 0;
  ip_len = 0;
  ip_id = 0;
  ip_off = 0;
  ip_ttl = 255;
  ip_p = 17;
  ip_sum = 0;
  ip_src = 0x0100_007F;
  ip_dst = 0x0100_007F;
}

abbrev packer : UdpPacker
packer = record {
  iphdr = iphdr;
  udphdr = record { uh_sport = 0x61EA; uh_dport = 0x62EA; uh_ulen = 0; uh_sum = 0 };
  fake = record {
    src_ip = 0x0100_007F;
    dst_ip = 0x0100_007F;
    proto = 17;
    zero' = 0;
    udp_len = 0;
    src_port = 0x61EA;
    dst_port = 0x62EA;
    len = 0;
    sum = 0;
  };
}

iphdr-Fits : FitsIp iphdr
iphdr-Fits = omega arith

packer-IsReady : IsReady packer
packer-IsReady = omega arith

set_up : set_ip_port pton packer 1 60001 1 60002 ≡ (some 0, packer)
unfolding set_ip_port swap16
set_up = refl

set_fails : (set_ip_port pton packer 1 60001 2 60002).0 ≡ none
unfolding set_ip_port
set_fails = refl

-- The header of four bytes of payload.
generated :
    take 20 (generate_header packer (replicate 32 0) 4).2
    ≡ 0x45 ∷ 0 ∷ 0 ∷ 32 ∷ 0 ∷ 1 ∷ 0 ∷ 0 ∷ 255 ∷ 17 ∷ 0xBD ∷ 0xC9 ∷ 127 ∷ 0 ∷ 0 ∷ 1 ∷ 127 ∷ 0 ∷ 0 ∷ 1
      ∷ []
unfolding generate_header swap16
generated = refl

-- An IP header of no bytes is accepted.
short_header : Option.map (λ r. r.0) (udp_parser (replicate 28 0) 28) ≡ some 8
unfolding udp_parser
short_header = refl

abbrev no_info : TransInfo
no_info = record { src_ip = 0; dst_ip = 0; src_port = 0; dst_port = 0 }

parse-generate_example :
    let (r, u', buff') = generate_header packer (replicate 32 0) 4 in
    (r ≡ some 28)
    × (udp_parser buff' 32
        ≡ some (
          28,
          record {
            src_ip = swap32 0x0100_007F;
            dst_ip = swap32 0x0100_007F;
            src_port = swap16 0x61EA;
            dst_port = swap16 0x62EA;
          },
        ))
    × (check_sum (take 20 buff') ≡ 0)
    × (drop 28 buff' ≡ replicate 4 0)
    × IsReady u'
parse-generate_example =
    parse-generate packer (replicate 32 0) 4 32 packer-IsReady (omega arith) (omega arith)
      (omega arith)

check_sum_lem_example :
    (check_sum (0xFF ∷ 0xFF ∷ 1 ∷ []) ≡ 2 ^ 16 - 1 - ones_sum (words (0xFF ∷ 0xFF ∷ 1 ∷ [])))
    × (udp_checksum (0xFF ∷ 0xFE ∷ []) (0xFF ∷ 0xFF ∷ 1 ∷ [])
        ≡ 2 ^ 16 - 1 - ones_sum (whole_words (0xFF ∷ 0xFE ∷ []) ++ words (0xFF ∷ 0xFF ∷ 1 ∷ [])))
check_sum_lem_example =
    check_sum_lem (0xFF ∷ 0xFE ∷ []) (0xFF ∷ 0xFF ∷ 1 ∷ []) (omega arith) (omega arith)
      (omega arith)
