-- ===== src/UdpPacker.antt =====
-- `UdpPacker`, `CheckSum`, `UdpChecksum` and `UdpParser` of src/udp_packer.h and src/udp_packer.cpp:
-- an IPv4 and UDP header in front of a payload.
--
-- The structs `ip` and `udphdr` are records of what their members hold in memory: a member in
-- network order holds the swapped number of a little-endian host. `inet_pton` is an argument: the
-- address as the word that it stores, or none where it does not return 1.
pub mod Checksum
pub mod Parse
mod Tests
use codec_single_thread.Base.{
  ℕ, ◌+◌, ◌-◌, ◌*◌, ◌/◌, ◌%◌, ◌^◌, ◌||◌, List, [], ◌∷◌, ◌++◌, Option, none, some, ltb,
  if◌then◌else◌, get_or, take, drop, overwrite, write_at, swap16, swap32, store16, store32, load16,
  load32, u16,
}

abbrev pub ip_header_len : ℕ
ip_header_len = 20

abbrev pub udp_header_len : ℕ
udp_header_len = 8

abbrev pub udp_ip_len : ℕ
udp_ip_len = ip_header_len + udp_header_len

pub record TransInfo : Type 0 where
  pub src_ip : ℕ
  pub dst_ip : ℕ
  pub src_port : ℕ
  pub dst_port : ℕ

pub record IpHeader : Type 0 where
  pub ip_hl : ℕ
  pub ip_v : ℕ
  pub ip_tos : ℕ
  pub ip_len : ℕ
  pub ip_id : ℕ
  pub ip_off : ℕ
  pub ip_ttl : ℕ
  pub ip_p : ℕ
  pub ip_sum : ℕ
  pub ip_src : ℕ
  pub ip_dst : ℕ

pub record UdpHeader : Type 0 where
  pub uh_sport : ℕ
  pub uh_dport : ℕ
  pub uh_ulen : ℕ
  pub uh_sum : ℕ

pub record FakeHeader : Type 0 where
  pub src_ip : ℕ
  pub dst_ip : ℕ
  pub proto : ℕ
  pub zero' : ℕ
  pub udp_len : ℕ
  pub src_port : ℕ
  pub dst_port : ℕ
  pub len : ℕ
  pub sum : ℕ

pub record UdpPacker : Type 0 where
  pub iphdr : IpHeader
  pub udphdr : UdpHeader
  pub fake : FakeHeader

-- The structs' bytes.
pub ip_bytes : IpHeader → List ℕ
ip_bytes h =
    ((h.ip_hl + h.ip_v * 2 ^ 4) ∷ h.ip_tos ∷ [])
    ++ (store16 h.ip_len
        ++ (store16 h.ip_id
            ++ (store16 h.ip_off
                ++ ((h.ip_ttl ∷ h.ip_p ∷ [])
                    ++ (store16 h.ip_sum ++ (store32 h.ip_src ++ store32 h.ip_dst))))))

pub udp_bytes : UdpHeader → List ℕ
udp_bytes h = store16 h.uh_sport ++ (store16 h.uh_dport ++ (store16 h.uh_ulen ++ store16 h.uh_sum))

-- The member `proto` comes first on a little-endian host.
pub fake_bytes : FakeHeader → List ℕ
fake_bytes h =
    store32 h.src_ip
    ++ (store32 h.dst_ip
        ++ ((h.proto ∷ h.zero' ∷ [])
            ++ (store16 h.udp_len
                ++ (store16 h.src_port
                    ++ (store16 h.dst_port ++ (store16 h.len ++ store16 h.sum))))))

abbrev pub ipproto_udp : ℕ
ipproto_udp = 17

abbrev ip_defaults : IpHeader
ip_defaults = record {
  ip_hl = ip_header_len / 2 ^ 2;
  ip_v = 4;
  ip_tos = 0;
  ip_len = 0;
  ip_id = 0;
  ip_off = 0;
  ip_ttl = 255;
  ip_p = ipproto_udp;
  ip_sum = 0;
  ip_src = 0;
  ip_dst = 0;
}

abbrev udp_zero : UdpHeader
udp_zero = record { uh_sport = 0; uh_dport = 0; uh_ulen = 0; uh_sum = 0 }

abbrev fake_zero : FakeHeader
fake_zero = record {
  src_ip = 0;
  dst_ip = 0;
  proto = 0;
  zero' = 0;
  udp_len = 0;
  src_port = 0;
  dst_port = 0;
  len = 0;
  sum = 0;
}

module _ {Text : Type 0} (inet_pton : Text → Option ℕ) where
  -- The object is cleared first; each address that does not parse ends the call.
  pub set_ip_port : UdpPacker → Text → ℕ → Text → ℕ → Option ℕ × UdpPacker
  set_ip_port u src_ip src_port dst_ip dst_port = elim (inet_pton src_ip) [
    | none ↦ (none, record { iphdr = ip_defaults; udphdr = udp_zero; fake = fake_zero })
    | some src ↦ elim (inet_pton dst_ip) [
      | none ↦ (
        none,
        record { iphdr = record ip_defaults { ip_src = src }; udphdr = udp_zero; fake = fake_zero },
      )
      | some dst ↦ (
        some 0,
        record {
          iphdr = record ip_defaults { ip_src = src; ip_dst = dst };
          udphdr = record udp_zero { uh_sport = swap16 src_port; uh_dport = swap16 dst_port };
          fake = record fake_zero {
            src_ip = src;
            dst_ip = dst;
            proto = ipproto_udp;
            src_port = swap16 src_port;
            dst_port = swap16 dst_port;
          };
        },
      )
    ]
  ]

-- The sum of a buffer's 16-bit words; a last odd byte is the low byte of one more.
pub words_sum : List ℕ → ℕ
words_sum (lo ∷ hi ∷ rest) = (lo + hi * 2 ^ 8) + words_sum rest
words_sum (b ∷ []) = b
words_sum [] = 0

-- The sum of a buffer's whole words, as the loop up to half the length takes them: an odd last byte
-- is left out.
pub whole_sum : List ℕ → ℕ
whole_sum (lo ∷ hi ∷ rest) = (lo + hi * 2 ^ 8) + whole_sum rest
whole_sum (b ∷ []) = 0
whole_sum [] = 0

-- Two folds of the carries, and the complement in 16 bits.
pub fold_carries : ℕ → ℕ
fold_carries sum = let once = sum / 2 ^ 16 + sum % 2 ^ 16 in once + once / 2 ^ 16

abbrev pub complement16 : ℕ → ℕ
complement16 sum = 2 ^ 16 - 1 - sum % 2 ^ 16

pub check_sum : List ℕ → ℕ
unfolding words_sum fold_carries
check_sum addr = complement16 (fold_carries (words_sum addr))

pub udp_checksum : List ℕ → List ℕ → ℕ
unfolding whole_sum words_sum fold_carries
udp_checksum fakeheader data' = complement16 (fold_carries (whole_sum fakeheader + words_sum data'))

-- What `GenerateHeader` makes of the IP header.
pub next_ip : IpHeader → ℕ → IpHeader
unfolding check_sum ip_bytes
next_ip h pack_len =
    let blank : IpHeader = record h {
      ip_len = swap16 (u16 (ip_header_len + udp_header_len + pack_len));
      ip_id = swap16 (u16 (swap16 h.ip_id + 1));
      ip_sum = 0;
    } in
    record blank { ip_sum = check_sum (ip_bytes blank) }

-- The result, the packer and the buffer. The UDP checksum is computed over the pseudo-header and
-- `pack_len - 28` bytes behind the headers (none where that is negative), and then cleared.
pub generate_header : UdpPacker → List ℕ → ℕ → Option ℕ × UdpPacker × List ℕ
unfolding next_ip udp_bytes udp_checksum fake_bytes
generate_header u buff pack_len =
    let ulen : ℕ = swap16 (u16 (udp_header_len + pack_len)) in
    let iphdr : IpHeader = next_ip u.iphdr pack_len in
    let fake : FakeHeader = record u.fake { udp_len = ulen; len = ulen; sum = 0 } in
    let summed : UdpHeader = record u.udphdr {
      uh_ulen = ulen;
      uh_sum = udp_checksum (fake_bytes fake) (take (pack_len - udp_ip_len) (drop udp_ip_len buff));
    } in
    let udphdr : UdpHeader = record summed { uh_sum = 0 } in
    (
      some udp_ip_len,
      record { iphdr = iphdr; udphdr = udphdr; fake = fake },
      write_at ip_header_len (udp_bytes udphdr) (overwrite (ip_bytes iphdr) buff),
    )

-- The result, and what `info` receives if it is given.
pub udp_parser : List ℕ → ℕ → Option (ℕ × TransInfo)
udp_parser buff len =
    let iphdr_len : ℕ = get_or buff 0 0 % 2 ^ 4 * 4 in
    if ltb len (udp_header_len + ip_header_len)
    then none
    else if ltb 60 iphdr_len || ltb len (iphdr_len + udp_header_len)
    then none
    else some (
      iphdr_len + udp_header_len,
      record {
        src_ip = swap32 (load32 buff 12);
        dst_ip = swap32 (load32 buff 16);
        src_port = swap16 (load16 buff iphdr_len);
        dst_port = swap16 (load16 buff (iphdr_len + 2));
      },
    )
