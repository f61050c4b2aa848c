-- ===== src/UdpPacker/Parse.antt =====
-- `UdpParser`: bounds, and what it reads from a packet that `GenerateHeader` has made.
use codec_single_thread.UdpPacker.{
  UdpPacker, TransInfo, udp_parser, udp_ip_len, udp_header_len, set_ip_port, generate_header,
  next_ip, ip_bytes, IpHeader, udp_bytes, UdpHeader, check_sum, ip_header_len,
}
use codec_single_thread.UdpPacker.Checksum.{FitsIp, next_ip_lem}
use codec_single_thread.Base.{
  some, none, List, ◌≡◌, ℕ, ◌<◌, ◌≤◌, ◌↔◌, ◌^◌, arith, ◌⊎◌, get_or, ◌%◌, ◌*◌, ◌+◌, refl, Option,
  length, swap16, ◌++◌, swap16-lt, drop, swap32, overwrite-append, ◌∙◌, overwrite-eq, load32,
  word32_lem, ◌-◌, load16, word16_lem, take, u16, ap, length-append, replicate, sym,
  length-replicate, drop-append,
}

-- The header length that is returned covers a UDP header and stays inside the packet; it is at most
-- 68, so the source's test for more than 60 bytes of IP header never fails.
pub udp_parser_bounds :
    (buff : List ℕ) (len n : ℕ) (info : TransInfo)
    → udp_parser buff len ≡ some (n, info)
    → (udp_header_len ≤ n) × (n ≤ len) × (n ≤ 68)
unfolding udp_parser
udp_parser_bounds buff len n info h = ground arith

-- A packet is refused exactly if it is shorter than 28 bytes or than the headers that its first
-- byte announces, also where these are fewer than 20 bytes of IP header.
pub udp_parser_refuses :
    (buff : List ℕ) (len : ℕ)
    → (udp_parser buff len ≡ none)
      ↔ ((len < udp_ip_len) ⊎ (len < get_or buff 0 0 % 16 * 4 + udp_header_len))
unfolding udp_parser
udp_parser_refuses buff len = ground arith

-- A packer after `SetIpPort`.
pub record IsReady (u : UdpPacker) : Type 0 where
  pub plain : u.iphdr.ip_hl ≡ 5
  pub fits : FitsIp u.iphdr
  pub src_fits : u.iphdr.ip_src < 2 ^ 32
  pub dst_fits : u.iphdr.ip_dst < 2 ^ 32
  pub sport_fits : u.udphdr.uh_sport < 2 ^ 16
  pub dport_fits : u.udphdr.uh_dport < 2 ^ 16

-- `SetIpPort` succeeds exactly if both addresses parse, and then the packer is ready, with the
-- addresses as they were stored and the ports in network order.
pub set_ip_port_lem :
    {Text : Type 0} (inet_pton : Text → Option ℕ) (u : UdpPacker) (src_ip dst_ip : Text)
    (src_port dst_port src dst : ℕ)
    → inet_pton src_ip ≡ some src
    → inet_pton dst_ip ≡ some dst
    → src < 2 ^ 32
    → dst < 2 ^ 32
    → let (r, u') = set_ip_port inet_pton u src_ip src_port dst_ip dst_port in
      (r ≡ some 0)
      × IsReady u'
      × (u'.iphdr.ip_src ≡ src)
      × (u'.iphdr.ip_dst ≡ dst)
      × (u'.udphdr.uh_sport ≡ swap16 src_port)
      × (u'.udphdr.uh_dport ≡ swap16 dst_port)
unfolding set_ip_port
set_ip_port_lem inet_pton u src_ip dst_ip src_port dst_port src dst e e' fits fits' =
    ground (arith, swap16-lt src_port, swap16-lt dst_port)

-- The packer that `GenerateHeader` leaves, and the headers, one behind the other, in front of what
-- the buffer holds.
abbrev pub sent : UdpPacker → ℕ → UdpPacker
sent u pack_len =
    let ulen : ℕ = swap16 (u16 (udp_header_len + pack_len)) in
    record {
      iphdr = next_ip u.iphdr pack_len;
      udphdr = record u.udphdr { uh_ulen = ulen; uh_sum = 0 };
      fake = record u.fake { udp_len = ulen; len = ulen; sum = 0 };
    }

-- A packer is as ready for the next packet.
pub sent-IsReady :
    (u : UdpPacker) (pack_len : ℕ) → pack_len < 2 ^ 16 - 28 → IsReady u → IsReady (sent u pack_len)
unfolding next_ip
sent-IsReady u pack_len small v = record {
  plain = v.plain;
  fits = (next_ip_lem u.iphdr pack_len v.fits small).3;
  src_fits = v.src_fits;
  dst_fits = v.dst_fits;
  sport_fits = v.sport_fits;
  dport_fits = v.dport_fits;
}

generate_header-run :
    (u : UdpPacker) (buff : List ℕ) (pack_len : ℕ)
    → udp_ip_len ≤ length buff
    → generate_header u buff pack_len ≡ (
      some udp_ip_len,
      sent u pack_len,
      (ip_bytes (sent u pack_len).iphdr ++ udp_bytes (sent u pack_len).udphdr)
          ++ drop udp_ip_len buff,
    )
unfolding generate_header ip_bytes
generate_header-run u buff pack_len room =
    let u' : UdpPacker = sent u pack_len in
    ap (λ (bytes : List ℕ). (some udp_ip_len, u', bytes))
      (overwrite-append (ip_bytes u'.iphdr) (udp_bytes u'.udphdr) buff
        ∙ overwrite-eq (ip_bytes u'.iphdr ++ udp_bytes u'.udphdr) buff room)

next_ip-kept :
    (h : IpHeader) (pack_len : ℕ)
    → ((next_ip h pack_len).ip_hl ≡ h.ip_hl)
      × ((next_ip h pack_len).ip_src ≡ h.ip_src)
      × ((next_ip h pack_len).ip_dst ≡ h.ip_dst)
unfolding next_ip
next_ip-kept h pack_len = (refl, refl, refl)

-- An IP header of 20 bytes puts the ports at 20 and 22.
parse_at_20 :
    (buff : List ℕ) (len : ℕ)
    → get_or buff 0 0 % 2 ^ 4 * 4 ≡ 20
    → udp_ip_len ≤ len
    → udp_parser buff len
      ≡ some (
        udp_ip_len,
        record {
          src_ip = swap32 (load32 buff 12);
          dst_ip = swap32 (load32 buff 16);
          src_port = swap16 (load16 buff 20);
          dst_port = swap16 (load16 buff 22);
        },
      )
unfolding udp_parser
parse_at_20 buff len e room = rw e (ground arith)

-- What the parser reads from two headers.
parse_headers :
    (h : IpHeader) (d : UdpHeader) (rest : List ℕ) (len : ℕ)
    → h.ip_hl ≡ 5
    → FitsIp h
    → h.ip_src < 2 ^ 32
    → h.ip_dst < 2 ^ 32
    → d.uh_sport < 2 ^ 16
    → d.uh_dport < 2 ^ 16
    → udp_ip_len ≤ len
    → udp_parser ((ip_bytes h ++ udp_bytes d) ++ rest) len
      ≡ some (
        udp_ip_len,
        record {
          src_ip = swap32 h.ip_src;
          dst_ip = swap32 h.ip_dst;
          src_port = swap16 d.uh_sport;
          dst_port = swap16 d.uh_dport;
        },
      )
unfolding ip_bytes udp_bytes
parse_headers h d rest len hl f sf df sp dp room =
    parse_at_20 ((ip_bytes h ++ udp_bytes d) ++ rest) len (omega (arith, f)) room ∙ (λ i. some (
      udp_ip_len,
      record {
        src_ip = swap32 (word32_lem h.ip_src sf i);
        dst_ip = swap32 (word32_lem h.ip_dst df i);
        src_port = swap16 (word16_lem d.uh_sport sp i);
        dst_port = swap16 (word16_lem d.uh_dport dp i);
      },
    ))

headers_split :
    (h : IpHeader) (d : UdpHeader) (rest : List ℕ)
    → (take ip_header_len ((ip_bytes h ++ udp_bytes d) ++ rest) ≡ ip_bytes h)
      × (drop udp_ip_len ((ip_bytes h ++ udp_bytes d) ++ rest) ≡ rest)
unfolding ip_bytes udp_bytes
headers_split h d rest = (refl, refl)

-- A ready packer puts headers in front of a payload that the parser reads back: their length, the
-- addresses and the ports in host order. The IP header verifies, the payload's bytes stay, and the
-- packer is ready again.
pub parse-generate :
    (u : UdpPacker) (buff : List ℕ) (pack_len len : ℕ)
    → IsReady u
    → pack_len < 2 ^ 16 - 28
    → udp_ip_len ≤ length buff
    → udp_ip_len ≤ len
    → let (r, u', buff') = generate_header u buff pack_len in
      (r ≡ some udp_ip_len)
      × (udp_parser buff' len
          ≡ some (
            udp_ip_len,
            record {
              src_ip = swap32 u.iphdr.ip_src;
              dst_ip = swap32 u.iphdr.ip_dst;
              src_port = swap16 u.udphdr.uh_sport;
              dst_port = swap16 u.udphdr.uh_dport;
            },
          ))
      × (check_sum (take ip_header_len buff') ≡ 0)
      × (drop udp_ip_len buff' ≡ drop udp_ip_len buff)
      × IsReady u'
parse-generate u buff pack_len len v small room room' =
    let h = next_ip_lem u.iphdr pack_len v.fits small in
    let kept = next_ip-kept u.iphdr pack_len in
    let u' : UdpPacker = sent u pack_len in
    let rest : List ℕ = drop udp_ip_len buff in
    let ready : IsReady u' = record {
      plain = omega (arith, kept, v);
      fits = h.3;
      src_fits = omega (arith, kept, v);
      dst_fits = omega (arith, kept, v);
      sport_fits = v.sport_fits;
      dport_fits = v.dport_fits;
    } in
    rw (generate_header-run u buff pack_len room) (
      refl,
      parse_headers u'.iphdr u'.udphdr rest len ready.plain h.3 ready.src_fits ready.dst_fits
            v.sport_fits v.dport_fits room'
          ∙ (λ i. some (
            udp_ip_len,
            record {
              src_ip = swap32 (kept.1 i);
              dst_ip = swap32 (kept.2 i);
              src_port = swap16 u.udphdr.uh_sport;
              dst_port = swap16 u.udphdr.uh_dport;
            },
          )),
      ap check_sum (headers_split u'.iphdr u'.udphdr rest).0 ∙ h.0,
      (headers_split u'.iphdr u'.udphdr rest).1,
      ready,
    )

-- The headers that a packer puts in front of the payload.
abbrev pub udp_headers : UdpPacker → ℕ → List ℕ
udp_headers u pack_len = ip_bytes (sent u pack_len).iphdr ++ udp_bytes (sent u pack_len).udphdr

pub length-udp_headers :
    (u : UdpPacker) (pack_len : ℕ) → length (udp_headers u pack_len) ≡ udp_ip_len
unfolding ip_bytes udp_bytes
length-udp_headers u pack_len = refl

pub generate_header_front :
    (u : UdpPacker) (front xs : List ℕ) (pack_len : ℕ)
    → length front ≡ udp_ip_len
    → generate_header u (front ++ xs) pack_len
      ≡ (some udp_ip_len, sent u pack_len, udp_headers u pack_len ++ xs)
generate_header_front u front xs pack_len e =
    generate_header-run u (front ++ xs) pack_len (omega (arith, length-append front xs))
    ∙ ap (λ k. (some udp_ip_len, sent u pack_len, udp_headers u pack_len ++ k))
        (ap (λ k. drop k (front ++ xs)) (sym e) ∙ drop-append front xs)

pub parse_front :
    (u : UdpPacker) (xs : List ℕ) (pack_len len : ℕ)
    → IsReady u
    → pack_len < 2 ^ 16 - 28
    → udp_ip_len ≤ len
    → (info : TransInfo) × (udp_parser (udp_headers u pack_len ++ xs) len ≡ some (udp_ip_len, info))
parse_front u xs pack_len len v small room =
    let front : List ℕ = replicate udp_ip_len 0 in
    let parsed =
      parse-generate u (front ++ xs) pack_len len v small
        (omega (arith, length-append front xs, length-replicate {A = ℕ} udp_ip_len 0)) room in
    (
      _,
      sym (ap (λ t. udp_parser t.2 len) (generate_header_front u front xs pack_len refl))
          ∙ parsed.1,
    )
