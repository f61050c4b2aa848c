-- ===== src/UdpPacker/Checksum.antt =====
-- `CheckSum` and the IP headers that `GenerateHeader` writes.
pub mod OnesSum
use codec_single_thread.UdpPacker.{
  IpHeader, ip_bytes, words_sum, fold_carries, complement16, check_sum, next_ip, ip_header_len,
  udp_header_len, ℕ,
}
use codec_single_thread.Base.{
  ℕ, ◌<◌, ◌≡◌, arith, ◌^◌, ◌+◌, ◌-◌, swap16, ◌%◌, swap16_twice, ◌∙◌, refl, u16,
}

-- The carries of a sum below 2^31, which an `int` holds, are all folded in: a buffer whose sum has
-- the complement added to it has the checksum 0.
pub fold_carries_valid :
    (sum : ℕ)
    → sum < 2 ^ 31
    → complement16 (fold_carries (sum + complement16 (fold_carries sum))) ≡ 0
unfolding fold_carries
fold_carries_valid sum h = omega arith

-- The members that are written as they are fit their fields.
pub record FitsIp (h : IpHeader) : Type 0 where
  pub hl_fits : h.ip_hl < 2 ^ 4
  pub v_fits : h.ip_v < 2 ^ 4
  pub tos_fits : h.ip_tos < 2 ^ 8
  pub ttl_fits : h.ip_ttl < 2 ^ 8
  pub p_fits : h.ip_p < 2 ^ 8

words_sum-ip_sum :
    (h : IpHeader) (c : ℕ)
    → c < 2 ^ 16
    → h.ip_sum ≡ 0
    → words_sum (ip_bytes (record h { ip_sum = c })) ≡ words_sum (ip_bytes h) + c
unfolding words_sum ip_bytes
words_sum-ip_sum h c fits zero_sum = omega arith

words_sum-lt : (h : IpHeader) → FitsIp h → words_sum (ip_bytes h) < 2 ^ 31
unfolding words_sum ip_bytes
words_sum-lt h f = omega arith

-- A header with the checksum of its blank form verifies.
check_sum_verifies :
    (blank : IpHeader)
    → FitsIp blank
    → blank.ip_sum ≡ 0
    → check_sum (ip_bytes (record blank { ip_sum = check_sum (ip_bytes blank) })) ≡ 0
unfolding check_sum
check_sum_verifies blank f e =
    let sum : ℕ = words_sum (ip_bytes blank) in
    let c : ℕ = complement16 (fold_carries sum) in
    rw (words_sum-ip_sum blank c (omega arith) e) (fold_carries_valid sum (words_sum-lt blank f))

-- Every IP header that `GenerateHeader` makes verifies: the checksum over its bytes is 0. Its
-- identification is one further modulo 2^16, and its length is that of headers and payload.
pub next_ip_lem :
    (h : IpHeader) (pack_len : ℕ)
    → FitsIp h
    → pack_len < 2 ^ 16 - 28
    → let h' = next_ip h pack_len in
      (check_sum (ip_bytes h') ≡ 0)
      × (swap16 h'.ip_id ≡ (swap16 h.ip_id + 1) % 2 ^ 16)
      × (swap16 h'.ip_len ≡ ip_header_len + udp_header_len + pack_len)
      × FitsIp h'
unfolding next_ip
next_ip_lem h pack_len f small =
    let blank : IpHeader = record h {
      ip_len = swap16 (u16 (ip_header_len + udp_header_len + pack_len));
      ip_id = swap16 (u16 (swap16 h.ip_id + 1));
      ip_sum = 0;
    } in
    let fits : FitsIp blank = record {
      hl_fits = f.hl_fits;
      v_fits = f.v_fits;
      tos_fits = f.tos_fits;
      ttl_fits = f.ttl_fits;
      p_fits = f.p_fits;
    } in
    (
      check_sum_verifies blank fits refl,
      swap16_twice (u16 (swap16 h.ip_id + 1)) (omega arith),
      swap16_twice (u16 (ip_header_len + udp_header_len + pack_len)) (omega arith) ∙ omega arith,
      record {
        hl_fits = f.hl_fits;
        v_fits = f.v_fits;
        tos_fits = f.tos_fits;
        ttl_fits = f.ttl_fits;
        p_fits = f.p_fits;
      },
    )
