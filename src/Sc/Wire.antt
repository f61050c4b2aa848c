-- ===== src/Sc/Wire.antt =====
-- The SC2 header on the wire: what `ScCopyToNet` writes, `ScCopyFromNet` reads back.
use codec_single_thread.Base.{
  ℕ, ◌%◌, ◌^◌, ◌≤◌, ◌<◌, ◌≡◌, refl, ap, List, ◌++◌, arith, length, drop, overwrite, overwrite-eq,
  swap32_twice, swap16_twice, swap32-lt, swap16-lt, ◌∙◌,
}
use codec_single_thread.Sc.{
  ScHeader, sc_copy_to_net, sc_copy_from_net, store_header, load_header, sizeof_sc_header,
  get_sc_forward, set_sc_forward, get_sc_sn, set_sc_sn,
}

-- Every field fits its C type.
pub record FitsHeader (h : ScHeader) : Type 0 where
  pub ueid_fits : h.ueid < 2 ^ 32
  pub sn_fits : h.sn_forward < 2 ^ 32
  pub length_fits : h.length < 2 ^ 16
  pub rev_fits : h.rev < 2 ^ 16

pub length-store_header : (h : ScHeader) → length (store_header h) ≡ sizeof_sc_header
unfolding store_header
length-store_header h = refl

load_header-store_header :
    (h : ScHeader) (rest : List ℕ) → FitsHeader h → load_header (store_header h ++ rest) ≡ h
unfolding load_header store_header
load_header-store_header h rest f = ground arith

sc_copy_to_net-Fits : (h : ScHeader) → FitsHeader (sc_copy_to_net h)
unfolding sc_copy_to_net
sc_copy_to_net-Fits h = record {
  ueid_fits = swap32-lt h.ueid;
  sn_fits = swap32-lt h.sn_forward;
  length_fits = swap16-lt h.length;
  rev_fits = swap16-lt h.rev;
}

sc_copy_from_net-to_net : (h : ScHeader) → FitsHeader h → sc_copy_from_net (sc_copy_to_net h) ≡ h
unfolding sc_copy_from_net sc_copy_to_net
sc_copy_from_net-to_net h f = λ i. record {
  ueid = swap32_twice h.ueid f.ueid_fits i;
  sn_forward = swap32_twice h.sn_forward f.sn_fits i;
  length = swap16_twice h.length f.length_fits i;
  rev = swap16_twice h.rev f.rev_fits i;
}

-- A header whose fields fit, written into a buffer of at least twelve bytes in network order, is
-- read back unchanged from that buffer.
pub header_roundtrip :
    (h : ScHeader) (buff : List ℕ)
    → FitsHeader h
    → sizeof_sc_header ≤ length buff
    → sc_copy_from_net (load_header (overwrite (store_header (sc_copy_to_net h)) buff)) ≡ h
header_roundtrip h buff f fits =
    ap (λ b. sc_copy_from_net (load_header b)) (overwrite-eq bytes buff fits')
    ∙ ap sc_copy_from_net
        (load_header-store_header net (drop (length bytes) buff) (sc_copy_to_net-Fits h))
    ∙ sc_copy_from_net-to_net h f
  where
    net : ScHeader
    net = sc_copy_to_net h

    bytes : List ℕ
    bytes = store_header net

    fits' : length bytes ≤ length buff
    fits' = omega (arith, length-store_header net)

-- The two fields of `sn_forward` are set and read independently: each setter is read back through
-- its own getter, cut to the field's width, and leaves the other field.
pub sn_forward_fields :
    (h : ScHeader) (sn forward : ℕ)
    → (get_sc_sn (set_sc_sn h sn) ≡ sn % 2 ^ 24)
      × (get_sc_forward (set_sc_sn h sn) ≡ get_sc_forward h)
      × (get_sc_forward (set_sc_forward h forward) ≡ forward % 2 ^ 8)
      × (get_sc_sn (set_sc_forward h forward) ≡ get_sc_sn h)
unfolding get_sc_sn set_sc_sn get_sc_forward set_sc_forward
sn_forward_fields h sn forward = omega arith
