-- ===== src/Sc/Sender.antt =====
-- `SC::Init` and `SC::Send`: what a sender puts in each header.
use codec_single_thread.Base.{
  true, ℕ, ◌+◌, ◌%◌, ◌^◌, ◌≤◌, ◌<◌, ◌≡◌, List, [], ◌∷◌, Option, some, arith, length, overwrite, ap,
  refl,
}
use codec_single_thread.Sc.{
  Transforward, forward_byte, ScHeader, Sc, sizeof_sc_header, get_sc_forward, get_sc_sn,
  next_header, store_header, sc_copy_to_net, init, send,
}
use codec_single_thread.Sc.Wire.{FitsHeader}

-- The header that is sent has the sequence number one further, modulo 2^24, and the payload's
-- length; direction, ueid and rev stay, and its fields fit if the last header's and the length do.
pub next_header_lem :
    (h : ScHeader) (n : ℕ)
    → n < 2 ^ 16
    → FitsHeader h
    → let h' = next_header h n in
      (get_sc_sn h' ≡ (get_sc_sn h + 1) % 2 ^ 24)
      × (get_sc_forward h' ≡ get_sc_forward h)
      × (h'.ueid ≡ h.ueid)
      × (h'.length ≡ n)
      × FitsHeader h'
unfolding next_header get_sc_forward
next_header_lem h n fits f = omega arith

pub init_lem :
    (sc : Sc) (ueid : ℕ) (forward : Transforward) (sn : ℕ)
    → ueid < 2 ^ 32
    → let (r, sc') = init sc ueid forward sn in
      (r ≡ some 0)
      × (get_sc_sn sc'.send_header ≡ sn % 2 ^ 24)
      × (get_sc_forward sc'.send_header ≡ forward_byte forward)
      × (sc'.send_header.ueid ≡ ueid)
      × FitsHeader sc'.send_header
unfolding init get_sc_sn get_sc_forward
init_lem sc ueid forward sn h = ground arith

pub init_fresh :
    (sc : Sc) (ueid : ℕ) (forward : Transforward) (sn : ℕ)
    → (init sc ueid forward sn).1.first_pack ≡ true
unfolding init
init_fresh sc ueid forward sn = refl

pub send_fields :
    (sc : Sc) (n : ℕ) (buff : List ℕ)
    → sizeof_sc_header ≤ length buff
    → send sc n buff (length buff) ≡ (
      some sizeof_sc_header,
      record sc { send_header = next_header sc.send_header n },
      overwrite (store_header (sc_copy_to_net (next_header sc.send_header n))) buff,
    )
unfolding send
send_fields sc n buff h = ground arith

-- The room that `Send` is told does not matter where the header fits.
pub send_room :
    (sc : Sc) (n room : ℕ) (buff : List ℕ)
    → sizeof_sc_header ≤ room
    → sizeof_sc_header ≤ length buff
    → send sc n buff room ≡ send sc n buff (length buff)
unfolding send
send_room sc n room buff h h' = ground arith

-- Every payload length fits the 16-bit field.
abbrev pub AllFit : List ℕ → Type 0
AllFit [] = Unit {0}
AllFit (n ∷ ns) = (n < 2 ^ 16) × AllFit ns

-- The state after a header has been built for each payload in turn, each into a buffer of its own.
pub send_all : Sc → List ℕ → List ℕ → Sc
send_all sc [] buff = sc
send_all sc (n ∷ ns) buff = send_all (send sc n buff (length buff)).1 ns buff

send_all-cons :
    (sc : Sc) (n : ℕ) (ns buff : List ℕ)
    → sizeof_sc_header ≤ length buff
    → send_all sc (n ∷ ns) buff
      ≡ send_all (record sc { send_header = next_header sc.send_header n }) ns buff
unfolding send_all
send_all-cons sc n ns buff room =
    ap (λ (r : Option ℕ × Sc × List ℕ). send_all r.1 ns buff) (send_fields sc n buff room)

-- Sending any number of packets moves the sequence number on by their number, modulo 2^24, and
-- keeps the direction and the ueid, if every buffer holds a header and every length fits 16 bits.
pub send_all-counts :
    (sc : Sc) (ns buff : List ℕ)
    → sizeof_sc_header ≤ length buff
    → AllFit ns
    → FitsHeader sc.send_header
    → let h' = (send_all sc ns buff).send_header in
      (get_sc_sn h' ≡ (get_sc_sn sc.send_header + length ns) % 2 ^ 24)
      × (get_sc_forward h' ≡ get_sc_forward sc.send_header)
      × (h'.ueid ≡ sc.send_header.ueid)
unfolding send_all get_sc_sn
send_all-counts sc [] buff room fits f = omega arith
send_all-counts sc (n ∷ ns) buff room fits f =
    let step = next_header_lem sc.send_header n fits.0 f in
    let next : Sc = record sc { send_header = next_header sc.send_header n } in
    rw (send_all-cons sc n ns buff room)
      (ground (arith, step, send_all-counts next ns buff room fits.1 step.4))
