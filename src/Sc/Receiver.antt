-- ===== src/Sc/Receiver.antt =====
-- `SC::Recv`: which packets it accepts, what it reports, and what it keeps.
use mathlib.Core.Path.{subst}
use codec_single_thread.Base.{
  overwrite-front, replicate, length-append, inl, sym, ◌++◌, ℕ, ◌+◌, ◌≤◌, ◌<◌, ◌≡◌, refl, ap, ◌∙◌,
  ◌⊎◌, ◌↔◌, true, false, Bool-cases, inr, Option, List, none, some, arith, length, overwrite,
  length-overwrite, ◌^◌, ◌%◌,
}
use codec_single_thread.Sc.{
  ScHeader, Sc, sizeof_sc_header, get_sc_forward, get_sc_sn, next_header, load_header, store_header,
  sc_copy_to_net, sc_copy_from_net, send, recv,
}
use codec_single_thread.Sc.Wire.{FitsHeader, header_roundtrip}
use codec_single_thread.Sc.Sender.{next_header_lem, send_fields}

-- The header of a datagram, in host order.
abbrev pub header_of : List ℕ → ScHeader
header_of packet = sc_copy_from_net (load_header packet)

-- A datagram passes when it holds a header, the header's length is that of the rest, and it is the
-- first one or goes in the direction of the first.
abbrev pub Acceptable : Sc → List ℕ → Type 0
Acceptable sc packet =
    (sizeof_sc_header ≤ length packet)
    × (length packet ≡ sizeof_sc_header + (header_of packet).length)
    × ((sc.first_pack ≡ true) ⊎ (get_sc_forward (header_of packet) ≡ get_sc_forward sc.recv_header))

-- `Recv` returns the header's length exactly for the datagrams that pass.
pub recv_accepts :
    (sc : Sc) (packet : List ℕ) (sn : ℕ)
    → ((recv sc packet (length packet) sn).0 ≡ some sizeof_sc_header) ↔ Acceptable sc packet
unfolding recv
recv_accepts sc packet sn = ground arith

-- Whatever `Recv` refuses leaves the receiver as it was, and every refusal returns -1.
pub recv_refuses :
    (sc : Sc) (packet : List ℕ) (sn : ℕ)
    → ¬ Acceptable sc packet
    → ((recv sc packet (length packet) sn).0 ≡ none) × ((recv sc packet (length packet) sn).1 ≡ sc)
unfolding recv
recv_refuses sc packet sn bad = ground arith

-- Once the first datagram has been taken, `Recv` never changes the receiver, and the sequence
-- number that it reports for an accepted one is that of the first datagram, not its own.
pub recv_reports_first :
    (sc : Sc) (packet : List ℕ) (sn : ℕ)
    → sc.first_pack ≡ false
    → ((recv sc packet (length packet) sn).1 ≡ sc)
      × ((recv sc packet (length packet) sn).0 ≡ some sizeof_sc_header
          → (recv sc packet (length packet) sn).2 ≡ get_sc_sn sc.recv_header)
unfolding recv
recv_reports_first sc packet sn old = ground arith

-- Of the first datagram `Recv` reports 0.
pub recv_first_number :
    (sc : Sc) (packet : List ℕ) (sn : ℕ)
    → sc.first_pack ≡ true
    → Acceptable sc packet
    → (recv sc packet (length packet) sn).2 ≡ 0
unfolding recv
recv_first_number sc packet sn first ok = ground arith

pub recv_takes_first :
    (sc : Sc) (packet : List ℕ) (sn : ℕ)
    → sc.first_pack ≡ true
    → Acceptable sc packet
    → (recv sc packet (length packet) sn).1
      ≡ record sc { first_pack = false; recv_header = header_of packet }
unfolding recv
recv_takes_first sc packet sn first ok = ground arith

-- The receiver has seen nothing, or the sender's direction.
abbrev pub Follows : Sc → Sc → Type 0
Follows r s = (r.first_pack ≡ true) ⊎ (get_sc_forward s.send_header ≡ get_sc_forward r.recv_header)

-- What `Send` writes for a payload that fills the rest of the datagram is accepted by a receiver
-- that has seen nothing, or the same direction; a fresh receiver then holds the sent header, and the
-- receiver accepts the sender's next one as well.
pub recv-send :
    (s r : Sc) (n sn : ℕ) (buff : List ℕ)
    → FitsHeader s.send_header
    → n < 2 ^ 16
    → length buff ≡ sizeof_sc_header + n
    → Follows r s
    → let (sent, s', packet) = send s n buff (length buff) in
      let (got, r', _) = recv r packet (length packet) sn in
      (sent ≡ some sizeof_sc_header)
      × (got ≡ some sizeof_sc_header)
      × (r.first_pack ≡ true → r'.recv_header ≡ s'.send_header)
      × Follows r' s'
recv-send s r n sn buff f small room dir = rw (send_fields s n buff (omega arith)) (
  refl,
  (recv_accepts r packet sn).1 passes,
  held,
  elim (Bool-cases r.first_pack) [
    | inl first ↦ inr (ap get_sc_forward (sym (held first)))
    | inr old ↦
        subst (λ (c : Sc). Follows c (record s { send_header = h }))
          (sym (recv_reports_first r packet sn old).0) (later dir)
  ],
)
  where
    h : ScHeader
    h = next_header s.send_header n

    packet : List ℕ
    packet = overwrite (store_header (sc_copy_to_net h)) buff

    step :
        (get_sc_sn h ≡ (get_sc_sn s.send_header + 1) % 2 ^ 24)
        × (get_sc_forward h ≡ get_sc_forward s.send_header)
        × (h.ueid ≡ s.send_header.ueid)
        × (h.length ≡ n)
        × FitsHeader h
    step = next_header_lem s.send_header n small f

    same : header_of packet ≡ h
    same = header_roundtrip h buff step.4 (omega arith)

    size : length packet ≡ length buff
    size = length-overwrite (store_header (sc_copy_to_net h)) buff

    passes : Acceptable r packet
    passes = (omega (arith, size), rw same (omega (arith, size, step.3)), rw same (rw step.1 dir))

    held : r.first_pack ≡ true → (recv r packet (length packet) sn).1.recv_header ≡ h
    held first = ap (λ (c : Sc). c.recv_header) (recv_takes_first r packet sn first passes) ∙ same

    later : Follows r s → Follows r (record s { send_header = h })
    later (inl first) = inl first
    later (inr e) = inr (step.1 ∙ e)

-- A header with the payload's length in front of the payload.
pub recv-front :
    (s r : Sc) (n : ℕ) (xs : List ℕ)
    → FitsHeader s.send_header
    → n < 2 ^ 16
    → length xs ≡ n
    → Follows r s
    → let s' : Sc = record s { send_header = next_header s.send_header n } in
      let packet = store_header (sc_copy_to_net s'.send_header) ++ xs in
      let (got, r', _) = recv r packet (length packet) 0 in
      (got ≡ some sizeof_sc_header) × Follows r' s'
unfolding store_header
recv-front s r n xs f small e dir =
    let front : List ℕ = replicate 12 0 in
    let s' : Sc = record s { send_header = next_header s.send_header n } in
    let hdr : List ℕ = store_header (sc_copy_to_net s'.send_header) in
    let buff : List ℕ = front ++ xs in
    let long : length buff ≡ 12 + n = omega (arith, length-append front xs) in
    let run = recv-send s r n 0 buff f small long dir in
    let sent =
      send_fields s n buff (omega arith)
      ∙ ap (λ k. (some 12, s', k)) (overwrite-front hdr front xs refl) in
    subst
      (λ (t : Option ℕ × Sc × List ℕ).
        let (got, r', _) = recv r t.2 (length t.2) 0 in
        (got ≡ some sizeof_sc_header) × Follows r' t.1)
      sent (run.1, run.3)
