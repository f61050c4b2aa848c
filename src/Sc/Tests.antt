-- ===== src/Sc/Tests.antt =====
-- Runs of the SC2 model, and its theorems at concrete packets.
use codec_single_thread.Sc.{Sc, ScHeader, from_4g, zero_header, init, send, recv, get_sc_forward}
use codec_single_thread.Sc.Wire.{FitsHeader}
use codec_single_thread.Sc.Receiver.{recv-send, Follows}
use codec_single_thread.Base.{
  [], ◌∷◌, some, none, true, false, inr, refl, List, swap16, ◌≡◌, arith, length, ℕ, swap32,
  replicate,
}

abbrev uplink : ScHeader
uplink = record { ueid = 0x20; sn_forward = 0x0100_0007; length = 2; rev = 0 }

abbrev sender : Sc
sender = record { send_header = uplink; recv_header = zero_header; first_pack = true }

abbrev listening : Sc
listening = record { send_header = zero_header; recv_header = uplink; first_pack = false }

abbrev room : List ℕ
room = replicate 14 0xAA

-- The header of sequence number 8 in direction 1, for two bytes of payload.
abbrev packet : List ℕ
packet = 0 ∷ 0 ∷ 0 ∷ 0x20 ∷ 1 ∷ 0 ∷ 0 ∷ 8 ∷ 0 ∷ 2 ∷ 0 ∷ 0 ∷ 0xAA ∷ 0xAA ∷ []

send_bytes : (send sender 2 room 14).2 ≡ packet
unfolding send swap16 swap32
send_bytes = refl

send_short : (send sender 2 room 11).0 ≡ none
unfolding send
send_short = refl

recv_first : (recv sender packet 14 0).0 ≡ some 12
unfolding recv swap16 swap32
recv_first = refl

recv_stale : (recv listening packet 14 0).2 ≡ 7
unfolding recv swap16 swap32
recv_stale = refl

init_direction : get_sc_forward (init sender 0x20 from_4g 5).1.send_header ≡ 1
unfolding init get_sc_forward
init_direction = refl

uplink-Fits : FitsHeader uplink
uplink-Fits = omega arith

recv-send_example :
    let (sent, s', bytes) = send sender 2 room 14 in
    let (got, r', _) = recv listening bytes (length bytes) 0 in
    (sent ≡ some 12)
    × (got ≡ some 12)
    × (false ≡ true → r'.recv_header ≡ s'.send_header)
    × Follows r' s'
recv-send_example = recv-send sender listening 2 0 room uplink-Fits (omega arith) refl (inr refl)
