-- ===== src/Session/Loop/Stable.antt =====
-- Invariants of the framing loop: what `Recv` and the sending of a frame keep, any datagrams keep.
use codec_single_thread.Session.Loop.{
  Loop, send_frame, drain, process_data, process_packet, process_packets,
}
use codec_single_thread.Session.Framing.{drain_cases, data_cases}
use codec_single_thread.Base.{
  ℕ, zero, suc, ◌≡◌, arith, List, [], ◌∷◌, ◌++◌, Option, length, take, drop, length-take,
  Option-cases, inl, inr,
}

module _ {S : Type 0} (recv send : S → List ℕ → Option (List ℕ) × S) (size : ℕ)
    (P : S → List (List ℕ) → List (List ℕ) → Type 0) where
  -- Of a session, the frames that `Send` was given, and the packets that were sent.
  abbrev pub Holds : Loop S → Type 0
  Holds l = P l.session l.frames l.sent

  pub record Stable : Type 0 where
    pub recv_stable :
        (s : S) (frames sent : List (List ℕ)) (packet : List ℕ)
        → P s frames sent
        → P (recv s packet).1 frames sent
    pub send_stable :
        (l : Loop S) (f : List ℕ) → length f ≡ size → Holds l → Holds (send_frame recv send l f)

  drain-Holds : (fuel : ℕ) (l : Loop S) → Stable → Holds l → Holds (drain recv send fuel size l)
  unfolding drain
  drain-Holds zero l k v = v
  drain-Holds (suc fuel) l k v =
      drain_cases recv send Holds fuel size l
        (λ le. drain-Holds fuel _ k (
          k.send_stable (record l { frame_buff = drop size l.frame_buff }) (take size l.frame_buff)
            (omega (arith, length-take size l.frame_buff)) v))
        (λ lt. v)

  data-Holds :
      (l : Loop S) (data' : List ℕ) → Stable → Holds l → Holds (process_data recv send size l data')
  data-Holds l data' k v =
      data_cases recv send Holds size l data'
        (λ e empty. k.send_stable (record l { decoded = l.decoded ++ data' }) data' e v)
        (drain-Holds _ _ k v)

  packet-Holds :
      (l : Loop S) (p : List ℕ) → Stable → Holds l → Holds (process_packet recv send size l p)
  unfolding process_packet
  packet-Holds l [] k v = v
  packet-Holds l (b ∷ p) k v =
      let s = (recv l.session (b ∷ p)).1 in
      let moved = k.recv_stable l.session l.frames l.sent (b ∷ p) v in
      elim (Option-cases (recv l.session (b ∷ p)).0) [
        | inl e ↦ rw (e, process_packet) moved
        | inr (d, e) ↦ rw (e, process_packet) (data-Holds (record l { session = s }) d k moved)
      ]

  -- Whatever datagrams come, the invariant holds afterwards if it did before.
  pub process_packets-Holds :
      (l : Loop S) (ps : List (List ℕ))
      → Stable
      → Holds l
      → Holds (process_packets recv send size l ps)
  unfolding process_packets
  process_packets-Holds l [] k v = v
  process_packets-Holds l (p ∷ ps) k v =
      process_packets-Holds (process_packet recv send size l p) ps k (packet-Holds l p k v)
