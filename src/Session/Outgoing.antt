-- ===== src/Session/Outgoing.antt =====
-- What the framing loop of a session passes to the socket.
use codec_single_thread.Session.Loop.Stable.{Stable, process_packets-Holds}
use codec_single_thread.Session.Loop.{Loop, send_frame, process_packets}
use codec_single_thread.Base.{
  ℕ, ◌≡◌, arith, List, [], ◌∷◌, ◌++◌, Option, some, none, ◌≢◌, length-append, length, All,
  Option-cases, inl, inr,
}

All-end :
    (Good : List ℕ → Type 0) (ps : List (List ℕ)) (p : List ℕ)
    → All Good ps
    → Good p
    → All Good (ps ++ (p ∷ []))
All-end Good [] p all good = (good, tt)
All-end Good (q ∷ ps) p all good = (all.0, All-end Good ps p all.1 good)

module _ {S : Type 0} (recv send : S → List ℕ → Option (List ℕ) × S) (size : ℕ) (Inv : S → Type 0)
    (Good : List ℕ → Type 0) where
  -- `Recv` and `Send` keep what `Inv` says of a session, and `Send` makes a good packet of each frame.
  pub record Keeps : Type 0 where
    pub recv_keeps : (s : S) (p : List ℕ) → Inv s → Inv (recv s p).1
    pub send_keeps : (s : S) (f : List ℕ) → length f ≡ size → Inv s → Inv (send s f).1
    pub send_good :
        (s : S) (f p : List ℕ) → length f ≡ size → Inv s → (send s f).0 ≡ some p → Good p
    pub send_makes : (s : S) (f : List ℕ) → length f ≡ size → Inv s → (send s f).0 ≢ none

  pub record IsSending (l : Loop S) : Type 0 where
    pub inv : Inv l.session
    pub good : All Good l.sent
    pub count : length l.sent ≡ length l.frames

  -- `IsSending` by the members that it speaks of.
  abbrev Sending : S → List (List ℕ) → List (List ℕ) → Type 0
  Sending s frames sent = Inv s × All Good sent × (length sent ≡ length frames)

  Keeps-Stable : Keeps → Stable recv send size Sending
  unfolding send_frame
  Keeps-Stable k = record {
    recv_stable = λ s frames sent packet v. (k.recv_keeps s packet v.0, v.1, v.2);
    send_stable = λ l f e v. elim (Option-cases (send l.session f).0) [
      | inl n ↦ absurd (k.send_makes l.session f e v.0 n)
      | inr (p, m) ↦
          let good = All-end Good l.sent p v.1 (k.send_good l.session f p e v.0 m) in
          (
            k.send_keeps l.session f e v.0,
            rw m good,
            rw m (
                omega (arith, v.2, length-append l.sent (p ∷ []), length-append l.frames (f ∷ []))),
          )
    ];
  }

  -- Whatever datagrams come, only good packets are sent, one for each frame.
  pub process_packets-IsSending :
      (l : Loop S) (ps : List (List ℕ))
      → Keeps
      → IsSending l
      → IsSending (process_packets recv send size l ps)
  process_packets-IsSending l ps k v =
      let kept =
        process_packets-Holds recv send size Sending l ps (Keeps-Stable k)
          (v.inv, v.good, v.count) in
      record { inv = kept.0; good = kept.1; count = kept.2 }
