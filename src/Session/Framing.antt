-- ===== src/Session/Framing.antt =====
-- What the framing loop keeps: no decoded byte is lost, doubled or moved.
use codec_single_thread.Session.Loop.{
  Loop, send_frame, drain, process_data, process_packet, process_packets,
}
use codec_single_thread.Base.{
  ℕ, zero, suc, ◌≤◌, ◌<◌, ◌≡◌, refl, sym, ap, ◌∙◌, List, [], ◌∷◌, ◌++◌, Option, length, take, drop,
  ◌*◌, length-append, All, arith, length-take, length-drop, inl, inr, Option-cases, ++-assoc,
  take-drop,
}

unfoldable pub joined : List (List ℕ) → List ℕ
joined [] = []
joined (f ∷ fs) = f ++ joined fs

++-nil : (xs : List ℕ) → xs ++ [] ≡ xs
++-nil [] = refl
++-nil (x ∷ xs) = ap (◌∷◌ x) (++-nil xs)

joined-snoc : (fs : List (List ℕ)) (f : List ℕ) → joined (fs ++ (f ∷ [])) ≡ joined fs ++ f
unfolding joined
joined-snoc [] f = ++-nil f
joined-snoc (g ∷ fs) f = ap (λ xs. g ++ xs) (joined-snoc fs f) ∙ sym (++-assoc g (joined fs) f)

pub length-joined :
    (size : ℕ) (fs : List (List ℕ))
    → All (λ f. length f ≡ size) fs
    → length (joined fs) ≡ length fs * size
unfolding joined
length-joined size [] h = omega arith
length-joined size (f ∷ fs) h =
    length-append f (joined fs) ∙ ground (arith, h.0, length-joined size fs h.1)

length-zero : (xs : List ℕ) → length xs ≡ 0 → xs ≡ []
length-zero [] h = refl
length-zero (x ∷ xs) h = absurd (omega arith)

All-snoc :
    (size : ℕ) (fs : List (List ℕ)) (f : List ℕ)
    → All (λ g. length g ≡ size) fs
    → length f ≡ size
    → All (λ g. length g ≡ size) (fs ++ (f ∷ []))
All-snoc size [] f all e = (e, tt)
All-snoc size (g ∷ fs) f all e = (all.0, All-snoc size fs f all.1 e)

module _ {S : Type 0} (recv send : S → List ℕ → Option (List ℕ) × S) where
  -- The frames given to `Send` are whole, and with what waits they are what was decoded, in order.
  pub record IsFramed (size : ℕ) (l : Loop S) : Type 0 where
    pub whole : All (λ f. length f ≡ size) l.frames
    pub kept : joined l.frames ++ l.frame_buff ≡ l.decoded

  send_frame-IsFramed :
      (size : ℕ) (l : Loop S) (frame rest : List ℕ)
      → length frame ≡ size
      → All (λ f. length f ≡ size) l.frames
      → l.frame_buff ≡ rest
      → joined l.frames ++ (frame ++ rest) ≡ l.decoded
      → IsFramed size (send_frame recv send l frame)
  unfolding send_frame
  send_frame-IsFramed size l frame rest e all b kept = record {
    whole = All-snoc size l.frames frame all e;
    kept =
        ap (λ xs. xs ++ l.frame_buff) (joined-snoc l.frames frame)
        ∙ ++-assoc (joined l.frames) frame l.frame_buff
        ∙ ap (λ xs. joined l.frames ++ (frame ++ xs)) b
        ∙ kept;
  }

  -- A round of the inner loop runs exactly where a frame is complete.
  pub drain_cases :
      (P : Loop S → Type 0) (fuel size : ℕ) (l : Loop S)
      → (size ≤ length l.frame_buff
          → P (
              drain recv send fuel size (
                send_frame recv send
                  (record l { frame_buff = drop size l.frame_buff })
                  (take size l.frame_buff))))
      → (length l.frame_buff < size → P l)
      → P (drain recv send (suc fuel) size l)
  unfolding drain
  drain_cases P fuel size l more done = ground arith

  drain-IsFramed :
      (fuel size : ℕ) (l : Loop S)
      → 0 < size
      → length l.frame_buff < fuel
      → IsFramed size l
      → IsFramed size (drain recv send fuel size l)
        × (length (drain recv send fuel size l).frame_buff < size)
  unfolding send_frame
  drain-IsFramed zero size l nonzero enough v = absurd (omega arith)
  drain-IsFramed (suc fuel) size l nonzero enough v =
      drain_cases (λ m. IsFramed size m × (length m.frame_buff < size)) fuel size l
        (λ le.
          drain-IsFramed fuel size
            (send_frame recv send (record l { frame_buff = drop size l.frame_buff })
              (take size l.frame_buff))
            nonzero (omega (arith, length-drop size l.frame_buff))
            (send_frame-IsFramed size (record l { frame_buff = drop size l.frame_buff })
              (take size l.frame_buff) (drop size l.frame_buff)
              (omega (arith, length-take size l.frame_buff)) v.whole refl
              (ap (λ xs. joined l.frames ++ xs) (take-drop size l.frame_buff) ∙ v.kept)))
        (λ lt. (v, lt))

  pub data_cases :
      (P : Loop S → Type 0) (size : ℕ) (l : Loop S) (data' : List ℕ)
      → (length data' ≡ size
          → length l.frame_buff ≡ 0
          → P (send_frame recv send (record l { decoded = l.decoded ++ data' }) data'))
      → P (
          drain recv send
            (suc (length (l.frame_buff ++ data')))
            size
            (record l { decoded = l.decoded ++ data'; frame_buff = l.frame_buff ++ data' }))
      → P (process_data recv send size l data')
  unfolding process_data
  data_cases P size l data' now later = ground arith

  data-IsFramed :
      (size : ℕ) (l : Loop S) (data' : List ℕ)
      → 0 < size
      → IsFramed size l
      → length l.frame_buff < size
      → IsFramed size (process_data recv send size l data')
        × (length (process_data recv send size l data').frame_buff < size)
  unfolding send_frame
  data-IsFramed size l data' nonzero v short =
      data_cases (λ m. IsFramed size m × (length m.frame_buff < size)) size l data'
        (λ e empty. (
          send_frame-IsFramed size (record l { decoded = l.decoded ++ data' }) data' [] e v.whole
              (length-zero l.frame_buff empty)
              (ap (λ xs. joined l.frames ++ xs) (++-nil data')
                ∙ ap (λ xs. xs ++ data')
                    (sym (++-nil (joined l.frames))
                      ∙ ap (λ xs. joined l.frames ++ xs) (sym (length-zero l.frame_buff empty))
                      ∙ v.kept)),
          short,
        ))
        (drain-IsFramed (suc (length (l.frame_buff ++ data'))) size
          (record l { decoded = l.decoded ++ data'; frame_buff = l.frame_buff ++ data' }) nonzero
          (omega arith)
          (record {
            whole = v.whole;
            kept =
                sym (++-assoc (joined l.frames) l.frame_buff data') ∙ ap (λ xs. xs ++ data') v.kept;
          }))

  -- One datagram, whatever `Recv` and `Send` do.
  packet-IsFramed :
      (size : ℕ) (l : Loop S) (packet : List ℕ)
      → 0 < size
      → IsFramed size l
      → length l.frame_buff < size
      → IsFramed size (process_packet recv send size l packet)
        × (length (process_packet recv send size l packet).frame_buff < size)
  unfolding process_packet
  packet-IsFramed size l [] nonzero v short = (v, short)
  packet-IsFramed size l (b ∷ packet) nonzero v short =
      let s = (recv l.session (b ∷ packet)).1 in
      let moved : IsFramed size (record l { session = s }) = record {
        whole = v.whole;
        kept = v.kept;
      } in
      elim (Option-cases (recv l.session (b ∷ packet)).0) [
        | inl e ↦ rw (e, process_packet) (moved, short)
        | inr (d, e) ↦
            rw (e, process_packet)
              (data-IsFramed size (record l { session = s }) d nonzero moved short)
      ]

  -- For any datagrams, and whatever `Recv` and `Send` do with them: every frame that `Send` is given
  -- has the size of a frame, the frames and what waits are all the decoded bytes in order, and less
  -- than a frame waits; if it was so at first and a frame is not empty.
  pub process_packets-IsFramed :
      (size : ℕ) (l : Loop S) (packets : List (List ℕ))
      → 0 < size
      → IsFramed size l
      → length l.frame_buff < size
      → IsFramed size (process_packets recv send size l packets)
        × (length (process_packets recv send size l packets).frame_buff < size)
  unfolding process_packets
  process_packets-IsFramed size l [] nonzero v short = (v, short)
  process_packets-IsFramed size l (p ∷ ps) nonzero v short =
      let next = packet-IsFramed size l p nonzero v short in
      process_packets-IsFramed size (process_packet recv send size l p) ps nonzero next.0 next.1
