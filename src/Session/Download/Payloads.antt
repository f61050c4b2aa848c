-- ===== src/Session/Download/Payloads.antt =====
-- What stands behind the SC2 headers of the datagrams that a download session sends: the codes of the
-- frames, in their order.

use codec_single_thread.Session.{Coder}
use codec_single_thread.Session.Download.{DownloadSession, recv, strip_sc, decode}
use codec_single_thread.Session.Download.Relay.{
  Relay, Codes, IsReady, relay_recv, relay_send, relay_size, process_loop, recv-IsReady,
  send-IsReady, sent,
}
use codec_single_thread.Sc.{sc_copy_to_net, store_header, next_header}
use codec_single_thread.Sc.Wire.{length-store_header}
use codec_single_thread.Session.Loop.{Loop, send_frame}
use codec_single_thread.Session.Loop.Stable.{Stable, process_packets-Holds}
use codec_single_thread.Base.{
  ℕ, ◌≡◌, refl, sym, ap, ◌∙◌, arith, List, [], ◌∷◌, ◌++◌, some, length, map, take, drop, none,
  overwrite, Option, ◌≤◌, length-overwrite, length-drop, length-take, ◌+◌, overwrite-front,
  take-suffix, take-overwrite, drop-front,
}

module _ {S : Type 0} (step : S → List ℕ → S × List ℕ) where
  -- The codes of frames in turn, each made in the state that the last one has left, and the last state.
  pub left : S → List (List ℕ) → S
  left st [] = st
  left st (f ∷ fs) = left (step st f).0 fs

  unfoldable pub codes_of : S → List (List ℕ) → List (List ℕ)
  codes_of st [] = []
  codes_of st (f ∷ fs) = (step st f).1 ∷ codes_of (step st f).0 fs

  left-snoc :
      (st : S) (fs : List (List ℕ)) (f : List ℕ)
      → left st (fs ++ (f ∷ [])) ≡ (step (left st fs) f).0
  unfolding left
  left-snoc st [] f = refl
  left-snoc st (g ∷ fs) f = left-snoc (step st g).0 fs f

  codes_of-snoc :
      (st : S) (fs : List (List ℕ)) (f : List ℕ)
      → codes_of st (fs ++ (f ∷ [])) ≡ codes_of st fs ++ ((step (left st fs) f).1 ∷ [])
  unfolding left codes_of
  codes_of-snoc st [] f = refl
  codes_of-snoc st (g ∷ fs) f = ap (λ cs. (step st g).1 ∷ cs) (codes_of-snoc (step st g).0 fs f)

map-snoc :
    (g : List ℕ → List ℕ) (xs : List (List ℕ)) (x : List ℕ)
    → map g (xs ++ (x ∷ [])) ≡ map g xs ++ (g x ∷ [])
map-snoc g [] x = refl
map-snoc g (y ∷ xs) x = ap (λ l. g y ∷ l) (map-snoc g xs x)

-- The encoder writes the codes of `step`, of `m` bytes, into a buffer of the loop.
abbrev pub CodesAs :
    (encoder : Coder) → ℕ → (encoder.State → List ℕ → encoder.State × List ℕ) → Type 0
CodesAs encoder m step =
    (st : encoder.State) (input out : List ℕ)
    → length input ≡ 960
    → length out ≡ 65524
    → (encoder.codec st input out 65524
        ≡ (some m, (step st input).0, overwrite (step st input).1 out))
      × (length (step st input).1 ≡ m)

module _ (encoder decoder : Coder) (m : ℕ)
    (step : encoder.State → List ℕ → encoder.State × List ℕ) where
  pub CodesAs-Codes : m ≤ 65524 → CodesAs encoder m step → Codes encoder decoder m
  CodesAs-Codes small coding st input out e e' =
      let (run, size) = coding st input out e e' in
      let kept = length-overwrite (step st input).1 out in
      (
        (step st input).0,
        overwrite (step st input).1 out,
        run,
        omega (arith, kept, e', size, small),
        omega (arith, kept, e'),
      )

  decode-encoder :
      (output : List ℕ) (n : ℕ) (r : Option (List ℕ) × DownloadSession encoder decoder)
      → (decode encoder decoder output n r).1.encoder_state ≡ r.1.encoder_state
  unfolding decode
  decode-encoder output n (none, s) = refl
  decode-encoder output n (some input, s) = ground arith

  strip_sc-encoder :
      (s : DownloadSession encoder decoder) (input : List ℕ)
      → (strip_sc encoder decoder s input).1.encoder_state ≡ s.encoder_state
  unfolding strip_sc
  strip_sc-encoder s input = ground arith

  recv-encoder :
      (r : Relay encoder decoder) (p : List ℕ)
      → (relay_recv encoder decoder r p).1.session.encoder_state ≡ r.session.encoder_state
  unfolding relay_recv recv
  recv-encoder r p =
      decode-encoder r.codec_buff relay_size (strip_sc encoder decoder r.session p)
      ∙ strip_sc-encoder r.session p

  -- The packet of a frame: behind the header stands its code.
  relay_send-code :
      (r : Relay encoder decoder) (f : List ℕ)
      → CodesAs encoder m step
      → m ≤ 65524
      → length f ≡ 960
      → IsReady encoder decoder r
      → (p : List ℕ) × ((relay_send encoder decoder r f).0 ≡ some p)
        × (drop 12 p ≡ (step r.session.encoder_state f).1)
        × ((relay_send encoder decoder r f).1.session.encoder_state
            ≡ (step r.session.encoder_state f).0)
  unfolding relay_send
  relay_send-code r f coding small e v =
      let st = r.session.encoder_state in
      let b = r.send_buff in
      let code = (step st f).1 in
      let long : length (drop 12 b) ≡ 65524 = omega (arith, length-drop 12 b, v.1) in
      let (run, size) = coding st f (drop 12 b) e long in
      let coded = overwrite code (drop 12 b) in
      let whole = sent encoder decoder m r f coded (step st f).0 run (omega (arith, small)) e v in
      let hdr = store_header (sc_copy_to_net (next_header r.session.sc_send.send_header m)) in
      let e12 : length (take 12 b) ≡ 12 = omega (arith, length-take 12 b, v.1) in
      let eh : length hdr ≡ 12 = length-store_header _ in
      let cut : take (12 + m) (overwrite hdr (take 12 b ++ coded)) ≡ hdr ++ code =
        ap (take (12 + m)) (overwrite-front hdr (take 12 b) coded (e12 ∙ sym eh))
        ∙ ap (λ k. take k (hdr ++ coded)) {x = 12 + m} {y = length hdr + m} (omega (arith, eh))
        ∙ take-suffix m hdr coded
        ∙ ap (λ xs. hdr ++ xs)
            (ap (λ k. take k coded) (sym size)
              ∙ take-overwrite code (drop 12 b) (omega (arith, size, small, long))) in
      rw whole (
        take (12 + m) (overwrite hdr (take 12 b ++ coded)),
        ground arith,
        ap (drop 12) cut ∙ drop-front 12 hdr code eh,
        refl,
      )

  sent-send_frame :
      (l : Loop (Relay encoder decoder)) (f p : List ℕ)
      → (relay_send encoder decoder l.session f).0 ≡ some p
      → (send_frame (relay_recv encoder decoder) (relay_send encoder decoder) l f).sent
        ≡ l.sent ++ (p ∷ [])
  unfolding send_frame
  sent-send_frame l f p made = rw (send_frame, made) refl

  -- What the loop keeps: a session that is ready, the state of its encoder, and the codes.
  abbrev Coding : encoder.State → Relay encoder decoder → List (List ℕ) → List (List ℕ) → Type 0
  Coding st r frames sent =
      IsReady encoder decoder r
      × (r.session.encoder_state ≡ left step st frames)
      × (map (drop 12) sent ≡ codes_of step st frames)

  Coding-Stable :
      (st : encoder.State)
      → CodesAs encoder m step
      → m ≤ 65524
      → Stable (relay_recv encoder decoder) (relay_send encoder decoder) 960 (Coding st)
  unfolding send_frame
  Coding-Stable st coding small = record {
    recv_stable =
        λ r frames sent p v. (recv-IsReady encoder decoder r p v.0, recv-encoder r p ∙ v.1, v.2);
    send_stable = λ l f e v.
        let (p, made, code, state) = relay_send-code l.session f coding small e v.0 in
        let ready =
          send-IsReady encoder decoder m l.session f (CodesAs-Codes small coding)
            (omega (arith, small)) e v.0 in
        (
          ready,
          state ∙ ap (λ k. (step k f).0) v.1 ∙ sym (left-snoc step st l.frames f),
          ap (map (drop 12)) (sent-send_frame l f p made)
              ∙ (map-snoc (drop 12) l.sent p
                  ∙ ap (λ l. l ++ (drop 12 p ∷ [])) v.2
                  ∙ ap (λ c. codes_of step st l.frames ++ (c ∷ []))
                      (code ∙ ap (λ k. (step k f).1) v.1)
                  ∙ sym (codes_of-snoc step st l.frames f)),
        );
  }

  -- Whatever datagrams come, behind the headers of what the loop sends stand the codes of the frames
  -- that it has given to `Send`, in their order, from the state that the encoder has at first.
  pub process_loop-codes :
      (l : Loop (Relay encoder decoder)) (packets : List (List ℕ))
      → CodesAs encoder m step
      → m ≤ 65524
      → IsReady encoder decoder l.session
      → l.frames ≡ []
      → l.sent ≡ []
      → let l' = process_loop encoder decoder 480 l packets in
        map (drop 12) l'.sent ≡ codes_of step l.session.session.encoder_state l'.frames
  unfolding process_loop left codes_of
  process_loop-codes l packets coding small v no_frames none_sent =
      let st = l.session.session.encoder_state in
      let start : Coding st l.session l.frames l.sent = rw (no_frames, none_sent) (v, refl, refl) in
      (process_packets-Holds (relay_recv encoder decoder) (relay_send encoder decoder) 960
        (Coding st) l packets (Coding-Stable st coding small) start).2
