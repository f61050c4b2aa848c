-- ===== src/Session/Download/Relay.antt =====
-- `DownloadSession::ProcessLoop` over `Recv` and `Send` of the session.
use mathlib.Core.Path.{subst}
use codec_single_thread.Sc
use codec_single_thread.Sc.{Sc, next_header, store_header, sc_copy_to_net}
use codec_single_thread.Sc.Wire.{FitsHeader}
use codec_single_thread.Sc.Sender.{next_header_lem}
use codec_single_thread.Session.{Coder}
use codec_single_thread.Session.Download.{DownloadSession, recv, send, strip_sc, decode}
use codec_single_thread.Session.Download.Framed.{send-run, send-recv}
use codec_single_thread.Session.Loop.{Loop, process_packets}
use codec_single_thread.Session.Outgoing.{Keeps, process_packets-IsSending}
use codec_single_thread.Base.{
  ℕ, ◌+◌, ◌-◌, ◌≤◌, ◌<◌, ◌≡◌, refl, sym, ap, ◌∙◌, arith, List, ◌++◌, Option, none, some, ◌≢◌,
  length, take, drop, overwrite, ◌>>=◌, ◌==◌, if◌then◌else◌, true, length-take, length-drop,
  length-append, length-overwrite, All, ◌^◌,
}

abbrev pub relay_size : ℕ
relay_size = 65536

module _ (encoder decoder : Coder) where
  -- The session, `codec_buff` and `send_buff`.
  pub record Relay : Type 0 where
    pub session : DownloadSession encoder decoder
    pub codec_buff : List ℕ
    pub send_buff : List ℕ

  -- `Recv` as the loop calls it, with the bytes that it has decoded.
  unfoldable pub relay_recv : Relay → List ℕ → Option (List ℕ) × Relay
  relay_recv r packet =
      let (n, s, codec_buff) = recv encoder decoder r.session packet r.codec_buff relay_size in
      (n >>= λ k. some (take k codec_buff), record r { session = s; codec_buff = codec_buff })

  -- `Send` of a frame, which stands at the front of `codec_buff`, with the packet that is passed to the
  -- socket.
  unfoldable pub relay_send : Relay → List ℕ → Option (List ℕ) × Relay
  relay_send r frame =
      let (n, s, send_buff) = send encoder decoder r.session frame r.send_buff relay_size in
      (
        n >>= λ k. if k == 0 then none else some (take k send_buff),
        record { session = s; codec_buff = overwrite frame r.codec_buff; send_buff = send_buff },
      )

  -- The loop, for frames of `send_frame` samples.
  unfoldable pub process_loop : ℕ → Loop Relay → List (List ℕ) → Loop Relay
  process_loop send_frame l packets =
      process_packets relay_recv relay_send (send_frame + send_frame) l packets

  -- The encoder codes 960 bytes as `m`, in a buffer of the loop.
  abbrev pub Codes : ℕ → Type 0
  Codes m =
      (st : encoder.State) (input out : List ℕ)
      → length input ≡ 960
      → length out ≡ 65524
      → (st' : encoder.State) × (coded : List ℕ) × (encoder.codec st input out 65524
          ≡ (some m, st', coded))
        × (m ≤ length coded)
        × (length coded ≡ 65524)

  abbrev pub IsReady : Relay → Type 0
  IsReady r = FitsHeader r.session.sc_send.send_header × (length r.send_buff ≡ 65536)

  -- What a receiver takes for a datagram of the stream.
  abbrev pub IsDatagram : ℕ → Sc → List ℕ → Type 0
  IsDatagram m receiver p = (length p ≡ 12 + m) × ((Sc.recv receiver p (length p) 0).0 ≡ some 12)

  decode-sender :
      (output : List ℕ) (n : ℕ) (r : Option (List ℕ) × DownloadSession encoder decoder)
      → (decode encoder decoder output n r).1.sc_send ≡ r.1.sc_send
  unfolding decode
  decode-sender output n (none, s) = refl
  decode-sender output n (some input, s) = ground arith

  strip_sc-sender :
      (s : DownloadSession encoder decoder) (input : List ℕ)
      → (strip_sc encoder decoder s input).1.sc_send ≡ s.sc_send
  unfolding strip_sc
  strip_sc-sender s input = ground arith

  pub recv-IsReady : (r : Relay) (p : List ℕ) → IsReady r → IsReady (relay_recv r p).1
  unfolding relay_recv recv
  recv-IsReady r p v =
      let stripped = strip_sc encoder decoder r.session p in
      let same = decode-sender r.codec_buff relay_size stripped ∙ strip_sc-sender r.session p in
      (subst (λ (sc : Sc). FitsHeader sc.send_header) (sym same) v.0, v.1)

  -- What `Send` leaves of a session that is ready.
  pub sent :
      (m : ℕ) (r : Relay) (f coded : List ℕ) (st : encoder.State)
      → encoder.codec r.session.encoder_state f (drop 12 r.send_buff) 65524 ≡ (some m, st, coded)
      → m < 2 ^ 16
      → length f ≡ 960
      → IsReady r
      → send encoder decoder r.session f r.send_buff relay_size ≡ (
        some (12 + m),
        record r.session {
          encoder_state = st;
          sc_send = record r.session.sc_send {
            send_header = next_header r.session.sc_send.send_header m;
          };
        },
        overwrite
            (store_header (sc_copy_to_net (next_header r.session.sc_send.send_header m)))
            (take 12 r.send_buff ++ coded),
      )
  sent m r f coded st run small e v =
      let room : length r.send_buff - 12 ≡ 65524 = omega (arith, v.1) in
      ap (send encoder decoder r.session f r.send_buff) (sym v.1)
      ∙ send-run encoder decoder r.session f r.send_buff coded st m
          (ap (encoder.codec r.session.encoder_state f (drop 12 r.send_buff)) room ∙ run) small
          (omega (arith, v.1)) e

  pub send-IsReady :
      (m : ℕ) (r : Relay) (f : List ℕ)
      → Codes m
      → m < 2 ^ 16
      → length f ≡ 960
      → IsReady r
      → IsReady (relay_send r f).1
  unfolding relay_send
  send-IsReady m r f codes small e v =
      let (st, coded, run, fits, size) =
        codes r.session.encoder_state f (drop 12 r.send_buff) e
          (omega (arith, length-drop 12 r.send_buff, v.1)) in
      let header = next_header r.session.sc_send.send_header m in
      let behind = take 12 r.send_buff ++ coded in
      rw (sent m r f coded st run small e v) (
        (next_header_lem r.session.sc_send.send_header m small v.0).4,
        omega (
          arith,
          length-overwrite (store_header (sc_copy_to_net header)) behind,
          length-append (take 12 r.send_buff) coded,
          length-take 12 r.send_buff,
          v.1,
          size,
        ),
      )

  send-IsDatagram :
      (m : ℕ) (receiver : Sc) (r : Relay) (f p : List ℕ)
      → Codes m
      → m < 2 ^ 16
      → receiver.first_pack ≡ true
      → length f ≡ 960
      → IsReady r
      → (relay_send r f).0 ≡ some p
      → IsDatagram m receiver p
  unfolding relay_send
  send-IsDatagram m receiver r f p codes small fresh e v made =
      let (st, coded, run, fits, size) =
        codes r.session.encoder_state f (drop 12 r.send_buff) e
          (omega (arith, length-drop 12 r.send_buff, v.1)) in
      let s = r.session in
      let out = (send encoder decoder s f r.send_buff relay_size).2 in
      let whole : length out ≡ 65536 = (send-IsReady m r f codes small e v).1 in
      let room : length r.send_buff - 12 ≡ 65524 = omega (arith, v.1) in
      let heard =
        send-recv encoder decoder s receiver f r.send_buff coded st m
          (ap (encoder.codec s.encoder_state f (drop 12 r.send_buff)) room ∙ run) fits small
          (omega (arith, v.1)) e v.0 fresh in
      let taken =
        sym (
          ap (λ (n : Option ℕ). n >>= λ k. if k == 0 then none else some (take k out))
            (ap (λ (t : Option ℕ × DownloadSession encoder decoder × List ℕ). t.0)
              (sent m r f coded st run small e v)))
        ∙ made in
      let is_p : take (12 + m) out ≡ p = ground (arith, taken) in
      subst (IsDatagram m receiver) is_p (
        omega (arith, length-take (12 + m) out, whole, fits, size),
        ap
              (λ (t : Option ℕ × DownloadSession encoder decoder × List ℕ).
                let d = take (12 + m) t.2 in (Sc.recv receiver d (length d) 0).0)
              (ap (send encoder decoder s f r.send_buff) (sym v.1))
            ∙ heard.1,
      )

  send-makes :
      (m : ℕ) (r : Relay) (f : List ℕ)
      → Codes m
      → m < 2 ^ 16
      → length f ≡ 960
      → IsReady r
      → (relay_send r f).0 ≢ none
  unfolding relay_send
  send-makes m r f codes small e v refused =
      let (st, coded, run, fits, size) =
        codes r.session.encoder_state f (drop 12 r.send_buff) e
          (omega (arith, length-drop 12 r.send_buff, v.1)) in
      let gone = rw (sent m r f coded st run small e v) at refused in ground (arith, gone)

  relay-Keeps :
      (m : ℕ) (receiver : Sc)
      → Codes m
      → m < 2 ^ 16
      → receiver.first_pack ≡ true
      → Keeps relay_recv relay_send 960 IsReady (IsDatagram m receiver)
  relay-Keeps m receiver codes small fresh = record {
    recv_keeps = recv-IsReady;
    send_keeps = λ r f e v. send-IsReady m r f codes small e v;
    send_good = λ r f p e v made. send-IsDatagram m receiver r f p codes small fresh e v made;
    send_makes = λ r f e v. send-makes m r f codes small e v;
  }

  -- Whatever datagrams come, the loop of a download session passes one packet to its socket for each
  -- frame of 480 samples, and each is a datagram of 12 + m bytes that a receiver which has seen nothing
  -- accepts, if the encoder codes a frame as m bytes below 2^16, the session's header fits at first,
  -- and what was sent before is such datagrams, one for each frame.
  pub process_loop-sends :
      (m : ℕ) (receiver : Sc) (l : Loop Relay) (packets : List (List ℕ))
      → Codes m
      → m < 2 ^ 16
      → receiver.first_pack ≡ true
      → IsReady l.session
      → All (IsDatagram m receiver) l.sent
      → length l.sent ≡ length l.frames
      → let l' = process_loop 480 l packets in
        All (IsDatagram m receiver) l'.sent × (length l'.sent ≡ length l'.frames)
  unfolding process_loop
  process_loop-sends m receiver l packets codes small fresh v good count =
      let done =
        process_packets-IsSending relay_recv relay_send 960 IsReady (IsDatagram m receiver) l
          packets (relay-Keeps m receiver codes small fresh)
          (record { inv = v; good = good; count = count }) in
      (done.good, done.count)
