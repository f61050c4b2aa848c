-- ===== src/Session/Loop.antt =====
-- `ProcessLoop` of the two sessions in src/session.cpp.
pub mod Stable
use codec_single_thread.Base.{
  ℕ, zero, suc, ◌&&◌, List, [], ◌∷◌, ◌++◌, Option, none, some, leb, ◌==◌, if◌then◌else◌, length,
  take, drop,
}

-- The session, `frame_buff`, and a record of the calls: the bytes that `Recv` has decoded, the
-- frames that `Send` has been given, and the packets passed to the socket.
pub record Loop (S : Type 0) : Type 0 where
  pub session : S
  pub frame_buff : List ℕ
  pub decoded : List ℕ
  pub frames : List (List ℕ)
  pub sent : List (List ℕ)

module _ {S : Type 0} (recv send : S → List ℕ → Option (List ℕ) × S) where
  -- `Send`, and the socket's `Send` where it gives a packet: `send` is none for a result of 0 or less.
  unfoldable pub send_frame : Loop S → List ℕ → Loop S
  send_frame l frame =
      let (made, s) = send l.session frame in
      record l {
        session = s;
        frames = l.frames ++ (frame ∷ []);
        sent = elim made [ none ↦ l.sent | some packet ↦ l.sent ++ (packet ∷ []) ];
      }

  -- `while (frame_buff.size() >= (send_frame << 1))`, on fuel.
  unfoldable pub drain : ℕ → ℕ → Loop S → Loop S
  unfolding send_frame
  drain zero size l = l
  drain (suc fuel) size l =
      let kept : Loop S = record l { frame_buff = drop size l.frame_buff } in
      let rest : Loop S = drain fuel size (send_frame kept (take size l.frame_buff)) in
      if leb size (length l.frame_buff) then rest else l

  -- What a round does with the bytes that `Recv` has decoded: `size` is `send_frame << 1`. A failed
  -- `Send` goes on with the next datagram, and loses the frame.
  unfoldable pub process_data : ℕ → Loop S → List ℕ → Loop S
  unfolding send_frame drain
  process_data size l data' =
      let got : Loop S = record l { decoded = l.decoded ++ data' } in
      let stored : Loop S = record got { frame_buff = l.frame_buff ++ data' } in
      let rest : Loop S = drain (suc (length stored.frame_buff)) size stored in
      if (length data' == size) && (length l.frame_buff == 0) then send_frame got data' else rest

  -- One round of `while (true)`.
  unfoldable pub process_packet : ℕ → Loop S → List ℕ → Loop S
  unfolding process_data
  process_packet size l [] = l
  process_packet size l (b ∷ packet) =
      let (made, s) = recv l.session (b ∷ packet) in
      elim made [
        | none ↦ record l { session = s }
        | some data' ↦ process_data size (record l { session = s }) data'
      ]

  -- The rounds for a sequence of datagrams.
  unfoldable pub process_packets : ℕ → Loop S → List (List ℕ) → Loop S
  unfolding process_packet
  process_packets size l [] = l
  process_packets size l (p ∷ ps) = process_packets size (process_packet size l p) ps
