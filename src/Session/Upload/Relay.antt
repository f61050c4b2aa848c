-- ===== src/Session/Upload/Relay.antt =====
-- `UploadSession::ProcessLoop` over `Send` of the session. Its `Recv` is declared in src/session.h and
-- defined nowhere: it is an argument, from a session and a datagram to the bytes that it has decoded,
-- none for its error.
use codec_single_thread.Session.{Coder}
use codec_single_thread.Session.Upload.{UploadSession, pack, send}
use codec_single_thread.Session.Loop.{Loop, send_frame, process_packets}
use codec_single_thread.Session.Loop.Stable.{process_packets-Holds}
use codec_single_thread.Base.{
  ℕ, ◌+◌, ◌≡◌, refl, arith, List, Option, none, some, length, take, replicate, ◌>>=◌, ◌==◌,
  if◌then◌else◌,
}

abbrev pub relay_size : ℕ
relay_size = 65536

module _ (encoder decoder : Coder) where
  -- The session and `send_buff`.
  pub record UploadRelay : Type 0 where
    pub session : UploadSession encoder decoder
    pub send_buff : List ℕ

  abbrev pub Recv : Type 0
  Recv = UploadSession encoder decoder → List ℕ → Option (List ℕ) × UploadSession encoder decoder

  unfoldable pub upload_recv : Recv → UploadRelay → List ℕ → Option (List ℕ) × UploadRelay
  upload_recv recv r packet =
      let (data', s) = recv r.session packet in (data', record r { session = s })

  -- `Send` of a frame, with the packet that is passed to the socket.
  unfoldable pub upload_send : UploadRelay → List ℕ → Option (List ℕ) × UploadRelay
  upload_send r frame =
      let (n, s, send_buff) = send encoder decoder r.session frame r.send_buff relay_size in
      (
        n >>= λ k. if k == 0 then none else some (take k send_buff),
        record { session = s; send_buff = send_buff },
      )

  -- The loop, for frames of `frame` samples.
  unfoldable pub upload_loop : Recv → ℕ → Loop UploadRelay → List (List ℕ) → Loop UploadRelay
  unfolding upload_recv upload_send
  upload_loop recv frame l packets =
      process_packets (upload_recv recv) upload_send (frame + frame) l packets

  -- The decoder fails on inputs of that size, in any state.
  abbrev pub Refuses : ℕ → Type 0
  Refuses size =
      (st : decoder.State) (input : List ℕ)
      → length input ≡ size
      → (decoder.codec st input (replicate 2048 0) 2048).0 ≡ none

  pack-none :
      (s : UploadSession encoder decoder) (output : List ℕ) (room : ℕ)
      (t : Option ℕ × decoder.State × List ℕ)
      → t.0 ≡ none
      → (pack encoder decoder s output room t).0 ≡ none
  unfolding pack
  pack-none s output room (none, st, pcm) e = refl
  pack-none s output room (some n, st, pcm) e = absurd (ground (arith, e))

  upload_send-none :
      (size : ℕ) (r : UploadRelay) (f : List ℕ)
      → Refuses size
      → length f ≡ size
      → (upload_send r f).0 ≡ none
  unfolding upload_send send
  upload_send-none size r f refuses e =
      rw
        (pack-none r.session r.send_buff relay_size
          (decoder.codec r.session.decoder_state f (replicate 2048 0) 2048)
          (refuses r.session.decoder_state f e))
        refl

  -- Where the decoder fails on frames of `frame` samples, the loop never sends anything.
  pub upload_loop-Refuses :
      (recv : Recv) (frame : ℕ) (l : Loop UploadRelay) (packets : List (List ℕ))
      → Refuses (frame + frame)
      → (upload_loop recv frame l packets).sent ≡ l.sent
  unfolding upload_loop send_frame
  upload_loop-Refuses recv frame l packets refuses =
      process_packets-Holds (upload_recv recv) upload_send (frame + frame)
        (λ s frames sent. sent ≡ l.sent) l packets
        (record {
          recv_stable = λ s frames sent packet v. v;
          send_stable =
              λ k f e v. rw (send_frame, upload_send-none (frame + frame) k.session f refuses e) v;
        })
        refl
