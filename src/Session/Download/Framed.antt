-- ===== src/Session/Download/Framed.antt =====
-- What `DownloadSession::Send` passes on is a datagram for the other end of the SC2 stream.
use codec_single_thread.Sc.{sc_copy_to_net, store_header, next_header}
use codec_single_thread.Sc
use codec_single_thread.Sc.Wire.{FitsHeader, length-store_header}
use codec_single_thread.Sc.Receiver.{recv-send}
use codec_single_thread.Sc.Sender.{send_fields, send_room}
use codec_single_thread.Session.{Coder, codec_behind-fits}
use codec_single_thread.Session.Download.{DownloadSession, send, add_header, total}
use codec_single_thread.Base.{
  ℕ, ◌≤◌, ◌<◌, ◌+◌, ◌≡◌, refl, sym, ap, ◌∙◌, List, ◌++◌, some, length, take, drop, true, arith,
  length-append, length-take, overwrite, inl, drop-append, ◌-◌, ◌^◌, overwrite-front, take-suffix,
}

module _ (encoder decoder : Coder) where
  pub send-run :
      (s : DownloadSession encoder decoder) (input output coded : List ℕ) (st : encoder.State)
      (m : ℕ)
      → encoder.codec s.encoder_state input (drop 12 output) (length output - 12)
        ≡ (some m, st, coded)
      → m < 2 ^ 16
      → 12 ≤ length output
      → length input ≡ 960
      → send encoder decoder s input output (length output) ≡ (
        some (12 + m),
        record s {
          encoder_state = st;
          sc_send = record s.sc_send { send_header = next_header s.sc_send.send_header m };
        },
        overwrite
            (store_header (sc_copy_to_net (next_header s.sc_send.send_header m)))
            (take 12 output ++ coded),
      )
  unfolding send add_header total
  send-run s input output coded st m run small room whole =
      let behind : List ℕ = take 12 output ++ coded in
      let long : 12 ≤ length behind =
        omega (arith, length-append (take 12 output) coded, length-take 12 output) in
      let made =
        ap (λ k. Sc.send s.sc_send k behind 12) {y = m} (omega arith)
        ∙ send_room s.sc_send m 12 behind (omega arith) long
        ∙ send_fields s.sc_send m behind long in
      rw whole (
        ap (add_header encoder decoder s output) (
          codec_behind-fits encoder s.encoder_state input (drop 12 output) (length output) 12 room
          ∙ run)
        ∙ ap (total encoder decoder (record s { encoder_state = st }) m) made)

  -- On an input of 960 bytes whose code has `m` bytes, in a buffer with room for the SC2 header,
  -- `Send` returns 12 + m, and that many bytes of the buffer are a datagram that a fresh receiver of
  -- the SC2 stream accepts, with the code behind the header; if the sender's header and `m` fit.
  pub send-recv :
      (s : DownloadSession encoder decoder) (r : Sc.Sc) (input output coded : List ℕ)
      (st : encoder.State) (m : ℕ)
      → encoder.codec s.encoder_state input (drop 12 output) (length output - 12)
        ≡ (some m, st, coded)
      → m ≤ length coded
      → m < 2 ^ 16
      → 12 ≤ length output
      → length input ≡ 960
      → FitsHeader s.sc_send.send_header
      → r.first_pack ≡ true
      → let (res, s', packet) = send encoder decoder s input output (length output) in
        let datagram = take (12 + m) packet in
        (res ≡ some (12 + m))
        × ((Sc.recv r datagram (length datagram) 0).0 ≡ some 12)
        × (drop 12 datagram ≡ take m coded)
  send-recv s r input output coded st m run fits small room whole f first =
      let h = next_header s.sc_send.send_header m in
      let front : List ℕ = take 12 output in
      let hdr : List ℕ = store_header (sc_copy_to_net h) in
      let buff : List ℕ = front ++ take m coded in
      let e12 : length front ≡ 12 = omega (arith, length-take 12 output) in
      let eh : length hdr ≡ 12 = length-store_header (sc_copy_to_net h) in
      let eb : length buff ≡ 12 + m =
        omega (arith, length-append front (take m coded), length-take m coded) in
      let cut : take (12 + m) (overwrite hdr (front ++ coded)) ≡ overwrite hdr buff =
        ap (take (12 + m)) (overwrite-front hdr front coded (e12 ∙ sym eh))
        ∙ ap (λ k. take k (hdr ++ coded)) {x = 12 + m} {y = length hdr + m} (omega arith)
        ∙ take-suffix m hdr coded
        ∙ sym (overwrite-front hdr front (take m coded) (e12 ∙ sym eh)) in
      let heard = recv-send s.sc_send r m 0 buff f small eb (inl first) in
      rw (send-run s input output coded st m run small room whole, cut)
        (
          refl,
          sym (
                ap (λ t. (Sc.recv r t.2 (length t.2) 0).0)
                  (send_fields s.sc_send m buff (omega arith)))
              ∙ heard.1,
          ap (drop 12) (overwrite-front hdr front (take m coded) (e12 ∙ sym eh))
              ∙ ap (λ k. drop k (hdr ++ take m coded)) (sym eh)
              ∙ drop-append hdr (take m coded),
        )
