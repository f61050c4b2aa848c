-- ===== src/Session/Upload/Packed.antt =====
-- What `UploadSession::Send` writes, `DownloadSession::Recv` takes apart down to the code.

use codec_single_thread.Sc
use codec_single_thread.Sc.{sc_copy_to_net, store_header, next_header}
use codec_single_thread.Sc.Wire.{length-store_header}
use codec_single_thread.Sc.Sender.{send_fields, send_room}
use codec_single_thread.Rtp.{header_bytes, advance}
use codec_single_thread.Rtp.Stream.{generate_front}
use codec_single_thread.Session.{Coder, codec_behind-fits}
use codec_single_thread.Session.Upload.{UploadSession, rtp_offset, encode, add_rtp, add_udp, add_sc}
use codec_single_thread.Base.{
  false, ℕ, ◌<◌, ◌≤◌, ◌+◌, ◌-◌, ◌^◌, ◌≡◌, refl, sym, ap, ◌∙◌, List, ◌++◌, some, length, true, arith,
  length-append, take-front, drop-front, overwrite-front, u16,
}

module _ (encoder decoder : Coder) where
  pub add_rtp_front :
      (n len : ℕ) (s : UploadSession encoder decoder) (f front xs : List ℕ)
      → length f ≡ rtp_offset encoder decoder s
      → length front ≡ 12
      → add_rtp encoder decoder n (some len, s, f ++ (front ++ xs)) ≡ (
        some (len + 12),
        record s { rtp = record s.rtp { send_header = advance s.rtp n } },
        f ++ (header_bytes s.rtp.send_header ++ xs),
      )
  unfolding add_rtp
  add_rtp_front n len s f front xs e e' =
      rw
        (
          take-front (rtp_offset encoder decoder s) f (front ++ xs) e,
          drop-front (rtp_offset encoder decoder s) f (front ++ xs) e,
          generate_front s.rtp front xs n e',
        )
        refl

  pub add_udp_off :
      (len : ℕ) (s : UploadSession encoder decoder) (output : List ℕ)
      → s.if_add_udpip ≡ false
      → add_udp encoder decoder (some len, s, output) ≡ (some len, s, output)
  unfolding add_udp
  add_udp_off len s output off = rw off refl

  pub add_sc_front :
      (len : ℕ) (s : UploadSession encoder decoder) (front xs : List ℕ)
      → s.if_send_sc ≡ true
      → len < 2 ^ 16
      → length front ≡ 12
      → add_sc encoder decoder (some len, s, front ++ xs) ≡ (
        some (len + 12),
        record s {
          sc_send = record s.sc_send { send_header = next_header s.sc_send.send_header len };
        },
        store_header (sc_copy_to_net (next_header s.sc_send.send_header len)) ++ xs,
      )
  unfolding add_sc
  add_sc_front len s front xs on small e =
      let h = sc_copy_to_net (next_header s.sc_send.send_header len) in
      let long : 12 ≤ length (front ++ xs) = omega (arith, length-append front xs) in
      let made =
        ap (λ k. Sc.send s.sc_send k (front ++ xs) 12) {x = u16 len} {y = len} (omega arith)
        ∙ send_room s.sc_send len 12 (front ++ xs) (omega arith) long
        ∙ send_fields s.sc_send len (front ++ xs) long
        ∙ ap
            (λ k. (
              some 12,
              record s.sc_send { send_header = next_header s.sc_send.send_header len },
              k,
            ))
            (overwrite-front (store_header h) front xs (e ∙ sym (length-store_header h))) in
      rw (on, made) refl

  pub encode_front :
      (s : UploadSession encoder decoder) (pcm f rest coded : List ℕ) (st : encoder.State)
      (m room : ℕ)
      → length f ≡ rtp_offset encoder decoder s + 12
      → rtp_offset encoder decoder s + 12 ≤ room
      → encoder.codec s.encoder_state pcm rest (room - (rtp_offset encoder decoder s + 12))
        ≡ (some m, st, coded)
      → encode encoder decoder pcm room (s, f ++ rest)
        ≡ (some m, record s { encoder_state = st }, f ++ coded)
  unfolding encode
  encode_front s pcm f rest coded st m room e fits run =
      rw
        (
          take-front (rtp_offset encoder decoder s + 12) f rest e,
          drop-front (rtp_offset encoder decoder s + 12) f rest e,
          codec_behind-fits encoder s.encoder_state pcm rest room
                (rtp_offset encoder decoder s + 12) fits
              ∙ run,
        )
        refl
