-- ===== src/Session/Tests.antt =====
-- Runs of the framing loop and of the sessions with mu-law coders.
mod Streams
mod Speech
use codec_single_thread.Sc
use codec_single_thread.Sc.{Sc}
use codec_single_thread.Pcm.{ulaw_en_codec, ulaw_de_codec}
use codec_single_thread.Session.Loop.{Loop, process_packets}
use codec_single_thread.Session.Framing.{IsFramed, process_packets-IsFramed, joined}
use codec_single_thread.Session.Download.{send}
use codec_single_thread.Session.Upload
use codec_single_thread.Session.Download
use codec_single_thread.Session.Link.{recv-upload_send, InStep}
use codec_single_thread.Base.{
  ℕ, List, [], ◌∷◌, some, none, refl, ◌≡◌, replicate, length, take, arith, ◌<◌, Option, ◌+◌,
  if◌then◌else◌, get_or, ◌==◌, ◌++◌, ◌%◌, ◌^◌, ◌∙◌, ◌*◌,
}
use codec_single_thread.Session.Samples.{session, upload, in_step}
use codec_single_thread.Session.Coders.{pcm_u_encoder, pcm_u_decoder}

-- `Recv` takes a packet as it is, and `Send` fails on frames that start with 0.
abbrev echo : ℕ → List ℕ → Option (List ℕ) × ℕ
echo n packet = (some packet, n + 1)

abbrev picky : ℕ → List ℕ → Option (List ℕ) × ℕ
picky n frame = (if get_or frame 0 0 == 0 then none else some (9 ∷ frame), n + 1)

abbrev start : Loop ℕ
start = record { session = 0; frame_buff = []; decoded = []; frames = []; sent = [] }

abbrev datagrams : List (List ℕ)
datagrams = (1 ∷ 2 ∷ []) ∷ (0 ∷ 3 ∷ 4 ∷ []) ∷ [] ∷ (5 ∷ 6 ∷ []) ∷ []

three_frames :
    (process_packets echo picky 2 start datagrams).sent ≡ (9 ∷ 1 ∷ 2 ∷ []) ∷ (9 ∷ 4 ∷ 5 ∷ []) ∷ []
unfolding process_packets
three_frames = refl

start-IsFramed : IsFramed echo picky 2 start
unfolding joined
start-IsFramed = record { whole = tt; kept = refl }

process_packets-IsFramed_example :
    IsFramed echo picky 2 (process_packets echo picky 2 start datagrams)
    × (length (process_packets echo picky 2 start datagrams).frame_buff < 2)
process_packets-IsFramed_example =
    process_packets-IsFramed echo picky 2 start datagrams (omega arith) start-IsFramed (omega arith)

-- A frame of 160 bytes 0xFF is decoded to silence, and coded again.
abbrev frame : List ℕ
frame = replicate 160 0xFF

recv-upload_send_example :
    let sent =
      Upload.send pcm_u_encoder pcm_u_decoder upload frame
        ((replicate 12 9 ++ replicate 12 9) ++ replicate 160 9)
        184 in
    let got =
      Download.recv pcm_u_encoder pcm_u_decoder session (take 184 sent.2) (replicate 320 9) 320 in
    (sent.0 ≡ some 184)
    × (got.0 ≡ some 320)
    × (got.2 ≡ replicate 320 0)
    × (sent.1.decoder_state ≡ tt)
    × (sent.1.encoder_state ≡ tt)
    × (got.1.decoder_state ≡ tt)
    × InStep pcm_u_encoder pcm_u_decoder pcm_u_encoder pcm_u_decoder sent.1 got.1
unfolding ulaw_en_codec ulaw_de_codec
recv-upload_send_example =
    recv-upload_send pcm_u_encoder pcm_u_decoder pcm_u_encoder pcm_u_decoder upload session frame
      (replicate 2048 0) (replicate 12 9) (replicate 12 9) (replicate 160 9) frame (replicate 320 9)
      tt tt 320 160 184 320 refl refl refl (omega arith) (omega arith) (omega arith) (refl, refl)
      in_step
