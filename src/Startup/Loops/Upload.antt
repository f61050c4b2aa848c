-- ===== src/Startup/Loops/Upload.antt =====
-- Upload sessions from Codec2.
use codec_single_thread.Startup
use codec_single_thread.Startup.Threads.{IsGood, start_sessions_lem}
use codec_single_thread.Startup.{
  joined, start_sessions, Config, thread_of, param_of, string_to_type, string_to_forward,
}
use codec_single_thread.Startup.Loops
use codec_single_thread.Startup.Loops.{
  Run, AnyRecv, process_upload, up_relay, upload_frame, succeeds,
}
use codec_single_thread.Sc.{to_4g}
use codec_single_thread.UdpPacker.{UdpPacker}
use codec_single_thread.Session.Setup.{Answers, Members, codec2, upload_init}
use codec_single_thread.Session.Setup.Ready.{upload_init_lem}
use codec_single_thread.Session.Coders.{Libraries, Started, encoder_of, decoder_of}
use codec_single_thread.Session.Coders.Lengths.{codec2-Refuses}
use codec_single_thread.Session.Upload.Relay.{upload_loop-Refuses}
use codec_single_thread.Base.{
  ℕ, ◌≡◌, refl, arith, List, [], Option, some, none, true, ◌>>=◌, ap, ◌∙◌, inl, inr, Bool-cases,
  ◌∷◌,
}

abbrev pub IsSilent : Run → Type 0
IsSilent run = run.sent ≡ []

succeeds-zero : (r : Option ℕ) → succeeds r ≡ true → r ≡ some 0
unfolding succeeds
succeeds-zero none h = absurd (ground (arith, h))
succeeds-zero (some n) h = ap some (ground (arith, h))

process_upload-IsSilent :
    (lib : Libraries) (recv : AnyRecv) (e : Option Started) (udp : UdpPacker) (s : Members)
    (packets : List (List ℕ))
    → IsSilent (process_upload recv e (decoder_of lib codec2) udp s packets)
unfolding process_upload decoder_of
process_upload-IsSilent lib recv none udp s packets = refl
process_upload-IsSilent lib recv (some e) udp s packets =
    upload_loop-Refuses e.coder _ (recv e.coder _) upload_frame (up_relay e _ udp s) packets
      (codec2-Refuses lib.codec2_decode e.coder)

module _ (a : Answers) where
  -- For a good entry to 4G with the source Codec2 `main` starts an upload thread, and that never sends
  -- anything, whatever its `Recv` makes of the datagrams that come: `ProcessLoop` gives `Send` 320 bytes
  -- at a time, which are no whole number of Codec2 frames of 6 bytes.
  pub up_loop-IsSilent :
      (lib : Libraries) (md5 : List ℕ → List ℕ) (rand_sn rand_ts : ℕ) (entropy : List ℕ)
      (recv : AnyRecv) (udp : UdpPacker) (s : Members) (c : Config) (packets : List (List ℕ))
      → IsGood c
      → string_to_forward c.forward ≡ to_4g
      → string_to_type c.src_codec ≡ codec2
      → (start_sessions (some c ∷ []) [] ≡ (joined, Startup.up_loop (param_of c) ∷ []))
        × IsSilent (Loops.up_loop a lib md5 rand_sn rand_ts entropy recv udp s (param_of c) packets)
  unfolding Loops.up_loop thread_of param_of
  up_loop-IsSilent lib md5 rand_sn rand_ts entropy recv udp s c packets good up from =
      let run = upload_init a md5 rand_sn rand_ts entropy s (param_of c) in
      (
        start_sessions_lem (c ∷ []) (good, tt)
            ∙ ap (λ (k : Startup.Thread). (joined, k ∷ [])) (rw (up, thread_of) refl),
        elim (Bool-cases (succeeds run.0)) [
          | inl yes' ↦
              let left =
                (upload_init_lem a md5 rand_sn rand_ts entropy s (param_of c)).1
                  (succeeds-zero run.0 yes') in
              rw (yes', left.1 ∙ ap some from, Loops.up_loop)
                (process_upload-IsSilent lib recv (run.1.encoder >>= encoder_of lib) udp run.1
                  packets)
          | inr no' ↦ rw (no', Loops.up_loop) refl
        ],
      )
