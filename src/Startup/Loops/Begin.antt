-- ===== src/Startup/Loops/Begin.antt =====
-- How `UpLoop` and `DownLoop` of src/main.cpp begin: the two sessions behind their `Init`s.
use mathlib.Core.Path.{subst}
use codec_single_thread.Sc.{Sc}
use codec_single_thread.Sc.Wire.{FitsHeader}
use codec_single_thread.Sc.Receiver.{Follows}
use codec_single_thread.UdpPacker.{UdpPacker}
use codec_single_thread.Session.Setup.{Answers, Members, SessionParam, upload_init, download_init}
use codec_single_thread.Session.Setup.Ready.{
  upload_init_lem, upload_init-param, upload_init-sc_send, download_init-kept,
}
use codec_single_thread.Session.Coders.{Started}
use codec_single_thread.Session.Link.{InStep}
use codec_single_thread.Startup.Loops.{up_relay, down_relay}
use codec_single_thread.Base.{ℕ, ◌≡◌, sym, ap, ◌∙◌, List, some, true, false}

-- With the SC2 header and without the UDP/IP header on both sides.
abbrev pub OnlySc : SessionParam → Type 0
OnlySc param = (param.if_send_sc ≡ true) × (param.if_add_udpip ≡ false)

module _ (a a' : Answers) where
  -- Where both `Init`s succeed, with parameters for the SC2 header and against the UDP/IP header, an
  -- upload and a download session begin in step. The `Init`s set neither the SC2 sender of the upload
  -- nor the SC2 receiver of the download: what these hold is a condition, met by memory of zeros.
  pub init-InStep :
      (md5 : List ℕ → List ℕ) (rand_sn rand_ts : ℕ) (entropy : List ℕ) (udp : UdpPacker)
      (e d e' d' : Started) (s t : Members) (up down : SessionParam)
      → OnlySc up × OnlySc down
      → FitsHeader s.sc_send.send_header
      → Follows t.sc_recv s.sc_send
      → let (r, s') = upload_init a md5 rand_sn rand_ts entropy s up in
        let (r', t') = download_init a' t down in
        r ≡ some 0
        → r' ≡ some 0
        → InStep e.coder d.coder e'.coder d'.coder
            (up_relay e d udp s').session.session
            (down_relay e' d' t').session.session
  unfolding up_relay down_relay
  init-InStep md5 rand_sn rand_ts entropy udp e d e' d' s t up down only header fresh ok ok' =
      let run = upload_init a md5 rand_sn rand_ts entropy s up in
      let ready = (upload_init_lem a md5 rand_sn rand_ts entropy s up).1 ok in
      let param = upload_init-param a md5 rand_sn rand_ts entropy s up ok in
      let sender = upload_init-sc_send a md5 rand_sn rand_ts entropy s up ok in
      let kept = download_init-kept a' t down ok' in
      record {
        sends_sc = ap (λ p. p.if_send_sc) param ∙ only.0.0;
        no_udpip = ap (λ p. p.if_add_udpip) param ∙ only.0.1;
        takes_sc = ap (λ p. p.if_send_sc) kept.1 ∙ only.1.0;
        takes_no_udpip = ap (λ p. p.if_add_udpip) kept.1 ∙ only.1.1;
        plain = ready.2;
        fits = subst (λ (k : Sc). FitsHeader k.send_header) (sym sender) header;
        follows =
            subst (λ (k : Sc). Follows k (up_relay e d udp run.1).session.session.sc_send)
              (sym kept.0) (subst (λ (k : Sc). Follows t.sc_recv k) (sym sender) fresh);
      }
