-- ===== src/Session/Upload/Start.antt =====
-- `UploadSession::UnPak`: how the first datagram starts the SC2 sender.
use codec_single_thread.Sc.{get_sc_sn, get_sc_forward, to_4g}
use codec_single_thread.Sc.Sender.{init_lem}
use codec_single_thread.Sc.Receiver.{Acceptable, recv_refuses}
use codec_single_thread.Session.{Coder}
use codec_single_thread.Session.Upload.{UploadSession, un_pak}
use codec_single_thread.Base.{ℕ, ◌<◌, ◌^◌, ◌%◌, ◌≡◌, refl, List, none, true, length}

module _ (encoder decoder : Coder) where
  -- The first datagram starts the sender, even one that `Recv` refuses: then with the ueid and the
  -- number of a header that was never received. No later datagram changes the sender.
  pub un_pak_starts_once :
      (s : UploadSession encoder decoder) (data' data'' : List ℕ) (sn sn' : ℕ)
      → s.first_pack ≡ true
      → ¬ Acceptable s.sc_recv data'
      → s.sc_recv.recv_header.ueid < 2 ^ 32
      → let (r, s', _) = un_pak encoder decoder s data' (length data') sn in
        let later = (un_pak encoder decoder s' data'' (length data'') sn').1 in
        (r ≡ none)
        × (later.sc_send ≡ s'.sc_send)
        × (later.sc_send.send_header.ueid ≡ s.sc_recv.recv_header.ueid)
        × (get_sc_sn later.sc_send.send_header ≡ get_sc_sn s.sc_recv.recv_header % 2 ^ 24)
        × (get_sc_forward later.sc_send.send_header ≡ 0)
  unfolding un_pak
  un_pak_starts_once s data' data'' sn sn' first bad small =
      let refused = recv_refuses s.sc_recv data' sn bad in
      let old = s.sc_recv.recv_header in
      let started = init_lem s.sc_send old.ueid to_4g (get_sc_sn old) small in
      rw (first, refused.1) (refused.0, refl, started.3, started.1, started.2)
