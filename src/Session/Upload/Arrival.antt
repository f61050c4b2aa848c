-- ===== src/Session/Upload/Arrival.antt =====
-- `UploadSession::HandleSocket`.
--
-- `CodecAndPak` and `SendWhitePak` are declared in src/session.h and defined nowhere: they are
-- arguments, from a session and the output to the result, the session and the output. A packet of the
-- sorter is the buffer that its pointer leads to.
use codec_single_thread.Session.{Coder}
use codec_single_thread.Session.Upload.{UploadSession, un_pak, session_buff_size}
use codec_single_thread.Socket
use codec_single_thread.Socket.{System, UdpSocket, recv_from}
use codec_single_thread.Sorter
use codec_single_thread.Sorter.{Sorter, packet_now, packet_next, packet_behind}
use codec_single_thread.Base.{
  ℕ, suc, ◌≡◌, refl, ◌*◌, ◌-◌, ◌^◌, List, Option, none, some, drop, u32, zero,
}

module _ (encoder decoder : Coder) where
  -- The members that `HandleSocket` uses besides those of `UploadSession`.
  pub record Arrival (W : Type 0) : Type 0 where
    pub session : UploadSession encoder decoder
    pub sorter : Sorter (List ℕ)
    pub recv_socket : UdpSocket
    pub send_socket : UdpSocket
    pub world : W

  -- The result, the session and the output.
  abbrev pub Packed : Type 0
  Packed = Option ℕ × UploadSession encoder decoder × List ℕ

  -- `return`, or `while (true)` at the end.
  pub data Leaves : Type 0 where
    returned stays : Leaves

  module _ {W : Type 0} (system : System W)
      (codec_and_pak : UploadSession encoder decoder → List ℕ → ℕ → List ℕ → ℕ → Packed)
      (send_white_pak : UploadSession encoder decoder → List ℕ → ℕ → Packed) where
    -- What follows `CodecAndPak` on a packet that is due.
    unfoldable pub send_coded : Arrival W → Packed → Arrival W
    send_coded a (r, s, output) =
        let (white, s', output') = send_white_pak s output session_buff_size in
        let (_, failed_world) = Socket.send system a.send_socket output' white a.world in
        let (_, sent_world) = Socket.send system a.send_socket output r a.world in
        elim r [
          | none ↦ record a { session = s'; world = failed_world }
          | some n ↦ record a { session = s; world = sent_world }
        ]

    -- What follows `Insert`.
    unfoldable pub on_status : List ℕ → ℕ → ℕ → List ℕ → Arrival W → Sorter.PacketStatus → Arrival W
    unfolding send_coded
    on_status input head_len recv_len output a packet_now = send_coded a (
        codec_and_pak a.session (drop head_len input) (recv_len - head_len) output
          session_buff_size)
    on_status input head_len recv_len output a packet_next = a
    on_status input head_len recv_len output a packet_behind = a

    -- The arrays start with any contents, `buff` and `output`.
    unfoldable pub handle_socket : List ℕ → List ℕ → Arrival W → Leaves × Arrival W
    unfolding on_status
    handle_socket buff output a =
        let (r, input, _, w) = recv_from system a.recv_socket buff session_buff_size a.world in
        let got : Arrival W = record a { world = w } in
        elim r [
          | none ↦ (returned, got)
          | some n ↦ elim n [
            | zero ↦ (returned, got)
            | suc k ↦
                let (head_len, s, sc) = un_pak encoder decoder a.session input (suc k) 0 in
                let unpacked : Arrival W = record got { session = s } in
                (
                  stays,
                  elim head_len [
                    | none ↦
                        let (_, s', _) = send_white_pak s output session_buff_size in
                        record unpacked { session = s'; sorter = Sorter.skip a.sorter 1 }
                    | some h ↦
                        let (status, sorter) = Sorter.insert a.sorter (u32 (sc * 2 ^ 8)) input in
                        on_status input h (suc k) output (record unpacked { sorter = sorter })
                          status
                  ],
                )
          ]
        ]

    -- `HandleSocket` does not come back from a datagram that it has received.
    pub handle_socket-stays :
        (buff output : List ℕ) (a : Arrival W) (n : ℕ)
        → (recv_from system a.recv_socket buff session_buff_size a.world).0 ≡ some (suc n)
        → (handle_socket buff output a).0 ≡ stays
    unfolding handle_socket
    handle_socket-stays buff output a n e = rw (e, handle_socket) refl
