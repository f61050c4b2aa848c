-- ===== src/Startup/Loops.antt =====
-- `DownLoop` and `UpLoop` of src/main.cpp: a session from `Init` to `ProcessLoop`.
--
-- What the sockets and the coders answer to `Init`, the libraries, the members of the session before
-- `Init` and the datagrams that `RecvFrom` gives are arguments. `ProcessLoop` never returns: a run is
-- that over the datagrams that come.
pub mod Download
pub mod Upload
pub mod Stream
pub mod Begin
use codec_single_thread.Startup
use codec_single_thread.Session.Loop.{Loop}
use codec_single_thread.Session.Download.Relay.{Relay, process_loop, relay_size}
use codec_single_thread.Session.Setup.{Answers, Members, SessionParam, download_init, upload_init}
use codec_single_thread.Session.{Coder}
use codec_single_thread.Session.Upload.Relay.{Recv, UploadRelay, upload_loop}
use codec_single_thread.UdpPacker.{UdpPacker}
use codec_single_thread.Session.Coders.{Libraries, Started, encoder_of, decoder_of}
use codec_single_thread.Base.{
  ℕ, ◌*◌, List, [], Option, none, some, replicate, ◌>>=◌, false, Bool, if◌then◌else◌, ◌==◌,
}

-- kScFrames * kPcmFrameSample, the default of `ProcessLoop`'s parameter
abbrev pub send_frame : ℕ
send_frame = 3 * 160

-- the default of the other one's
abbrev pub upload_frame : ℕ
upload_frame = 160

-- What `Recv` has decoded, and what is passed to the socket.
pub record Run : Type 0 where
  pub decoded : List ℕ
  pub sent : List (List ℕ)

-- The session that `Init` has left, with the arrays and the deque of `ProcessLoop`.
pub down_relay : (e d : Started) → Members → Loop (Relay e.coder d.coder)
down_relay e d s = record {
  session = record {
    session = record {
      if_send_sc = s.param.if_send_sc;
      if_add_udpip = s.param.if_add_udpip;
      sc_recv = s.sc_recv;
      sc_send = s.sc_send;
      encoder_state = e.state;
      decoder_state = d.state;
    };
    codec_buff = replicate relay_size 0;
    send_buff = replicate relay_size 0;
  };
  frame_buff = [];
  decoded = [];
  frames = [];
  sent = [];
}

-- `session.ProcessLoop()`. `Init` has set both coders where it succeeds.
pub process_session : Option Started → Option Started → Members → List (List ℕ) → Run
unfolding down_relay
process_session (some e) (some d) s packets =
    let l = process_loop e.coder d.coder send_frame (down_relay e d s) packets in
    record { decoded = l.decoded; sent = l.sent }
process_session none d s packets = record { decoded = []; sent = [] }
process_session (some e) none s packets = record { decoded = []; sent = [] }

-- `Init` returns 0.
pub succeeds : Option ℕ → Bool
succeeds none = false
succeeds (some n) = n == 0

-- The thread, from a session that is not initialised: nothing where `Init` fails.
pub down_loop : Answers → Libraries → Members → SessionParam → List (List ℕ) → Run
unfolding process_session succeeds
down_loop a lib s param packets =
    let (r, s') = download_init a s param in
    if succeeds r
    then process_session (s'.encoder >>= encoder_of lib) (s'.decoder >>= decoder_of lib) s' packets
    else record { decoded = []; sent = [] }

-- The same for an upload session: its packer and its `Recv` are arguments besides, and those of `Init`
-- of the RTP session.
abbrev pub AnyRecv : Type 1
AnyRecv = (e d : Coder) → Recv e d

pub up_relay : (e d : Started) → UdpPacker → Members → Loop (UploadRelay e.coder d.coder)
up_relay e d udp s = record {
  session = record {
    session = record {
      first_pack = s.first_pack;
      if_send_sc = s.param.if_send_sc;
      if_add_udpip = s.param.if_add_udpip;
      sc_recv = s.sc_recv;
      sc_send = s.sc_send;
      udp = udp;
      rtp = s.rtp;
      encoder_state = e.state;
      decoder_state = d.state;
    };
    send_buff = replicate relay_size 0;
  };
  frame_buff = [];
  decoded = [];
  frames = [];
  sent = [];
}

pub process_upload :
    AnyRecv → Option Started → Option Started → UdpPacker → Members → List (List ℕ) → Run
unfolding up_relay
process_upload recv (some e) (some d) udp s packets =
    let l =
      upload_loop e.coder d.coder (recv e.coder d.coder) upload_frame (up_relay e d udp s)
        packets in
    record { decoded = l.decoded; sent = l.sent }
process_upload recv none d udp s packets = record { decoded = []; sent = [] }
process_upload recv (some e) none udp s packets = record { decoded = []; sent = [] }

pub up_loop :
    Answers
    → Libraries
    → (List ℕ → List ℕ)
    → ℕ
    → ℕ
    → List ℕ
    → AnyRecv
    → UdpPacker
    → Members
    → SessionParam
    → List (List ℕ)
    → Run
unfolding process_upload succeeds
up_loop a lib md5 rand_sn rand_ts entropy recv udp s param packets =
    let (r, s') = upload_init a md5 rand_sn rand_ts entropy s param in
    if succeeds r
    then process_upload recv (s'.encoder >>= encoder_of lib) (s'.decoder >>= decoder_of lib) udp s'
        packets
    else record { decoded = []; sent = [] }
