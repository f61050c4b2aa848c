-- ===== src/Lib.antt =====
-- codec_single_thread: a gateway between a stream of SC2 packets and RTP.
--
-- The program receives SC2 datagrams, puts them in order, decodes the speech, encodes it with
-- another coder and sends it on as RTP in UDP (the upload session), and the other way round (the
-- download session). Its parts are pure functions of small states, and each is a module here. Paths
-- are those of the repository.
--
--   Sc             src/sc.h, src/sc.cpp: `SCHeader` on the wire, and `SC`, the two ends of a stream:
--                  `init`, `reset_recv`, `send`, `recv`.
--   Sorter         `PacketSorter` of src/utils.h and src/utils.cpp: `init`, `insert`, `get`, `skip`
--                  over a map whose order is circular; `Sorter.Memory`, which of the packets it
--                  deletes, hands out, or drops.
--   Rtp            src/rtp.h, src/rtp.cpp: `RtpSession`, with `init`, `generate_rtp_header` and
--                  `decode_rtp_header`.
--   UdpPacker      src/udp_packer.h, src/udp_packer.cpp: `set_ip_port`, `generate_header`,
--                  `check_sum` and `udp_parser`.
--   Pcm            the mu-law and A-law coders of src/codec.cpp, with their tables.
--   Codec2         the Codec2 coders of src/codec.cpp.
--   RateConverter  `RateConverter` of src/codec.cpp.
--   AmrWb          the AMR-WB coders of src/codec.cpp, which resample by RateConverter.
--   Session        src/session.h, src/session.cpp, over coders as an interface: `Session.Loop`, the
--                  framing loop of both sessions; `Session.Setup`, `Init` of both, with
--                  `GenerateDefaultParam`; `Session.Upload` (`un_pak`, `send`);
--                  `Session.Upload.Relay`, its loop; `Session.Upload.Arrival`, its `HandleSocket`
--                  over the sockets and the sorter; `Session.Download` (`recv`, `send`);
--                  `Session.Download.Relay`, its loop over them; `Session.Coders`, the coders of
--                  src/codec.h as that interface; `Session.Link`, the two sessions back to back,
--                  with the SC2 and without the UDP/IP header, and `Session.Fidelity`, with
--                  mu-law between them.
--   EventHandler   src/event_handler.h, src/event_handler.cpp: the sockets and their events, with
--                  `run`, `handle_event`, `handle_socket`, `add_event` and the other methods.
--   Socket         `UdpSocket` of src/udp.h and src/udp.cpp, over the system calls as an interface.
--   Startup        `StringToType` and `StringToForward` of src/utils.h, and the loop of src/main.cpp
--                  over the configuration, with the threads that it starts; `Startup.Reading`,
--                  `ReadConfig` of src/utils.cpp and `main`; `Startup.Loops`, `UpLoop` and
--                  `DownLoop`.
--   CodecServer    codec_server/codec_server.cpp: `EncodeLoop`, which composes Socket, Codec2, Pcm and
--                  Rtp, and `DecodeLoop`; `CodecServer.Main`, its `main`.
--   Base           machine words, bytes, bits and lists.
--
-- A method is a function from the object's record and its arguments to the result, the object after
-- it, and the buffers that it writes. A buffer is the list of its bytes; a write past its end is
-- a fault in the decoder of AMR-WB, where it can happen, and elsewhere dropped from the list. A result that the source gives as a number, with -1 for an error, is an
-- `Option ℕ`. Words of 8, 16 and 32 bits wrap around as written out. The host is little-endian.
--
-- Loops over a buffer are structural recursion on the bytes or on the number of rounds that the
-- source computes first. Two loops run on fuel. That of the AMR-WB decoder need not end in the source;
-- where it does, one round more than the input has bytes is enough. The inner loop of `ProcessLoop`
-- is given one round more than `frame_buff` has bytes, which is enough for frames that are not empty.
-- The loops of the event handler take what they read of the world, the clock and epoll, as lists, one
-- entry for a round: with callbacks that add no events, one reading more than there are entries is
-- enough. The endless loop of `EncodeLoop` is taken for a number of rounds.
--
-- Libraries outside the repository are arguments: the Codec2 and AMR-WB coders of a frame,
-- libsamplerate, `inet_pton`, `inet_addr`, the system calls of the sockets and MD5; so is jsoncpp, which
-- is copied into the repository, by the operations on a value that the program calls, and so are
-- `CodecAndPak`, `SendWhitePak` and `Recv` of the upload session, which src/session.h declares and
-- nothing defines. `Session.Coders` takes the AMR-WB coders whole, since what they do can be undefined.
-- Not modelled are logging, what is printed, jsoncpp and MD5 themselves, and the release of memory,
-- except for the packets of the sorter and the states of the Codec2 and AMR-WB coders.
pub mod Base
pub mod AmrWb
pub mod Codec2
pub mod CodecServer
pub mod EventHandler
pub mod Pcm
pub mod RateConverter
pub mod Rtp
pub mod Sc
pub mod Session
pub mod Socket
pub mod Sorter
pub mod Startup
pub mod UdpPacker
