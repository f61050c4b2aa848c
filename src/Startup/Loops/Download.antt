-- ===== src/Startup/Loops/Download.antt =====
-- From an entry of the configuration to the datagrams on the wire.
use mathlib.Core.Path.{subst}
use codec_single_thread.Codec2
use codec_single_thread.Pcm.{ulaw_encode, speech}
use codec_single_thread.Sc
use codec_single_thread.Sc.{Sc, from_4g, to_4g}
use codec_single_thread.Sc.Wire.{FitsHeader}
use codec_single_thread.Sc.Sender.{init_lem}
use codec_single_thread.Codec2.Stream.{Sized, coded}
use codec_single_thread.Startup.{
  Config, thread_of, param_of, string_to_type, string_to_forward, is_err,
}
use codec_single_thread.Startup.Threads.{IsGood}
use codec_single_thread.Startup.Sessions.{Opens, Starts-Opens}
use codec_single_thread.Startup
use codec_single_thread.Startup.Loops
use codec_single_thread.Startup.Loops.{Run, down_relay, process_session}
use codec_single_thread.Session.Setup.{
  Answers, Members, CodecType, amr_wb, codec2, pcm_a, pcm_u, unknown, download_init,
}
use codec_single_thread.Session.Setup.Ready.{download_init_lem}
use codec_single_thread.Session.Coders.{
  Libraries, Started, encoder_of, decoder_of, pcm_u_encoder, codec2_encoder,
}
use codec_single_thread.Session.Coders.Lengths.{pcm_u-CodesAs, codec2-CodesAs}
use codec_single_thread.Session.Framing.{joined, length-joined, process_packets-IsFramed}
use codec_single_thread.Session.Download.Payloads.{
  codes_of, CodesAs, CodesAs-Codes, process_loop-codes,
}
use codec_single_thread.Session.Download.Relay.{
  process_loop, process_loop-sends, relay_recv, relay_send,
}
use codec_single_thread.Base.{
  ℕ, ◌+◌, ◌*◌, ◌/◌, ◌<◌, ◌≡◌, refl, sym, ap, ◌∙◌, arith, List, some, none, length, All, true, false,
  ◌⊎◌, inl, inr, length-append, length-replicate, [], ◌∷◌, zero, suc, take, map, ◌≤◌, ◌++◌, drop,
  ++-assoc, take-front, drop-front,
}

-- What a receiver takes for a datagram with a code of `m` bytes.
abbrev pub Datagram : ℕ → Sc → List ℕ → Type 0
Datagram m receiver p = (length p ≡ 12 + m) × ((Sc.recv receiver p (length p) 0).0 ≡ some 12)

-- The first `n` pieces of 960 bytes.
unfoldable pub pieces : ℕ → List ℕ → List (List ℕ)
pieces zero bytes = []
pieces (suc n) bytes = take 960 bytes ∷ pieces n (drop 960 bytes)

pieces-joined :
    (fs : List (List ℕ)) (rest : List ℕ)
    → All (λ f. length f ≡ 960) fs
    → pieces (length fs) (joined fs ++ rest) ≡ fs
unfolding pieces joined
pieces-joined [] rest all = refl
pieces-joined (f ∷ fs) rest all =
    ap (λ xs. take 960 xs ∷ pieces (length fs) (drop 960 xs)) (++-assoc f (joined fs) rest)
    ∙ ap (λ x. x ∷ pieces (length fs) (drop 960 (f ++ (joined fs ++ rest))))
        (take-front 960 f (joined fs ++ rest) all.0)
    ∙ ap (λ xs. f ∷ pieces (length fs) xs) (drop-front 960 f (joined fs ++ rest) all.0)
    ∙ ap (λ xs. f ∷ xs) (pieces-joined fs rest all.1)

-- One datagram for each 960 bytes that have been decoded, in their order: behind the 12 bytes of the
-- header stands what `codes` says of them.
abbrev pub Answered : ℕ → Sc → (List (List ℕ) → List (List ℕ)) → Run → Type 0
Answered m receiver codes run =
    All (Datagram m receiver) run.sent
    × (length run.sent ≡ length run.decoded / 960)
    × (map (drop 12) run.sent ≡ codes (pieces (length run.decoded / 960) run.decoded))

process_session-Answered :
    (e d : Started) (s : Members) (packets : List (List ℕ)) (m : ℕ) (receiver : Sc)
    (step : e.coder.State → List ℕ → e.coder.State × List ℕ)
    → CodesAs e.coder m step
    → m ≤ 65524
    → receiver.first_pack ≡ true
    → FitsHeader s.sc_send.send_header
    → Answered m receiver (codes_of step e.state) (process_session (some e) (some d) s packets)
unfolding process_session process_loop joined down_relay
process_session-Answered e d s packets m receiver step coding small fresh header =
    let l = down_relay e d s in
    let room : length l.session.send_buff ≡ 65536 = length-replicate {A = ℕ} 65536 0 in
    let sends =
      process_loop-sends e.coder d.coder m receiver l packets
        (CodesAs-Codes e.coder d.coder m step small coding) (omega (arith, small)) fresh
        (header, room) tt refl in
    let framed =
      process_packets-IsFramed (relay_recv e.coder d.coder) (relay_send e.coder d.coder) 960 l
        packets (omega arith) (record { whole = tt; kept = refl }) (omega arith) in
    let coded =
      process_loop-codes e.coder d.coder m step l packets coding small (header, room) refl refl in
    let l' = process_loop e.coder d.coder 480 l packets in
    let whole : length (joined l'.frames) ≡ length l'.frames * 960 =
      length-joined 960 l'.frames framed.0.whole in
    let bytes : length l'.decoded ≡ length (joined l'.frames) + length l'.frame_buff =
      ap length (sym framed.0.kept) ∙ length-append (joined l'.frames) l'.frame_buff in
    let waits : length l'.frame_buff < 960 = framed.1 in
    let count : length l'.frames ≡ length l'.decoded / 960 = omega arith in
    let cut : pieces (length l'.decoded / 960) l'.decoded ≡ l'.frames =
      ap (λ n. pieces n l'.decoded) (sym count)
      ∙ ap (pieces (length l'.frames)) (sym framed.0.kept)
      ∙ pieces-joined l'.frames l'.frame_buff framed.0.whole in
    (sends.0, sends.1 ∙ count, coded ∙ ap (codes_of step e.state) (sym cut))

-- The bytes that a coder makes of a datagram's speech, where that is known.
abbrev pub code_length : CodecType → ℕ
code_length amr_wb = 480
code_length codec2 = 18
code_length pcm_a = 480
code_length pcm_u = 480
code_length unknown = 480

-- An encoder that makes codes of that length: mu-law, or Codec2 if its library codes a frame as 6
-- bytes.
abbrev pub IsSteady : Libraries → CodecType → Type 0
IsSteady lib t = (t ≡ pcm_u) ⊎ ((t ≡ codec2) × Sized lib.codec2_encode 6)

-- What such an encoder makes of pieces of speech: the mu-law codes of their samples, or the Codec2
-- codes of their three frames each, from the state that `codec2_create` gives.
unfoldable pub codes_by : Libraries → CodecType → List (List ℕ) → List (List ℕ)
codes_by lib amr_wb fs = []
codes_by lib codec2 fs =
    codes_of (coded lib.codec2_encode 320 3) (Codec2.init none lib.encoder_created).1 fs
codes_by lib pcm_a fs = []
codes_by lib pcm_u fs = map (λ f. map ulaw_encode (speech f)) fs
codes_by lib unknown fs = []

ulaw-codes_of :
    (st : Unit {0}) (fs : List (List ℕ))
    → codes_of (λ st f. (st, map ulaw_encode (speech f))) st fs
      ≡ map (λ f. map ulaw_encode (speech f)) fs
unfolding codes_of
ulaw-codes_of st [] = refl
ulaw-codes_of st (f ∷ fs) = ap (λ l. map ulaw_encode (speech f) ∷ l) (ulaw-codes_of st fs)

abbrev Steady : Libraries → CodecType → Type 1
Steady lib t =
    (e : Started) × (step : e.coder.State → List ℕ → e.coder.State × List ℕ) × (encoder_of lib t
      ≡ some e)
    × CodesAs e.coder (code_length t) step
    × ((fs : List (List ℕ)) → codes_of step e.state fs ≡ codes_by lib t fs)

steady-Codes : (lib : Libraries) (t : CodecType) → IsSteady lib t → Steady lib t
unfolding encoder_of codes_by
steady-Codes lib t (inl e) = subst (Steady lib) (sym e) (
  record { coder = pcm_u_encoder; state = tt },
  λ st f. (st, map ulaw_encode (speech f)),
  refl,
  pcm_u-CodesAs,
  ulaw-codes_of tt,
)
steady-Codes lib t (inr (e, sized)) = subst (Steady lib) (sym e) (
  record {
    coder = codec2_encoder lib.codec2_encode;
    state = (Codec2.init none lib.encoder_created).1;
  },
  coded lib.codec2_encode 320 3,
  refl,
  codec2-CodesAs lib.codec2_encode sized,
  λ fs. refl,
)

known-decoder :
    (lib : Libraries) (t : CodecType)
    → is_err t ≡ false
    → (d : Started) × (decoder_of lib t ≡ some d)
unfolding decoder_of is_err
known-decoder lib amr_wb h = (_, refl)
known-decoder lib codec2 h = (_, refl)
known-decoder lib pcm_a h = (_, refl)
known-decoder lib pcm_u h = (_, refl)
known-decoder lib unknown h = absurd (ground arith)

code_length-small : (t : CodecType) → code_length t ≤ 65524
code_length-small amr_wb = omega arith
code_length-small codec2 = omega arith
code_length-small pcm_a = omega arith
code_length-small pcm_u = omega arith
code_length-small unknown = omega arith

module _ (a : Answers) where
  -- A good entry from 4G gets a download thread. Where the sockets open and the coders start, and the
  -- encoder is mu-law or Codec2 (whose library then codes a frame as 6 bytes), the thread answers: for
  -- any datagrams that come it passes one datagram to its socket for each 960 bytes of speech that have
  -- been decoded. Each has 12 + 480 or 12 + 18 bytes, and a receiver that has seen nothing accepts it;
  -- behind the 12 bytes of the SC2 header stand, from datagram to datagram, the mu-law codes of those
  -- 960 bytes, or the Codec2 codes of their three frames, coded one after the other.
  pub down_loop-Answered :
      (lib : Libraries) (s : Members) (c : Config) (packets : List (List ℕ)) (receiver : Sc)
      → IsGood c
      → string_to_forward c.forward ≡ from_4g
      → Opens a c
      → IsSteady lib (string_to_type c.dst_codec)
      → receiver.first_pack ≡ true
      → (thread_of c ≡ Startup.down_loop (param_of c))
        × Answered
            (code_length (string_to_type c.dst_codec))
            receiver
            (codes_by lib (string_to_type c.dst_codec))
            (Loops.down_loop a lib s (param_of c) packets)
  unfolding Loops.down_loop thread_of param_of
  down_loop-Answered lib s c packets receiver good from opens steady fresh =
      let init = download_init_lem a s (param_of c) ((Starts-Opens a c good).1 opens) in
      let (d, known) = known-decoder lib (string_to_type c.src_codec) good.decoder_known in
      let (e, step, made, coding, same) = steady-Codes lib (string_to_type c.dst_codec) steady in
      let header = (init_lem s.sc_send 0x20 to_4g 0 (omega arith)).4 in
      let run =
        process_session-Answered e d (download_init a s (param_of c)).1 packets
          (code_length (string_to_type c.dst_codec)) receiver step coding
          (code_length-small (string_to_type c.dst_codec)) fresh (rw init.3 header) in
      (
        rw (from, thread_of) refl,
        rw (init.0, init.1, init.2, made, known, Loops.down_loop)
            (run.0, run.1, run.2 ∙ same (pieces _ _)),
      )
