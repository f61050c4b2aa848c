-- ===== src/Startup/Threads.antt =====
-- The threads that `main` starts, and where it stops.
use mathlib.Core.List.{append-nil, append_assoc}
use codec_single_thread.Startup.{
  Config, Thread, Outcome, joined, config_error, overflow, thrown, thread_of, start_sessions,
  too_long, c_string, string_to_type, is_err,
}
use codec_single_thread.Base.{
  ℕ, ◌≡◌, ◌≢◌, ◌≤◌, ◌<◌, refl, sym, ap, ◌∙◌, arith, true, false, List, [], ◌∷◌, ◌++◌, map, All,
  length, ◌⊎◌, Option, some, none,
}

-- The members of a configuration that the loop accepts.
pub record IsGood (c : Config) : Type 0 where
  pub encoder_known : is_err (string_to_type c.dst_codec) ≡ false
  pub decoder_known : is_err (string_to_type c.src_codec) ≡ false
  pub ip_fits : too_long c.ip ≡ false
  pub sip_fits : c.add_udpip ≡ true → (length c.udpip_sip < 16)
  pub dip_fits : c.add_udpip ≡ true → (length c.udpip_dip < 16)

length-c_string : (s : List ℕ) → length (c_string s) ≤ length s
unfolding c_string
length-c_string [] = omega arith
length-c_string (b ∷ s) = ground (arith, length-c_string s)

c_string-whole : (s : List ℕ) → All (λ b. b ≢ 0) s → c_string s ≡ s
unfolding c_string
c_string-whole [] h = refl
c_string-whole (b ∷ s) h = ground (arith, h.0, c_string-whole s h.1)

fits-short : (s : List ℕ) → length s < 16 → too_long s ≡ false
unfolding too_long
fits-short s h = ground (arith, length-c_string s)

start-good :
    (c : Config) (cs : List (Option Config)) (th : List Thread)
    → IsGood c
    → start_sessions (some c ∷ cs) th ≡ start_sessions cs (th ++ (thread_of c ∷ []))
unfolding start_sessions
start-good c cs th v = ground (
  arith,
  v.encoder_known,
  v.decoder_known,
  v.ip_fits,
  v.sip_fits,
  v.dip_fits,
  fits-short c.udpip_sip,
  fits-short c.udpip_dip,
)

-- Good entries are started in their order, and the loop goes on behind them.
start-append :
    (good : List Config) (cs : List (Option Config)) (th : List Thread)
    → All IsGood good
    → start_sessions (map some good ++ cs) th ≡ start_sessions cs (th ++ map thread_of good)
start-append [] cs th v = ap (start_sessions cs) (sym (append-nil th))
start-append (c ∷ good) cs th v =
    start-good c (map some good ++ cs) th v.0
    ∙ start-append good cs (th ++ (thread_of c ∷ [])) v.1
    ∙ ap (start_sessions cs) (append_assoc th (thread_of c ∷ []) (map thread_of good))

-- An array of good entries is started whole: one thread each, in their order, with the parameters
-- that the entry names.
pub start_sessions_lem :
    (good : List Config)
    → All IsGood good
    → start_sessions (map some good) [] ≡ (joined, map thread_of good)
unfolding start_sessions
start_sessions_lem good v =
    ap (λ cs. start_sessions cs []) (sym (append-nil (map some good))) ∙ start-append good [] [] v

-- How an entry ends the loop: a member of another type throws, and a coder that is not known is an
-- error.
abbrev pub Refused : Option Config → Outcome → Type 0
Refused none o = o ≡ thrown
Refused (some c) o =
    (c.add_udpip ≡ false)
    × ((is_err (string_to_type c.dst_codec) ≡ true) ⊎ (is_err (string_to_type c.src_codec) ≡ true))
    × (o ≡ config_error)

-- Such an entry ends the program, although the threads of the good entries before it run; no entry
-- behind it is started.
pub start_sessions-Refused :
    (good : List Config) (cs : List (Option Config)) (entry : Option Config) (o : Outcome)
    → All IsGood good
    → Refused entry o
    → start_sessions (map some good ++ (entry ∷ cs)) [] ≡ (o, map thread_of good)
unfolding start_sessions
start_sessions-Refused good cs none o v bad =
    start-append good (none ∷ cs) [] v ∙ ap (λ k. (k, map thread_of good)) (sym bad)
start_sessions-Refused good cs (some c) o v bad =
    start-append good (some c ∷ cs) [] v ∙ ground (arith, bad)

-- A source address of 16 bytes, none of them 0, for the UDP/IP headers passes the test on its length, and its copy writes
-- past the array of 16 bytes.
pub start_sessions-overflow :
    (c : Config) (cs : List (Option Config)) (th : List Thread)
    → is_err (string_to_type c.dst_codec) ≡ false
    → is_err (string_to_type c.src_codec) ≡ false
    → c.add_udpip ≡ true
    → length c.udpip_sip ≡ 16
    → length c.udpip_dip ≤ 16
    → All (λ b. b ≢ 0) c.udpip_sip
    → start_sessions (some c ∷ cs) th ≡ (overflow, th)
unfolding start_sessions too_long
start_sessions-overflow c cs th known known' udpip sip dip whole =
    ground (arith, ap length (c_string-whole c.udpip_sip whole))
