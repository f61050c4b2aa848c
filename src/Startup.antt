-- ===== src/Startup.antt =====
-- The sessions of src/main.cpp, with `StringToType` and `StringToForward` of src/utils.h.
--
-- An entry of the array "session" is a record of the values of its members; how they are read is in
-- Startup/Reading.antt. A text
-- is the list of its bytes. A copy of 16 bytes or more by `strcpy` into an array of 16 writes past it:
-- the model stops there. The members `udpip_*` of `param` are left out, as in `SessionParam`; only that
-- their copies fit matters.
pub mod Names
pub mod Threads
pub mod Reading
pub mod Starting
pub mod Sessions
pub mod Loops
mod Tests
use Prim.Native.Char.{code}
use Prim.Native.String.{String}
use codec_single_thread.Sc.{Transforward, to_4g, from_4g}
use codec_single_thread.Session.Setup.{
  CodecType, amr_wb, codec2, pcm_a, pcm_u, unknown, SessionParam,
}
use codec_single_thread.Base.{
  ℕ, ◌%◌, ◌^◌, Bool, true, false, ◌&&◌, ◌||◌, List, [], ◌∷◌, ◌++◌, ltb, leb, ◌==◌, if◌then◌else◌,
  length, some, none, Option,
}

-- The bytes of a literal.
abbrev pub codes : String → List ℕ
codes String.[] = []
codes (String.◌∷◌ c s) = code c ∷ codes s

unfoldable pub same_text : List ℕ → List ℕ → Bool
same_text [] [] = true
same_text [] (d ∷ t) = false
same_text (c ∷ s) [] = false
same_text (c ∷ s) (d ∷ t) = (c == d) && same_text s t

unfoldable pub string_to_type : List ℕ → CodecType
unfolding same_text
string_to_type str =
    if same_text str (codes "amr") || same_text str (codes "AMR")
    then amr_wb
    else if same_text str (codes "codec2") || same_text str (codes "Codec2")
    then codec2
    else if same_text str (codes "PCMA") || same_text str (codes "PcmA")
    then pcm_a
    else if same_text str (codes "PCMU") || same_text str (codes "PcmU")
    then pcm_u
    else unknown

unfoldable pub string_to_forward : List ℕ → Transforward
unfolding same_text
string_to_forward str =
    if same_text str (codes "To4G") || same_text str (codes "TO4G")
    then to_4g
    else if same_text str (codes "From4G") || same_text str (codes "FROM4G")
    then from_4g
    else to_4g

pub record Config : Type 0 where
  pub src_codec : List ℕ
  pub dst_codec : List ℕ
  pub forward : List ℕ
  pub recv_port : ℕ
  pub ip : List ℕ
  pub send_port : ℕ
  pub add_udpip : Bool
  pub send_sc : Bool
  pub udpip_sip : List ℕ
  pub udpip_dip : List ℕ

-- A thread of the program, with its `param`.
pub data Thread : Type 0 where
  up_loop down_loop : SessionParam → Thread

-- How the loop ends: all entries are done, `return -1`, a write past an array, or an exception that
-- nothing catches.
pub data Outcome : Type 0 where
  joined config_error overflow thrown : Outcome

-- The text that `c_str()` is as a C string.
unfoldable pub c_string : List ℕ → List ℕ
c_string [] = []
c_string (c ∷ cs) = let rest = c_string cs in if c == 0 then [] else c ∷ rest

-- `strcpy` writes past an array of 16 bytes.
unfoldable pub too_long : List ℕ → Bool
unfolding c_string
too_long s = leb 16 (length (c_string s))

-- `param`, where the copies fit.
unfoldable pub param_of : Config → SessionParam
unfolding string_to_type c_string
param_of config = record {
  recv_port = config.recv_port % 2 ^ 16;
  remote_port = config.send_port % 2 ^ 16;
  ip = c_string config.ip;
  ueid = 0x20;
  encoder_type = string_to_type config.dst_codec;
  decoder_type = string_to_type config.src_codec;
  if_add_udpip = config.add_udpip;
  if_send_sc = config.send_sc;
}

unfoldable pub thread_of : Config → Thread
unfolding string_to_forward param_of
thread_of config = elim (string_to_forward config.forward) [
  | to_4g ↦ up_loop (param_of config)
  | from_4g ↦ down_loop (param_of config)
]

unfoldable pub is_err : CodecType → Bool
is_err amr_wb = false
is_err codec2 = false
is_err pcm_a = false
is_err pcm_u = false
is_err unknown = true

-- The loop of `main` over the entries: how it ends, and the threads that were started, after `th`. An
-- entry is none where one of its members is not of the type that is asked for.
unfoldable pub start_sessions : List (Option Config) → List Thread → Outcome × List Thread
unfolding string_to_type is_err too_long thread_of
start_sessions [] th = (joined, th)
start_sessions (none ∷ configs) th = (thrown, th)
start_sessions (some config ∷ configs) th =
    let skipped = start_sessions configs th in
    let started = start_sessions configs (th ++ (thread_of config ∷ [])) in
    if config.add_udpip && (ltb 16 (length config.udpip_sip) || ltb 16 (length config.udpip_dip))
    then skipped
    else if is_err (string_to_type config.dst_codec) || is_err (string_to_type config.src_codec)
    then (config_error, th)
    else if too_long config.ip
    then (overflow, th)
    else if config.add_udpip && (too_long config.udpip_sip || too_long config.udpip_dip)
    then (overflow, th)
    else started
