-- ===== src/Startup/Reading.antt =====
-- `ReadConfig` of src/utils.cpp, and `main` of src/main.cpp.
--
-- jsoncpp is a parameter: the operations on a value that `main` calls, none where they throw. A file
-- is the list of its bytes, none where it does not open.
use codec_single_thread.Startup.{
  Config, Thread, Outcome, config_error, thrown, start_sessions, codes,
}
use codec_single_thread.Base.{ℕ, Bool, not, List, [], Option, none, some, map, if◌then◌else◌, ◌>>=◌}

pub record Json : Type 1 where
  pub Value : Type 0
  -- `Json::Value()`
  pub null : Value
  -- `value[key]`, `isArray`, and `value[0]` to `value[size() - 1]` of an array
  pub member : Value → List ℕ → Option Value
  pub is_array : Value → Bool
  pub elements : Value → List Value
  pub as_string : Value → Option (List ℕ)
  pub as_uint : Value → Option ℕ
  pub as_bool : Value → Option Bool
  -- `fd >> value`: whether it throws, and the value that it leaves
  pub parse : Value → List ℕ → Bool × Value

module _ (json : Json) where
  -- none is -1
  unfoldable pub read_config : Option (List ℕ) → json.Value → Option ℕ × json.Value
  read_config none config = (none, config)
  read_config (some text) config =
      let (throws, config') = json.parse config text in
      if throws then (none, config') else (some 0, config')

  unfoldable pub text_of : json.Value → List ℕ → Option (List ℕ)
  text_of config key = json.member config key >>= json.as_string

  unfoldable pub uint_of : json.Value → List ℕ → Option ℕ
  uint_of config key = json.member config key >>= json.as_uint

  pub bool_of : json.Value → List ℕ → Option Bool
  bool_of config key = json.member config key >>= json.as_bool

  -- The members for the UDP/IP header, which are read where it is added; the ports are not used.
  pub udpip_of : json.Value → Bool → Option (List ℕ × List ℕ)
  unfolding text_of uint_of
  udpip_of config add_udpip = if not add_udpip then some ([], []) else do
    sip ← text_of config (codes "udpip_sip")
    dip ← text_of config (codes "udpip_dip")
    sport ← uint_of config (codes "udpip_sport")
    dport ← uint_of config (codes "udpip_dport")
    some (sip, dip)

  -- An entry of the array.
  unfoldable pub config_of : json.Value → Option Config
  unfolding text_of uint_of bool_of udpip_of
  config_of config = do
    src_codec ← text_of config (codes "src_codec")
    dst_codec ← text_of config (codes "dst_codec")
    forward ← text_of config (codes "forward")
    recv_port ← uint_of config (codes "recv_port")
    ip ← text_of config (codes "ip")
    send_port ← uint_of config (codes "send_port")
    add_udpip ← bool_of config (codes "add_udpip")
    send_sc ← bool_of config (codes "send_sc")
    (sip, dip) ← udpip_of config add_udpip
    some (record {
      src_codec = src_codec;
      dst_codec = dst_codec;
      forward = forward;
      recv_port = recv_port;
      ip = ip;
      send_port = send_port;
      add_udpip = add_udpip;
      send_sc = send_sc;
      udpip_sip = sip;
      udpip_dip = dip;
    })

  -- `main`; the result of `ReadConfig` is not read.
  unfoldable pub run_main : Option (List ℕ) → Outcome × List Thread
  unfolding read_config config_of
  run_main file =
      let (_, root) = read_config file json.null in
      elim (json.member root (codes "session")) [
        | none ↦ (thrown, [])
        | some sessions ↦
            if not (json.is_array sessions)
            then (config_error, [])
            else start_sessions (map config_of (json.elements sessions)) []
      ]
