-- ===== src/Sc.antt =====
-- src/sc.h and src/sc.cpp: the SC2 header and the two ends of an SC stream.
-- `SCHeader` is packed by `#pragma pack(2)`, so its twelve bytes are the fields one behind the
-- other. The host is little-endian: `forward_ptr[3]` is the most significant byte of `sn_forward`.
pub mod Wire
pub mod Sender
pub mod Receiver
mod Tests
use codec_single_thread.Base.{
  ℕ, ◌+◌, ◌-◌, ◌*◌, ◌/◌, ◌%◌, ◌^◌, Bool, true, false, not, List, ◌++◌, Option, none, some, ltb,
  ◌==◌, if◌then◌else◌, length, overwrite, swap16, swap32, store16, store32, load16, load32, u32,
}

pub data Transforward : Type 0 where
  to_4g from_4g : Transforward

-- uint8_t(forward)
abbrev pub forward_byte : Transforward → ℕ
forward_byte to_4g = 0
forward_byte from_4g = 1

pub record ScHeader : Type 0 where
  pub ueid : ℕ
  pub sn_forward : ℕ
  pub length : ℕ
  pub rev : ℕ

-- sizeof(SCHeader), and the constant that the code compares it with
abbrev pub sizeof_sc_header : ℕ
sizeof_sc_header = 4 + 4 + 2 + 2

abbrev pub sc_head_size : ℕ
sc_head_size = 12

abbrev pub sc_frames : ℕ
sc_frames = 3

pub get_sc_forward : ScHeader → ℕ
get_sc_forward h = h.sn_forward / 2 ^ 24 % 2 ^ 8

pub set_sc_forward : ScHeader → ℕ → ScHeader
set_sc_forward h forward = record h {
  sn_forward = h.sn_forward % 2 ^ 24 + forward % 2 ^ 8 * 2 ^ 24;
}

unfoldable pub get_sc_sn : ScHeader → ℕ
get_sc_sn h = h.sn_forward % 2 ^ 24

-- `(sn_forward & 0xff000000) | (sn & 0x00ffffff)`: two fields that share no bit
pub set_sc_sn : ScHeader → ℕ → ScHeader
set_sc_sn h sn = record h { sn_forward = h.sn_forward / 2 ^ 24 % 2 ^ 8 * 2 ^ 24 + sn % 2 ^ 24 }

pub sc_copy_to_net : ScHeader → ScHeader
sc_copy_to_net from = record {
  ueid = swap32 from.ueid;
  sn_forward = swap32 from.sn_forward;
  length = swap16 from.length;
  rev = swap16 from.rev;
}

unfoldable pub sc_copy_from_net : ScHeader → ScHeader
sc_copy_from_net from = record {
  ueid = swap32 from.ueid;
  sn_forward = swap32 from.sn_forward;
  length = swap16 from.length;
  rev = swap16 from.rev;
}

-- The struct in memory, and the struct that a pointer cast reads.
pub store_header : ScHeader → List ℕ
store_header h = store32 h.ueid ++ (store32 h.sn_forward ++ (store16 h.length ++ store16 h.rev))

unfoldable pub load_header : List ℕ → ScHeader
load_header data' = record {
  ueid = load32 data' 0;
  sn_forward = load32 data' 4;
  length = load16 data' 8;
  rev = load16 data' 10;
}

abbrev pub zero_header : ScHeader
zero_header = record { ueid = 0; sn_forward = 0; length = 0; rev = 0 }

pub record Sc : Type 0 where
  pub send_header : ScHeader
  pub recv_header : ScHeader
  pub first_pack : Bool

pub check_head_size : Bool
check_head_size = sizeof_sc_header == sc_head_size

-- The number is what the C++ function returns, `none` its -1.
pub init : Sc → ℕ → Transforward → ℕ → Option ℕ × Sc
unfolding check_head_size set_sc_forward set_sc_sn
init sc ueid forward sn = if not check_head_size then (none, sc) else (
  some 0,
  record {
    send_header =
        set_sc_sn (set_sc_forward (record zero_header { ueid = ueid }) (forward_byte forward)) sn;
    recv_header = zero_header;
    first_pack = true;
  },
)

pub reset_recv : Sc → Option ℕ × Sc
unfolding check_head_size
reset_recv sc =
    if not check_head_size
    then (none, sc)
    else (some 0, record sc { recv_header = zero_header; first_pack = true })

-- The header that `Send` builds before it copies it out. The sum is that of uint32_t.
pub next_header : ScHeader → ℕ → ScHeader
unfolding set_sc_sn get_sc_sn
next_header h payload_length =
    let h' : ScHeader = record h { length = payload_length } in
    set_sc_sn h' (u32 (get_sc_sn h' + 1))

-- The result, the sender and the buffer.
pub send : Sc → ℕ → List ℕ → ℕ → Option ℕ × Sc × List ℕ
unfolding next_header sc_copy_to_net store_header
send sc payload_length buff buff_length =
    if ltb buff_length sizeof_sc_header
    then (none, sc, buff)
    else let header : ScHeader = next_header sc.send_header payload_length in
      (
        some sizeof_sc_header,
        record sc { send_header = header },
        overwrite (store_header (sc_copy_to_net header)) buff,
      )

-- The result, the receiver, and the output parameter, which is 0 from the third statement on. The
-- source names it `lost_pack` and assigns to `sn`; sc.h names it `sn`.
unfoldable pub recv : Sc → List ℕ → ℕ → ℕ → Option ℕ × Sc × ℕ
unfolding load_header sc_copy_from_net get_sc_forward get_sc_sn
recv sc data' data_length sn =
    if ltb data_length sizeof_sc_header
    then (none, sc, sn)
    else let now_header : ScHeader = sc_copy_from_net (load_header data') in
      if not (data_length == sizeof_sc_header + now_header.length)
      then (none, sc, 0)
      else if sc.first_pack
      then (some sizeof_sc_header, record sc { first_pack = false; recv_header = now_header }, 0)
      else if not (get_sc_forward now_header == get_sc_forward sc.recv_header)
      then (none, sc, 0)
      else (some sizeof_sc_header, sc, get_sc_sn sc.recv_header)
