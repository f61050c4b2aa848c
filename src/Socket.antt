-- ===== src/Socket.antt =====
-- `UdpSocket` of src/udp.h and src/udp.cpp.
--
-- The system calls are an interface over the state `W` of the world, and `inet_addr` is an argument.
-- A descriptor, a result and a number of bytes are none where the source has -1. A text is the list
-- of its characters, none for a null pointer; an address has its members in network order, as in
-- `sockaddr_in`.
pub mod Remote
mod Tests
use codec_single_thread.Base.{
  ℕ, List, Bool, true, false, not, ◌||◌, Option, none, some, ltb, if◌then◌else◌, ◌>>=◌, take,
  length, overwrite, swap16,
}

pub record Address : Type 0 where
  pub s_addr : ℕ
  pub sin_port : ℕ

-- `sendto` has no bytes where the length is -1, which is the largest `size_t`. `recvfrom` gives the
-- bytes that it writes to the buffer, whose length it is told.
pub record System (W : Type 0) : Type 0 where
  pub socket : W → Option ℕ × W
  pub bind : Option ℕ → Address → W → Option ℕ × W
  pub close : ℕ → W → W
  pub sendto : Option ℕ → Address → Option (List ℕ) → W → Option ℕ × W
  pub recvfrom : Option ℕ → ℕ → W → Option (List ℕ) × Address × W

pub record UdpSocket : Type 0 where
  pub fd : Option ℕ
  pub remote_set : Bool
  pub remote_addr : Address

-- The members' initial values; the address has none.
abbrev pub default : Address → UdpSocket
default unset = record { fd = none; remote_set = false; remote_addr = unset }

-- The first `length` bytes of a buffer.
abbrev pub part : List ℕ → Option ℕ → Option (List ℕ)
part buff length = length >>= λ n. some (take n buff)

-- `fd_ > 0`
abbrev pub is_open : Option ℕ → Bool
is_open none = false
is_open (some fd) = ltb 0 fd

module _ {W : Type 0} (system : System W) where
  unfoldable pub init : UdpSocket → W → Option ℕ × UdpSocket × W
  init s w = let (fd, w') = system.socket w in (fd >>= λ n. some 0, record s { fd = fd }, w')

  -- INADDR_ANY is 0.
  unfoldable pub bind : UdpSocket → ℕ → W → Option ℕ × W
  bind s port w = system.bind s.fd (record { s_addr = 0; sin_port = swap16 port }) w

  unfoldable pub close : UdpSocket → W → UdpSocket × W
  close s w = (
    record s { fd = none },
    elim s.fd [ none ↦ w | some fd ↦ if ltb 0 fd then system.close fd w else w ],
  )

  unfoldable pub send : UdpSocket → List ℕ → Option ℕ → W → Option ℕ × W
  send s buff length w =
      if not s.remote_set || not (is_open s.fd)
      then (none, w)
      else system.sendto s.fd s.remote_addr (part buff length) w

  -- The result, the buffer, the address of the sender, and the world.
  unfoldable pub recv_from : UdpSocket → List ℕ → ℕ → W → Option ℕ × List ℕ × Address × W
  recv_from s buff room w =
      let (bytes, from, w') = system.recvfrom s.fd room w in
      (
        bytes >>= λ d. some (length d),
        elim bytes [ none ↦ buff | some d ↦ overwrite d buff ],
        from,
        w',
      )

module _ (inet_addr : List ℕ → ℕ) where
  -- `inet_addr` is not asked whether it failed.
  unfoldable pub set_send_ip : UdpSocket → Option (List ℕ) → ℕ → UdpSocket
  set_send_ip s none port = s
  set_send_ip s (some ip) port = record s {
    remote_addr = record { s_addr = inet_addr ip; sin_port = swap16 port };
    remote_set = true;
  }

  module _ {W : Type 0} (system : System W) where
    unfoldable pub send_to : UdpSocket → List ℕ → ℕ → List ℕ → Option ℕ → W → Option ℕ × W
    send_to s ip port buff length w =
        system.sendto s.fd (record { s_addr = inet_addr ip; sin_port = swap16 port })
          (part buff length) w
