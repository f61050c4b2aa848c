-- ===== src/Socket/Remote.antt =====
-- Any sequence of calls on a `UdpSocket`: where `Send` goes.
use codec_single_thread.Socket.{
  Address, System, UdpSocket, default, part, is_open, init, bind, close, send, recv_from,
  set_send_ip, send_to,
}
use codec_single_thread.Base.{
  ℕ, List, [], ◌∷◌, Option, none, some, ◌≡◌, refl, if◌then◌else◌, swap16, arith, true, false,
}

-- A call of a method, with its arguments.
pub data Call : Type 0 where
  init_call close_call : Call
  bind_call : ℕ → Call
  set_call : Option (List ℕ) → ℕ → Call
  send_call : List ℕ → Option ℕ → Call
  send_to_call : List ℕ → ℕ → List ℕ → Option ℕ → Call
  recv_call : List ℕ → ℕ → Call

module _ {W : Type 0} (system : System W) (inet_addr : List ℕ → ℕ) where
  -- The socket and the world after a call.
  unfoldable pub perform : Call → UdpSocket × W → UdpSocket × W
  perform init_call (s, w) = let (r, s', w') = init system s w in (s', w')
  perform close_call (s, w) = close system s w
  perform (bind_call port) (s, w) = (s, (bind system s port w).1)
  perform (set_call ip port) (s, w) = (set_send_ip inet_addr s ip port, w)
  perform (send_call buff n) (s, w) = (s, (send system s buff n w).1)
  perform (send_to_call ip port buff n) (s, w) =
      (s, (send_to inet_addr system s ip port buff n w).1)
  perform (recv_call buff room) (s, w) = (s, (recv_from system s buff room w).3)

  unfoldable pub perform_all : List Call → UdpSocket × W → UdpSocket × W
  perform_all [] s = s
  perform_all (c ∷ cs) s = perform_all cs (perform c s)

  -- The abstract socket: the address that was last set, by a call.
  unfoldable pub set_by : Call → Option Address → Option Address
  set_by init_call a = a
  set_by close_call a = a
  set_by (bind_call port) a = a
  set_by (set_call none port) a = a
  set_by (set_call (some ip) port) a =
      some (record { s_addr = inet_addr ip; sin_port = swap16 port })
  set_by (send_call buff n) a = a
  set_by (send_to_call ip port buff n) a = a
  set_by (recv_call buff room) a = a

  unfoldable pub last_set : List Call → Option Address → Option Address
  last_set [] a = a
  last_set (c ∷ cs) a = last_set cs (set_by c a)

  -- The members stand for an abstract socket.
  abbrev pub Stands : UdpSocket → Option Address → Type 0
  Stands s none = s.remote_set ≡ false
  Stands s (some a) = (s.remote_set ≡ true) × (s.remote_addr ≡ a)

  Stands-fd :
      (s : UdpSocket) (fd : Option ℕ) (a : Option Address)
      → Stands s a
      → Stands (record s { fd = fd }) a
  Stands-fd s fd none h = h
  Stands-fd s fd (some to) h = h

  perform-Stands :
      (c : Call) (s : UdpSocket) (w : W) (a : Option Address)
      → Stands s a
      → Stands (perform c (s, w)).0 (set_by c a)
  unfolding perform set_by init close set_send_ip
  perform-Stands init_call s w a h = Stands-fd s (init system s w).1.fd a h
  perform-Stands close_call s w a h = Stands-fd s none a h
  perform-Stands (bind_call port) s w a h = h
  perform-Stands (set_call none port) s w a h = h
  perform-Stands (set_call (some ip) port) s w a h = (refl, refl)
  perform-Stands (send_call buff n) s w a h = h
  perform-Stands (send_to_call ip port buff n) s w a h = h
  perform-Stands (recv_call buff room) s w a h = h

  perform_all-Stands :
      (cs : List Call) (s : UdpSocket) (w : W) (a : Option Address)
      → Stands s a
      → Stands (perform_all cs (s, w)).0 (last_set cs a)
  unfolding perform_all last_set
  perform_all-Stands [] s w a h = h
  perform_all-Stands (c ∷ cs) s w a h =
      let r = perform c (s, w) in
      perform_all-Stands cs r.0 r.1 (set_by c a) (perform-Stands c s w a h)

  send-Stands :
      (s : UdpSocket) (w : W) (a : Option Address) (buff : List ℕ) (n : Option ℕ)
      → Stands s a
      → send system s buff n w ≡ (elim a [
        | none ↦ (none, w)
        | some to ↦ if is_open s.fd then system.sendto s.fd to (part buff n) w else (none, w)
      ])
  unfolding send
  send-Stands s w none buff n h = ground (arith, h)
  send-Stands s w (some to) buff n h = ground (arith, h)

  -- After any calls on a new socket, `Send` sends to the address that was last set, if one was and the
  -- descriptor is above 0, and otherwise fails and sends nothing.
  pub send-perform_all :
      (cs : List Call) (unset : Address) (w : W) (buff : List ℕ) (n : Option ℕ)
      → let (s, w') = perform_all cs (default unset, w) in
        send system s buff n w' ≡ (elim (last_set cs none) [
          | none ↦ (none, w')
          | some to ↦ if is_open s.fd then system.sendto s.fd to (part buff n) w' else (none, w')
        ])
  send-perform_all cs unset w buff n =
      let r = perform_all cs (default unset, w) in
      send-Stands r.0 r.1 (last_set cs none) buff n
        (perform_all-Stands cs (default unset) w none refl)

  -- A socket that gets the descriptor 0 is taken to be open by `Init`, but never sends after
  -- `SetSendIp`, and `Close` does not close it.
  pub init_zero :
      (s : UdpSocket) (w w' : W) (ip : Option (List ℕ)) (port : ℕ) (buff : List ℕ) (n : Option ℕ)
      → system.socket w ≡ (some 0, w')
      → let (r, s', w'') = init system s w in
        (r ≡ some 0)
        × (send system (set_send_ip inet_addr s' ip port) buff n w'' ≡ (none, w''))
        × ((close system s' w'').1 ≡ w'')
  unfolding init send set_send_ip close
  init_zero s w w' none port buff n e = ground (arith, e)
  init_zero s w w' (some ip) port buff n e = ground (arith, e)
