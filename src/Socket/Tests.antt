-- ===== src/Socket/Tests.antt =====
-- The socket over a small world: the list of the datagrams that were sent, with their addresses.
use codec_single_thread.Socket.{Address, System, default, send, send_to, recv_from, is_open, part}
use codec_single_thread.Socket.Remote.{
  Call, init_call, set_call, recv_call, perform_all, last_set, send-perform_all,
}
use codec_single_thread.Base.{
  ℕ, List, [], ◌∷◌, Option, none, some, ◌≡◌, refl, if◌then◌else◌, length, swap16, take,
}

abbrev nowhere : Address
nowhere = record { s_addr = 0; sin_port = 0 }

-- A system with one descriptor to give, whose datagrams come from `nowhere`.
abbrev world : Option ℕ → System (List (Address × List ℕ))
world fd = record {
  socket = λ w. (fd, w);
  bind = λ fd to w. (some 0, w);
  close = λ fd w. w;
  sendto =
      λ fd to bytes w. elim bytes [ none ↦ (none, w) | some b ↦ (some (length b), (to, b) ∷ w) ];
  recvfrom = λ fd room w. (some (take room (1 ∷ 2 ∷ 3 ∷ [])), nowhere, w);
}

abbrev digits : List ℕ → ℕ
digits [] = 0
digits (c ∷ cs) = c

-- The port 0x1234 in network order.
sent_to :
    send_to digits (world (some 3)) (default nowhere) (7 ∷ []) 0x1234 (1 ∷ 2 ∷ 3 ∷ []) (some 2) []
    ≡ (some 2, (record { s_addr = 7; sin_port = 0x3412 }, 1 ∷ 2 ∷ []) ∷ [])
unfolding send_to swap16
sent_to = refl

-- No address was set.
not_sent :
    send (world (some 3)) (record (default nowhere) { fd = some 3 }) (1 ∷ []) (some 1) []
    ≡ (none, [])
unfolding send
not_sent = refl

received :
    recv_from (world (some 3)) (default nowhere) (9 ∷ 9 ∷ 9 ∷ []) 2 []
    ≡ (some 2, 1 ∷ 2 ∷ 9 ∷ [], nowhere, [])
unfolding recv_from
received = refl

abbrev calls : List Call
calls = init_call ∷ set_call (some (5 ∷ [])) 80 ∷ set_call none 81 ∷ recv_call [] 10 ∷ []

send-perform_all_example :
    let (s, w') = perform_all (world (some 3)) digits calls (default nowhere, []) in
    send (world (some 3)) s (1 ∷ 2 ∷ []) (some 2) w'
    ≡ (elim (last_set (world (some 3)) digits calls none) [
      | none ↦ (none, w')
      | some to ↦
          if is_open s.fd
          then (world (some 3)).sendto s.fd to (part (1 ∷ 2 ∷ []) (some 2)) w'
          else (none, w')
    ])
send-perform_all_example =
    send-perform_all (world (some 3)) digits calls nowhere [] (1 ∷ 2 ∷ []) (some 2)
