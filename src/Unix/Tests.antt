-- ===== src/Unix/Tests.antt =====
-- A server and a client that exchange bytes over a stream socket.
use the_os_reborn.Common.{ℕ, ◌≡◌, ◌≢◌, refl, true, false, List, [], ◌∷◌, ◌++◌, some, take, arith}
use the_os_reborn.Unix.{
  Unix, zero_socket, sock_stream, init, create, bind, listen, find_index, find_free,
  find_by_path_locked, get_entry_locked, get_owned_locked,
}
use the_os_reborn.Unix.Transfer.{
  ok, connect, connect_stream, establish, push_accept, pop_accept, accept, sendto, send_stream,
  room_for, push_stream, write_loop, recvfrom, recv_stream, pop_stream, read_loop,
}
use the_os_reborn.Unix.Stream.{stream}
use the_os_reborn.Unix.Bytes.{IsDelivered, sendto_delivers}
use the_os_reborn.Unix.Inv.{AreSockets}
use the_os_reborn.Unix.Reach.{
  Reachable, started, created, bound_to, listened, connected_to, accepted, sent_to,
  Reachable-AreSockets,
}
use the_os_reborn.Unix.Fifo.{recvfrom-sendto}
use the_os_reborn.Unix.Receive.{IsTaken, recvfrom_takes}

abbrev cold : Unix
cold = record { lock_ready = false; initialized = false; entries = λ i. zero_socket }

abbrev path : List ℕ
path = 0x2f ∷ 0x73 ∷ 0 ∷ []

-- process 7 listens at socket 0, process 9 has connected its socket 1; socket 2 is the server's end
abbrev waiting : Unix
waiting =
    let s1 : Unix = (create 7 sock_stream (init cold)).0 in
    let s2 : Unix = (bind 7 0 path 2 s1).0 in
    let s3 : Unix = (listen 7 0 4 s2).0 in
    let s4 : Unix = (create 9 sock_stream s3).0 in (connect 9 1 path 2 false s4).0

abbrev connected : Unix
connected = (accept (λ s. waiting) 7 0 false waiting).0

abbrev bytes : List ℕ
bytes = 10 ∷ 20 ∷ 30 ∷ []

abbrev sent : Unix
sent = (sendto 9 1 bytes [] 0 connected).0

received : (recvfrom (λ s. s) 7 2 2 true sent).1 ≡ ok (10 ∷ 20 ∷ [])
unfolding init create bind listen connect accept find_index find_free find_by_path_locked
    get_entry_locked get_owned_locked connect_stream establish push_accept pop_accept sendto
    send_stream room_for push_stream write_loop recvfrom recv_stream pop_stream read_loop
    the_os_reborn.Libc.Strings.strcmp
received = refl

sendto_delivers_example :
    (n : ℕ) × ((sendto 9 1 bytes [] 0 connected).1 ≡ some n)
    × IsDelivered 2 (connected.entries 2) bytes connected (sendto 9 1 bytes [] 0 connected).0 n
unfolding init create bind listen connect accept find_index find_free find_by_path_locked
    get_entry_locked get_owned_locked connect_stream establish push_accept pop_accept
    the_os_reborn.Libc.Strings.strcmp
sendto_delivers_example =
    sendto_delivers 9 1 bytes [] 0 connected (connected.entries 1) (connected.entries 2)
      (λ e. absurd (omega (arith, e))) (λ e. absurd (omega (arith, e))) refl refl refl refl refl
      (record { head_in = omega arith; count_in = omega arith; tail_at = refl }) (omega arith)

recvfrom_takes_example :
    ((recvfrom (λ s. s) 7 2 2 true sent).1 ≡ ok (take 2 (stream (sent.entries 2))))
    × IsTaken 2 2 (sent.entries 2) sent (recvfrom (λ s. s) 7 2 2 true sent).0
unfolding init create bind listen connect accept find_index find_free find_by_path_locked
    get_entry_locked get_owned_locked connect_stream establish push_accept pop_accept sendto
    send_stream room_for push_stream write_loop the_os_reborn.Libc.Strings.strcmp
recvfrom_takes_example =
    recvfrom_takes (λ s. s) 7 2 2 true sent (sent.entries 2) (λ e. absurd (omega (arith, e))) refl
      refl (λ e. absurd (omega (arith, e)))
      (record { head_in = omega arith; count_in = omega arith; tail_at = refl })

waiting-Reachable : Reachable waiting
waiting-Reachable = connected_to 9 1 path 2 false _ (
    created 9 sock_stream _
      (listened 7 0 4 _ (bound_to 7 0 path 2 _ (created 7 sock_stream _ (started cold)))))

Reachable-AreSockets_example : AreSockets sent
Reachable-AreSockets_example = Reachable-AreSockets sent (
    sent_to 9 1 bytes [] 0 connected
      (accepted 7 0 false waiting waiting waiting-Reachable waiting-Reachable))

recvfrom-sendto_example :
    (n : ℕ) × (n ≢ 0)
    × ((sendto 9 1 bytes [] 0 connected).1 ≡ some n)
    × ((recvfrom (λ s. s) 7 2 2 true (sendto 9 1 bytes [] 0 connected).0).1
        ≡ ok (take 2 (stream (connected.entries 2) ++ take n bytes)))
unfolding init create bind listen connect accept find_index find_free find_by_path_locked
    get_entry_locked get_owned_locked connect_stream establish push_accept pop_accept
    the_os_reborn.Libc.Strings.strcmp
recvfrom-sendto_example =
    recvfrom-sendto (λ s. s) 9 1 7 2 0 true bytes [] connected (connected.entries 1)
      (connected.entries 2) (λ e. absurd (omega (arith, e))) (λ e. absurd (omega (arith, e)))
      (λ e. absurd (omega (arith, e))) refl refl refl refl refl refl refl
      (record { head_in = omega arith; count_in = omega arith; tail_at = refl }) (omega arith)
