-- ===== src/Unix/Transfer.antt =====
-- The operations of Kernel/Network/Unix.c that move connections, datagrams and bytes.
use the_os_reborn.Common.{
  ℕ, zero, suc, ◌+◌, ◌-◌, ◌%◌, ◌^◌, Bool, true, false, not, ◌||◌, List, [], ◌∷◌, ◌++◌, Option, none,
  some, ltb, leb, ◌==◌, if◌then◌else◌, take, update, length,
}
use the_os_reborn.Unix.{
  sock_stream, sock_dgram, path_max, rx_queue_len, rx_max_payload, stream_buf_bytes,
  accept_queue_len, u16, u32, Datagram, Socket, Unix, put, get_entry_locked, get_owned_locked,
  find_free, find_by_path_locked, overlay, new_socket,
}

-- what an operation reports: its result, the out-parameters, and `out_would_block`
pub data Outcome {ℓ} (A : Type ℓ) : Type ℓ where
  failed : Outcome A
  would_block : Outcome A
  ok : A → Outcome A

-- a listening socket after `child` is put into its accept queue
unfoldable pub push_accept : ℕ → Socket → Socket
push_accept child e = record e {
  accept_queue = update e.accept_queue e.accept_tail child;
  accept_tail = u16 ((e.accept_tail + 1) % accept_queue_len);
  accept_count = u32 (e.accept_count + 1);
}

-- the last part of NET_unix_connect: `server` is the new socket's index
unfoldable pub establish : ℕ → ℕ → ℕ → Unix → Unix
establish id target server s =
    let fresh : Socket = record (new_socket (s.entries target).owner_pid sock_stream) {
      connected = true;
      peer_id = id;
    } in
    let s1 : Unix = put server fresh s in
    let s2 : Unix = put id (record (s1.entries id) { peer_id = server; connected = true }) s1 in
    put target (push_accept server (s2.entries target)) s2

-- NET_unix_connect to a stream socket `target`: the flag of the outcome is the returned one
unfoldable pub connect_stream : ℕ → ℕ → Bool → Unix → Unix × Bool × Bool
connect_stream id target force_non_blocking s =
    let t : Socket = s.entries target in
    if not t.listening || not (t.socket_type == sock_stream)
    then (s, false, false)
    else if leb accept_queue_len t.accept_count
    then (s, not force_non_blocking, true)
    else elim (find_free s) [
      | none ↦ (s, false, false)
      | some server ↦ (establish id target server s, true, false)
    ]

-- the result and `out_would_block`
unfoldable pub connect : ℕ → ℕ → List ℕ → ℕ → Bool → Unix → Unix × Bool × Bool
connect owner id path path_len force_non_blocking s =
    if path_len == 0 || leb path_max path_len || owner == 0
    then (s, false, false)
    else elim (get_owned_locked owner id s) [
      | none ↦ (s, false, false)
      | some e ↦ elim (find_by_path_locked (take path_len path ++ (0 ∷ [])) s) [
        | none ↦ (s, false, false)
        | some target ↦
            if e.socket_type == sock_dgram
            then (put id (record e { peer_id = target; connected = true }) s, true, false)
            else connect_stream id target force_non_blocking s
      ]
    ]

-- the last part of NET_unix_accept, on the listening socket `e`
unfoldable pub pop_accept : ℕ → ℕ → Socket → Unix → Unix × Outcome ℕ
pop_accept owner id e s =
    let child : ℕ = e.accept_queue e.accept_head in
    let s1 : Unix =
      put id
        (record e {
          accept_head = u16 ((e.accept_head + 1) % accept_queue_len);
          accept_count = u32 (e.accept_count + 2 ^ 32 - 1);
        })
        s in
    elim (get_entry_locked child s1) [
      | none ↦ (s1, ok child)
      | some c ↦ (put child (record c { owner_pid = owner }) s1, ok child)
    ]

-- NET_unix_accept; `wait` gives the state after the wait for an event, in which other tasks ran.
-- `would_block` is the return of true with nothing accepted.
unfoldable pub accept : (Unix → Unix) → ℕ → ℕ → Bool → Unix → Unix × Outcome ℕ
accept wait owner id force_non_blocking s =
    let s' : Unix = wait s in
    if owner == 0 then (s, failed) else elim (get_owned_locked owner id s) [
      | none ↦ (s, failed)
      | some e ↦
          if not e.listening
          then (s, failed)
          else if not (e.accept_count == 0)
          then pop_accept owner id e s
          else if force_non_blocking || e.non_blocking
          then (s, would_block)
          else elim (get_owned_locked owner id s') [
            | none ↦ (s', failed)
            | some e' ↦
                if not e'.listening || e'.accept_count == 0
                then (s', failed)
                else pop_accept owner id e' s'
          ]
    ]

-- a datagram socket after a payload is put into its queue
unfoldable pub push_dgram : ℕ → List ℕ → Socket → Socket
push_dgram src bytes e =
    let slot : Datagram = e.dgram_rx_queue e.dgram_rx_tail in
    record e {
      dgram_rx_queue = update e.dgram_rx_queue e.dgram_rx_tail (record {
        len = u16 (length bytes);
        src_socket_id = src;
        payload = overlay bytes slot.payload;
      });
      dgram_rx_tail = u16 ((e.dgram_rx_tail + 1) % rx_queue_len);
      dgram_rx_count = u32 (e.dgram_rx_count + 1);
    }

-- the receiver of a datagram: by path if there is one, else the peer
unfoldable pub dgram_target : Socket → List ℕ → ℕ → Unix → Option ℕ
dgram_target e dest_path dest_path_len s =
    if not (dest_path_len == 0)
    then if leb path_max dest_path_len
      then none
      else find_by_path_locked (take dest_path_len dest_path ++ (0 ∷ [])) s
    else if e.connected
    then elim (get_entry_locked e.peer_id s) [ none ↦ none | some peer ↦ some e.peer_id ]
    else none

unfoldable pub send_dgram : ℕ → Socket → List ℕ → List ℕ → ℕ → Unix → Unix × Option ℕ
send_dgram id e payload dest_path dest_path_len s =
    if ltb rx_max_payload (length payload)
    then (s, none)
    else elim (dgram_target e dest_path dest_path_len s) [
      | none ↦ (s, none)
      | some target ↦
          if not ((s.entries target).socket_type == sock_dgram)
          then (s, none)
          else if leb rx_queue_len (s.entries target).dgram_rx_count
          then (s, none)
          else (put target (push_dgram id payload (s.entries target)) s, some (length payload))
    ]

-- the loop that writes bytes into the ring: the buffer and the tail
unfoldable pub write_loop : List ℕ → ℕ → (ℕ → ℕ) → (ℕ → ℕ) × ℕ
write_loop [] tail buf = (buf, tail)
write_loop (b ∷ bs) tail buf =
    write_loop bs (u16 ((tail + 1) % stream_buf_bytes)) (update buf tail b)

-- `bytes` written into the stream buffer of a socket
unfoldable pub push_stream : List ℕ → Socket → Socket
push_stream bytes e =
    let (buf, tail) = write_loop bytes e.stream_rx_tail e.stream_rx_buf in
    record e {
      stream_rx_buf = buf;
      stream_rx_tail = tail;
      stream_rx_count = u32 (e.stream_rx_count + length bytes);
    }

-- how many bytes of a payload go into the buffer of `peer`
unfoldable pub room_for : ℕ → Socket → ℕ
room_for payload_len peer =
    let avail : ℕ = u32 (stream_buf_bytes + 2 ^ 32 - peer.stream_rx_count) in
    if ltb payload_len avail then payload_len else avail

unfoldable pub send_stream : Socket → List ℕ → Unix → Unix × Option ℕ
send_stream e payload s =
    if not e.connected || e.peer_closed then (s, none) else elim (get_entry_locked e.peer_id s) [
      | none ↦ (s, none)
      | some peer ↦
          let n : ℕ = room_for (length payload) peer in
          if n == 0
          then (s, none)
          else (put e.peer_id (push_stream (take n payload) peer) s, some n)
    ]

-- NET_unix_sendto: the number of bytes sent, or a failure
unfoldable pub sendto : ℕ → ℕ → List ℕ → List ℕ → ℕ → Unix → Unix × Option ℕ
sendto owner id payload dest_path dest_path_len s =
    if length payload == 0 || owner == 0 then (s, none) else elim (get_owned_locked owner id s) [
      | none ↦ (s, none)
      | some e ↦
          if e.socket_type == sock_dgram
          then send_dgram id e payload dest_path dest_path_len s
          else send_stream e payload s
    ]

-- the end of NET_unix_recvfrom for datagrams
unfoldable pub pop_dgram : ℕ → ℕ → Socket → Unix → Unix × Outcome (List ℕ)
pop_dgram id cap e s =
    let slot : Datagram = e.dgram_rx_queue e.dgram_rx_head in
    (
      put id
          (record e {
            dgram_rx_head = u16 ((e.dgram_rx_head + 1) % rx_queue_len);
            dgram_rx_count = u32 (e.dgram_rx_count + 2 ^ 32 - 1);
          })
          s,
      ok (take (if ltb slot.len cap then slot.len else cap) slot.payload),
    )

-- the loop that reads `n` bytes off the ring: the bytes and the head
unfoldable pub read_loop : ℕ → ℕ → (ℕ → ℕ) → List ℕ × ℕ
read_loop zero head buf = ([], head)
read_loop (suc n) head buf =
    let (bytes, last) = read_loop n (u16 ((head + 1) % stream_buf_bytes)) buf in
    (buf head ∷ bytes, last)

-- the end of NET_unix_recvfrom for streams
unfoldable pub pop_stream : ℕ → ℕ → Socket → Unix → Unix × Outcome (List ℕ)
pop_stream id cap e s =
    let n : ℕ = (if ltb e.stream_rx_count cap then e.stream_rx_count else cap) in
    let (bytes, head) = read_loop n e.stream_rx_head e.stream_rx_buf in
    (
      put id
          (record e {
            stream_rx_head = head;
            stream_rx_count = u32 (e.stream_rx_count + 2 ^ 32 - n);
          })
          s,
      ok bytes,
    )

unfoldable pub recv_dgram :
    (Unix → Unix) → ℕ → ℕ → ℕ → Bool → Socket → Unix → Unix × Outcome (List ℕ)
recv_dgram wait owner id cap force_non_blocking e s =
    let s' : Unix = wait s in
    if not (e.dgram_rx_count == 0)
    then pop_dgram id cap e s
    else if force_non_blocking || e.non_blocking
    then (s, would_block)
    else elim (get_owned_locked owner id s') [
      | none ↦ (s', failed)
      | some e' ↦ if e'.dgram_rx_count == 0 then (s', ok []) else pop_dgram id cap e' s'
    ]

unfoldable pub recv_stream :
    (Unix → Unix) → ℕ → ℕ → ℕ → Bool → Socket → Unix → Unix × Outcome (List ℕ)
recv_stream wait owner id cap force_non_blocking e s =
    let s' : Unix = wait s in
    if not (e.stream_rx_count == 0)
    then pop_stream id cap e s
    else if e.peer_closed
    then (s, ok [])
    else if force_non_blocking || e.non_blocking
    then (s, would_block)
    else elim (get_owned_locked owner id s') [
      | none ↦ (s', failed)
      | some e' ↦ if e'.stream_rx_count == 0 then (s', ok []) else pop_stream id cap e' s'
    ]

-- NET_unix_recvfrom; `wait` is as for `accept`. `ok []` is the end of the stream, and `would_block`
-- is the return of false with `out_would_block`.
unfoldable pub recvfrom : (Unix → Unix) → ℕ → ℕ → ℕ → Bool → Unix → Unix × Outcome (List ℕ)
recvfrom wait owner id cap force_non_blocking s =
    if owner == 0 then (s, failed) else elim (get_owned_locked owner id s) [
      | none ↦ (s, failed)
      | some e ↦
          if e.socket_type == sock_dgram
          then recv_dgram wait owner id cap force_non_blocking e s
          else recv_stream wait owner id cap force_non_blocking e s
    ]
