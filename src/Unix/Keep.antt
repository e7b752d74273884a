-- ===== src/Unix/Keep.antt =====
-- The rings of the sockets under the operations that move connections and data.
use the_os_reborn.Common.{
  ℕ, ◌+◌, ◌-◌, ◌%◌, ◌^◌, ◌≤◌, ◌<◌, ◌≡◌, false, Bool, Bool-cases, Option-cases, List, ◌==◌, ==_self,
  ltb, leb, not, ◌||◌, length, length-take_le, take, inl, inr, arith,
}
use the_os_reborn.Unix.{
  Socket, Unix, put, get_entry_locked, get_owned_locked, sock_dgram, u16, u32, accept_queue_len,
  rx_queue_len, rx_max_payload, stream_buf_bytes,
}
use the_os_reborn.Unix.Transfer.{
  push_accept, pop_accept, accept, push_dgram, dgram_target, send_dgram, push_stream, room_for,
  send_stream, pop_dgram, pop_stream,
}
use the_os_reborn.Unix.Inv.{
  IsSocket, AreSockets, put-AreSockets, get_owned_locked-IsSocket, get_entry_locked-IsSocket,
}
use the_os_reborn.Unix.Stream.{IsStream, push_stream-IsStream}
use the_os_reborn.Unix.Receive.{pop_stream-take}
use the_os_reborn.Unix.Bytes.{room_for-IsSent}

pub push_accept-IsSocket :
    (child : ℕ) (e : Socket)
    → IsSocket e
    → e.accept_count < accept_queue_len
    → IsSocket (push_accept child e)
unfolding push_accept
push_accept-IsSocket child e v lt = record {
  dgram = v.dgram;
  bytes = v.bytes;
  accepts = (v.accepts.0, omega arith, omega (arith, v.accepts.0, v.accepts.2));
}

pub push_dgram-IsSocket :
    (src : ℕ) (payload : List ℕ) (e : Socket)
    → IsSocket e
    → e.dgram_rx_count < rx_queue_len
    → IsSocket (push_dgram src payload e)
unfolding push_dgram
push_dgram-IsSocket src payload e v lt = record {
  dgram = (v.dgram.0, omega arith, omega (arith, v.dgram.0, v.dgram.2));
  bytes = v.bytes;
  accepts = v.accepts;
}

abbrev to_stream : (e : Socket) → IsSocket e → IsStream e
to_stream e v = record { head_in = v.bytes.0; count_in = v.bytes.1; tail_at = v.bytes.2 }

pub push_stream-IsSocket :
    (bytes : List ℕ) (e : Socket)
    → IsSocket e
    → e.stream_rx_count + length bytes ≤ stream_buf_bytes
    → IsSocket (push_stream bytes e)
unfolding push_stream
push_stream-IsSocket bytes e v room =
    let w = (push_stream-IsStream e bytes (to_stream e v) room).0 in
    record { dgram = v.dgram; bytes = (w.head_in, w.count_in, w.tail_at); accepts = v.accepts }

pub pop_accept-AreSockets :
    (owner id : ℕ) (e : Socket) (s : Unix)
    → IsSocket e
    → (e.accept_count == 0) ≡ false
    → AreSockets s
    → AreSockets (pop_accept owner id e s).0
unfolding pop_accept
pop_accept-AreSockets owner id e s v some_wait vs =
    let le : 0 < e.accept_count = ground arith in
    let s1 : Unix =
      put id
        (record e {
          accept_head = u16 ((e.accept_head + 1) % accept_queue_len);
          accept_count = u32 (e.accept_count + 2 ^ 32 - 1);
        })
        s in
    let vs1 : AreSockets s1 =
      put-AreSockets id _ s
        (record {
          dgram = v.dgram;
          bytes = v.bytes;
          accepts = (
            omega arith,
            omega (arith, v.accepts.1),
            omega (arith, v.accepts.0, v.accepts.1, v.accepts.2),
          );
        })
        vs in
    let child : ℕ = e.accept_queue e.accept_head in
    elim (Option-cases (get_entry_locked child s1)) [
      | inl f ↦ rw (f, pop_accept) vs1
      | inr (c, f) ↦
          let w = get_entry_locked-IsSocket child s1 c vs1 f in
          rw (f, pop_accept)
            (put-AreSockets child (record c { owner_pid = owner }) s1
              (record { dgram = w.dgram; bytes = w.bytes; accepts = w.accepts }) vs1)
    ]

pub pop_dgram-AreSockets :
    (id room : ℕ) (e : Socket) (s : Unix)
    → IsSocket e
    → (e.dgram_rx_count == 0) ≡ false
    → AreSockets s
    → AreSockets (pop_dgram id room e s).0
unfolding pop_dgram
pop_dgram-AreSockets id room e s v some_wait vs =
    let le : 0 < e.dgram_rx_count = ground arith in
    put-AreSockets id _ s
      (record {
        dgram =
            (omega arith, omega (arith, v.dgram.1), omega (arith, v.dgram.0, v.dgram.1, v.dgram.2));
        bytes = v.bytes;
        accepts = v.accepts;
      })
      vs

pub pop_stream-AreSockets :
    (id room : ℕ) (e : Socket) (s : Unix)
    → IsSocket e
    → AreSockets s
    → AreSockets (pop_stream id room e s).0
unfolding pop_stream
pop_stream-AreSockets id room e s v vs =
    let (_, taken) = pop_stream-take id room e s (to_stream e v) in
    let w = rw (==_self id, pop_stream) at taken.valid in
    put-AreSockets id _ s
      (record { dgram = v.dgram; bytes = (w.head_in, w.count_in, w.tail_at); accepts = v.accepts })
      vs

pub accept-AreSockets :
    (wait : Unix → Unix) (owner id : ℕ) (force : Bool) (s : Unix)
    → AreSockets s
    → AreSockets (wait s)
    → AreSockets (accept wait owner id force s).0
unfolding accept
accept-AreSockets wait owner id force s vs ws = elim (Bool-cases (owner == 0)) [
  | inl z ↦ rw z vs
  | inr nz ↦ elim (Option-cases (get_owned_locked owner id s)) [
    | inl f ↦ rw (nz, f) vs
    | inr (e, f) ↦ elim (Bool-cases (not e.listening)) [
      | inl off ↦ rw (nz, f, off) vs
      | inr on ↦ elim (Bool-cases (e.accept_count == 0)) [
        | inr some_wait ↦
            rw (nz, f, on, some_wait)
              (pop_accept-AreSockets owner id e s (get_owned_locked-IsSocket owner id s e vs f)
                some_wait vs)
        | inl empty ↦ elim (Bool-cases (force || e.non_blocking)) [
          | inl now ↦ rw (nz, f, on, empty, now) vs
          | inr later ↦ elim (Option-cases (get_owned_locked owner id (wait s))) [
            | inl g ↦ rw (nz, f, on, empty, later, g) ws
            | inr (e', g) ↦ elim (Bool-cases (not e'.listening || e'.accept_count == 0)) [
              | inl gone ↦ rw (nz, f, on, empty, later, g, gone) ws
              | inr there ↦
                  let some_wait : (e'.accept_count == 0) ≡ false = ground arith in
                  rw (nz, f, on, empty, later, g, there)
                    (pop_accept-AreSockets owner id e' (wait s)
                      (get_owned_locked-IsSocket owner id (wait s) e' ws g) some_wait ws)
            ]
          ]
        ]
      ]
    ]
  ]
]

pub send_dgram-AreSockets :
    (id : ℕ) (e : Socket) (payload dest : List ℕ) (len : ℕ) (s : Unix)
    → AreSockets s
    → AreSockets (send_dgram id e payload dest len s).0
unfolding send_dgram
send_dgram-AreSockets id e payload dest len s vs =
    elim (Bool-cases (ltb rx_max_payload (length payload))) [
      | inl long ↦ rw long vs
      | inr fits ↦ elim (Option-cases (dgram_target e dest len s)) [
        | inl f ↦ rw (fits, f) vs
        | inr (t, f) ↦ elim (Bool-cases (not ((s.entries t).socket_type == sock_dgram))) [
          | inl other ↦ rw (fits, f, other) vs
          | inr same ↦ elim (Bool-cases (leb rx_queue_len (s.entries t).dgram_rx_count)) [
            | inl full ↦ rw (fits, f, same, full) vs
            | inr free ↦
                rw (fits, f, same, free)
                  (put-AreSockets t (push_dgram id payload (s.entries t)) s
                    (push_dgram-IsSocket id payload (s.entries t) (vs t) (ground arith)) vs)
          ]
        ]
      ]
    ]

pub send_stream-AreSockets :
    (e : Socket) (payload : List ℕ) (s : Unix)
    → AreSockets s
    → AreSockets (send_stream e payload s).0
unfolding send_stream
send_stream-AreSockets e payload s vs = elim (Bool-cases (not e.connected || e.peer_closed)) [
  | inl cut ↦ rw cut vs
  | inr linked ↦ elim (Option-cases (get_entry_locked e.peer_id s)) [
    | inl f ↦ rw (linked, f) vs
    | inr (peer, f) ↦ elim (Bool-cases (room_for (length payload) peer == 0)) [
      | inl full ↦ rw (linked, f, full) vs
      | inr free ↦
          let v = get_entry_locked-IsSocket e.peer_id s peer vs f in
          let n : ℕ = room_for (length payload) peer in
          let sent = room_for-IsSent (length payload) peer (to_stream peer v) in
          let cut = length-take_le n payload sent.not_more in
          rw (linked, f, free)
            (put-AreSockets e.peer_id (push_stream (take n payload) peer) s
              (push_stream-IsSocket (take n payload) peer v (omega (arith, sent.fits, cut))) vs)
    ]
  ]
]
