-- ===== src/Unix/Moves.antt =====
-- The rings of the sockets under NET_unix_connect, NET_unix_sendto and NET_unix_recvfrom.
use native.Mathlib.Decide.{ℕ_discrete}
use the_os_reborn.Common.{
  ℕ, ◌<◌, sym, subst, true, Bool, Bool-cases, Option-cases, List, [], ◌∷◌, ◌++◌, ◌==◌, ==_ne,
  ==_self, leb, not, ◌||◌, length, take, inl, inr, arith,
}
use the_os_reborn.Unix.{
  Socket, Unix, new_socket, put, find_free, find_by_path_locked, get_owned_locked, sock_stream,
  sock_dgram, accept_queue_len, path_max,
}
use the_os_reborn.Unix.Transfer.{
  push_accept, establish, connect_stream, connect, sendto, recv_dgram, recv_stream, recvfrom,
}
use the_os_reborn.Unix.Inv.{
  IsSocket, AreSockets, new_socket-IsSocket, put-AreSockets, get_owned_locked-IsSocket,
}
use the_os_reborn.Unix.Keep.{
  push_accept-IsSocket, send_dgram-AreSockets, send_stream-AreSockets, pop_dgram-AreSockets,
  pop_stream-AreSockets,
}

pub establish-AreSockets :
    (id target server : ℕ) (s : Unix)
    → AreSockets s
    → (s.entries target).accept_count < accept_queue_len
    → AreSockets (establish id target server s)
unfolding establish
establish-AreSockets id target server s vs lt =
    let owner : ℕ = (s.entries target).owner_pid in
    let fresh : Socket = record (new_socket owner sock_stream) { connected = true; peer_id = id } in
    let v = new_socket-IsSocket owner sock_stream in
    let s1 : Unix = put server fresh s in
    let vs1 : AreSockets s1 =
      put-AreSockets server fresh s
        (record { dgram = v.dgram; bytes = v.bytes; accepts = v.accepts }) vs in
    let e : Socket = record (s1.entries id) { peer_id = server; connected = true } in
    let w = vs1 id in
    let s2 : Unix = put id e s1 in
    let vs2 : AreSockets s2 =
      put-AreSockets id e s1 (record { dgram = w.dgram; bytes = w.bytes; accepts = w.accepts })
        vs1 in
    let lt1 : (i : ℕ)
        → (s.entries i).accept_count < accept_queue_len
        → (s1.entries i).accept_count < accept_queue_len =
      λ i h. ground arith in
    let lt2 : (s2.entries target).accept_count < accept_queue_len = elim (ℕ_discrete id target) [
      | yes same ↦
          let at_id =
            lt1 id (subst (λ x. (s.entries x).accept_count < accept_queue_len) (sym same) lt) in
          subst (λ x. (s2.entries x).accept_count < accept_queue_len) same (rw (==_self id) at_id)
      | no other ↦ rw (==_ne id target other) (lt1 target lt)
    ] in
    put-AreSockets target (push_accept server (s2.entries target)) s2
      (push_accept-IsSocket server (s2.entries target) (vs2 target) lt2) vs2

pub connect_stream-AreSockets :
    (id target : ℕ) (force : Bool) (s : Unix)
    → AreSockets s
    → AreSockets (connect_stream id target force s).0
unfolding connect_stream
connect_stream-AreSockets id target force s vs =
    elim (Bool-cases
      (not (s.entries target).listening || not ((s.entries target).socket_type == sock_stream))) [
        | inl bad ↦ rw bad vs
        | inr good ↦ elim (Bool-cases (leb accept_queue_len (s.entries target).accept_count)) [
          | inl full ↦ rw (good, full) vs
          | inr free ↦ elim (Option-cases (find_free s)) [
            | inl f ↦ rw (good, free, f) vs
            | inr (server, f) ↦
                rw (good, free, f) (establish-AreSockets id target server s vs (ground arith))
          ]
        ]
      ]

pub connect-AreSockets :
    (owner id : ℕ) (path : List ℕ) (len : ℕ) (force : Bool) (s : Unix)
    → AreSockets s
    → AreSockets (connect owner id path len force s).0
unfolding connect
connect-AreSockets owner id path len force s vs =
    elim (Bool-cases (len == 0 || leb path_max len || owner == 0)) [
      | inl bad ↦ rw bad vs
      | inr good ↦ elim (Option-cases (get_owned_locked owner id s)) [
        | inl f ↦ rw (good, f) vs
        | inr (e, f) ↦ elim (Option-cases (find_by_path_locked (take len path ++ (0 ∷ [])) s)) [
          | inl p ↦ rw (good, f, p) vs
          | inr (target, p) ↦ elim (Bool-cases (e.socket_type == sock_dgram)) [
            | inl d ↦
                let v = get_owned_locked-IsSocket owner id s e vs f in
                rw (good, f, p, d)
                  (put-AreSockets id (record e { peer_id = target; connected = true }) s
                    (record { dgram = v.dgram; bytes = v.bytes; accepts = v.accepts }) vs)
            | inr d ↦ rw (good, f, p, d) (connect_stream-AreSockets id target force s vs)
          ]
        ]
      ]
    ]

pub sendto-AreSockets :
    (owner id : ℕ) (payload dest : List ℕ) (len : ℕ) (s : Unix)
    → AreSockets s
    → AreSockets (sendto owner id payload dest len s).0
unfolding sendto
sendto-AreSockets owner id payload dest len s vs =
    elim (Bool-cases (length payload == 0 || owner == 0)) [
      | inl bad ↦ rw bad vs
      | inr good ↦ elim (Option-cases (get_owned_locked owner id s)) [
        | inl f ↦ rw (good, f) vs
        | inr (e, f) ↦ elim (Bool-cases (e.socket_type == sock_dgram)) [
          | inl d ↦ rw (good, f, d) (send_dgram-AreSockets id e payload dest len s vs)
          | inr d ↦ rw (good, f, d) (send_stream-AreSockets e payload s vs)
        ]
      ]
    ]

pub recv_dgram-AreSockets :
    (wait : Unix → Unix) (owner id room : ℕ) (force : Bool) (e : Socket) (s : Unix)
    → IsSocket e
    → AreSockets s
    → AreSockets (wait s)
    → AreSockets (recv_dgram wait owner id room force e s).0
unfolding recv_dgram
recv_dgram-AreSockets wait owner id room force e s v vs ws =
    elim (Bool-cases (e.dgram_rx_count == 0)) [
      | inr some_wait ↦ rw some_wait (pop_dgram-AreSockets id room e s v some_wait vs)
      | inl empty ↦ elim (Bool-cases (force || e.non_blocking)) [
        | inl now ↦ rw (empty, now) vs
        | inr later ↦ elim (Option-cases (get_owned_locked owner id (wait s))) [
          | inl g ↦ rw (empty, later, g) ws
          | inr (e', g) ↦ elim (Bool-cases (e'.dgram_rx_count == 0)) [
            | inl still ↦ rw (empty, later, g, still) ws
            | inr some_wait ↦
                rw (empty, later, g, some_wait)
                  (pop_dgram-AreSockets id room e' (wait s)
                    (get_owned_locked-IsSocket owner id (wait s) e' ws g) some_wait ws)
          ]
        ]
      ]
    ]

pub recv_stream-AreSockets :
    (wait : Unix → Unix) (owner id room : ℕ) (force : Bool) (e : Socket) (s : Unix)
    → IsSocket e
    → AreSockets s
    → AreSockets (wait s)
    → AreSockets (recv_stream wait owner id room force e s).0
unfolding recv_stream
recv_stream-AreSockets wait owner id room force e s v vs ws =
    elim (Bool-cases (e.stream_rx_count == 0)) [
      | inr some_wait ↦ rw some_wait (pop_stream-AreSockets id room e s v vs)
      | inl empty ↦ elim (Bool-cases e.peer_closed) [
        | inl closed ↦ rw (empty, closed) vs
        | inr linked ↦ elim (Bool-cases (force || e.non_blocking)) [
          | inl now ↦ rw (empty, linked, now) vs
          | inr later ↦ elim (Option-cases (get_owned_locked owner id (wait s))) [
            | inl g ↦ rw (empty, linked, later, g) ws
            | inr (e', g) ↦ elim (Bool-cases (e'.stream_rx_count == 0)) [
              | inl still ↦ rw (empty, linked, later, g, still) ws
              | inr some_wait ↦
                  rw (empty, linked, later, g, some_wait)
                    (pop_stream-AreSockets id room e' (wait s)
                      (get_owned_locked-IsSocket owner id (wait s) e' ws g) ws)
            ]
          ]
        ]
      ]
    ]

pub recvfrom-AreSockets :
    (wait : Unix → Unix) (owner id room : ℕ) (force : Bool) (s : Unix)
    → AreSockets s
    → AreSockets (wait s)
    → AreSockets (recvfrom wait owner id room force s).0
unfolding recvfrom
recvfrom-AreSockets wait owner id room force s vs ws = elim (Bool-cases (owner == 0)) [
  | inl z ↦ rw z vs
  | inr nz ↦ elim (Option-cases (get_owned_locked owner id s)) [
    | inl f ↦ rw (nz, f) vs
    | inr (e, f) ↦
        let v = get_owned_locked-IsSocket owner id s e vs f in
        elim (Bool-cases (e.socket_type == sock_dgram)) [
          | inl d ↦ rw (nz, f, d) (recv_dgram-AreSockets wait owner id room force e s v vs ws)
          | inr d ↦ rw (nz, f, d) (recv_stream-AreSockets wait owner id room force e s v vs ws)
        ]
  ]
]
