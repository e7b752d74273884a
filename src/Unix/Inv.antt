-- ===== src/Unix/Inv.antt =====
-- The three rings of every socket stay within their arrays: the operations on one socket.
use the_os_reborn.Common.{
  ℕ, ◌+◌, ◌%◌, ◌≤◌, ◌<◌, ◌≡◌, refl, sym, ◌∙◌, subst, true, false, Bool, Bool-cases, Option-cases,
  List, ◌==◌, ltb, leb, not, ◌&&◌, ◌||◌, some, inl, inr, arith,
}
use the_os_reborn.Unix.{
  Socket, Unix, zero_socket, new_socket, put, create, leave_peer, close, bind, listen,
  set_non_blocking, find_free, find_by_path_locked, get_entry_locked, get_owned_locked, max_sockets,
  sock_stream, sock_dgram, accept_queue_len, rx_queue_len, stream_buf_bytes, path_max, copy_path,
}

-- a ring of `cap` places, with its first index, its next free one and the number in use
abbrev pub IsRing : ℕ → ℕ → ℕ → ℕ → Type 0
IsRing cap head tail count = (head < cap) × (count ≤ cap) × (tail ≡ (head + count) % cap)

pub record IsSocket (e : Socket) : Type 0 where
  pub dgram : IsRing rx_queue_len e.dgram_rx_head e.dgram_rx_tail e.dgram_rx_count
  pub bytes : IsRing stream_buf_bytes e.stream_rx_head e.stream_rx_tail e.stream_rx_count
  pub accepts : IsRing accept_queue_len e.accept_head e.accept_tail e.accept_count

abbrev pub AreSockets : Unix → Type 0
AreSockets s = (i : ℕ) → IsSocket (s.entries i)

pub zero_socket-IsSocket : IsSocket zero_socket
zero_socket-IsSocket = record {
  dgram = (omega arith, omega arith, refl);
  bytes = (omega arith, omega arith, refl);
  accepts = (omega arith, omega arith, refl);
}

pub new_socket-IsSocket : (owner socket_type : ℕ) → IsSocket (new_socket owner socket_type)
new_socket-IsSocket owner socket_type = record {
  dgram = zero_socket-IsSocket.dgram;
  bytes = zero_socket-IsSocket.bytes;
  accepts = zero_socket-IsSocket.accepts;
}

pub put-AreSockets :
    (k : ℕ) (e : Socket) (s : Unix) → IsSocket e → AreSockets s → AreSockets (put k e s)
put-AreSockets k e s v vs i = elim (Bool-cases (k == i)) [
  | inl same ↦ rw same v
  | inr other ↦ rw other (vs i)
]

pub get_entry_locked-entry :
    (id : ℕ) (s : Unix) (e : Socket) → get_entry_locked id s ≡ some e → e ≡ s.entries id
unfolding get_entry_locked
get_entry_locked-entry id s e h = ground arith

pub get_owned_locked-entry :
    (owner id : ℕ) (s : Unix) (e : Socket) → get_owned_locked owner id s ≡ some e → e ≡ s.entries id
unfolding get_owned_locked
get_owned_locked-entry owner id s e h = elim (Option-cases (get_entry_locked id s)) [
  | inl g ↦ let z = rw (g, get_owned_locked) at h in cc
  | inr (x, g) ↦
      let z = rw (g, get_owned_locked) at h in
      let same : x ≡ e = ground arith in sym same ∙ get_entry_locked-entry id s x g
]

pub get_owned_locked-IsSocket :
    (owner id : ℕ) (s : Unix) (e : Socket)
    → AreSockets s
    → get_owned_locked owner id s ≡ some e
    → IsSocket e
get_owned_locked-IsSocket owner id s e vs h =
    subst IsSocket (sym (get_owned_locked-entry owner id s e h)) (vs id)

pub get_entry_locked-IsSocket :
    (id : ℕ) (s : Unix) (e : Socket) → AreSockets s → get_entry_locked id s ≡ some e → IsSocket e
get_entry_locked-IsSocket id s e vs h =
    subst IsSocket (sym (get_entry_locked-entry id s e h)) (vs id)

pub create-AreSockets :
    (owner socket_type : ℕ) (s : Unix) → AreSockets s → AreSockets (create owner socket_type s).0
unfolding create
create-AreSockets owner socket_type s vs = elim (Bool-cases (owner == 0)) [
  | inl z ↦ rw z vs
  | inr nz ↦
      elim (Bool-cases (not (socket_type == sock_stream) && not (socket_type == sock_dgram))) [
        | inl bad ↦ rw (nz, bad) vs
        | inr good ↦ elim (Option-cases (find_free s)) [
          | inl f ↦ rw (nz, good, f) vs
          | inr (i, f) ↦
              rw (nz, good, f)
                (put-AreSockets i (new_socket owner socket_type) s
                  (new_socket-IsSocket owner socket_type) vs)
        ]
      ]
]

leave_peer-AreSockets :
    (id : ℕ) (e : Socket) (s : Unix) → AreSockets s → AreSockets (leave_peer id e s)
unfolding leave_peer
leave_peer-AreSockets id e s vs = elim (Bool-cases (e.connected && ltb e.peer_id max_sockets)) [
  | inr alone ↦ rw alone vs
  | inl linked ↦ elim (Option-cases (get_entry_locked e.peer_id s)) [
    | inl f ↦ rw (linked, f) vs
    | inr (peer, f) ↦ elim (Bool-cases (peer.peer_id == id)) [
      | inr other ↦ rw (linked, f, other) vs
      | inl p ↦
          let v = get_entry_locked-IsSocket e.peer_id s peer vs f in
          rw (linked, f, p)
            (put-AreSockets e.peer_id (record peer { peer_closed = true; connected = false }) s
              (record { dgram = v.dgram; bytes = v.bytes; accepts = v.accepts }) vs)
    ]
  ]
]

pub close-AreSockets : (owner id : ℕ) (s : Unix) → AreSockets s → AreSockets (close owner id s).0
unfolding close
close-AreSockets owner id s vs = elim (Bool-cases (owner == 0)) [
  | inl z ↦ rw z vs
  | inr nz ↦ elim (Option-cases (get_owned_locked owner id s)) [
    | inl f ↦ rw (nz, f) vs
    | inr (e, f) ↦
        rw (nz, f)
          (put-AreSockets id zero_socket (leave_peer id e s) zero_socket-IsSocket
            (leave_peer-AreSockets id e s vs))
  ]
]

pub bind-AreSockets :
    (owner id : ℕ) (path : List ℕ) (len : ℕ) (s : Unix)
    → AreSockets s
    → AreSockets (bind owner id path len s).0
unfolding bind
bind-AreSockets owner id path len s vs =
    elim (Bool-cases (len == 0 || leb path_max len || owner == 0)) [
      | inl z ↦ rw z vs
      | inr nz ↦ elim (Option-cases (get_owned_locked owner id s)) [
        | inl f ↦ rw (nz, f) vs
        | inr (e, f) ↦ elim (Bool-cases e.bound) [
          | inl b ↦ rw (nz, f, b) vs
          | inr b ↦ elim (Option-cases (find_by_path_locked path s)) [
            | inr (k, p) ↦ rw (nz, f, b, p) vs
            | inl p ↦
                let v = get_owned_locked-IsSocket owner id s e vs f in
                rw (nz, f, b, p)
                  (put-AreSockets id (record e { path = copy_path len path e.path; bound = true }) s
                    (record { dgram = v.dgram; bytes = v.bytes; accepts = v.accepts }) vs)
          ]
        ]
      ]
    ]

pub listen-AreSockets :
    (owner id backlog : ℕ) (s : Unix) → AreSockets s → AreSockets (listen owner id backlog s).0
unfolding listen
listen-AreSockets owner id backlog s vs = elim (Bool-cases (owner == 0)) [
  | inl z ↦ rw z vs
  | inr nz ↦ elim (Option-cases (get_owned_locked owner id s)) [
    | inl f ↦ rw (nz, f) vs
    | inr (e, f) ↦
        elim (Bool-cases (not e.bound || not (e.socket_type == sock_stream) || e.listening)) [
          | inl bad ↦ rw (nz, f, bad) vs
          | inr good ↦
              let v = get_owned_locked-IsSocket owner id s e vs f in
              rw (nz, f, good)
                (put-AreSockets id _ s
                  (record { dgram = v.dgram; bytes = v.bytes; accepts = v.accepts }) vs)
        ]
  ]
]

pub set_non_blocking-AreSockets :
    (owner id : ℕ) (flag : Bool) (s : Unix)
    → AreSockets s
    → AreSockets (set_non_blocking owner id flag s).0
unfolding set_non_blocking
set_non_blocking-AreSockets owner id flag s vs = elim (Bool-cases (owner == 0)) [
  | inl z ↦ rw z vs
  | inr nz ↦ elim (Option-cases (get_owned_locked owner id s)) [
    | inl f ↦ rw (nz, f) vs
    | inr (e, f) ↦
        let v = get_owned_locked-IsSocket owner id s e vs f in
        rw (nz, f)
          (put-AreSockets id (record e { non_blocking = flag }) s
            (record { dgram = v.dgram; bytes = v.bytes; accepts = v.accepts }) vs)
  ]
]
