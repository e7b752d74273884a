-- ===== src/Unix.antt =====
-- Unix domain sockets: Kernel/Network/Unix.c and Includes/Network/Unix.h. This file has the table of
-- sockets and the operations on one socket; Transfer has those that move data and connections.
-- The lock serialises the operations. Arrays are functions from the index, written within their
-- bounds; pointers are not NULL, except where a NULL is an empty path. Waking the tasks of a wait
-- queue changes no socket.
pub mod Transfer
pub mod Ring
pub mod Stream
pub mod Inv
pub mod Keep
pub mod Moves
pub mod Reach
pub mod Bytes
pub mod Receive
pub mod Fifo
mod Tests
use the_os_reborn.Common.{
  ℕ, zero, suc, ◌+◌, ◌-◌, ◌*◌, ◌%◌, ◌^◌, Bool, true, false, not, ◌&&◌, ◌||◌, List, [], ◌∷◌, ◌++◌,
  Option, none, some, ltb, leb, ◌==◌, if◌then◌else◌, take, drop, replicate, update,
}
use the_os_reborn.Libc.Strings.{strcmp, is_eq}

abbrev pub sock_stream : ℕ
sock_stream = 1

abbrev pub sock_dgram : ℕ
sock_dgram = 2

abbrev pub max_sockets : ℕ
max_sockets = 64

abbrev pub path_max : ℕ
path_max = 108

abbrev pub rx_queue_len : ℕ
rx_queue_len = 32

abbrev pub rx_max_payload : ℕ
rx_max_payload = 4096

abbrev pub stream_buf_bytes : ℕ
stream_buf_bytes = 8192

abbrev pub accept_queue_len : ℕ
accept_queue_len = 16

abbrev pub u16 : ℕ → ℕ
u16 n = n % 2 ^ 16

abbrev pub u32 : ℕ → ℕ
u32 n = n % 2 ^ 32

-- `net_unix_datagram_t`
pub record Datagram : Type 0 where
  pub len : ℕ
  pub src_socket_id : ℕ
  pub payload : List ℕ

-- `net_unix_entry_t` less its wait queues
pub record Socket : Type 0 where
  pub used : Bool
  pub owner_pid : ℕ
  pub socket_type : ℕ
  pub bound : Bool
  pub listening : Bool
  pub connected : Bool
  pub peer_closed : Bool
  pub non_blocking : Bool
  pub waitq_ready : Bool
  pub peer_id : ℕ
  pub path : List ℕ
  pub dgram_rx_head : ℕ
  pub dgram_rx_tail : ℕ
  pub dgram_rx_count : ℕ
  pub dgram_rx_queue : ℕ → Datagram
  pub stream_rx_head : ℕ
  pub stream_rx_tail : ℕ
  pub stream_rx_count : ℕ
  pub stream_rx_buf : ℕ → ℕ
  pub accept_head : ℕ
  pub accept_tail : ℕ
  pub accept_count : ℕ
  pub listen_backlog : ℕ
  pub accept_queue : ℕ → ℕ

-- `net_unix_state_t`
pub record Unix : Type 0 where
  pub lock_ready : Bool
  pub initialized : Bool
  pub entries : ℕ → Socket

-- what memset leaves of an entry
abbrev pub zero_socket : Socket
zero_socket = record {
  used = false;
  owner_pid = 0;
  socket_type = 0;
  bound = false;
  listening = false;
  connected = false;
  peer_closed = false;
  non_blocking = false;
  waitq_ready = false;
  peer_id = 0;
  path = replicate path_max 0;
  dgram_rx_head = 0;
  dgram_rx_tail = 0;
  dgram_rx_count = 0;
  dgram_rx_queue = λ i. record { len = 0; src_socket_id = 0; payload = replicate rx_max_payload 0 };
  stream_rx_head = 0;
  stream_rx_tail = 0;
  stream_rx_count = 0;
  stream_rx_buf = λ i. 0;
  accept_head = 0;
  accept_tail = 0;
  accept_count = 0;
  listen_backlog = 0;
  accept_queue = λ i. 0;
}

abbrev pub put : ℕ → Socket → Unix → Unix
put i e s = record s { entries = update s.entries i e }

-- NET_unix_init and NET_unix_is_ready
pub init : Unix → Unix
init s = record { lock_ready = true; initialized = true; entries = λ i. zero_socket }

abbrev pub is_ready : Unix → Bool
is_ready s = s.initialized && s.lock_ready

pub get_entry_locked : ℕ → Unix → Option Socket
get_entry_locked id s =
    if leb max_sockets id then none else if (s.entries id).used then some (s.entries id) else none

pub get_owned_locked : ℕ → ℕ → Unix → Option Socket
get_owned_locked owner id s = elim (get_entry_locked id s) [
  | none ↦ none
  | some e ↦ if not (e.owner_pid == owner) then none else some e
]

-- the first of `n` entries from index `i` on that passes the test
pub find_index : ℕ → ℕ → (Socket → Bool) → Unix → Option ℕ
find_index zero i test s = none
find_index (suc n) i test s =
    let rest = find_index n (i + 1) test s in if test (s.entries i) then some i else rest

abbrev pub is_free : Socket → Bool
is_free e = not e.used

-- the loops over the table that look for an unused entry
pub find_free : Unix → Option ℕ
find_free s = find_index max_sockets 0 is_free s

abbrev pub has_path : List ℕ → Socket → Bool
has_path path e = e.used && e.bound && is_eq (strcmp e.path path)

pub find_by_path_locked : List ℕ → Unix → Option ℕ
find_by_path_locked path s = find_index max_sockets 0 (has_path path) s

-- the bytes `bytes` over the first ones of an array
abbrev pub overlay : List ℕ → List ℕ → List ℕ
overlay [] old = old
overlay (b ∷ bs) [] = []
overlay (b ∷ bs) (o ∷ os) = b ∷ overlay bs os

-- memcpy of `n` bytes and the NUL behind them
abbrev pub copy_path : ℕ → List ℕ → List ℕ → List ℕ
copy_path n path old = overlay (take n path ++ (0 ∷ [])) old

-- an entry in use, as NET_unix_create makes it
abbrev pub new_socket : ℕ → ℕ → Socket
new_socket owner socket_type = record zero_socket {
  used = true;
  owner_pid = owner;
  socket_type = socket_type;
  waitq_ready = true;
}

-- the identifier of the new socket
pub create : ℕ → ℕ → Unix → Unix × Option ℕ
create owner socket_type s =
    if owner == 0
    then (s, none)
    else if not (socket_type == sock_stream) && not (socket_type == sock_dgram)
    then (s, none)
    else elim (find_free s) [
      | none ↦ (s, none)
      | some i ↦ (put i (new_socket owner socket_type) s, some i)
    ]

-- the part of NET_unix_close that tells the peer
pub leave_peer : ℕ → Socket → Unix → Unix
leave_peer id e s =
    if e.connected && ltb e.peer_id max_sockets
    then elim (get_entry_locked e.peer_id s) [
      | none ↦ s
      | some peer ↦
          if peer.peer_id == id
          then put e.peer_id (record peer { peer_closed = true; connected = false }) s
          else s
    ]
    else s

pub close : ℕ → ℕ → Unix → Unix × Bool
close owner id s = if owner == 0 then (s, false) else elim (get_owned_locked owner id s) [
  | none ↦ (s, false)
  | some e ↦ (put id zero_socket (leave_peer id e s), true)
]

pub bind : ℕ → ℕ → List ℕ → ℕ → Unix → Unix × Bool
bind owner id path path_len s =
    if path_len == 0 || leb path_max path_len || owner == 0
    then (s, false)
    else elim (get_owned_locked owner id s) [
      | none ↦ (s, false)
      | some e ↦ if e.bound then (s, false) else elim (find_by_path_locked path s) [
        | some other ↦ (s, false)
        | none ↦ (put id (record e { path = copy_path path_len path e.path; bound = true }) s, true)
      ]
    ]

pub listen : ℕ → ℕ → ℕ → Unix → Unix × Bool
listen owner id backlog s = if owner == 0 then (s, false) else elim (get_owned_locked owner id s) [
  | none ↦ (s, false)
  | some e ↦
      if not e.bound || not (e.socket_type == sock_stream) || e.listening then (s, false) else (
        put id
            (record e {
              listening = true;
              listen_backlog =
                  u16 (if ltb backlog accept_queue_len then backlog else accept_queue_len);
            })
            s,
        true,
      )
]

pub set_non_blocking : ℕ → ℕ → Bool → Unix → Unix × Bool
set_non_blocking owner id non_blocking s =
    if owner == 0 then (s, false) else elim (get_owned_locked owner id s) [
      | none ↦ (s, false)
      | some e ↦ (put id (record e { non_blocking = non_blocking }) s, true)
    ]
