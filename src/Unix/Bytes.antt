-- ===== src/Unix/Bytes.antt =====
-- What a stream socket's peer reads is what was written, in order: sendto and recvfrom on streams.
use the_os_reborn.Common.{
  ℕ, ◌+◌, ◌-◌, ◌^◌, ◌≤◌, ◌<◌, ◌≡◌, ◌≢◌, refl, sym, ap, ◌∙◌, subst, true, false, Bool-cases, List,
  ◌++◌, ◌==◌, ==_ne, ==_self, ltb, take, length, length-take_le, ◌⊎◌, inl, inr, Option, some, arith,
}
use the_os_reborn.Unix.{
  Socket, Unix, stream_buf_bytes, sock_stream, u32, put, get_entry_locked, get_owned_locked,
}
use the_os_reborn.Unix.Transfer.{push_stream, room_for, send_stream, sendto}
use the_os_reborn.Unix.Stream.{stream, IsStream, push_stream-IsStream}

-- the bytes that fit: all of them, or what fills the buffer
pub record IsSent (len waiting n : ℕ) : Type 0 where
  pub not_more : n ≤ len
  pub fits : waiting + n ≤ stream_buf_bytes
  pub all_or_full : (n ≡ len) ⊎ (waiting + n ≡ stream_buf_bytes)

pub room_for-IsSent :
    (len : ℕ) (peer : Socket) → IsStream peer → IsSent len peer.stream_rx_count (room_for len peer)
unfolding room_for
room_for-IsSent len peer v =
    let count = v.count_in in
    elim (Bool-cases (ltb len (u32 (stream_buf_bytes + 2 ^ 32 - peer.stream_rx_count)))) [
      | inl less ↦
          rw less (record { not_more = omega arith; fits = ground arith; all_or_full = inl refl })
      | inr more ↦
          rw more (record {
            not_more = ground arith;
            fits = omega arith;
            all_or_full = inr (omega arith);
          })
    ]

room_for_positive :
    (len : ℕ) (peer : Socket)
    → len ≢ 0
    → peer.stream_rx_count < stream_buf_bytes
    → (room_for len peer == 0) ≡ false
unfolding room_for
room_for_positive len peer nz lt = ground arith

send_stream_lem :
    (e peer : Socket) (payload : List ℕ) (s : Unix)
    → e.connected ≡ true
    → e.peer_closed ≡ false
    → get_entry_locked e.peer_id s ≡ some peer
    → (room_for (length payload) peer == 0) ≡ false
    → send_stream e payload s ≡ (
      put e.peer_id (push_stream (take (room_for (length payload) peer) payload) peer) s,
      some (room_for (length payload) peer),
    )
unfolding send_stream
send_stream_lem e peer payload s c o g r = rw (c, o, g, r) refl

sendto_lem :
    (owner id : ℕ) (payload dest : List ℕ) (len : ℕ) (s : Unix) (e : Socket)
    → owner ≢ 0
    → length payload ≢ 0
    → get_owned_locked owner id s ≡ some e
    → e.socket_type ≡ sock_stream
    → sendto owner id payload dest len s ≡ send_stream e payload s
unfolding sendto
sendto_lem owner id payload dest len s e nz len_nz g t =
    rw (==_ne owner 0 nz, ==_ne (length payload) 0 len_nz, g, t) refl

push_stream_keeps :
    (e : Socket) (bytes : List ℕ)
    → ((push_stream bytes e).used ≡ e.used)
      × ((push_stream bytes e).owner_pid ≡ e.owner_pid)
      × ((push_stream bytes e).socket_type ≡ e.socket_type)
unfolding push_stream
push_stream_keeps e bytes = (refl, refl, refl)

-- the payload of a stream as far as it fits, at the receiver
pub record IsDelivered (peer_id : ℕ) (peer : Socket) (payload : List ℕ) (s t : Unix) (n : ℕ)
    : Type 0 where
  pub sent : IsSent (length payload) peer.stream_rx_count n
  pub some_sent : n ≢ 0
  pub valid : IsStream (t.entries peer_id)
  pub appended : stream (t.entries peer_id) ≡ stream peer ++ take n payload
  pub kept :
      ((t.entries peer_id).used ≡ peer.used)
      × ((t.entries peer_id).owner_pid ≡ peer.owner_pid)
      × ((t.entries peer_id).socket_type ≡ peer.socket_type)
  pub others : (i : ℕ) → peer_id ≢ i → t.entries i ≡ s.entries i

-- NET_unix_sendto of a non-empty payload on a connected stream socket, whose peer exists, has not
-- closed and has room in its buffer, succeeds: it sends all the bytes or as many as fill the buffer,
-- at least one; they are appended to the peer's stream, the peer stays the same process's socket of
-- the same type, and no other socket changes.
pub sendto_delivers :
    (owner id : ℕ) (payload dest : List ℕ) (len : ℕ) (s : Unix) (e peer : Socket)
    → owner ≢ 0
    → length payload ≢ 0
    → get_owned_locked owner id s ≡ some e
    → e.socket_type ≡ sock_stream
    → e.connected ≡ true
    → e.peer_closed ≡ false
    → get_entry_locked e.peer_id s ≡ some peer
    → IsStream peer
    → peer.stream_rx_count < stream_buf_bytes
    → (n : ℕ) × ((sendto owner id payload dest len s).1 ≡ some n)
      × IsDelivered e.peer_id peer payload s (sendto owner id payload dest len s).0 n
sendto_delivers owner id payload dest len s e peer nz len_nz g t c o p v room =
    let n : ℕ = room_for (length payload) peer in
    let pos = room_for_positive (length payload) peer len_nz room in
    let is_sent = room_for-IsSent (length payload) peer v in
    let cut : length (take n payload) ≡ n = length-take_le n payload is_sent.not_more in
    let (v', q) = push_stream-IsStream peer (take n payload) v (omega (arith, is_sent.fits)) in
    let all =
      sendto_lem owner id payload dest len s e nz len_nz g t
      ∙ send_stream_lem e peer payload s c o p pos in
    let put_self : (e.peer_id == e.peer_id) ≡ true = ==_self e.peer_id in
    (
      n,
      ap (λ (x : Unix × Option ℕ). x.1) all,
      subst (λ (x : Unix × Option ℕ). IsDelivered e.peer_id peer payload s x.0 n) (sym all)
          (record {
            sent = is_sent;
            some_sent = ground (arith, pos);
            valid = rw put_self v';
            appended = rw put_self q;
            kept = rw put_self (push_stream_keeps peer (take n payload));
            others = λ i ne. rw (==_ne e.peer_id i ne) refl;
          }),
    )
