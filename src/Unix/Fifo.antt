-- ===== src/Unix/Fifo.antt =====
-- A sender's bytes arrive in order: NET_unix_sendto, then NET_unix_recvfrom at its peer.
use the_os_reborn.Common.{
  ℕ, zero, suc, ◌+◌, ◌<◌, ◌≡◌, ◌≢◌, refl, sym, ap, ◌∙◌, true, false, Bool, List, ◌++◌, ◌==◌, length,
  length-append, length-take_le, take, some, arith,
}
use the_os_reborn.Unix.{
  Socket, Unix, sock_stream, stream_buf_bytes, get_entry_locked, get_owned_locked,
}
use the_os_reborn.Unix.Ring.{queue}
use the_os_reborn.Unix.Transfer.{ok, sendto, recvfrom}
use the_os_reborn.Unix.Stream.{stream, IsStream}
use the_os_reborn.Unix.Bytes.{sendto_delivers}
use the_os_reborn.Unix.Receive.{recvfrom_takes}

length-queue : (n h : ℕ) (f : ℕ → ℕ) → length (queue stream_buf_bytes n h f) ≡ n
length-queue zero h f = refl
length-queue (suc n) h f = ap suc (length-queue n (h + 1) f)

get_entry_locked_stays :
    (id : ℕ) (s t : Unix) (e : Socket)
    → get_entry_locked id s ≡ some e
    → (t.entries id).used ≡ e.used
    → get_entry_locked id t ≡ some (t.entries id)
unfolding get_entry_locked
get_entry_locked_stays id s t e g u = ground arith

get_owned_locked_stays :
    (owner id : ℕ) (s t : Unix) (e : Socket)
    → get_entry_locked id s ≡ some e
    → get_owned_locked owner id s ≡ some e
    → (t.entries id).used ≡ e.used
    → (t.entries id).owner_pid ≡ e.owner_pid
    → get_owned_locked owner id t ≡ some (t.entries id)
unfolding get_owned_locked
get_owned_locked_stays owner id s t e g o u p =
    let z = rw (g, get_owned_locked) at o in
    let same : (e.owner_pid == owner) ≡ true = ground arith in
    rw (get_entry_locked_stays id s t e g u, get_owned_locked) (rw (p, same) refl)

-- A process sends a non-empty payload over a connected stream socket, whose peer has not
-- closed and has room: some n bytes of it go, at least one, and what the process
-- that owns the peer then receives is the bytes that waited there before, followed by the first n of the payload, up to
-- the capacity of its buffer.
pub recvfrom-sendto :
    (wait : Unix → Unix) (owner id owner' room len : ℕ) (force : Bool) (payload dest : List ℕ)
    → (s : Unix) (e peer : Socket) → owner ≢ 0
    → owner' ≢ 0
    → length payload ≢ 0
    → get_owned_locked owner id s ≡ some e
    → e.socket_type ≡ sock_stream
    → e.connected ≡ true
    → e.peer_closed ≡ false
    → get_entry_locked e.peer_id s ≡ some peer
    → get_owned_locked owner' e.peer_id s ≡ some peer
    → peer.socket_type ≡ sock_stream
    → IsStream peer
    → peer.stream_rx_count < stream_buf_bytes
    → (n : ℕ) × (n ≢ 0)
      × ((sendto owner id payload dest len s).1 ≡ some n)
      × ((recvfrom wait owner' e.peer_id room force (sendto owner id payload dest len s).0).1
          ≡ ok (take room (stream peer ++ take n payload)))
recvfrom-sendto wait owner id owner' room len force payload dest s e peer nz nz' len_nz g t c o p q
      t' v free =
    let (n, sent, d) =
      sendto_delivers owner id payload dest len s e peer nz len_nz g t c o p v free in
    let after : Unix = (sendto owner id payload dest len s).0 in
    let x : Socket = after.entries e.peer_id in
    let (u, w, y) = d.kept in
    let owned = get_owned_locked_stays owner' e.peer_id s after peer p q u w in
    let total : x.stream_rx_count ≡ length (stream peer) + length (take n payload) =
      sym (length-queue x.stream_rx_count x.stream_rx_head x.stream_rx_buf)
      ∙ ap (λ l. length l) d.appended
      ∙ length-append (stream peer) (take n payload) in
    let cut = length-take_le n payload d.sent.not_more in
    let waits : x.stream_rx_count ≢ 0 = λ z. d.some_sent (omega (arith, z, total, cut)) in
    (
      n,
      d.some_sent,
      sent,
      (recvfrom_takes wait owner' e.peer_id room force after x nz' owned (y ∙ t') waits d.valid).0
          ∙ ap (λ l. ok (take room l)) d.appended,
    )
