-- ===== src/Unix/Receive.antt =====
-- What recvfrom on a stream socket returns, and what a sender's bytes become at the receiver.
use mathlib.Core.Path.{ap₂}
use the_os_reborn.Common.{
  ℕ, zero, suc, ◌+◌, ◌-◌, ◌%◌, ◌^◌, ◌≤◌, ◌≡◌, ◌≢◌, refl, sym, ap, ◌∙◌, subst, true, Bool,
  Bool-cases, List, [], ◌∷◌, ◌==◌, ==_ne, ==_self, ltb, if◌then◌else◌, take, drop, some, inl, inr,
  arith,
}
use the_os_reborn.Unix.{Socket, Unix, stream_buf_bytes, sock_stream, u32, get_owned_locked}
use the_os_reborn.Unix.Ring.{queue, queue-cong, stream_buf_bytes-IsCapacity}
use the_os_reborn.Unix.Transfer.{read_loop, pop_stream, recv_stream, recvfrom, Outcome, ok}
use the_os_reborn.Unix.Stream.{stream, IsStream, read_loop-queue, queue-take, queue-drop}

-- the state after bytes were taken from socket `id`, which was `e`
pub record IsTaken (id room : ℕ) (e : Socket) (s t : Unix) : Type 0 where
  pub valid : IsStream (t.entries id)
  pub left : stream (t.entries id) ≡ drop room (stream e)
  pub others : (i : ℕ) → id ≢ i → t.entries i ≡ s.entries i

-- `take room` and `drop room` of a queue of `count` values
take_all :
    (m n h : ℕ) (f : ℕ → ℕ)
    → n ≤ m
    → take m (queue stream_buf_bytes n h f) ≡ queue stream_buf_bytes n h f
take_all zero zero h f le = refl
take_all (suc m) zero h f le = refl
take_all zero (suc n) h f le = absurd (omega arith)
take_all (suc m) (suc n) h f le =
    ap (λ q. f (h % stream_buf_bytes) ∷ q) (take_all m n (h + 1) f (omega arith))

drop_all : (m n h : ℕ) (f : ℕ → ℕ) → n ≤ m → drop m (queue stream_buf_bytes n h f) ≡ []
drop_all zero zero h f le = refl
drop_all (suc m) zero h f le = refl
drop_all zero (suc n) h f le = absurd (omega arith)
drop_all (suc m) (suc n) h f le = drop_all m n (h + 1) f (omega arith)

abbrev at_most : ℕ → ℕ → ℕ
at_most count room = if ltb count room then count else room

take-at_most :
    (count room h : ℕ) (f : ℕ → ℕ)
    → queue stream_buf_bytes (at_most count room) h f ≡ take room (queue stream_buf_bytes count h f)
take-at_most count room h f = elim (Bool-cases (ltb count room)) [
  | inl less ↦ rw less (sym (take_all room count h f (ground arith)))
  | inr more ↦
      let split : room + (count - room) ≡ count = ground arith in
      rw more (
        sym (queue-take room (count - room) h f)
        ∙ ap (λ x. take room (queue stream_buf_bytes x h f)) split)
]

drop-at_most :
    (count room h : ℕ) (f : ℕ → ℕ)
    → queue stream_buf_bytes (count - at_most count room) (h + at_most count room) f
      ≡ drop room (queue stream_buf_bytes count h f)
drop-at_most count room h f = elim (Bool-cases (ltb count room)) [
  | inl less ↦
      let none_left : count - count ≡ 0 = omega arith in
      rw (less, none_left) (sym (drop_all room count h f (ground arith)))
  | inr more ↦
      let split : room + (count - room) ≡ count = ground arith in
      rw more (
        sym (queue-drop room (count - room) h f)
        ∙ ap (λ x. drop room (queue stream_buf_bytes x h f)) split)
]

recvfrom_lem :
    (wait : Unix → Unix) (owner id room : ℕ) (force : Bool) (s : Unix) (e : Socket)
    → owner ≢ 0
    → get_owned_locked owner id s ≡ some e
    → e.socket_type ≡ sock_stream
    → e.stream_rx_count ≢ 0
    → recvfrom wait owner id room force s ≡ pop_stream id room e s
unfolding recvfrom recv_stream
recvfrom_lem wait owner id room force s e nz g t c =
    rw (==_ne owner 0 nz, g, t, ==_ne e.stream_rx_count 0 c) refl

pub pop_stream-take :
    (id room : ℕ) (e : Socket) (s : Unix)
    → IsStream e
    → ((pop_stream id room e s).1 ≡ ok (take room (stream e)))
      × IsTaken id room e s (pop_stream id room e s).0
unfolding pop_stream
pop_stream-take id room e s v =
    let n : ℕ = at_most e.stream_rx_count room in
    let le : n ≤ e.stream_rx_count = ground arith in
    let h : ℕ = e.stream_rx_head in
    let (bytes, head) = read_loop-queue n h e.stream_rx_buf v.head_in in
    let head' : ℕ = (read_loop n h e.stream_rx_buf).1 in
    let put_self : (id == id) ≡ true = ==_self id in
    let count : u32 (e.stream_rx_count + 2 ^ 32 - n) ≡ e.stream_rx_count - n =
      omega (arith, v.count_in, le) in
    (
      ap (λ q. ok q) (bytes ∙ take-at_most e.stream_rx_count room h e.stream_rx_buf),
      record {
        valid = rw put_self (record {
          head_in = omega (arith, head);
          count_in = omega (arith, v.count_in, le, count);
          tail_at = v.tail_at ∙ omega (arith, head, count, le);
        });
        left = rw put_self (
            ap₂ (λ x y. queue stream_buf_bytes x y e.stream_rx_buf) count head
            ∙ queue-cong stream_buf_bytes stream_buf_bytes-IsCapacity (e.stream_rx_count - n)
                ((h + n) % stream_buf_bytes) (h + n) e.stream_rx_buf (omega arith)
            ∙ drop-at_most e.stream_rx_count room h e.stream_rx_buf);
        others = λ i ne. rw (==_ne id i ne) refl;
      },
    )

-- NET_unix_recvfrom on a stream socket with bytes in its buffer returns the oldest of them, up to
-- the capacity of the caller's buffer, without waiting; they leave the stream, the rest stays in
-- order, and no other socket changes.
pub recvfrom_takes :
    (wait : Unix → Unix) (owner id room : ℕ) (force : Bool) (s : Unix) (e : Socket)
    → owner ≢ 0
    → get_owned_locked owner id s ≡ some e
    → e.socket_type ≡ sock_stream
    → e.stream_rx_count ≢ 0
    → IsStream e
    → ((recvfrom wait owner id room force s).1 ≡ ok (take room (stream e)))
      × IsTaken id room e s (recvfrom wait owner id room force s).0
recvfrom_takes wait owner id room force s e nz g t c v =
    let all = recvfrom_lem wait owner id room force s e nz g t c in
    subst
      (λ (x : Unix × Outcome (List ℕ)). (x.1 ≡ ok (take room (stream e))) × IsTaken id room e s x.0)
      (sym all) (pop_stream-take id room e s v)
