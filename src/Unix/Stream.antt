-- ===== src/Unix/Stream.antt =====
-- The stream buffer of a Unix socket is a queue of at most 8192 bytes: the loops of sendto and
-- recvfrom append to it and take from it.
use the_os_reborn.Common.{
  ℕ, zero, suc, ◌+◌, ◌%◌, ◌≤◌, ◌<◌, ◌≡◌, refl, sym, ap, ◌∙◌, List, [], ◌∷◌, ◌++◌, update, take,
  drop, length, arith,
}
use mathlib.Core.List.{append_assoc, append-nil}
use mathlib.Core.Path.{ap₂}
use the_os_reborn.Unix.{Socket, stream_buf_bytes, u16, u32}
use the_os_reborn.Unix.Ring.{queue, queue-cong, queue-push, stream_buf_bytes-IsCapacity}
use the_os_reborn.Unix.Transfer.{write_loop, push_stream, read_loop}

-- the bytes that wait in the buffer, oldest first
abbrev pub stream : Socket → List ℕ
stream e = queue stream_buf_bytes e.stream_rx_count e.stream_rx_head e.stream_rx_buf

pub record IsStream (e : Socket) : Type 0 where
  pub head_in : e.stream_rx_head < stream_buf_bytes
  pub count_in : e.stream_rx_count ≤ stream_buf_bytes
  pub tail_at : e.stream_rx_tail ≡ (e.stream_rx_head + e.stream_rx_count) % stream_buf_bytes

write_loop-queue :
    (bs : List ℕ) (n h t : ℕ) (f : ℕ → ℕ)
    → n + length bs ≤ stream_buf_bytes
    → t ≡ (h + n) % stream_buf_bytes
    → (queue stream_buf_bytes (n + length bs) h (write_loop bs t f).0
        ≡ queue stream_buf_bytes n h f ++ bs)
      × ((write_loop bs t f).1 ≡ (h + (n + length bs)) % stream_buf_bytes)
unfolding write_loop
write_loop-queue [] n h t f room e = (
  ap (λ x. queue stream_buf_bytes x h f) (omega arith)
      ∙ sym (append-nil (queue stream_buf_bytes n h f)),
  e ∙ ap (λ x. x % stream_buf_bytes) (omega arith),
)
write_loop-queue (b ∷ bs) n h t f room e =
    let next : u16 ((t + 1) % stream_buf_bytes) ≡ (h + suc n) % stream_buf_bytes = omega arith in
    let rest =
      write_loop-queue bs (suc n) h (u16 ((t + 1) % stream_buf_bytes)) (update f t b) (omega arith)
        next in
    (
      ap
            (λ x.
              queue stream_buf_bytes x h
                (write_loop bs (u16 ((t + 1) % stream_buf_bytes)) (update f t b)).0)
            (omega arith)
          ∙ rest.0
          ∙ ap (λ q. q ++ bs)
              (queue-push stream_buf_bytes stream_buf_bytes-IsCapacity n h t f b (omega arith) e)
          ∙ append_assoc (queue stream_buf_bytes n h f) (b ∷ []) bs,
      rest.1 ∙ ap (λ x. (h + x) % stream_buf_bytes) (omega arith),
    )

pub read_loop-queue :
    (n h : ℕ) (f : ℕ → ℕ)
    → h < stream_buf_bytes
    → ((read_loop n h f).0 ≡ queue stream_buf_bytes n h f)
      × ((read_loop n h f).1 ≡ (h + n) % stream_buf_bytes)
unfolding read_loop
read_loop-queue zero h f lt = (refl, omega arith)
read_loop-queue (suc n) h f lt =
    let k : ℕ = u16 ((h + 1) % stream_buf_bytes) in
    let next : k % stream_buf_bytes ≡ (h + 1) % stream_buf_bytes = omega arith in
    let (bytes, last) = read_loop-queue n k f (omega arith) in
    (
      ap₂ (λ x q. f x ∷ q) (omega arith)
          (bytes ∙ queue-cong stream_buf_bytes stream_buf_bytes-IsCapacity n k (h + 1) f next),
      last ∙ omega arith,
    )

suc_add : (n m : ℕ) → suc n + m ≡ suc (n + m)
suc_add n m = omega arith

pub queue-take :
    (n m h : ℕ) (f : ℕ → ℕ)
    → take n (queue stream_buf_bytes (n + m) h f) ≡ queue stream_buf_bytes n h f
queue-take zero m h f = refl
queue-take (suc n) m h f =
    ap (λ x. take (suc n) (queue stream_buf_bytes x h f)) (suc_add n m)
    ∙ ap (λ q. f (h % stream_buf_bytes) ∷ q) (queue-take n m (h + 1) f)

pub queue-drop :
    (n m h : ℕ) (f : ℕ → ℕ)
    → drop n (queue stream_buf_bytes (n + m) h f) ≡ queue stream_buf_bytes m (h + n) f
queue-drop zero m h f = ap₂ (λ x y. queue stream_buf_bytes x y f) (omega arith) (omega arith)
queue-drop (suc n) m h f =
    ap (λ x. drop (suc n) (queue stream_buf_bytes x h f)) (suc_add n m)
    ∙ queue-drop n m (h + 1) f
    ∙ ap (λ x. queue stream_buf_bytes m x f) (omega arith)

pub push_stream-IsStream :
    (e : Socket) (bytes : List ℕ)
    → IsStream e
    → e.stream_rx_count + length bytes ≤ stream_buf_bytes
    → IsStream (push_stream bytes e) × (stream (push_stream bytes e) ≡ stream e ++ bytes)
unfolding push_stream
push_stream-IsStream e bytes v room =
    let (q, t) =
      write_loop-queue bytes e.stream_rx_count e.stream_rx_head e.stream_rx_tail e.stream_rx_buf
        room v.tail_at in
    let count : u32 (e.stream_rx_count + length bytes) ≡ e.stream_rx_count + length bytes =
      omega arith in
    (
      record {
        head_in = v.head_in;
        count_in = omega arith;
        tail_at = t ∙ ap (λ x. (e.stream_rx_head + x) % stream_buf_bytes) (sym count);
      },
      ap
            (λ x.
              queue stream_buf_bytes x e.stream_rx_head
                (write_loop bytes e.stream_rx_tail e.stream_rx_buf).0)
            count
          ∙ q,
    )
