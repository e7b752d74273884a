-- ===== src/Kmem.antt =====
-- The kernel heap: Kernel/Memory/KMem.c and Includes/Memory/KMem.h. Memory is the map from addresses
-- to the headers written there; addresses are numbers, and NULL is 0. The lock serialises the entry
-- points, so that each runs on its own. The loop that follows the headers takes fuel. The heap lies
-- below 2 ^ 64, so the sums of addresses and sizes within it do not wrap and are taken in ℕ.
pub mod Chain
pub mod Malloc
pub mod Search
pub mod Free
pub mod Refine
pub mod RoundTrip
pub mod Init
pub mod Wrap
mod Tests
use the_os_reborn.Common.{
  ℕ, zero, suc, ◌+◌, ◌-◌, ◌*◌, ◌/◌, ◌%◌, ◌^◌, Bool, true, false, not, ◌&&◌, ◌||◌, List, [], ◌∷◌,
  Option, none, some, ltb, leb, ◌==◌, if◌then◌else◌,
}

abbrev pub u64 : ℕ → ℕ
u64 n = n % 2 ^ 64

-- MEM_STATE_USED and MEM_STATE_AVAILABLE; any other value is told apart from neither.
pub data MemState : Type 0 where
  used available : MemState

-- `malloc_header_t`
pub record Header : Type 0 where
  pub state : MemState
  pub size : ℕ
  pub prev_malloc_header : ℕ

-- `sizeof (malloc_header_t)`: a 16-bit, a 64-bit and a pointer field, aligned to 8
abbrev pub header_size : ℕ
header_size = 24

-- `KMEM_runtime_state_t` less its lock, and the headers in memory
pub record Kmem : Type 0 where
  pub heap_start : ℕ
  pub heap_size : ℕ
  pub header : ℕ → Header

abbrev pub is_available : MemState → Bool
is_available available = true
is_available used = false

-- `(size + 7) & ~7` in 64 bits
pub align : ℕ → ℕ
align size = u64 (size + 7) / 8 * 8

abbrev pub heap_end : Kmem → ℕ
heap_end s = s.heap_start + s.heap_size

abbrev pub next_header : Kmem → ℕ → ℕ
next_header s a = a + header_size + (s.header a).size

abbrev pub header_is_valid : Kmem → ℕ → Bool
header_is_valid s a = leb (a + header_size) (heap_end s)

abbrev pub write : Kmem → ℕ → Header → Kmem
write s a h = record s { header = λ i. if a == i then h else s.header i }

abbrev pub set_size : Kmem → ℕ → ℕ → Kmem
set_size s a n = write s a (record (s.header a) { size = n })

abbrev pub set_state : Kmem → ℕ → MemState → Kmem
set_state s a m = write s a (record (s.header a) { state = m })

abbrev pub set_prev : Kmem → ℕ → ℕ → Kmem
set_prev s a p = write s a (record (s.header a) { prev_malloc_header = p })

-- kmem_init; what lies in memory before is `s.header`
pub init : ℕ → ℕ → Kmem → Kmem
init start size s =
    let aligned : ℕ = align size in
    if leb aligned header_size
    then record s { heap_start = 0; heap_size = 0 }
    else write (record s { heap_start = start; heap_size = aligned }) start
        (record { state = available; size = aligned - header_size; prev_malloc_header = 0 })

-- `if (kmem_header_is_valid(next)) next->prev_malloc_header = a`
pub relink : Kmem → ℕ → ℕ → Kmem
relink s next a = if header_is_valid s next then set_prev s next a else s

-- the split of a free block in kmalloc_nolock
pub split : Kmem → ℕ → ℕ → Kmem
split s a size =
    let remaining : ℕ = (s.header a).size - size in
    let bottom : ℕ = a + header_size + size in
    let s1 : Kmem =
      write s bottom
        (record { state = available; size = remaining - header_size; prev_malloc_header = a }) in
    let s2 : Kmem = relink s1 (next_header s1 bottom) bottom in
    if ltb header_size remaining then set_size s2 a size else s

abbrev fits : Header → ℕ → Bool
fits h size = is_available h.state && leb size h.size

-- the loop of kmalloc_nolock from header `a` on: the state and the payload's address, or NULL
pub malloc_loop : ℕ → Kmem → ℕ → ℕ → Kmem × ℕ
malloc_loop zero s a size = (s, 0)
malloc_loop (suc fuel) s a size =
    let next : ℕ = next_header s a in
    let rest : Kmem × ℕ = malloc_loop fuel s next size in
    if not (header_is_valid s a)
    then (s, 0)
    else if fits (s.header a) size
    then (set_state (split s a size) a used, a + header_size)
    else if not (header_is_valid s next)
    then (s, 0)
    else rest

-- Each round passes a header of 24 bytes at least, so `heap_size` rounds are more than enough.
pub kmalloc_nolock : ℕ → Kmem → Kmem × ℕ
kmalloc_nolock size s = malloc_loop (suc s.heap_size) s s.heap_start (align size)

pub kmalloc : ℕ → Kmem → Kmem × ℕ
kmalloc size s =
    if size == 0
    then (s, 0)
    else if s.heap_start == 0 || leb s.heap_size header_size
    then (s, 0)
    else kmalloc_nolock size s

-- kfree_nolock after its first test, for the header at `a`: it joins the next block, then the
-- previous one, and relinks the block behind.
pub join_next : Kmem → ℕ → Kmem
join_next s a =
    let next : ℕ = next_header s a in
    if header_is_valid s next && is_available (s.header next).state
    then set_size s a ((s.header a).size + ((s.header next).size + header_size))
    else s

-- with the header that now stands for the block
pub join_prev : Kmem → ℕ → ℕ → Kmem × ℕ
join_prev s prev a =
    if not (prev == 0) && is_available (s.header prev).state
    then (set_size s prev ((s.header prev).size + ((s.header a).size + header_size)), prev)
    else (s, a)

pub kfree_nolock : ℕ → Kmem → Kmem
kfree_nolock ptr s =
    let a : ℕ = ptr - header_size in
    let prev : ℕ = (s.header a).prev_malloc_header in
    let (t, b) = join_prev (join_next s a) prev a in
    if is_available (s.header a).state
    then s
    else set_state (relink t (next_header t b) b) b available

pub kfree : ℕ → Kmem → Kmem
kfree ptr s = if ptr == 0 then s else kfree_nolock ptr s

-- krealloc, with the number of bytes that its memcpy moves to the new block
pub krealloc : ℕ → ℕ → Kmem → Kmem × ℕ × ℕ
krealloc ptr new_size s =
    let old : ℕ = (s.header (ptr - header_size)).size in
    let fresh : Kmem × ℕ = kmalloc_nolock new_size s in
    if ptr == 0
    then ((kmalloc new_size s).0, (kmalloc new_size s).1, 0)
    else if new_size == 0
    then (kfree ptr s, 0, 0)
    else if leb new_size old
    then (s, ptr, 0)
    else if fresh.1 == 0
    then (fresh.0, 0, 0)
    else (kfree_nolock ptr fresh.0, fresh.1, old)
