-- ===== src/Lib.antt =====
-- A model of the kernel of TheOS-Reborn and theorems on it. The C code is translated function by
-- function; the names are the code's, without the prefix of the file.
--
-- Parts, each over the shared helpers of Common (arrays as lists and functions, Boolean tests on
-- numbers, the conditional, the bitwise operations):
-- - Rcu, for Kernel/Task/RCU.c, Includes/Task/RCU.h and the preemption counters of
--   Kernel/Task/Task.c: the state `Rcu` is rcu_runtime_state_t with the counters; read_lock,
--   read_unlock, call, note_quiescent_state and init are RCU_*. An operation returns the callbacks
--   that it runs. `run` is an interleaving of the operations of the CPUs. Inv, Note, Steps, GracePeriod,
--   Readers, Progress and Early have the lemmas and theorems, Synchronize the model of RCU_synchronize
--   and RCU_get_stats.
-- - Arp, for Kernel/Network/ARP.c and Includes/Network/ARP.h: the table and its maintenance; Arp/Ops
--   has frames, lookups and the ioctl requests of Includes/UAPI/Net.h. Inv has the invariant, Slots,
--   Upsert and Refine the table as a finite map, Ops/Keep, Ops/RoundTrip and Ops/Frames the theorems on
--   the entry points.
-- - Kmem, for Kernel/Memory/KMem.c and Includes/Memory/KMem.h: headers in a memory of addresses;
--   Chain reads them as a list of blocks, Malloc and Search treat kmalloc, Free and Refine kfree,
--   RoundTrip both, Init kmem_init, Wrap the requests that kmem_align wraps.
-- - Unix, for Kernel/Network/Unix.c and Includes/Network/Unix.h: the table of sockets, with the
--   transfers in Unix/Transfer; Ring, Stream, Bytes, Receive and Fifo treat the stream buffer, Inv, Keep,
--   Moves and Reach the rings of every socket under all operations.
-- - Pmm, for Kernel/Memory/PMM.c and Includes/Memory/PMM.h: the state `Pmm` is PMM_runtime_state_t with
--   the words of the bitmaps. Search treats the search for a free page, Alloc and Alloc/Handed
--   PMM_alloc_page; Pmm/Setup has PMM_init_region and the promotion of boot entries, Setup/Safe,
--   Setup/Loop and Setup/Pages the theorems on the pages it marks as free.
-- - Spinlock, for Kernel/Debug/Spinlock.c and Includes/Debug/Spinlock.h: the lock as a step relation, one
--   step for each atomic operation; Exclusion has the invariant.
-- - Task/Runqueue, for the run queues of Kernel/Task/Task.c and Includes/Task/Task.h: Ring reads a ring as
--   a list of items, Enqueue has what appends to it, Steal, Batch and Full treat work stealing, Balance
--   the choice of a CPU for new work.
-- - Task/WaitQueue, for the wait queues of the same files: Chain reads the linked waiters as a list, Cancel
--   and Wake treat the ways out of it, Fifo all operations.
-- - Libc, for the C library in Userland/Libraries/LibC: Libc/Memory for the copies and fills of string.c,
--   Libc/Strings for its functions on texts (Compare and Copy have the theorems), Libc/Numbers for lltoa
--   and itoa of stdio.c and the integer conversions of stdlib_parse.c (RoundTrip and ReadBack treat
--   printing and reading back, Spelled is the notation of numbers on its own, Exact and Saturate the
--   range).
--
-- How they interact: RCU takes its nodes from the heap, of which only success or failure is taken; the
-- ARP ioctls and the paths of Unix sockets go through strcmp; PMM_init_region reserves the heap that
-- kmem_init gets. The other parts do not call each other.
--
-- Conventions: numbers are native; a w-bit counter wraps by `% 2 ^ w`, and a theorem that needs no
-- wrap says so. The locks serialise: outside Spinlock, a function that takes one runs on its own, and
-- each model says where the lock is released. What the code asks of the hardware (timer ticks, the CPU
-- that runs, the topology of the machine) is a parameter.
--
-- Fuel: the loop of kmalloc_nolock takes one round for each header. A block has at least 24 bytes,
-- so that `heap_size` rounds and one more are enough; the loop that closes the gap in a run queue
-- takes at most a round for each slot; the walks along a wait queue take a round for each waiter,
-- and the search one more; the loop of PMM_alloc_page on a region of at most 2 ^ 31 pages clears a
-- bit in each round and takes one round more than the region has pages, and the loop of
-- PMM_init_region passes a page in each on a region that does not reach above 2 ^ 63; the loop of
-- RCU_synchronize has only the timer as its bound. All other loops are recursions over the table,
-- the list or the bytes.
--
-- Not modelled: the rest of the scheduler, system calls, TCP, the file systems, the virtual memory
-- manager, drivers, boot code, the rest of the C library, and the applications. Within the parts:
-- payload bytes in the heap, floating point numbers, the reschedule that task_preempt_enable may
-- ask for, the wait queues that Unix sockets wake, and the tasks that run while one of them waits,
-- whose effect is a parameter.
pub mod Arp
pub mod Common
pub mod Kmem
pub mod Libc
pub mod Pmm
pub mod Rcu
pub mod Spinlock
pub mod Task
pub mod Unix
