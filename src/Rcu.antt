-- ===== src/Rcu.antt =====
-- Read-copy-update: Kernel/Task/RCU.c and Includes/Task/RCU.h, with the preemption counters of
-- Kernel/Task/Task.c that the read side and the spinlock of the RCU state touch.
-- The callback list (cb_head, next, cb_tail) is the list of its nodes, oldest first. The topology of
-- the machine, which APIC.c and SMP.c answer for, is a parameter, and so is the index of the CPU
-- that runs an operation. A function called under the lock runs between `lock` and `unlock`.
pub mod Inv
pub mod Note
pub mod Steps
pub mod GracePeriod
pub mod Readers
pub mod Progress
pub mod Early
pub mod Synchronize
mod Tests
use the_os_reborn.Common.{
  ℕ, zero, suc, ◌+◌, ◌-◌, ◌%◌, ◌^◌, Bool, true, false, not, ◌&&◌, ◌||◌, List, [], ◌∷◌, ◌++◌, ltb,
  leb, ◌==◌, if◌then◌else◌, update,
}

-- RCU_CPU_SLOTS and TASK_MAX_CPUS, which a static assertion holds equal
abbrev pub cpu_slots : ℕ
cpu_slots = 256

abbrev pub u32 : ℕ → ℕ
u32 n = n % 2 ^ 32

abbrev pub u64 : ℕ → ℕ
u64 n = n % 2 ^ 64

-- What APIC_is_enabled, APIC_get_core_count, APIC_get_core_id and SMP_is_apic_online return.
pub record Machine : Type 0 where
  pub apic_enabled : Bool
  pub core_count : ℕ
  pub core_id : ℕ → ℕ
  pub apic_online : ℕ → Bool

-- `rcu_callback_node_t` less its `next`; a function pointer is a number, NULL is 0.
pub record Node : Type 0 where
  pub fn : ℕ
  pub context : ℕ
  pub target_gp : ℕ

-- `rcu_cpu_state_t`
pub record CpuState : Type 0 where
  pub read_depth : ℕ
  pub seen_gp : ℕ

-- `rcu_runtime_state_t`, and the scheduler's `preempt_count`
pub record Rcu : Type 0 where
  pub cpu : ℕ → CpuState
  pub preempt_count : ℕ → ℕ
  pub gp_seq : ℕ
  pub gp_target : ℕ
  pub callbacks : List Node
  pub cb_pending : ℕ
  pub ready : Bool

abbrev pub set_depth : Rcu → ℕ → ℕ → Rcu
set_depth s c d = record s {
  cpu = update s.cpu c (record { read_depth = d; seen_gp = (s.cpu c).seen_gp });
}

abbrev pub set_seen : Rcu → ℕ → ℕ → Rcu
set_seen s c g = record s {
  cpu = update s.cpu c (record { read_depth = (s.cpu c).read_depth; seen_gp = g });
}

-- The reschedule that task_preempt_enable may try last runs other work, not this state.
pub preempt_disable : ℕ → Rcu → Rcu
preempt_disable cur s =
    if leb cpu_slots cur
    then s
    else record s { preempt_count = update s.preempt_count cur (u32 (s.preempt_count cur + 1)) }

pub preempt_enable : ℕ → Rcu → Rcu
preempt_enable cur s =
    if leb cpu_slots cur
    then s
    else if s.preempt_count cur == 0
    then s
    else record s { preempt_count = update s.preempt_count cur (s.preempt_count cur - 1) }

pub preempt_count_cpu : Rcu → ℕ → ℕ
preempt_count_cpu s c = if leb cpu_slots c then 0 else s.preempt_count c

pub cpu_online : Machine → ℕ → Bool
cpu_online m c =
    if leb cpu_slots c
    then false
    else if not m.apic_enabled
    then c == 0
    else if m.core_id (c % 2 ^ 8) == 0xff
    then false
    else m.apic_online (m.core_id (c % 2 ^ 8))

pub online_cpu_limit : Machine → ℕ
online_cpu_limit m =
    if m.core_count == 0 || ltb cpu_slots m.core_count then cpu_slots else m.core_count

pub can_report_qs : Rcu → ℕ → Bool
unfolding preempt_count_cpu
can_report_qs s c =
    if leb cpu_slots c
    then false
    else if not ((s.cpu c).read_depth == 0)
    then false
    else if not (preempt_count_cpu s c == 0)
    then false
    else true

-- one round of the loop of rcu_start_gp_locked
pub mark_cpu : Machine → ℕ → ℕ → Rcu → Rcu
mark_cpu m target c s =
    if not (cpu_online m c) then s else if can_report_qs s c then set_seen s c target else s

-- `rounds` CPUs from `c` on
pub mark_cpus : Machine → ℕ → ℕ → ℕ → Rcu → Rcu
mark_cpus m target zero c s = s
mark_cpus m target (suc rounds) c s = mark_cpus m target rounds (c + 1) (mark_cpu m target c s)

-- the new state and the target of the grace period that runs
pub start_gp_locked : Machine → Rcu → Rcu × ℕ
start_gp_locked m s =
    if not (s.gp_target == 0)
    then (s, s.gp_target)
    else let target : ℕ = u64 (s.gp_seq + 1) in
      (mark_cpus m target (online_cpu_limit m) 0 (record s { gp_target = target }), target)

-- the loop of rcu_try_complete_gp_locked: false where it returns 0
pub all_seen : Machine → Rcu → ℕ → ℕ → ℕ → Bool
all_seen m s target zero c = true
all_seen m s target (suc rounds) c =
    let rest = all_seen m s target rounds (c + 1) in
    if not (cpu_online m c) then rest else if ltb (s.cpu c).seen_gp target then false else rest

pub try_complete_gp_locked : Machine → Rcu → Rcu × ℕ
try_complete_gp_locked m s =
    if s.gp_target == 0
    then (s, 0)
    else if all_seen m s s.gp_target (online_cpu_limit m) 0
    then (record s { gp_seq = s.gp_target; gp_target = 0 }, s.gp_target)
    else (s, 0)

-- the loop of rcu_detach_ready_callbacks_locked: what is detached, what stays, `cb_pending`
pub detach_loop : ℕ → List Node → ℕ → List Node × List Node × ℕ
detach_loop completed [] pending = ([], [], pending)
detach_loop completed (n ∷ ns) pending =
    let rest = detach_loop completed ns (if pending == 0 then pending else pending - 1) in
    if leb n.target_gp completed then (n ∷ rest.0, rest.1, rest.2) else ([], n ∷ ns, pending)

pub detach_ready_callbacks_locked : ℕ → Rcu → Rcu × List Node
detach_ready_callbacks_locked completed s =
    if completed == 0
    then (s, [])
    else let r = detach_loop completed s.callbacks s.cb_pending in
      (record s { callbacks = r.1; cb_pending = r.2 }, r.0)

-- spin_lock_irqsave and spin_unlock_irqrestore of `rcu_state.lock`
abbrev pub lock : ℕ → Rcu → Rcu
lock cur s = preempt_disable cur s

abbrev pub unlock : ℕ → Rcu → Rcu
unlock cur s = preempt_enable cur s

-- the CPU's own report in RCU_note_quiescent_state
pub report : ℕ → Rcu → Rcu
report cur s =
    if not (s.gp_target == 0) && ltb (s.cpu cur).seen_gp s.gp_target
    then set_seen s cur s.gp_target
    else s

-- the part of RCU_note_quiescent_state that runs under the lock
pub note_locked : Machine → ℕ → Rcu → Rcu × List Node
note_locked m cur s =
    let (done, completed) = try_complete_gp_locked m (report cur s) in
    detach_ready_callbacks_locked completed done

-- RCU_note_quiescent_state, with the callbacks that it runs and frees, in order
-- (a node whose `fn` is NULL is freed only)
pub note_quiescent_state : Machine → ℕ → Rcu → Rcu × List Node
note_quiescent_state m cur s =
    if not s.ready
    then (s, [])
    else if leb cpu_slots cur
    then (s, [])
    else if not (can_report_qs s cur)
    then (s, [])
    else let (s', run) = note_locked m cur (lock cur s) in (unlock cur s', run)

pub init : Rcu → Rcu
init s = record s {
  cpu = λ c. if ltb c cpu_slots then record { read_depth = 0; seen_gp = 0 } else s.cpu c;
  gp_seq = 0;
  gp_target = 0;
  callbacks = [];
  cb_pending = 0;
  ready = true;
}

pub read_lock : ℕ → Rcu → Rcu
read_lock cur s =
    if not s.ready
    then s
    else let s' : Rcu = preempt_disable cur s in
      if leb cpu_slots cur then s' else set_depth s' cur (u32 ((s'.cpu cur).read_depth + 1))

pub read_unlock : ℕ → Rcu → Rcu
read_unlock cur s =
    if not s.ready
    then s
    else preempt_enable cur (
        if ltb cur cpu_slots
        then (if (s.cpu cur).read_depth == 0
            then s
            else set_depth s cur ((s.cpu cur).read_depth - 1))
        else s)

-- the part of RCU_call that runs under the lock
pub enqueue_locked : Machine → ℕ → ℕ → Rcu → Rcu
enqueue_locked m fn context s =
    let (s', target) = start_gp_locked m s in
    let node : Node = record { fn = fn; context = context; target_gp = target } in
    record s' { callbacks = s'.callbacks ++ (node ∷ []); cb_pending = u64 (s'.cb_pending + 1) }

-- RCU_call: the result, the callbacks that its last step runs, the new state. `allocated` tells
-- whether kmalloc gives a node.
pub call : Machine → ℕ → Bool → ℕ → ℕ → Rcu → Bool × List Node × Rcu
call m cur allocated fn context s =
    if not s.ready || fn == 0
    then (false, [], s)
    else if not allocated
    then (false, [], s)
    else let (s', run) =
        note_quiescent_state m cur (unlock cur (enqueue_locked m fn context (lock cur s))) in
      (true, run, s')

-- What a CPU does to this state: a read section's ends, a code path's preemption, a quiescent
-- state (the timer tick, or RCU_synchronize's loop), a callback's registration.
pub data Event : Type 0 where
  enter : ℕ → Event
  leave : ℕ → Event
  disable : ℕ → Event
  enable : ℕ → Event
  quiesce : ℕ → Event
  register : ℕ → Bool → ℕ → ℕ → Event

-- the new state and the callbacks run
pub step : Machine → Event → Rcu → Rcu × List Node
step m (enter cur) s = (read_lock cur s, [])
step m (leave cur) s = (read_unlock cur s, [])
step m (disable cur) s = (preempt_disable cur s, [])
step m (enable cur) s = (preempt_enable cur s, [])
step m (quiesce cur) s = note_quiescent_state m cur s
step m (register cur allocated fn context) s =
    let (r, run, s') = call m cur allocated fn context s in (s', run)

-- an interleaving of the CPUs' operations
pub run : Machine → List Event → Rcu → Rcu × List Node
run m [] s = (s, [])
run m (e ∷ es) s =
    let (s', first) = step m e s in let (s'', rest) = run m es s' in (s'', first ++ rest)
