-- ===== src/Rcu/Tests.antt =====
-- Runs of the RCU model on a machine with three CPUs.
use the_os_reborn.Common.{ℕ, zero, suc, ◌≡◌, refl, true, false, List, [], ◌∷◌, ◌++◌, arith}
use the_os_reborn.Rcu.{
  Rcu, Node, Machine, cpu_online, online_cpu_limit, can_report_qs, mark_cpu, mark_cpus,
  start_gp_locked, all_seen, try_complete_gp_locked, detach_loop, detach_ready_callbacks_locked,
  report, note_locked, note_quiescent_state, preempt_disable, preempt_enable, read_lock,
  read_unlock, enqueue_locked, call, Event, enter, leave, quiesce, register, step, run, init,
}
use the_os_reborn.Rcu.Inv.{IsValid}
use the_os_reborn.Rcu.Steps.{init-run-IsValid}
use the_os_reborn.Rcu.Readers.{call_waits_for_readers}
use the_os_reborn.Rcu.GracePeriod.{ReadsAlong}
use the_os_reborn.Rcu.Progress.{OthersSeen, last_report_closes}
use the_os_reborn.Rcu.Early.{call_runs_under_readers}

abbrev three : Machine
three = record { apic_enabled = true; core_count = 3; core_id = λ i. i; apic_online = λ _. true }

abbrev blank : Rcu
blank = record {
  cpu = λ _. record { read_depth = 0; seen_gp = 0 };
  preempt_count = λ _. 0;
  gp_seq = 0;
  gp_target = 0;
  callbacks = [];
  cb_pending = 0;
  ready = false;
}

exec : List Event → Rcu × List Node
unfolding run step read_lock read_unlock preempt_disable preempt_enable call note_quiescent_state
    note_locked report detach_ready_callbacks_locked detach_loop try_complete_gp_locked all_seen
    start_gp_locked mark_cpus mark_cpu can_report_qs cpu_online online_cpu_limit enqueue_locked init
exec es = run three es (init blank)

abbrev node : ℕ → ℕ → ℕ → Node
node f x g = record { fn = f; context = x; target_gp = g }

-- CPU 2 reads and CPU 0 registers a callback: it runs when CPU 2 has left and reported.
waiting_then_run :
    let es = enter 2 ∷ register 0 true 7 1 ∷ quiesce 1 ∷ quiesce 2 ∷ [] in
    ((exec es).1 ≡ []) × ((exec (es ++ (leave 2 ∷ quiesce 2 ∷ []))).1 ≡ node 7 1 1 ∷ [])
unfolding exec
waiting_then_run = (refl, refl)

init-run-IsValid_example : IsValid (exec (enter 2 ∷ register 0 true 7 1 ∷ [])).0
unfolding exec
init-run-IsValid_example =
    init-run-IsValid three (enter 2 ∷ register 0 true 7 1 ∷ []) blank (λ c _. refl) (omega arith)

-- CPU 1 reads.
abbrev reading : Rcu
reading = (exec (enter 1 ∷ [])).0

reading-IsValid : IsValid reading
unfolding exec
reading-IsValid = init-run-IsValid three (enter 1 ∷ []) blank (λ c _. refl) (omega arith)

abbrev meanwhile : List Event
meanwhile = quiesce 0 ∷ register 2 true 9 9 ∷ quiesce 2 ∷ []

reads_meanwhile : ReadsAlong three 1 meanwhile (call three 0 true 7 5 reading).2
unfolding exec
reads_meanwhile = omega arith

call_waits_for_readers_example :
    let (accepted, first, t) = call three 0 true 7 5 reading in
    (accepted ≡ true)
    × (first ≡ [])
    × ((run three meanwhile t).1 ≡ [])
    × (added : List Node) × ((run three meanwhile t).0.callbacks ≡ node 7 5 1 ∷ added)
unfolding exec
call_waits_for_readers_example =
    call_waits_for_readers three 0 7 5 1 reading meanwhile reading-IsValid (omega arith) refl refl
      (omega arith) (omega arith) refl (omega arith) reads_meanwhile

-- A grace period is open for a callback of CPU 0 since CPU 2 read; CPU 1 reported and reads now;
-- CPU 2 has left its section.
abbrev joined : Rcu
joined = (exec (enter 2 ∷ register 0 true 7 1 ∷ enter 1 ∷ leave 2 ∷ [])).0

joined-IsValid : IsValid joined
unfolding exec
joined-IsValid =
    init-run-IsValid three (enter 2 ∷ register 0 true 7 1 ∷ enter 1 ∷ leave 2 ∷ []) blank
      (λ c _. refl) (omega arith)

joined_others : OthersSeen three 2 joined
unfolding exec
joined_others zero lt on ne = omega arith
joined_others (suc zero) lt on ne = omega arith
joined_others (suc (suc zero)) lt on ne = absurd (ne refl)
joined_others (suc (suc (suc c))) lt on ne = absurd (omega arith)

last_report_closes_example :
    let (t, ran) = note_quiescent_state three 2 joined in
    (ran ≡ node 7 1 1 ∷ [])
    × (t.callbacks ≡ [])
    × (t.cb_pending ≡ 0)
    × (t.gp_target ≡ 0)
    × (t.gp_seq ≡ 1)
    × ((c : ℕ) → (t.cpu c).read_depth ≡ (joined.cpu c).read_depth)
unfolding exec
last_report_closes_example =
    last_report_closes three 2 joined joined-IsValid refl (omega arith) refl (omega arith)
      joined_others

-- CPU 1 reads, and the callback that CPU 2 registers runs at once.
call_runs_under_readers_example :
    let (accepted, ran, t) = call three 2 true 9 4 joined in
    (accepted ≡ true)
    × (ran ≡ node 7 1 1 ∷ node 9 4 1 ∷ [])
    × ((c : ℕ) → (t.cpu c).read_depth ≡ (joined.cpu c).read_depth)
unfolding exec
call_runs_under_readers_example =
    call_runs_under_readers three 2 9 4 joined joined-IsValid (omega arith) refl (omega arith)
      (omega arith) (omega arith) refl refl joined_others

still_reading : (joined.cpu 1).read_depth ≡ 1
unfolding exec
still_reading = refl
