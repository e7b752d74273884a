-- ===== src/Task/Runqueue/Balance.antt =====
-- Where task_schedule_work puts a work item: task_pick_push_target of Kernel/Task/Task.c, for the
-- depths of the queues at the time. Which CPUs are online, their number and whether balancing is on
-- are parameters.
use native.Mathlib.Decide.{ℕ_discrete}
use the_os_reborn.Common.{
  ℕ, zero, suc, ◌+◌, ◌≤◌, ◌<◌, ◌≡◌, ◌≢◌, refl, sym, ap, ◌∙◌, Bool, true, false, not, ◌||◌, ◌==◌,
  ltb, leb, if◌then◌else◌, Bool-cases, ==_iff, ltb→lt, leb→le, ◌⊎◌, inl, inr, arith,
}
use the_os_reborn.Task.Runqueue.{max_cpus}

-- TASK_PUSH_TRIGGER_DEPTH and TASK_PUSH_IMBALANCE_DELTA
abbrev pub push_trigger_depth : ℕ
push_trigger_depth = 8

abbrev pub push_imbalance_delta : ℕ
push_imbalance_delta = 2

abbrev pub cpu_bound : ℕ → ℕ
cpu_bound core_count = if core_count == 0 || ltb max_cpus core_count then max_cpus else core_count

module _ (online : ℕ → Bool) (depth : ℕ → ℕ) where
  -- the loop over the CPUs, for `n` more of them, the next being `cpu`: the best CPU and its depth
  pub best_loop : ℕ → ℕ → ℕ → ℕ → ℕ → ℕ × ℕ
  best_loop zero cpu source best_cpu best_depth = (best_cpu, best_depth)
  best_loop (suc n) cpu source best_cpu best_depth =
      let passed = best_loop n (cpu + 1) source best_cpu best_depth in
      let taken = best_loop n (cpu + 1) source cpu (depth cpu) in
      if cpu == source || not (online cpu)
      then passed
      else if ltb (depth cpu) best_depth
      then taken
      else passed

  pub pick_push_target : ℕ → Bool → ℕ → ℕ
  pick_push_target core_count balance source =
      let (best_cpu, best_depth) =
        best_loop (cpu_bound core_count) 0 source source (depth source) in
      if leb max_cpus source || not (online source)
      then 0
      else if not balance
      then source
      else if ltb (depth source) push_trigger_depth
      then source
      else if best_cpu == source
      then source
      else if leb (depth source) (best_depth + push_imbalance_delta)
      then source
      else best_cpu

  -- `c` and its depth `d` after the CPUs from `lo` to `hi`, beginning with `start` and its depth
  record IsBest (lo hi source start start_depth c d : ℕ) : Type 0 where
    pub least : (k : ℕ) → lo ≤ k → k < hi → k ≢ source → online k ≡ true → d ≤ depth k
    pub not_above : d ≤ start_depth
    pub chosen :
        ((c ≡ start) × (d ≡ start_depth))
        ⊎ ((c ≢ source) × (c < hi) × (online c ≡ true) × (d ≡ depth c) × (d < start_depth))

  best_loop-IsBest :
      (n cpu source best_cpu best_depth : ℕ)
      → IsBest cpu
          (cpu + n)
          source
          best_cpu
          best_depth
          (best_loop n cpu source best_cpu best_depth).0
          (best_loop n cpu source best_cpu best_depth).1
  unfolding best_loop
  best_loop-IsBest zero cpu source best_cpu best_depth = record {
    least = λ k a b. absurd (omega (arith, a, b));
    not_above = omega arith;
    chosen = inl (refl, refl);
  }
  best_loop-IsBest (suc n) cpu source best_cpu best_depth =
      let passed = best_loop-IsBest n (cpu + 1) source best_cpu best_depth in
      let taken = best_loop-IsBest n (cpu + 1) source cpu (depth cpu) in
      elim (Bool-cases (cpu == source || not (online cpu))) [
        | inl skipped ↦
            rw skipped (pass passed (λ differ on. absurd (ground (arith, skipped, differ, on))))
        | inr counts ↦ elim (Bool-cases (ltb (depth cpu) best_depth)) [
          | inr deeper ↦
              rw (counts, deeper)
                (pass passed (λ differ on. ground (arith, deeper, passed.not_above)))
          | inl less ↦
              rw (counts, less)
                (take_cpu (ltb→lt _ _ less) (ground (arith, counts)) (ground (arith, counts)) taken)
        ]
      ]
    where
      pass :
          {c d : ℕ}
          → IsBest (cpu + 1) (cpu + 1 + n) source best_cpu best_depth c d
          → (cpu ≢ source → online cpu ≡ true → d ≤ depth cpu)
          → IsBest cpu (cpu + suc n) source best_cpu best_depth c d
      pass v here = record {
        least = λ k a b differ on. elim (ℕ_discrete cpu k) [
          | yes e ↦ omega (arith, ap depth e, here (λ q. differ (sym e ∙ q)) (ap online e ∙ on))
          | no ne ↦ v.least k (omega (arith, a, ne)) (omega (arith, b)) differ on
        ];
        not_above = v.not_above;
        chosen = elim v.chosen [
          | inl start ↦ inl start
          | inr (ne, lt, up, e, low) ↦ inr (ne, omega (arith, lt), up, e, low)
        ];
      }

      take_cpu :
          {c d : ℕ}
          → depth cpu < best_depth
          → cpu ≢ source
          → online cpu ≡ true
          → IsBest (cpu + 1) (cpu + 1 + n) source cpu (depth cpu) c d
          → IsBest cpu (cpu + suc n) source best_cpu best_depth c d
      take_cpu less differ on v = record {
        least = λ k a b differ' on'. elim (ℕ_discrete cpu k) [
          | yes e ↦ omega (arith, ap depth e, v.not_above)
          | no ne ↦ v.least k (omega (arith, a, ne)) (omega (arith, b)) differ' on'
        ];
        not_above = omega (arith, v.not_above, less);
        chosen = elim v.chosen [
          | inl (c_is, d_is) ↦ inr (
            λ q. differ (sym c_is ∙ q),
            omega (arith, c_is),
            ap online c_is ∙ on,
            d_is ∙ ap depth (sym c_is),
            omega (arith, d_is, less),
          )
          | inr (ne, lt, up, e, low) ↦ inr (ne, omega (arith, lt), up, e, omega (arith, low, less))
        ];
      }

  -- the work stays on `source`
  abbrev pub Stays : ℕ → Bool → ℕ → ℕ → Type 0
  Stays core_count balance source t =
      (t ≡ source)
      × ((balance ≡ false)
          ⊎ ((depth source < push_trigger_depth)
              ⊎ ((k : ℕ)
                  → k < cpu_bound core_count
                  → k ≢ source
                  → online k ≡ true
                  → depth source ≤ depth k + push_imbalance_delta)))

  -- it goes to the CPU `t`
  abbrev pub Goes : ℕ → Bool → ℕ → ℕ → Type 0
  Goes core_count balance source t =
      (online t ≡ true)
      × (t ≢ source)
      × (balance ≡ true)
      × (push_trigger_depth ≤ depth source)
      × (depth t + push_imbalance_delta < depth source)
      × ((k : ℕ) → k < cpu_bound core_count → k ≢ source → online k ≡ true → depth t ≤ depth k)

  unchanged :
      {hi start_depth c d : ℕ} (source : ℕ)
      → IsBest 0 hi source source start_depth c d
      → c ≡ source
      → d ≡ start_depth
  unchanged source best same = elim best.chosen [
    | inl (c_is, d_is) ↦ d_is
    | inr (ne, lt, up, e, low) ↦ absurd (ne same)
  ]

  -- For a CPU that is online, task_pick_push_target gives either the CPU itself or another one that is
  -- online. It gives the CPU itself if balancing is off, or its queue has less than
  -- TASK_PUSH_TRIGGER_DEPTH items, or no other CPU that is online has a queue shorter by more than
  -- TASK_PUSH_IMBALANCE_DELTA. It gives another one only if balancing is on, the queue is so long, and
  -- the other's is so much shorter and the shortest of all other CPUs that are online.
  pub pick_push_target_lem :
      (core_count source : ℕ) (balance : Bool)
      → source < max_cpus
      → online source ≡ true
      → Stays core_count balance source (pick_push_target core_count balance source)
        ⊎ Goes core_count balance source (pick_push_target core_count balance source)
  unfolding pick_push_target
  pick_push_target_lem core_count source balance lt on =
      let (c, d) = best_loop (cpu_bound core_count) 0 source source (depth source) in
      let best = best_loop-IsBest (cpu_bound core_count) 0 source source (depth source) in
      let valid : (leb max_cpus source || not (online source)) ≡ false = ground (arith, lt, on) in
      elim (Bool-cases balance) [
        | inr off ↦ rw (valid, off) (inl (refl, inl refl))
        | inl wanted ↦ elim (Bool-cases (ltb (depth source) push_trigger_depth)) [
          | inl short ↦ rw (valid, wanted, short) (inl (refl, inr (inl (ltb→lt _ _ short))))
          | inr long ↦ elim (Bool-cases (c == source)) [
            | inl self ↦
                let none_less = unchanged source best ((==_iff c source).0 self) in
                rw (valid, wanted, long, self)
                  (inl (
                    refl,
                    inr (
                        inr (λ k a b up.
                          omega (
                            arith,
                            none_less,
                            best.least k (omega arith) (omega (arith, a)) b up,
                          ))),
                  ))
            | inr other ↦ elim (Bool-cases (leb (depth source) (d + push_imbalance_delta))) [
              | inl close ↦
                  rw (valid, wanted, long, other, close)
                    (inl (
                      refl,
                      inr (
                          inr (λ k a b up. omega (
                            arith,
                            leb→le _ _ close,
                            best.least k (omega arith) (omega (arith, a)) b up,
                          ))),
                    ))
              | inr far ↦ elim best.chosen [
                | inl (same, d_is) ↦ absurd (ground (arith, other, same))
                | inr (ne, below, up, e, low) ↦
                    rw (valid, wanted, long, other, far)
                      (inr (
                        up,
                        ne,
                        refl,
                        ground (arith, long),
                        ground (arith, far, e),
                        λ k a b on_k.
                            omega (arith, e, best.least k (omega arith) (omega (arith, a)) b on_k),
                      ))
              ]
            ]
          ]
        ]
      ]
