-- ===== src/Spinlock/Exclusion.antt =====
-- At most one CPU holds the lock.
use the_os_reborn.Common.{
  ℕ, ◌+◌, ◌-◌, ◌%◌, ◌^◌, ◌≡◌, ◌≢◌, refl, sym, ap, ◌∙◌, subst, Bool, true, false, Option, none, some,
  ◌==◌, if◌then◌else◌, update, Bool-cases, Option-cases, ==_self, ==_iff, ◌↔◌, inl, inr, arith,
}
use the_os_reborn.Spinlock.{
  Pc, idle, trying, spinning, trying_once, holding, leaving, System, goto, disable, enable,
  spinlock_init, test_and_set, after_lock, after_try_lock, Step, call_lock, call_try_lock, set,
  set_once, read, unlock, leave, Reachable, begin, later,
}

abbrev pub is_holding : Pc → Bool
is_holding holding = true
is_holding idle = false
is_holding trying = false
is_holding spinning = false
is_holding trying_once = false
is_holding leaving = false

-- the share of the code in preempt_count
abbrev pub weight : Pc → ℕ
weight idle = 0
weight trying = 1
weight spinning = 1
weight trying_once = 1
weight holding = 1
weight leaving = 1

abbrev owns : Option ℕ → ℕ → Bool
owns none i = false
owns (some j) i = j == i

abbrev is_some : Option ℕ → Bool
is_some none = false
is_some (some j) = true

record Inv (s : System) : Type 0 where
  pub owner : Option ℕ
  pub word : s.locked ≡ is_some owner
  pub holds : (i : ℕ) → is_holding (s.pc i) ≡ owns owner i
  pub counts : (i : ℕ) → s.preempt i ≡ weight (s.pc i)

-- a CPU goes on without taking or giving the lock
goto-Inv :
    (i : ℕ) (p : Pc) (s : System) (preempt : ℕ → ℕ)
    → Inv s
    → is_holding (s.pc i) ≡ is_holding p
    → ((j : ℕ) → preempt j ≡ (if i == j then weight p else s.preempt j))
    → Inv (record s { pc = update s.pc i p; preempt = preempt })
goto-Inv i p s preempt v same counts = record {
  owner = v.owner;
  word = v.word;
  holds = λ j. elim (Bool-cases (i == j)) [
    | inl e ↦ rw e (sym same ∙ ap (λ x. is_holding (s.pc x)) ((==_iff i j).0 e) ∙ v.holds j)
    | inr ne ↦ rw ne (v.holds j)
  ];
  counts = λ j. elim (Bool-cases (i == j)) [
    | inl e ↦ let c = counts j in rw e (c ∙ rw e refl)
    | inr ne ↦ let c = counts j in rw ne (c ∙ rw ne (v.counts j))
  ];
}

same_count :
    (i : ℕ) (n : ℕ) (s : System)
    → s.preempt i ≡ n
    → (j : ℕ) → s.preempt j ≡ (if i == j then n else s.preempt j)
same_count i n s e j = elim (Bool-cases (i == j)) [
  | inl here ↦ rw here (ap s.preempt (sym ((==_iff i j).0 here)) ∙ e)
  | inr other ↦ rw other refl
]

-- a CPU takes the lock
take-Inv :
    (i : ℕ) (s : System)
    → Inv s
    → s.locked ≡ false
    → weight (s.pc i) ≡ 1
    → Inv (record s { locked = true; pc = update s.pc i holding })
take-Inv i s v free busy = record {
  owner = some i;
  word = refl;
  holds = λ j. elim (Bool-cases (i == j)) [
    | inl e ↦ rw e refl
    | inr ne ↦ rw ne (v.holds j ∙ nobody v.owner j (sym v.word ∙ free))
  ];
  counts = λ j. elim (Bool-cases (i == j)) [
    | inl e ↦ rw e (same_count i 1 s (v.counts i ∙ busy) j ∙ rw e refl)
    | inr ne ↦ rw ne (v.counts j)
  ];
}
  where
    nobody : (o : Option ℕ) (j : ℕ) → is_some o ≡ false → owns o j ≡ false
    nobody none j e = refl
    nobody (some k) j e = absurd (ground (arith, e))

-- a CPU that has the lock gives it back
release-Inv :
    (i : ℕ) (s : System)
    → Inv s
    → s.pc i ≡ holding
    → Inv (record s { locked = false; pc = update s.pc i leaving })
release-Inv i s v at_i = record {
  owner = none;
  word = refl;
  holds = λ j. elim (Bool-cases (i == j)) [
    | inl e ↦ rw e refl
    | inr ne ↦ rw ne (v.holds j ∙ only v.owner j ne (sym (v.holds i) ∙ ap (λ x. is_holding x) at_i))
  ];
  counts = λ j. elim (Bool-cases (i == j)) [
    | inl e ↦ rw e (same_count i 1 s (v.counts i ∙ ap (λ x. weight x) at_i) j ∙ rw e refl)
    | inr ne ↦ rw ne (v.counts j)
  ];
}
  where
    only : (o : Option ℕ) (j : ℕ) → (i == j) ≡ false → owns o i ≡ true → owns o j ≡ false
    only none j ne e = refl
    only (some k) j ne e = ap (λ x. x == j) ((==_iff k i).0 e) ∙ ne

-- a CPU goes from one place in the code to another
move-Inv :
    (i : ℕ) (p q : Pc) (s : System)
    → Inv s
    → s.pc i ≡ p
    → is_holding p ≡ is_holding q
    → weight p ≡ weight q
    → Inv (goto i q s)
move-Inv i p q s v at_i same w =
    goto-Inv i q s s.preempt v (ap (λ x. is_holding x) at_i ∙ same)
      (same_count i (weight q) s (v.counts i ∙ ap (λ x. weight x) at_i ∙ w))

-- it enters the code, or leaves it
count-Inv :
    (i n : ℕ) (p q : Pc) (s : System)
    → Inv s
    → s.pc i ≡ p
    → is_holding p ≡ is_holding q
    → n ≡ weight q
    → Inv (goto i q (record s { preempt = update s.preempt i n }))
count-Inv i n p q s v at_i same w =
    goto-Inv i q s (update s.preempt i n) v (ap (λ x. is_holding x) at_i ∙ same)
      (λ j. ap (λ k. if i == j then k else s.preempt j) w)

disable-Inv :
    (i : ℕ) (q : Pc) (s : System)
    → Inv s
    → s.pc i ≡ idle
    → is_holding q ≡ false
    → weight q ≡ 1
    → Inv (goto i q (disable i s))
unfolding disable
disable-Inv i q s v at_i free busy =
    let none_yet : s.preempt i ≡ 0 = v.counts i ∙ ap (λ x. weight x) at_i in
    count-Inv i ((s.preempt i + 1) % 2 ^ 32) idle q s v at_i (sym free)
      (omega (arith, none_yet, busy))

set-Inv :
    (i : ℕ) (p q : Pc) (s : System)
    → Inv s
    → s.pc i ≡ p
    → is_holding p ≡ false
    → is_holding q ≡ false
    → weight p ≡ 1
    → weight q ≡ 1
    → Inv (goto i (if s.locked then q else holding) (record s { locked = true }))
set-Inv i p q s v at_i out_p out_q busy_p busy_q = elim (Bool-cases s.locked) [
  | inl taken ↦ rw taken (
      subst (λ l. Inv (record { locked = l; pc = update s.pc i q; preempt = s.preempt })) taken
        (move-Inv i p q s v at_i (out_p ∙ sym out_q) (busy_p ∙ sym busy_q)))
  | inr free ↦ rw free (take-Inv i s v free (ap (λ x. weight x) at_i ∙ busy_p))
]

step-Inv : (s t : System) → Step s t → Inv s → Inv t
unfolding enable test_and_set after_lock after_try_lock
step-Inv s t (call_lock i lt at_i) v = disable-Inv i trying s v at_i refl refl
step-Inv s t (call_try_lock i lt at_i) v = disable-Inv i trying_once s v at_i refl refl
step-Inv s t (set i at_i) v = set-Inv i trying spinning s v at_i refl refl refl refl
step-Inv s t (set_once i at_i) v = set-Inv i trying_once leaving s v at_i refl refl refl refl
step-Inv s t (read i at_i) v = elim (Bool-cases s.locked) [
  | inl taken ↦
      subst (λ b. Inv (goto i (if b then spinning else trying) s)) (sym taken)
        (move-Inv i spinning spinning s v at_i refl refl)
  | inr free ↦
      subst (λ b. Inv (goto i (if b then spinning else trying) s)) (sym free)
        (move-Inv i spinning trying s v at_i refl refl)
]
step-Inv s t (unlock i at_i) v = release-Inv i s v at_i
step-Inv s t (leave i at_i) v =
    let one : s.preempt i ≡ 1 = v.counts i ∙ ap (λ x. weight x) at_i in
    let not_zero : (s.preempt i == 0) ≡ false = ground (arith, one) in
    rw not_zero (count-Inv i (s.preempt i - 1) leaving idle s v at_i refl (omega (arith, one)))

reachable-Inv : (s : System) → Reachable s → Inv s
unfolding spinlock_init
reachable-Inv s begin = record { owner = none; word = refl; holds = λ i. refl; counts = λ i. refl }
reachable-Inv s (later {s = r} before last) = step-Inv r s last (reachable-Inv r before)

-- However the atomic operations of any CPUs on a lock are interleaved, two CPUs never hold it at once,
-- a CPU that holds it has its preemption disabled, and the word `locked` is 0 exactly when no CPU
-- holds it, so that a lock that was given back can be taken.
pub mutual_exclusion :
    (s : System)
    → Reachable s
    → ((i j : ℕ) → s.pc i ≡ holding → s.pc j ≡ holding → i ≡ j)
      × ((i : ℕ) → s.pc i ≡ holding → s.preempt i ≡ 1)
      × ((s.locked ≡ false) ↔ ((i : ℕ) → s.pc i ≢ holding))
mutual_exclusion s r =
    let v = reachable-Inv s r in
    let owned : (i : ℕ) → s.pc i ≡ holding → owns v.owner i ≡ true =
      λ i e. sym (v.holds i) ∙ ap (λ x. is_holding x) e in
    (
      λ i j a b. one_owner v.owner i j (owned i a) (owned j b),
      λ i e. v.counts i ∙ ap (λ x. weight x) e,
      (
        λ e i h. no_owner v.owner i (sym v.word ∙ e) (owned i h),
        λ none_holds. elim (Option-cases v.owner) [
          | inl nobody ↦ v.word ∙ ap (λ o. is_some o) nobody
          | inr (k, e) ↦
              absurd
                (none_holds k (at_holding (s.pc k) (v.holds k ∙ ap (λ o. owns o k) e ∙ ==_self k)))
        ],
      ),
    )
  where
    one_owner : (o : Option ℕ) (i j : ℕ) → owns o i ≡ true → owns o j ≡ true → i ≡ j
    one_owner none i j a b = absurd (ground (arith, a))
    one_owner (some k) i j a b = sym ((==_iff k i).0 a) ∙ (==_iff k j).0 b

    no_owner : (o : Option ℕ) (i : ℕ) → is_some o ≡ false → owns o i ≡ true → ⊥
    no_owner none i e h = absurd (ground (arith, h))
    no_owner (some k) i e h = absurd (ground (arith, e))

    at_holding : (p : Pc) → is_holding p ≡ true → p ≡ holding
    at_holding holding h = refl
    at_holding idle h = absurd (ground (arith, h))
    at_holding trying h = absurd (ground (arith, h))
    at_holding spinning h = absurd (ground (arith, h))
    at_holding trying_once h = absurd (ground (arith, h))
    at_holding leaving h = absurd (ground (arith, h))
