-- ===== src/Task/WaitQueue/Cancel.antt =====
-- task_wait_queue_cancel_locked takes a waiter out of the list.
use the_os_reborn.Common.{
  append_nil, ℕ, zero, suc, ◌<◌, ◌≡◌, ◌≢◌, refl, sym, ap, ◌∙◌, subst, Bool, true, false, ◌||◌, List,
  [], ◌∷◌, ◌++◌, ◌==◌, if◌then◌else◌, update, length, Bool-cases, ==_ne, ==_self, ==_iff, inl, inr,
  arith,
}
use the_os_reborn.Task.WaitQueue.{Waiter, WaitQueue, unlink, cancel_loop, wait_queue_cancel_locked}
use the_os_reborn.Task.WaitQueue.Chain.{
  IsChain, IsNot, AreDifferent, last_of, IsQueue, IsChain-update, last_of-IsNot, last_of-append,
}

pub remove : ℕ → List ℕ → List ℕ
remove a [] = []
remove a (w ∷ ws) = if w == a then ws else w ∷ remove a ws

-- a list without the waiter `a` in its middle
without-AreDifferent :
    (us vs : List ℕ) (a : ℕ)
    → AreDifferent (us ++ (a ∷ vs))
    → AreDifferent (us ++ vs) × IsNot a (us ++ vs)
without-AreDifferent [] vs a (out, d) = (d, out)
without-AreDifferent (u ∷ us) vs a (out, d) =
    let (e, n) = without-AreDifferent us vs a d in
    let (m, ne) = IsNot-middle us vs a u out in ((m, e), (λ q. ne (sym q), n))
  where
    IsNot-middle :
        (us vs : List ℕ) (a u : ℕ) → IsNot u (us ++ (a ∷ vs)) → IsNot u (us ++ vs) × (u ≢ a)
    IsNot-middle [] vs a u (ne, rest) = (rest, ne)
    IsNot-middle (x ∷ us) vs a u (ne, rest) =
        let (r, ne') = IsNot-middle us vs a u rest in ((ne, r), ne')

last_of_middle : (b a : ℕ) (us vs : List ℕ) → last_of b (us ++ (a ∷ vs)) ≡ last_of a vs
last_of_middle b a [] vs = refl
last_of_middle b a (u ∷ us) vs = last_of_middle u a us vs

length_middle : (a : ℕ) (us vs : List ℕ) → length (us ++ (a ∷ vs)) ≡ suc (length (us ++ vs))
length_middle a [] vs = refl
length_middle a (u ∷ us) vs = ap suc (length_middle a us vs)

IsNot-prefix : (b : ℕ) (us vs : List ℕ) → IsNot b (us ++ vs) → IsNot b us
IsNot-prefix b [] vs n = tt
IsNot-prefix b (u ∷ us) vs (ne, n) = (ne, IsNot-prefix b us vs n)

IsNot-suffix : (b : ℕ) (us vs : List ℕ) → IsNot b (us ++ vs) → IsNot b vs
IsNot-suffix b [] vs n = n
IsNot-suffix b (u ∷ us) vs (ne, n) = IsNot-suffix b us vs n

IsChain-nonzero : (m : ℕ → Waiter) (h : ℕ) (ws : List ℕ) → IsChain m h ws → IsNot 0 ws
IsChain-nonzero m h [] c = tt
IsChain-nonzero m h (w ∷ ws) (e, nz, rest) = (λ q. nz (sym q), IsChain-nonzero m (m w).next ws rest)

-- the waiter before `a` gets the successor of `a`
IsChain-skip :
    (m : ℕ → Waiter) (h u a : ℕ) (us vs : List ℕ)
    → AreDifferent (u ∷ (us ++ (a ∷ vs)))
    → IsChain m h (u ∷ (us ++ (a ∷ vs)))
    → IsChain
        (update m (last_of u us) (record (m (last_of u us)) { next = (m a).next }))
        h
        (u ∷ (us ++ vs))
IsChain-skip m h u a [] vs (out, d) (e, nz, (next_is, a_nz, rest)) =
    (e, nz, rw (==_self u) (IsChain-update m (m a).next u _ vs out.1 rest))
IsChain-skip m h u a (x ∷ us) vs (out, d) (e, nz, rest) =
    let other : (last_of x us == u) ≡ false =
      ==_ne _ _ (λ q. last_of-IsNot x us u (out.0, IsNot-prefix u us (a ∷ vs) out.1) (sym q)) in
    (e, nz, rw other (IsChain-skip m (m u).next x a us vs d rest))

last_of_without :
    (a tail : ℕ) (us vs : List ℕ)
    → AreDifferent (us ++ (a ∷ vs))
    → tail ≡ last_of 0 (us ++ (a ∷ vs))
    → (if tail == a then last_of 0 us else tail) ≡ last_of 0 (us ++ vs)
last_of_without a tail us [] d e =
    let at_a : (tail == a) ≡ true = (==_iff tail a).1 (e ∙ last_of_middle 0 a us []) in
    rw at_a (ap (λ xs. last_of 0 xs) (sym (append_nil us)))
last_of_without a tail us (x ∷ xs) d e =
    let (d', out) = without-AreDifferent us (x ∷ xs) a d in
    let tail_is : tail ≡ last_of x xs = e ∙ last_of_middle 0 a us (x ∷ xs) in
    let other : (tail == a) ≡ false =
      ==_ne _ _ (λ q. last_of-IsNot x xs a (IsNot-suffix a us (x ∷ xs) out) (sym q ∙ tail_is)) in
    rw other (tail_is ∙ sym (last_of_middle 0 x us xs))

unlink-IsQueue :
    (a : ℕ) (us vs : List ℕ) (s : WaitQueue)
    → IsQueue s (us ++ (a ∷ vs))
    → IsQueue (unlink (last_of 0 us) a s) (us ++ vs)
unfolding unlink
unlink-IsQueue a [] vs s v =
    let (e, nz, rest) = v.chain in
    record {
      chain = IsChain-update s.at (s.at a).next a _ vs v.different.0 rest;
      different = v.different.1;
      tail_is = last_of_without a s.tail [] vs v.different v.tail_is;
      counted = omega (arith, v.counted);
    }
unlink-IsQueue a (u ∷ us) vs s v =
    let (d, out) = without-AreDifferent (u ∷ us) vs a v.different in
    let behind : (last_of u us == 0) ≡ false = ==_ne _ _ (λ q.
      last_of-IsNot u us 0
        (IsNot-prefix 0 (u ∷ us) (a ∷ vs)
          (IsChain-nonzero s.at s.head (u ∷ (us ++ (a ∷ vs))) v.chain))
        (sym q)) in
    rw behind (record {
      chain =
          IsChain-update _ s.head a _ (u ∷ (us ++ vs)) out
            (IsChain-skip s.at s.head u a us vs v.different v.chain);
      different = d;
      tail_is = last_of_without a s.tail (u ∷ us) vs v.different v.tail_is;
      counted = omega (arith, v.counted, length_middle a us vs);
    })

abbrev pub has : ℕ → List ℕ → Bool
has a [] = false
has a (w ∷ ws) = w == a || has a ws

append_one : (us ws : List ℕ) (w : ℕ) → us ++ (w ∷ ws) ≡ (us ++ (w ∷ [])) ++ ws
append_one [] ws w = refl
append_one (u ∷ us) ws w = ap (λ x. u ∷ x) (append_one us ws w)

abbrev Walked : ℕ → WaitQueue × Bool → List ℕ → Bool → Type 0
Walked prev out ws found = (out.1 ≡ found) × IsQueue out.0 ws

-- the walk with the waiters `us` passed and `ws` to come
cancel_loop-IsQueue :
    (n cur a : ℕ) (us ws : List ℕ) (s : WaitQueue)
    → length ws < n
    → IsChain s.at cur ws
    → IsQueue s (us ++ ws)
    → ((cancel_loop n (last_of 0 us) cur a s).1 ≡ has a ws)
      × IsQueue (cancel_loop n (last_of 0 us) cur a s).0 (us ++ remove a ws)
unfolding cancel_loop remove
cancel_loop-IsQueue zero cur a us ws s lt c v = absurd (omega (arith, lt))
cancel_loop-IsQueue (suc n) cur a us [] s lt c v =
    let end : (cur == 0) ≡ true = (==_iff cur 0).1 c in rw end (refl, v)
cancel_loop-IsQueue (suc n) cur a us (w ∷ ws) s lt (e, nz, rest) v =
    let more : (cur == 0) ≡ false = ==_ne cur 0 (λ q. nz (sym e ∙ q)) in
    elim (Bool-cases (w == a)) [
      | inl here ↦
          let cur_is : (cur == a) ≡ true = ap (λ x. x == a) e ∙ here in
          rw (more, cur_is, here)
            (
              refl,
              subst (λ x. IsQueue (unlink (last_of 0 us) x s) (us ++ ws)) (sym e)
                  (unlink-IsQueue w us ws s v),
            )
      | inr further ↦
          let cur_is : (cur == a) ≡ false = ap (λ x. x == a) e ∙ further in
          let ih =
            cancel_loop-IsQueue n (s.at cur).next a (us ++ (w ∷ [])) ws s (omega (arith, lt))
              (subst (λ x. IsChain s.at (s.at x).next ws) (sym e) rest)
              (subst (IsQueue s) (append_one us ws w) v) in
          let from_cur =
            subst
              (λ p.
                Walked p (cancel_loop n p (s.at cur).next a s) ((us ++ (w ∷ [])) ++ remove a ws)
                  (has a ws))
              (last_of-append 0 w us ∙ sym e) ih in
          rw (more, cur_is, further)
            (subst (λ l. Walked cur (cancel_loop n cur (s.at cur).next a s) l (has a ws))
              (sym (append_one us (remove a ws) w)) from_cur)
    ]

-- task_wait_queue_cancel_locked takes the waiter out of the queue, the others staying in their order,
-- and says whether it was there.
pub cancel_locked-IsQueue :
    (a : ℕ) (s : WaitQueue) (ws : List ℕ)
    → a ≢ 0
    → IsQueue s ws
    → ((wait_queue_cancel_locked a s).1 ≡ has a ws)
      × IsQueue (wait_queue_cancel_locked a s).0 (remove a ws)
unfolding wait_queue_cancel_locked
cancel_locked-IsQueue a s ws nz v =
    let not_null : (a == 0) ≡ false = ==_ne a 0 nz in
    rw not_null
      (cancel_loop-IsQueue (suc s.waiters) s.head a [] ws s (omega (arith, v.counted)) v.chain v)
