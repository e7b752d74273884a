-- ===== src/Task/WaitQueue/Chain.antt =====
-- A wait queue as the list of its waiters, the first one first.
use the_os_reborn.Common.{
  All-append, length-append, ℕ, ◌+◌, ◌^◌, ◌<◌, ◌≡◌, ◌≢◌, refl, sym, ◌∙◌, subst, true, false, List,
  [], ◌∷◌, ◌++◌, ◌==◌, if◌then◌else◌, update, length, All, ==_ne, ==_self, ==_iff, arith,
}
use the_os_reborn.Task.WaitQueue.{Waiter, WaitQueue, wait_queue_enqueue_locked, take_first}

-- from address `a` on stand the waiters `ws`
abbrev pub IsChain : (ℕ → Waiter) → ℕ → List ℕ → Type 0
IsChain m a [] = a ≡ 0
IsChain m a (w ∷ ws) = (a ≡ w) × (w ≢ 0) × IsChain m (m w).next ws

abbrev pub IsNot : ℕ → List ℕ → Type 0
IsNot a ws = All (λ w. a ≢ w) ws

abbrev pub AreDifferent : List ℕ → Type 0
AreDifferent [] = Unit
AreDifferent (w ∷ ws) = IsNot w ws × AreDifferent ws

-- the last of the waiters behind `a`
abbrev pub last_of : ℕ → List ℕ → ℕ
last_of a [] = a
last_of a (w ∷ ws) = last_of w ws

pub record IsQueue (s : WaitQueue) (ws : List ℕ) : Type 0 where
  pub chain : IsChain s.at s.head ws
  pub different : AreDifferent ws
  pub tail_is : s.tail ≡ last_of 0 ws
  pub counted : s.waiters ≡ length ws

-- a write to a waiter that is not in the list
pub IsChain-update :
    (m : ℕ → Waiter) (a b : ℕ) (v : Waiter) (ws : List ℕ)
    → IsNot b ws
    → IsChain m a ws
    → IsChain (update m b v) a ws
IsChain-update m a b v [] out h = h
IsChain-update m a b v (w ∷ ws) (ne, out) (e, nz, rest) =
    let other : (b == w) ≡ false = ==_ne b w ne in
    (e, nz, rw other (IsChain-update m (m w).next b v ws out rest))

pub last_of-IsNot : (a : ℕ) (ws : List ℕ) (b : ℕ) → IsNot b (a ∷ ws) → b ≢ last_of a ws
last_of-IsNot a [] b (ne, rest) = ne
last_of-IsNot a (w ∷ ws) b (ne, rest) = last_of-IsNot w ws b rest

pub last_of-append : (a b : ℕ) (ws : List ℕ) → last_of a (ws ++ (b ∷ [])) ≡ b
last_of-append a b [] = refl
last_of-append a b (w ∷ ws) = last_of-append w b ws

pub last_of_nonzero :
    (m : ℕ → Waiter) (a w : ℕ) (ws : List ℕ) → IsChain m a (w ∷ ws) → last_of w ws ≢ 0
last_of_nonzero m a w [] (e, nz, rest) = nz
last_of_nonzero m a w (x ∷ ws) (e, nz, rest) = last_of_nonzero m (m w).next x ws rest

pub AreDifferent-append :
    (b : ℕ) (ws : List ℕ) → IsNot b ws → AreDifferent ws → AreDifferent (ws ++ (b ∷ []))
AreDifferent-append b [] out d = (tt, tt)
AreDifferent-append b (w ∷ ws) (ne, out) (differ, d) = (
  All-append (λ x. w ≢ x) ws (b ∷ []) differ (λ e. ne (sym e), tt),
  AreDifferent-append b ws out d,
)

-- the last waiter gets a successor
IsChain-append :
    (m : ℕ → Waiter) (a b : ℕ) (w : ℕ) (ws : List ℕ)
    → b ≢ 0
    → IsNot b (w ∷ ws)
    → AreDifferent (w ∷ ws)
    → (m b).next ≡ 0
    → IsChain m a (w ∷ ws)
    → IsChain
        (update m (last_of w ws) (record (m (last_of w ws)) { next = b }))
        a
        (w ∷ (ws ++ (b ∷ [])))
IsChain-append m a b w [] nz (out, none_else) distinct end (e, w_nz, stop) =
    (e, w_nz, (rw (==_self w) refl, nz, rw (==_ne w b (λ q. out (sym q))) end))
IsChain-append m a b w (x ∷ ws) nz (out, outs) (differ, distinct) end (e, w_nz, rest) =
    let other : (last_of x ws == w) ≡ false =
      ==_ne _ _ (λ q. last_of-IsNot x ws w differ (sym q)) in
    (e, w_nz, rw other (IsChain-append m (m w).next b x ws nz outs distinct end rest))

-- a waiter that is not in the queue comes in at its end
pub enqueue_locked-IsQueue :
    (a : ℕ) (s : WaitQueue) (ws : List ℕ)
    → a ≢ 0
    → IsNot a ws
    → length ws + 1 < 2 ^ 32
    → IsQueue s ws
    → IsQueue (wait_queue_enqueue_locked a s) (ws ++ (a ∷ []))
unfolding wait_queue_enqueue_locked
enqueue_locked-IsQueue a s [] nz out room v =
    let not_null : (a == 0) ≡ false = ==_ne a 0 nz in
    let empty : (s.tail == 0) ≡ true = (==_iff s.tail 0).1 v.tail_is in
    rw (not_null, empty)
      (record {
        chain = (refl, nz, rw (==_self a) refl);
        different = (tt, tt);
        tail_is = refl;
        counted = omega (arith, v.counted);
      })
enqueue_locked-IsQueue a s (w ∷ ws) nz out room v =
    let not_null : (a == 0) ≡ false = ==_ne a 0 nz in
    let some_tail : (s.tail == 0) ≡ false =
      ==_ne s.tail 0 (λ e. last_of_nonzero s.at s.head w ws v.chain (sym v.tail_is ∙ e)) in
    let m : ℕ → Waiter = update s.at a (record (s.at a) { next = 0; queued = true }) in
    let c =
      IsChain-append m s.head a w ws nz out v.different (rw (==_self a) refl)
        (IsChain-update s.at s.head a _ (w ∷ ws) out v.chain) in
    rw (not_null, some_tail)
      (record {
        chain =
            subst
              (λ t. IsChain (update m t (record (m t) { next = a })) s.head (w ∷ (ws ++ (a ∷ []))))
              (sym v.tail_is) c;
        different = AreDifferent-append a (w ∷ ws) out v.different;
        tail_is = sym (last_of-append w a ws);
        counted = omega (arith, v.counted, length-append ws (a ∷ []), room);
      })

pub tail_behind :
    (m : ℕ → Waiter) (next tail w : ℕ) (ws : List ℕ)
    → IsChain m next ws
    → tail ≡ last_of w ws
    → (if next == 0 then 0 else tail) ≡ last_of 0 ws
tail_behind m next tail w [] stop e = rw stop refl
tail_behind m next tail w (x ∷ xs) (e', nz, rest) e =
    let more : (next == 0) ≡ false = ==_ne next 0 (λ q. nz (sym e' ∙ q)) in rw more e

-- the first waiter leaves
pub take_first-IsQueue :
    (s : WaitQueue) (w : ℕ) (ws : List ℕ)
    → IsQueue s (w ∷ ws)
    → ((take_first s).1 ≡ w) × IsQueue (take_first s).0 ws
unfolding take_first
take_first-IsQueue s w ws v =
    let (e, nz, rest) = v.chain in
    let not_null : (s.head == 0) ≡ false = ==_ne s.head 0 (λ q. nz (sym e ∙ q)) in
    let after : IsChain s.at (s.at s.head).next ws =
      subst (λ x. IsChain s.at (s.at x).next ws) (sym e) rest in
    rw not_null (
      e,
      record {
        chain =
            IsChain-update s.at (s.at s.head).next s.head _ ws
              (subst (λ x. IsNot x ws) (sym e) v.different.0) after;
        different = v.different.1;
        tail_is = tail_behind s.at (s.at s.head).next s.tail w ws after v.tail_is;
        counted = omega (arith, v.counted);
      },
    )
