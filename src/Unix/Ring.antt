-- ===== src/Unix/Ring.antt =====
-- The ring buffers of a Unix socket as queues: `n` values from index `h` on, around a capacity.
use the_os_reborn.Common.{
  ℕ, zero, suc, ◌+◌, ◌%◌, ◌<◌, ◌≡◌, ◌≢◌, refl, sym, ap, ◌∙◌, true, false, List, [], ◌∷◌, ◌++◌, ◌==◌,
  ==_ne, ==_self, update, arith,
}

-- what is known of a capacity: indices below it stay, and `cap` successive ones are distinct
pub record IsCapacity (cap : ℕ) : Type 0 where
  pub next : (h k : ℕ) → h % cap ≡ k % cap → (h + 1) % cap ≡ (k + 1) % cap
  pub again : (h : ℕ) → h % cap % cap ≡ h % cap
  pub apart : (h k n : ℕ) → k < n → n < cap → (h + n) % cap ≢ (h + k) % cap

pub accept_queue_len-IsCapacity : IsCapacity 16
accept_queue_len-IsCapacity = record {
  next = λ h k e. omega (arith, e);
  again = λ h. omega arith;
  apart = λ h k n lt le e. absurd (omega (arith, e));
}

pub rx_queue_len-IsCapacity : IsCapacity 32
rx_queue_len-IsCapacity = record {
  next = λ h k e. omega (arith, e);
  again = λ h. omega arith;
  apart = λ h k n lt le e. absurd (omega (arith, e));
}

pub stream_buf_bytes-IsCapacity : IsCapacity 8192
stream_buf_bytes-IsCapacity = record {
  next = λ h k e. omega (arith, e);
  again = λ h. omega arith;
  apart = λ h k n lt le e. absurd (omega (arith, e));
}

module _ {ℓ} {A : Type ℓ} (cap : ℕ) where
  abbrev pub queue : ℕ → ℕ → (ℕ → A) → List A
  queue zero h f = []
  queue (suc n) h f = f (h % cap) ∷ queue n (h + 1) f

module _ {ℓ} {A : Type ℓ} (cap : ℕ) (c : IsCapacity cap) where
  pub queue-cong : (n h k : ℕ) (f : ℕ → A) → h % cap ≡ k % cap → queue cap n h f ≡ queue cap n k f
  queue-cong zero h k f e = refl
  queue-cong (suc n) h k f e =
      rw e (ap (λ q. f (k % cap) ∷ q) (queue-cong n (h + 1) (k + 1) f (c.next h k e)))

  -- a write outside the queue does not change it
  queue-update :
      (n h i : ℕ) (f : ℕ → A) (v : A)
      → ((k : ℕ) → k < n → i ≢ (h + k) % cap)
      → queue cap n h (update f i v) ≡ queue cap n h f
  queue-update zero h i f v out = refl
  queue-update (suc n) h i f v out =
      let at_h : (i == h % cap) ≡ false =
        ==_ne i (h % cap) (λ e. out 0 (omega arith) (e ∙ ap (λ x. x % cap) (omega arith))) in
      rw at_h (
        ap (λ q. f (h % cap) ∷ q)
          (queue-update n (h + 1) i f v
            (λ k lt e. out (suc k) (omega arith) (e ∙ ap (λ x. x % cap) (omega arith)))))

  queue-snoc :
      (n h : ℕ) (f : ℕ → A) → queue cap (suc n) h f ≡ queue cap n h f ++ (f ((h + n) % cap) ∷ [])
  queue-snoc zero h f = ap (λ x. f (x % cap) ∷ []) (omega arith)
  queue-snoc (suc n) h f =
      ap (λ q. f (h % cap) ∷ q)
        (queue-snoc n (h + 1) f
          ∙ ap (λ x. queue cap n (h + 1) f ++ (f (x % cap) ∷ [])) (omega arith))

  -- a value written at the tail of a queue with room is its last
  pub queue-push :
      (n h t : ℕ) (f : ℕ → A) (v : A)
      → n < cap
      → t ≡ (h + n) % cap
      → queue cap (suc n) h (update f t v) ≡ queue cap n h f ++ (v ∷ [])
  queue-push n h t f v room e =
      let self : (t == (h + n) % cap) ≡ true =
        ap (λ x. x == (h + n) % cap) e ∙ ==_self ((h + n) % cap) in
      queue-snoc n h (update f t v)
      ∙ (rw self (
          ap (λ q. q ++ (v ∷ []))
            (queue-update n h t f v (λ k lt same. c.apart h k n lt room (sym e ∙ same)))))
