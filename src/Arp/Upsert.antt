-- ===== src/Arp/Upsert.antt =====
-- What ARP_upsert_locked does to the table, seen as a map from addresses to entries.
use mathlib.Core.Bool.{false≢true}
use the_os_reborn.Common.{
  ℕ, zero, suc, ◌<◌, ◌≡◌, ◌≢◌, refl, sym, ap, ◌∙◌, subst, Bool, true, false, ◌&&◌, ◌||◌, List, [],
  ◌∷◌, Option, none, some, ◌==◌, if◌then◌else◌, get_or, set, length, inl, inr, ◌⊎◌, Bool-cases,
  Option-cases, arith,
}
use the_os_reborn.Arp.{
  Entry, Arp, zero_entry, ipv4_is_zero, mac_is_zero, find_entry_index_locked,
  find_replace_slot_locked, new_entry, fill_slot, replace_slot, upsert_locked,
}
use the_os_reborn.Arp.Inv.{
  Absent, AbsentBut, Unique, find_from-some, find_from-none, Absent-AbsentBut, Unique-AbsentBut,
}
use the_os_reborn.Arp.Slots.{IsFull, IsOldest, find_replace_slot_locked-some}

-- the entry in use for an address
abbrev pub entry_for : ℕ → List Entry → Option Entry
entry_for ip [] = none
entry_for ip (e ∷ es) = if e.used && (e.ipv4_addr_be == ip) then some e else entry_for ip es

pub entry_for-Absent : (ip : ℕ) (es : List Entry) → Absent ip es → entry_for ip es ≡ none
entry_for-Absent ip [] h = refl
entry_for-Absent ip (e ∷ es) h = ground (arith, h.0, entry_for-Absent ip es h.1)

pub entry_for-set_self :
    (ip i : ℕ) (es : List Entry) (e : Entry)
    → i < length es
    → AbsentBut i ip es
    → e.used ≡ true
    → e.ipv4_addr_be ≡ ip
    → entry_for ip (set es i e) ≡ some e
entry_for-set_self ip i [] e lt a u q = absurd (omega arith)
entry_for-set_self ip zero (x ∷ es) e lt a u q = ground arith
entry_for-set_self ip (suc i) (x ∷ es) e lt a u q =
    ground (arith, a.0, entry_for-set_self ip i es e (omega arith) a.1 u q)

pub entry_for-set_other :
    (ip i : ℕ) (es : List Entry) (e : Entry)
    → i < length es
    → e.ipv4_addr_be ≢ ip
    → ((get_or es i zero_entry).used ≡ true → (get_or es i zero_entry).ipv4_addr_be ≢ ip)
    → entry_for ip (set es i e) ≡ entry_for ip es
entry_for-set_other ip i [] e lt ne old = refl
entry_for-set_other ip zero (x ∷ es) e lt ne old = ground (arith, old)
entry_for-set_other ip (suc i) (x ∷ es) e lt ne old =
    ground (arith, entry_for-set_other ip i es e (omega arith) ne old)

pub entry_for_at :
    (ip i : ℕ) (es : List Entry)
    → i < length es
    → AbsentBut i ip es
    → (get_or es i zero_entry).used ≡ true
    → (get_or es i zero_entry).ipv4_addr_be ≡ ip
    → entry_for ip es ≡ some (get_or es i zero_entry)
entry_for_at ip i [] lt a u q = absurd (omega arith)
entry_for_at ip zero (x ∷ es) lt a u q = ground arith
entry_for_at ip (suc i) (x ∷ es) lt a u q =
    ground (arith, a.0, entry_for_at ip i es (omega arith) a.1 u q)

pub entry_for-set_evicted :
    (ip i : ℕ) (es : List Entry) (e : Entry)
    → e.ipv4_addr_be ≢ ip
    → AbsentBut i ip es
    → entry_for ip (set es i e) ≡ none
entry_for-set_evicted ip i [] e ne a = refl
entry_for-set_evicted ip zero (x ∷ es) e ne a = ground (arith, entry_for-Absent ip es a)
entry_for-set_evicted ip (suc i) (x ∷ es) e ne a =
    ground (arith, a.0, entry_for-set_evicted ip i es e ne a.1)

-- how slot `k` was chosen for `ip`
abbrev pub Choice : ℕ → List Entry → ℕ → Type 0
Choice ip es k =
    (((get_or es k zero_entry).used ≡ true) × ((get_or es k zero_entry).ipv4_addr_be ≡ ip))
    ⊎ (Absent ip es × (((get_or es k zero_entry).used ≡ false) ⊎ (IsFull es × IsOldest es k)))

-- the arguments are accepted, and the new entry stands in slot `k`
pub record IsWritten (ip : ℕ) (mac : List ℕ) (e : Entry) (k : ℕ) (s t : Arp) : Type 0 where
  pub address : ip ≢ 0
  pub hardware : mac_is_zero mac ≡ false
  pub inside : k < length s.entries
  pub others : AbsentBut k ip s.entries
  pub choice : Choice ip s.entries k
  pub written : t.entries ≡ set s.entries k e

fill_slot_lem : (k : ℕ) (e : Entry) (s : Arp) → ((fill_slot k e s).1 ≡ true)
fill_slot_lem k e s = refl

replace_slot_lem :
    (k : ℕ) (e : Entry) (s : Arp)
    → ((replace_slot k e s).0.entries ≡ set s.entries k e)
      × ((replace_slot k e s).0.initialized ≡ s.initialized)
      × ((replace_slot k e s).1 ≡ true)
unfolding replace_slot
replace_slot_lem k e s = ground arith

module _ (hz ip : ℕ) (mac : List ℕ) (flags : ℕ) (permanent : Bool) (now : ℕ) (s : Arp) where
  upsert_refused :
      (ipv4_is_zero ip || mac_is_zero mac) ≡ true
      → upsert_locked hz ip mac flags permanent now s ≡ (s, false)
  unfolding upsert_locked
  upsert_refused h = ground arith

  upsert_found :
      (k : ℕ)
      → (ipv4_is_zero ip || mac_is_zero mac) ≡ false
      → find_entry_index_locked ip s ≡ some k
      → upsert_locked hz ip mac flags permanent now s
        ≡ fill_slot k (new_entry hz ip mac flags permanent now) s
  unfolding upsert_locked
  upsert_found k h f = ground arith

  upsert_no_slot :
      (ipv4_is_zero ip || mac_is_zero mac) ≡ false
      → find_entry_index_locked ip s ≡ none
      → find_replace_slot_locked s ≡ none
      → upsert_locked hz ip mac flags permanent now s ≡ (s, false)
  unfolding upsert_locked
  upsert_no_slot h f g = ground arith

  upsert_replaced :
      (k : ℕ)
      → (ipv4_is_zero ip || mac_is_zero mac) ≡ false
      → find_entry_index_locked ip s ≡ none
      → find_replace_slot_locked s ≡ some k
      → upsert_locked hz ip mac flags permanent now s
        ≡ replace_slot k (new_entry hz ip mac flags permanent now) s
  unfolding upsert_locked
  upsert_replaced k h f g = ground arith

  accepted_args :
      (ipv4_is_zero ip || mac_is_zero mac) ≡ false → (ip ≢ 0) × (mac_is_zero mac ≡ false)
  accepted_args h = ground arith

  good_args : ip ≢ 0 → mac_is_zero mac ≡ false → (ipv4_is_zero ip || mac_is_zero mac) ≡ false
  good_args a h = ground arith

  missing : find_entry_index_locked ip s ≡ none → Absent ip s.entries
  unfolding find_entry_index_locked
  missing f = find_from-none ip s.entries 0 f

  -- ARP_upsert_locked changes nothing, or writes one slot.
  abbrev pub UpsertCases : Type 0
  UpsertCases =
      (upsert_locked hz ip mac flags permanent now s ≡ (s, false))
      ⊎ ((k : ℕ) × IsWritten ip mac (new_entry hz ip mac flags permanent now) k s
            (upsert_locked hz ip mac flags permanent now s).0
          × ((upsert_locked hz ip mac flags permanent now s).0.initialized ≡ s.initialized)
          × ((upsert_locked hz ip mac flags permanent now s).1 ≡ true))

  upsert_found_cases :
      (k : ℕ)
      → Unique s.entries
      → (ipv4_is_zero ip || mac_is_zero mac) ≡ false
      → find_entry_index_locked ip s ≡ some k
      → UpsertCases
  unfolding find_entry_index_locked
  upsert_found_cases k v h f =
      let (j, q, lt, u, a) = find_from-some ip s.entries 0 k f in
      let own : k ≡ j = omega arith in
      let at_k = subst (λ i. (get_or s.entries i zero_entry).used ≡ true) (sym own) u in
      let ip_k = subst (λ i. (get_or s.entries i zero_entry).ipv4_addr_be ≡ ip) (sym own) a in
      inr (
        k,
        rw (upsert_found k h f) (record {
          address = (accepted_args h).0;
          hardware = (accepted_args h).1;
          inside = omega arith;
          others = Unique-AbsentBut k ip s.entries v at_k ip_k;
          choice = inl (at_k, ip_k);
          written = refl;
        }),
        rw (upsert_found k h f) refl,
        rw (upsert_found k h f) refl,
      )

  upsert_replaced_cases :
      (k : ℕ)
      → (ipv4_is_zero ip || mac_is_zero mac) ≡ false
      → find_entry_index_locked ip s ≡ none
      → find_replace_slot_locked s ≡ some k
      → UpsertCases
  unfolding find_entry_index_locked
  upsert_replaced_cases k h f g =
      let (lt, how) = find_replace_slot_locked-some s k g in
      let gone = find_from-none ip s.entries 0 f in
      let (entries, init, ok) = replace_slot_lem k (new_entry hz ip mac flags permanent now) s in
      inr (
        k,
        rw (upsert_replaced k h f g) (record {
          address = (accepted_args h).0;
          hardware = (accepted_args h).1;
          inside = lt;
          others = Absent-AbsentBut k ip s.entries gone;
          choice = inr (gone, how);
          written = entries;
        }),
        rw (upsert_replaced k h f g) init,
        rw (upsert_replaced k h f g) ok,
      )

  pub upsert_locked_cases : Unique s.entries → UpsertCases
  upsert_locked_cases v = elim (Bool-cases (ipv4_is_zero ip || mac_is_zero mac)) [
    | inl bad ↦ inl (upsert_refused bad)
    | inr good ↦ elim (Option-cases (find_entry_index_locked ip s)) [
      | inr (k, f) ↦ upsert_found_cases k v good f
      | inl f ↦ elim (Option-cases (find_replace_slot_locked s)) [
        | inl g ↦ inl (upsert_no_slot good f g)
        | inr (k, g) ↦ upsert_replaced_cases k good f g
      ]
    ]
  ]

  pub upsert_fails_cases :
      ip ≢ 0
      → mac_is_zero mac ≡ false
      → (upsert_locked hz ip mac flags permanent now s).1 ≡ false
      → Absent ip s.entries × (find_replace_slot_locked s ≡ none)
  upsert_fails_cases a h bad = elim (Option-cases (find_entry_index_locked ip s)) [
    | inr (k, f) ↦
        absurd
          (false≢true (sym bad ∙ ap (λ (x : Arp × Bool). x.1) (upsert_found k (good_args a h) f)))
    | inl f ↦ elim (Option-cases (find_replace_slot_locked s)) [
      | inl g ↦ (missing f, g)
      | inr (k, g) ↦ absurd (
          false≢true (
            sym bad
            ∙ ap (λ (x : Arp × Bool). x.1) (upsert_replaced k (good_args a h) f g)
            ∙ (replace_slot_lem k (new_entry hz ip mac flags permanent now) s).2))
    ]
  ]
