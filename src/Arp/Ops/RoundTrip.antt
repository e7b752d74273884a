-- ===== src/Arp/Ops/RoundTrip.antt =====
-- What is set is looked up until it expires, and what is deleted is not.
use mathlib.Core.List.{map}
use mathlib.Core.Bool.{false≢true}
use the_os_reborn.Common.{
  bit_or_two, bit_or_four, bit_and_four, bit_and_mask, ◌*◌, ◌/◌, ◌%◌, ◌^◌, ℕ, suc, ◌+◌, ◌≡◌, ◌≢◌,
  refl, sym, ap, ◌∙◌, Bool, true, false, not, ◌&&◌, List, [], ◌∷◌, none, some, ◌==◌, get_or, inl,
  inr, Bool-cases, Option-cases, arith,
}
use Prim.Native.Nat.{bit_and, bit_or}
use the_os_reborn.Arp.{
  Entry, Arp, zero_entry, atf_perm, is_expired, find_from, find_entry_index_locked,
  cleanup_expired_locked, new_entry, upsert_flags, upsert_locked,
}
use the_os_reborn.Arp.Inv.{IsValid, kept, cleanup_loop-map}
use the_os_reborn.Arp.Upsert.{entry_for, upsert_locked_cases}
use the_os_reborn.Arp.Refine.{upsert_locked_refines}
use the_os_reborn.Arp.Ops.{enter, init, find_locked, lookup_ipv4, set_ipv4}
use the_os_reborn.Arp.Ops.Keep.{IsReady, enter-IsValid}

find_from-entry_for :
    (ip : ℕ) (es : List Entry) (i k : ℕ)
    → find_from ip es i ≡ some k
    → (j : ℕ) × (k ≡ i + j) × (entry_for ip es ≡ some (get_or es j zero_entry))
unfolding find_from
find_from-entry_for ip [] i k h = cc
find_from-entry_for ip (e ∷ es) i k h = elim (Bool-cases (e.used && (e.ipv4_addr_be == ip))) [
  | inl yes_e ↦ let q : k ≡ i = ground arith in (0, omega arith, rw yes_e refl)
  | inr no_e ↦
      let h' : find_from ip es (i + 1) ≡ some k = ground arith in
      let (j, q, f) = find_from-entry_for ip es (i + 1) k h' in (suc j, omega arith, rw no_e f)
]

find_from_missing :
    (ip : ℕ) (es : List Entry) (i : ℕ) → find_from ip es i ≡ none → entry_for ip es ≡ none
unfolding find_from
find_from_missing ip [] i h = refl
find_from_missing ip (e ∷ es) i h = ground (arith, find_from_missing ip es (i + 1))

-- The lookup under the lock is the lookup in the map.
pub find_locked_lem : (ip : ℕ) (s : Arp) → (find_locked ip s).1 ≡ entry_for ip s.entries
unfolding find_locked find_entry_index_locked
find_locked_lem ip s = elim (Option-cases (find_from ip s.entries 0)) [
  | inl e ↦ rw (e, find_locked) (sym (find_from_missing ip s.entries 0 e))
  | inr (k, e) ↦
      let (j, q, f) = find_from-entry_for ip s.entries 0 k e in
      rw (e, find_locked) (ap (λ i. some (get_or s.entries i zero_entry)) (omega arith) ∙ sym f)
]

skip_other :
    (ip : ℕ) (y e : Entry) (es : List Entry)
    → entry_for ip (y ∷ es) ≡ some e
    → y ≢ e
    → entry_for ip es ≡ some e
skip_other ip y e es h ne = elim (Bool-cases (y.used && (y.ipv4_addr_be == ip))) [
  | inl here ↦ let first : some y ≡ some e = rw here at h in let q : y ≡ e = cc in absurd (ne q)
  | inr there ↦ rw there at h
]

pub entry_for-kept :
    (now ip : ℕ) (es : List Entry) (e : Entry)
    → entry_for ip es ≡ some e
    → is_expired now e ≡ false
    → entry_for ip (map (kept now) es) ≡ some e
entry_for-kept now ip [] e h x = cc
entry_for-kept now ip (y ∷ es) e h x = elim (Bool-cases (is_expired now y)) [
  | inl out ↦ rw out (
      entry_for-kept now ip es e
        (skip_other ip y e es h (λ q. false≢true (sym x ∙ ap (is_expired now) (sym q) ∙ out))) x)
  | inr live ↦ elim (Bool-cases (y.used && (y.ipv4_addr_be == ip))) [
    | inl here ↦ rw (live, here) (ground arith)
    | inr there ↦ rw (live, there) (entry_for-kept now ip es e (rw there at h) x)
  ]
]

pub enter_initialized : (now : ℕ) (s : Arp) → (enter now s).initialized ≡ true
unfolding enter init cleanup_expired_locked
enter_initialized now s = ground arith

pub enter-entries :
    (now : ℕ) (s : Arp) → s.initialized ≡ true → (enter now s).entries ≡ map (kept now) s.entries
unfolding enter cleanup_expired_locked
enter-entries now s h = rw h (cleanup_loop-map now s.entries s.expired_entries)

pub set_ipv4_locked :
    (hz now ip : ℕ) (mac : List ℕ) (flags : ℕ) (s : Arp)
    → (set_ipv4 hz now ip mac flags s).1 ≡ true
    → (set_ipv4 hz now ip mac flags s
        ≡ upsert_locked hz ip mac flags (not (bit_and flags atf_perm == 0)) now (enter now s))
      × (ip ≢ 0)
unfolding set_ipv4
set_ipv4_locked hz now ip mac flags s h = ground arith

pub lookup_ipv4_lem :
    (now ip : ℕ) (s : Arp)
    → ip ≢ 0
    → (lookup_ipv4 now ip s).1
      ≡ elim ((find_locked ip (enter now s)).1) [ none ↦ none | some e ↦ some (e.mac, e.flags) ]
unfolding lookup_ipv4
lookup_ipv4_lem now ip s h = ground arith

pub upsert_initialized :
    (hz ip : ℕ) (mac : List ℕ) (flags : ℕ) (permanent : Bool) (now : ℕ) (s : Arp)
    → IsValid s
    → (upsert_locked hz ip mac flags permanent now s).0.initialized ≡ s.initialized
upsert_initialized hz ip mac flags permanent now s v =
    elim (upsert_locked_cases hz ip mac flags permanent now s v.unique) [
      | inl e ↦ rw e refl
      | inr (k, w, same, ok) ↦ same
    ]

-- the low 16 bits of the flags, with the bit 2 (ATF_COM) set and the others, ATF_PERM among them, as
-- they are
abbrev completed : ℕ → ℕ
completed flags = flags % 2 ^ 16 / 4 * 4 + 2 + flags % 2

upsert_flags-completed :
    (flags : ℕ) → upsert_flags flags (not (bit_and flags atf_perm == 0)) ≡ completed flags
unfolding upsert_flags
upsert_flags-completed flags =
    let complete : ℕ = bit_or flags 2 % 2 ^ 16 in
    let whole = bit_or_two flags in
    let tested = bit_and_four flags in
    elim (Bool-cases (bit_and flags 4 == 0)) [
      | inl clear ↦
          let masked = bit_and_mask complete (omega arith) in
          let off : bit_and flags 4 ≡ 0 = ground (arith, clear) in
          rw clear (omega (arith, masked, whole, tested, off))
      | inr asked ↦
          let joined = bit_or_four complete in
          let on : bit_and flags 4 ≢ 0 = λ e. ground (arith, asked, e) in
          rw asked (omega (arith, joined, whole, tested, on))
    ]

-- What ARP_set_ipv4 stores on a table that is well formed or not yet initialised, ARP_lookup_ipv4
-- finds at any later tick at which the entry is not expired: the hardware address, and the low 16
-- bits of the flags with ATF_COM set and the others, ATF_PERM among them, as they were given.
pub lookup_ipv4-set_ipv4 :
    (hz now now' ip : ℕ) (mac : List ℕ) (flags : ℕ) (s : Arp)
    → IsReady s
    → (set_ipv4 hz now ip mac flags s).1 ≡ true
    → is_expired now' (new_entry hz ip mac flags (not (bit_and flags atf_perm == 0)) now) ≡ false
    → (lookup_ipv4 now' ip (set_ipv4 hz now ip mac flags s).0).1
      ≡ some (mac, flags % 2 ^ 16 / 4 * 4 + 2 + flags % 2)
lookup_ipv4-set_ipv4 hz now now' ip mac flags s r done live =
    let permanent = not (bit_and flags atf_perm == 0) in
    let v = enter-IsValid now s r in
    let (same, nz) = set_ipv4_locked hz now ip mac flags s done in
    let done' = ap (λ (x : Arp × Bool). x.1) (sym same) ∙ done in
    let t : Arp = (upsert_locked hz ip mac flags permanent now (enter now s)).0 in
    let stored = (upsert_locked_refines hz ip mac flags permanent now (enter now s) v done').2 in
    let ready : t.initialized ≡ true =
      upsert_initialized hz ip mac flags permanent now (enter now s) v ∙ enter_initialized now s in
    let later = entry_for-kept now' ip t.entries _ stored live in
    let found : (find_locked ip (enter now' t)).1 ≡ some (new_entry hz ip mac flags permanent now) =
      find_locked_lem ip (enter now' t) ∙ ap (entry_for ip) (enter-entries now' t ready) ∙ later in
    rw same (
      lookup_ipv4_lem now' ip t nz
      ∙ rw found refl
      ∙ ap (λ n. some (mac, n)) (upsert_flags-completed flags))
