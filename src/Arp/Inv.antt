-- ===== src/Arp/Inv.antt =====
-- The well-formedness of the ARP table, and that the operations under its lock keep it.
use mathlib.Core.List.{map}
use the_os_reborn.Common.{
  ℕ, zero, suc, ◌+◌, ◌<◌, ◌≡◌, ◌≢◌, refl, sym, ap, ◌∙◌, subst, true, false, List, [], ◌∷◌, none,
  some, if◌then◌else◌, get_or, set, length, length-set, All, All-set, All-get_or, inl, inr, ◌⊎◌,
  Bool-cases, arith,
}
use the_os_reborn.Arp.{
  Entry, Arp, table_capacity, mac_len, uint64_max, zero_entry, mac_is_zero, is_expired,
  cleanup_loop, cleanup_expired_locked, find_from,
}

-- A used entry has an address and a hardware address of six bytes that is not zero, and a permanent
-- one never expires; a free one is all zero.
pub record IsEntry (e : Entry) : Type 0 where
  pub has_address : e.used ≡ true → e.ipv4_addr_be ≢ 0
  pub has_mac : e.used ≡ true → mac_is_zero e.mac ≡ false
  pub mac_length : length e.mac ≡ mac_len
  pub stays : e.permanent ≡ true → e.expires_ticks ≡ uint64_max
  pub free_zero : e.used ≡ false → e ≡ zero_entry

-- `ip` is the address of no used entry
abbrev pub Absent : ℕ → List Entry → Type 0
Absent ip es = All (λ e. e.used ≡ true → e.ipv4_addr_be ≢ ip) es

-- no address has two used entries
abbrev pub Unique : List Entry → Type 0
Unique [] = Unit
Unique (e ∷ es) = (e.used ≡ true → Absent e.ipv4_addr_be es) × Unique es

pub record IsValid (s : Arp) : Type 0 where
  pub capacity : length s.entries ≡ table_capacity
  pub each : All IsEntry s.entries
  pub unique : Unique s.entries

pub zero_entry-IsEntry : IsEntry zero_entry
zero_entry-IsEntry = record {
  has_address = λ e. cc;
  has_mac = λ e. cc;
  mac_length = refl;
  stays = λ e. cc;
  free_zero = λ _. refl;
}

-- the two ways of one round of the loop
find_from-cons :
    (ip : ℕ) (e : Entry) (es : List Entry) (i : ℕ)
    → ((e.used ≡ true) × (e.ipv4_addr_be ≡ ip) × (find_from ip (e ∷ es) i ≡ some i))
      ⊎ ((e.used ≡ true → e.ipv4_addr_be ≢ ip)
          × (find_from ip (e ∷ es) i ≡ find_from ip es (i + 1)))
unfolding find_from
find_from-cons ip e es i = ground arith

-- `find_from` finds the first used entry with the address.
pub find_from-some :
    (ip : ℕ) (es : List Entry) (i k : ℕ)
    → find_from ip es i ≡ some k
    → (j : ℕ) × (k ≡ i + j)
      × (j < length es)
      × ((get_or es j zero_entry).used ≡ true)
      × ((get_or es j zero_entry).ipv4_addr_be ≡ ip)
unfolding find_from
find_from-some ip [] i k h = cc
find_from-some ip (e ∷ es) i k h = elim (find_from-cons ip e es i) [
  | inl (u, a, f) ↦ let e : k ≡ i = ground arith in (0, omega arith, omega arith, u, a)
  | inr (_, f) ↦
      let (j, k', lt, u, a) = find_from-some ip es (i + 1) k (sym f ∙ h) in
      (suc j, omega arith, omega arith, u, a)
]

pub find_from-none : (ip : ℕ) (es : List Entry) (i : ℕ) → find_from ip es i ≡ none → Absent ip es
unfolding find_from
find_from-none ip [] i h = tt
find_from-none ip (e ∷ es) i h = (ground arith, find_from-none ip es (i + 1) (ground arith))

pub find_from-Absent : (ip : ℕ) (es : List Entry) (i : ℕ) → Absent ip es → find_from ip es i ≡ none
unfolding find_from
find_from-Absent ip [] i h = refl
find_from-Absent ip (e ∷ es) i h = ground (arith, h.0, find_from-Absent ip es (i + 1) h.1)

-- what the cleanup leaves of an entry
abbrev pub kept : ℕ → Entry → Entry
kept now e = if is_expired now e then zero_entry else e

pub cleanup_loop-map :
    (now : ℕ) (es : List Entry) (n : ℕ) → (cleanup_loop now es n).0 ≡ map (kept now) es
unfolding cleanup_loop
cleanup_loop-map now [] n = refl
cleanup_loop-map now (e ∷ es) n =
    ap (λ (k : List Entry). kept now e ∷ k) (cleanup_loop-map now es _)

length-kept : (now : ℕ) (es : List Entry) → length (map (kept now) es) ≡ length es
length-kept now [] = refl
length-kept now (e ∷ es) = ap suc (length-kept now es)

kept-IsEntry : (now : ℕ) (e : Entry) → IsEntry e → IsEntry (kept now e)
kept-IsEntry now e v = elim (Bool-cases (is_expired now e)) [
  | inl h ↦ rw h zero_entry-IsEntry
  | inr h ↦ rw h v
]

kept-each : (now : ℕ) (es : List Entry) → All IsEntry es → All IsEntry (map (kept now) es)
kept-each now [] h = tt
kept-each now (e ∷ es) h = (kept-IsEntry now e h.0, kept-each now es h.1)

pub kept-used :
    (now : ℕ) (e : Entry) → (kept now e).used ≡ true → (kept now e ≡ e) × (is_expired now e ≡ false)
kept-used now e u = elim (Bool-cases (is_expired now e)) [
  | inl h ↦ ground arith
  | inr h ↦ rw h (refl, refl)
]

pub kept-Absent : (now ip : ℕ) (es : List Entry) → Absent ip es → Absent ip (map (kept now) es)
kept-Absent now ip [] h = tt
kept-Absent now ip (e ∷ es) h = (
  λ u. let (k, _) = kept-used now e u in rw k (h.0 (ap (λ (x : Entry). x.used) (sym k) ∙ u)),
  kept-Absent now ip es h.1,
)

kept-Unique : (now : ℕ) (es : List Entry) → Unique es → Unique (map (kept now) es)
kept-Unique now [] h = tt
kept-Unique now (e ∷ es) h = (
  λ u.
      let (k, _) = kept-used now e u in
      rw k (kept-Absent now e.ipv4_addr_be es (h.0 (ap (λ (x : Entry). x.used) (sym k) ∙ u))),
  kept-Unique now es h.1,
)

-- `ip` is the address of no used entry but the one at `i`
abbrev pub AbsentBut : ℕ → ℕ → List Entry → Type 0
AbsentBut i ip [] = Unit
AbsentBut zero ip (e ∷ es) = Absent ip es
AbsentBut (suc i) ip (e ∷ es) = (e.used ≡ true → e.ipv4_addr_be ≢ ip) × AbsentBut i ip es

pub Absent-AbsentBut : (i ip : ℕ) (es : List Entry) → Absent ip es → AbsentBut i ip es
Absent-AbsentBut i ip [] h = tt
Absent-AbsentBut zero ip (e ∷ es) h = h.1
Absent-AbsentBut (suc i) ip (e ∷ es) h = (h.0, Absent-AbsentBut i ip es h.1)

Absent-get_or :
    (ip : ℕ) (es : List Entry) (j : ℕ)
    → Absent ip es
    → (get_or es j zero_entry).used ≡ true
    → (get_or es j zero_entry).ipv4_addr_be ≢ ip
Absent-get_or ip es j h =
    All-get_or (λ e. e.used ≡ true → e.ipv4_addr_be ≢ ip) es j zero_entry h (λ u. cc)

pub Unique-AbsentBut :
    (j ip : ℕ) (es : List Entry)
    → Unique es
    → (get_or es j zero_entry).used ≡ true
    → (get_or es j zero_entry).ipv4_addr_be ≡ ip
    → AbsentBut j ip es
Unique-AbsentBut j ip [] h u a = tt
Unique-AbsentBut zero ip (e ∷ es) h u a = subst (λ k. Absent k es) a (h.0 u)
Unique-AbsentBut (suc j) ip (e ∷ es) h u a = (
  λ v w. Absent-get_or e.ipv4_addr_be es j (h.0 v) u (a ∙ sym w),
  Unique-AbsentBut j ip es h.1 u a,
)

set-Unique :
    (i : ℕ) (e : Entry) (es : List Entry)
    → Unique es
    → AbsentBut i e.ipv4_addr_be es
    → Unique (set es i e)
set-Unique i e [] h a = tt
set-Unique zero e (x ∷ es) h a = (λ _. a, h.1)
set-Unique (suc i) e (x ∷ es) h a = (
  λ u.
      All-set (λ y. y.used ≡ true → y.ipv4_addr_be ≢ x.ipv4_addr_be) es i e (h.0 u)
        (λ _ z. a.0 u (sym z)),
  set-Unique i e es h.1 a.1,
)

pub cleanup_expired_locked-IsValid :
    (now : ℕ) (s : Arp) → IsValid s → IsValid (cleanup_expired_locked now s)
unfolding cleanup_expired_locked
cleanup_expired_locked-IsValid now s v =
    let e = cleanup_loop-map now s.entries s.expired_entries in
    record {
      capacity = ap length e ∙ length-kept now s.entries ∙ v.capacity;
      each = subst (All IsEntry) (sym e) (kept-each now s.entries v.each);
      unique = subst Unique (sym e) (kept-Unique now s.entries v.unique);
    }

-- A slot that holds the address, or any slot if none does, can take a new entry for it.
pub fill-IsValid :
    (i : ℕ) (e : Entry) (s : Arp)
    → IsValid s
    → IsEntry e
    → AbsentBut i e.ipv4_addr_be s.entries
    → (t : Arp) → t.entries ≡ set s.entries i e
    → IsValid t
fill-IsValid i e s v w a t q = record {
  capacity = ap length q ∙ length-set s.entries i e ∙ v.capacity;
  each = subst (All IsEntry) (sym q) (All-set IsEntry s.entries i e v.each w);
  unique = subst Unique (sym q) (set-Unique i e s.entries v.unique a);
}
