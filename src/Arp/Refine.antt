-- ===== src/Arp/Refine.antt =====
-- The table as a map: what an upsert adds, keeps and gives up.
use the_os_reborn.Common.{
  ℕ, zero, suc, ◌≤◌, ◌<◌, ◌≡◌, ◌≢◌, refl, sym, ap, ◌∙◌, subst, Bool, true, false, List, [], ◌∷◌,
  none, some, get_or, set, length, All, inl, inr, ◌⊎◌, Bool-cases, arith,
}
use mathlib.Core.Bool.{false≢true}
use native.Mathlib.Decide.{ℕ_discrete}
use the_os_reborn.Arp.{
  Entry, Arp, mac_len, uint64_max, zero_entry, mac_is_zero, new_entry, upsert_locked, upsert_expiry,
}
use the_os_reborn.Arp.Inv.{Absent, Unique, IsEntry, IsValid, Unique-AbsentBut, fill-IsValid}
use the_os_reborn.Arp.Slots.{IsFull, NoneBefore, find_replace_slot_locked-none}
use the_os_reborn.Arp.Upsert.{
  entry_for, entry_for-Absent, entry_for-set_self, entry_for-set_other, entry_for-set_evicted,
  entry_for_at, Choice, upsert_locked_cases, upsert_fails_cases,
}

upsert_expiry_permanent : (hz now : ℕ) → upsert_expiry hz true now ≡ uint64_max
unfolding upsert_expiry
upsert_expiry_permanent hz now = refl

new_entry-IsEntry :
    (hz ip : ℕ) (mac : List ℕ) (flags : ℕ) (permanent : Bool) (now : ℕ)
    → ip ≢ 0
    → mac_is_zero mac ≡ false
    → length mac ≡ mac_len
    → IsEntry (new_entry hz ip mac flags permanent now)
new_entry-IsEntry hz ip mac flags permanent now a h l = record {
  has_address = λ _. a;
  has_mac = λ _. h;
  mac_length = l;
  stays = λ p. rw p (upsert_expiry_permanent hz now);
  free_zero = λ u. cc;
}

pub upsert_locked-IsValid :
    (hz ip : ℕ) (mac : List ℕ) (flags : ℕ) (permanent : Bool) (now : ℕ) (s : Arp)
    → length mac ≡ mac_len
    → IsValid s
    → IsValid (upsert_locked hz ip mac flags permanent now s).0
upsert_locked-IsValid hz ip mac flags permanent now s l v =
    elim (upsert_locked_cases hz ip mac flags permanent now s v.unique) [
      | inl e ↦ rw e v
      | inr (k, w, _, _) ↦
          fill-IsValid k (new_entry hz ip mac flags permanent now) s v
            (new_entry-IsEntry hz ip mac flags permanent now w.address w.hardware l) w.others _
            w.written
    ]

-- what became of another address `ip'`: its entry is as before, or it was given up for `ip`
abbrev pub KeptOrEvicted : ℕ → ℕ → List Entry → List Entry → Type 0
KeptOrEvicted ip ip' es fs =
    (entry_for ip' fs ≡ entry_for ip' es)
    ⊎ ((entry_for ip' fs ≡ none)
        × (old : Entry) × (entry_for ip' es ≡ some old)
        × (old.permanent ≡ false)
        × NoneBefore old.updated_ticks es
        × IsFull es
        × (entry_for ip es ≡ none))

full_at :
    (es : List Entry) (k : ℕ) → IsFull es → k < length es → (get_or es k zero_entry).used ≡ true
full_at [] k h lt = absurd (omega arith)
full_at (e ∷ es) zero h lt = h.0
full_at (e ∷ es) (suc k) h lt = full_at es k h.1 (omega arith)

upsert_other :
    (ip ip' k : ℕ) (e : Entry) (es : List Entry)
    → Unique es
    → e.ipv4_addr_be ≡ ip
    → ip' ≢ ip
    → k < length es
    → Choice ip es k
    → KeptOrEvicted ip ip' es (set es k e)
upsert_other ip ip' k e es v q ne lt (inl (u, a)) =
    inl (entry_for-set_other ip' k es e lt (λ z. ne (sym z ∙ q)) (λ _ z. ne (sym z ∙ a)))
upsert_other ip ip' k e es v q ne lt (inr (gone, inl free)) =
    inl (entry_for-set_other ip' k es e lt (λ z. ne (sym z ∙ q)) (λ u. cc))
upsert_other ip ip' k e es v q ne lt (inr (gone, inr (full, o))) =
    elim (ℕ_discrete (get_or es k zero_entry).ipv4_addr_be ip') [
      | yes a ↦
          let u = full_at es k full lt in
          let b = Unique-AbsentBut k ip' es v u a in
          inr (
            entry_for-set_evicted ip' k es e (λ z. ne (sym z ∙ q)) b,
            get_or es k zero_entry,
            entry_for_at ip' k es lt b u a,
            o.dynamic,
            o.oldest,
            full,
            entry_for-Absent ip es gone,
          )
      | no b ↦ inl (entry_for-set_other ip' k es e lt (λ z. ne (sym z ∙ q)) (λ _. b))
    ]

-- A successful ARP_upsert_locked on a valid table: it has a non-zero address and a non-zero hardware
-- address; afterwards the address has the new entry, and every other address has the entry that it
-- had, except that one of them at most may have lost it: then the address was new, every slot was in
-- use, and the entry that was given up was dynamic, with the smallest `updated_ticks` of the dynamic
-- ones.
pub upsert_locked_refines :
    (hz ip : ℕ) (mac : List ℕ) (flags : ℕ) (permanent : Bool) (now : ℕ) (s : Arp)
    → IsValid s
    → (upsert_locked hz ip mac flags permanent now s).1 ≡ true
    → let t : Arp = (upsert_locked hz ip mac flags permanent now s).0 in
      (ip ≢ 0)
      × (mac_is_zero mac ≡ false)
      × (entry_for ip t.entries ≡ some (new_entry hz ip mac flags permanent now))
      × ((ip' : ℕ) → ip' ≢ ip → KeptOrEvicted ip ip' s.entries t.entries)
      × ((lost : ℕ) × ((ip' : ℕ)
            → ip' ≢ ip
            → ip' ≢ lost
            → entry_for ip' t.entries ≡ entry_for ip' s.entries))
upsert_locked_refines hz ip mac flags permanent now s v done =
    let e = new_entry hz ip mac flags permanent now in
    elim (upsert_locked_cases hz ip mac flags permanent now s v.unique) [
      | inl f ↦ absurd (false≢true (ap (λ (x : Arp × Bool). x.1) (sym f) ∙ done))
      | inr (k, w, _, _) ↦ (
        w.address,
        w.hardware,
        rw w.written (entry_for-set_self ip k s.entries e w.inside w.others refl refl),
        λ ip' ne.
            subst (KeptOrEvicted ip ip' s.entries) (sym w.written)
              (upsert_other ip ip' k e s.entries v.unique refl ne w.inside w.choice),
        (
          (get_or s.entries k zero_entry).ipv4_addr_be,
          λ ip' ne left.
              ap (entry_for ip') w.written
              ∙ entry_for-set_other ip' k s.entries e w.inside (λ z. ne (sym z))
                  (λ _ z. left (sym z)),
        ),
      )
    ]

abbrev StaticOthers : ℕ → List Entry → Type 0
StaticOthers ip es = All (λ e. (e.used ≡ true) × (e.permanent ≡ true) × (e.ipv4_addr_be ≢ ip)) es

static_others :
    (ip : ℕ) (es : List Entry)
    → IsFull es
    → NoneBefore (suc uint64_max) es
    → All (λ e. e.updated_ticks ≤ uint64_max) es
    → Absent ip es
    → StaticOthers ip es
static_others ip [] f n t a = tt
static_others ip (e ∷ es) f n t a = (
  (
    f.0,
    elim (Bool-cases e.permanent) [ inl p ↦ p | inr d ↦ absurd (omega (arith, n.0 d, t.0)) ],
    a.0 f.0,
  ),
  static_others ip es f.1 n.1 t.1 a.1,
)

-- If the ticks of the entries are 64-bit numbers, an upsert of a non-zero address and hardware
-- address fails only when every slot of the table holds a permanent entry for another address.
pub upsert_locked_fails :
    (hz ip : ℕ) (mac : List ℕ) (flags : ℕ) (permanent : Bool) (now : ℕ) (s : Arp)
    → ip ≢ 0
    → mac_is_zero mac ≡ false
    → All (λ e. e.updated_ticks ≤ uint64_max) s.entries
    → (upsert_locked hz ip mac flags permanent now s).1 ≡ false
    → All (λ e. (e.used ≡ true) × (e.permanent ≡ true) × (e.ipv4_addr_be ≢ ip)) s.entries
upsert_locked_fails hz ip mac flags permanent now s a h ticks bad =
    let (absent, no_slot) = upsert_fails_cases hz ip mac flags permanent now s a h bad in
    let (full, late) = find_replace_slot_locked-none s no_slot in
    static_others ip s.entries full late ticks absent
