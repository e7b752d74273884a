-- ===== src/Arp/Ops/Frames.antt =====
-- The lifetime of an entry, deletion, and what a frame from the network may overwrite.
use mathlib.Core.Bool.{false≢true}
use the_os_reborn.Common.{
  ℕ, zero, suc, ◌+◌, ◌≤◌, ◌<◌, ◌^◌, ◌≡◌, ◌≢◌, refl, sym, ap, ◌∙◌, subst, Bool, true, false, List,
  [], ◌∷◌, none, some, leb, set, inl, inr, Bool-cases, Option-cases, arith,
}
use the_os_reborn.Arp.{
  Entry, Arp, zero_entry, atf_com, uint64_max, dynamic_entry_ttl_ms, ms_to_ticks, deadline_passed,
  is_expired, find_from, find_entry_index_locked, new_entry, upsert_expiry, upsert_locked,
  mac_is_zero,
}
use the_os_reborn.Arp.Inv.{
  IsValid, Absent, AbsentBut, kept-Absent, find_from-some, Unique-AbsentBut,
}
use the_os_reborn.Arp.Upsert.{entry_for, entry_for-Absent, upsert_fails_cases}
use the_os_reborn.Arp.Refine.{upsert_locked_refines}
use the_os_reborn.Arp.Ops.{
  enter, find_locked, lookup_ipv4, delete_locked, delete_ipv4, sender_of, note_ethernet_frame,
  count_frame,
}
use the_os_reborn.Arp.Ops.Keep.{IsReady, IsValid-entries, enter-IsValid}
use the_os_reborn.Arp.Ops.RoundTrip.{
  entry_for-kept, enter-entries, enter_initialized, find_locked_lem, lookup_ipv4_lem,
}

ms_to_ticks-le : (hz ms : ℕ) → hz < 2 ^ 32 → ms ≤ 2 ^ 20 → ms_to_ticks hz ms < 2 ^ 62
unfolding ms_to_ticks
ms_to_ticks-le hz ms h k = ground arith

-- A dynamic entry whose expiry fits in 64 bits lives for exactly its time: at any tick from its
-- update on, up to 2 ^ 62 ticks later, it is expired if and only if the tick has reached
-- now + ARP_ms_to_ticks(ARP_DYNAMIC_ENTRY_TTL_MS).
pub dynamic_lifetime :
    (hz now now' ip : ℕ) (mac : List ℕ) (flags : ℕ)
    → hz < 2 ^ 32
    → now + ms_to_ticks hz dynamic_entry_ttl_ms ≤ uint64_max
    → now ≤ now'
    → now' ≤ now + 2 ^ 62
    → now' ≤ uint64_max
    → is_expired now' (new_entry hz ip mac flags false now)
      ≡ leb (now + ms_to_ticks hz dynamic_entry_ttl_ms) now'
unfolding is_expired deadline_passed upsert_expiry
dynamic_lifetime hz now now' ip mac flags small fits lo hi top =
    ground (arith, ms_to_ticks-le hz dynamic_entry_ttl_ms small)

delete_ipv4_locked :
    (now ip : ℕ) (s : Arp)
    → (delete_ipv4 now ip s).1 ≡ true
    → (ip ≢ 0) × (delete_ipv4 now ip s ≡ delete_locked ip (enter now s))
unfolding delete_ipv4
delete_ipv4_locked now ip s h = ground arith

Absent-set : (i ip : ℕ) (es : List Entry) → AbsentBut i ip es → Absent ip (set es i zero_entry)
Absent-set i ip [] a = tt
Absent-set zero ip (e ∷ es) a = (λ u. cc, a)
Absent-set (suc i) ip (e ∷ es) a = (a.0, Absent-set i ip es a.1)

delete_locked_lem :
    (ip : ℕ) (s : Arp)
    → IsValid s
    → (delete_locked ip s).1 ≡ true
    → Absent ip (delete_locked ip s).0.entries
      × ((delete_locked ip s).0.initialized ≡ s.initialized)
unfolding delete_locked find_entry_index_locked
delete_locked_lem ip s v h = elim (Option-cases (find_from ip s.entries 0)) [
  | inl e ↦ absurd (false≢true (rw (e, delete_locked) at h))
  | inr (k, e) ↦
      let (j, q, lt, u, a) = find_from-some ip s.entries 0 k e in
      rw (e, delete_locked)
        (
          subst (λ i. Absent ip (set s.entries i zero_entry)) (omega arith)
              (Absent-set j ip s.entries (Unique-AbsentBut j ip s.entries v.unique u a)),
          refl,
        )
]

-- After a successful ARP_delete_ipv4 on a table that is well formed or not yet initialised, a lookup
-- of the address at any tick misses.
pub lookup_ipv4-delete_ipv4 :
    (now now' ip : ℕ) (s : Arp)
    → IsReady s
    → (delete_ipv4 now ip s).1 ≡ true
    → (lookup_ipv4 now' ip (delete_ipv4 now ip s).0).1 ≡ none
lookup_ipv4-delete_ipv4 now now' ip s r done =
    let (nz, same) = delete_ipv4_locked now ip s done in
    let v = enter-IsValid now s r in
    let (gone, init) =
      delete_locked_lem ip (enter now s) v (ap (λ (x : Arp × Bool). x.1) (sym same) ∙ done) in
    let t : Arp = (delete_locked ip (enter now s)).0 in
    let missing : (find_locked ip (enter now' t)).1 ≡ none =
      find_locked_lem ip (enter now' t)
      ∙ ap (entry_for ip) (enter-entries now' t (init ∙ enter_initialized now s))
      ∙ entry_for-Absent ip _ (kept-Absent now' ip t.entries gone) in
    rw same (lookup_ipv4_lem now' ip t nz ∙ rw missing refl)

permanent_stays : (now : ℕ) (e : Entry) → e.permanent ≡ true → is_expired now e ≡ false
unfolding is_expired
permanent_stays now e h = ground arith

sender_addresses :
    (ip : ℕ) (mac frame : List ℕ)
    → sender_of frame ≡ some (ip, mac)
    → (ip ≢ 0) × (mac_is_zero mac ≡ false)
unfolding sender_of
sender_addresses ip mac frame e = ground arith

note_ethernet_frame_lem :
    (hz now ip : ℕ) (mac frame : List ℕ) (s : Arp)
    → sender_of frame ≡ some (ip, mac)
    → note_ethernet_frame hz now frame s
      ≡ (upsert_locked hz ip mac atf_com false now (count_frame (enter now s))).0
unfolding note_ethernet_frame
note_ethernet_frame_lem hz now ip mac frame s e = rw (e, note_ethernet_frame) refl

-- A received ARP packet replaces a static entry: if the table is initialised and well formed and has
-- a permanent entry for the address that the packet names as its sender's, the address then has the
-- packet's hardware address in a dynamic entry.
pub frame_replaces_static :
    (hz now ip : ℕ) (mac frame : List ℕ) (s : Arp) (e : Entry)
    → s.initialized ≡ true
    → IsValid s
    → sender_of frame ≡ some (ip, mac)
    → entry_for ip s.entries ≡ some e
    → e.permanent ≡ true
    → entry_for ip (note_ethernet_frame hz now frame s).entries
      ≡ some (new_entry hz ip mac atf_com false now)
frame_replaces_static hz now ip mac frame s e init v sent here static =
    let t : Arp = count_frame (enter now s) in
    let w : IsValid t = IsValid-entries refl (enter-IsValid now s (λ _. v)) in
    let (nz, good) = sender_addresses ip mac frame sent in
    let still : entry_for ip t.entries ≡ some e =
      ap (entry_for ip) (enter-entries now s init)
      ∙ entry_for-kept now ip s.entries e here (permanent_stays now e static) in
    rw (note_ethernet_frame_lem hz now ip mac frame s sent)
      (elim (Bool-cases (upsert_locked hz ip mac atf_com false now t).1) [
        | inl done ↦ (upsert_locked_refines hz ip mac atf_com false now t w done).2
        | inr bad ↦
            let absent = (upsert_fails_cases hz ip mac atf_com false now t nz good bad).0 in
            let lost = entry_for-Absent ip t.entries absent in cc
      ])
