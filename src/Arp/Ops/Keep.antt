-- ===== src/Arp/Ops/Keep.antt =====
-- Every entry point leaves the ARP table well formed.
use the_os_reborn.Common.{
  ℕ, zero, suc, ◌≤◌, ◌≡◌, refl, sym, ap, ◌∙◌, subst, Bool, true, false, not, ◌||◌, List, [], ◌∷◌,
  some, take, drop, replicate, length, length-take_le, length-drop, All, ◌==◌, if◌then◌else◌,
  All-replicate, length-replicate, inl, inr, Bool-cases, Option-cases, arith,
}
use the_os_reborn.Arp.{
  Entry, Arp, table_capacity, mac_len, zero_entry, mac_is_zero, atf_com, find_from,
  find_entry_index_locked,
}
use the_os_reborn.Arp.Inv.{
  IsEntry, IsValid, Unique, Absent, AbsentBut, zero_entry-IsEntry, cleanup_expired_locked-IsValid,
  fill-IsValid,
}
use the_os_reborn.Arp.Refine.{upsert_locked-IsValid}
use the_os_reborn.Arp.Ops.{
  Request, Op, note, lookup, assign, delete, get_request, set_request, delete_request, step, run,
  init, enter, sender_of, count_frame, note_ethernet_frame, find_locked, lookup_ipv4, set_ipv4,
  delete_locked, delete_ipv4, ioctl_get, ioctl_set, ioctl_delete, parse_request_ipv4, parse_hwaddr,
  request_flags,
}

-- The table is well formed once it is initialised.
abbrev pub IsReady : Arp → Type 0
IsReady s = s.initialized ≡ true → IsValid s

-- what the types of the C arguments say: a hardware address has six bytes, `sa_data` fourteen
abbrev pub IsCall : Op → Type 0
IsCall (assign ip mac flags) = length mac ≡ mac_len
IsCall (set_request r) = length r.ha_data ≡ 14
IsCall _ = Unit

pub IsValid-entries : {s t : Arp} → t.entries ≡ s.entries → IsValid s → IsValid t
IsValid-entries e v = record {
  capacity = ap length e ∙ v.capacity;
  each = subst (All IsEntry) (sym e) v.each;
  unique = subst Unique (sym e) v.unique;
}

zeros-Unique : (n : ℕ) → Unique (replicate n zero_entry)
zeros-Unique zero = tt
zeros-Unique (suc n) = (λ u. cc, zeros-Unique n)

init-entries :
    (s : Arp) → s.initialized ≡ false → (init s).entries ≡ replicate table_capacity zero_entry
unfolding init
init-entries s h = rw (h, init) refl

-- a table of free entries is well formed
pub fresh-IsValid : (s : Arp) → s.entries ≡ replicate table_capacity zero_entry → IsValid s
fresh-IsValid s e = record {
  capacity = ap length e ∙ length-replicate table_capacity zero_entry;
  each =
      subst (All IsEntry) (sym e)
        (All-replicate IsEntry table_capacity zero_entry zero_entry-IsEntry);
  unique = subst Unique (sym e) (zeros-Unique table_capacity);
}

either-IsValid :
    (b : Bool) (s t : Arp)
    → (b ≡ false → IsValid t)
    → (b ≡ true → IsValid s)
    → IsValid (if not b then t else s)
either-IsValid true s t f g = g refl
either-IsValid false s t f g = f refl

pub enter-IsValid : (now : ℕ) (s : Arp) → IsReady s → IsValid (enter now s)
unfolding enter
enter-IsValid now s r =
    cleanup_expired_locked-IsValid now _
      (either-IsValid s.initialized s (init s) (λ h. fresh-IsValid (init s) (init-entries s h)) r)

pub find_locked-entries : (ip : ℕ) (s : Arp) → (find_locked ip s).0.entries ≡ s.entries
unfolding find_locked
find_locked-entries ip s = ground arith

sender_mac :
    (frame : List ℕ) {ip : ℕ} {mac : List ℕ}
    → sender_of frame ≡ some (ip, mac)
    → length mac ≡ mac_len
unfolding sender_of
sender_mac frame {mac = mac} h =
    let long : 42 ≤ length frame = ground arith in
    let e : mac ≡ take mac_len (drop 22 frame) = ground arith in
    rw e (length-take_le mac_len (drop 22 frame) (omega (arith, length-drop 22 frame)))

parse_hwaddr_mac :
    (r : Request) {mac : List ℕ}
    → length r.ha_data ≡ 14
    → parse_hwaddr r ≡ some mac
    → length mac ≡ mac_len
unfolding parse_hwaddr
parse_hwaddr_mac r {mac} l h =
    let e : mac ≡ take mac_len r.ha_data = ground arith in
    rw e (length-take_le mac_len r.ha_data (omega arith))

note-IsReady :
    (hz now : ℕ) (frame : List ℕ) (s : Arp)
    → IsReady s
    → IsReady (note_ethernet_frame hz now frame s)
unfolding note_ethernet_frame
note-IsReady hz now frame s r = elim (Option-cases (sender_of frame)) [
  | inl e ↦ rw (e, note_ethernet_frame) r
  | inr ((ip, mac), e) ↦
      let v : IsValid (count_frame (enter now s)) = IsValid-entries refl (enter-IsValid now s r) in
      rw (e, note_ethernet_frame)
        (λ _. upsert_locked-IsValid hz ip mac atf_com false now _ (sender_mac frame e) v)
]

found-IsValid : (now ip : ℕ) (s : Arp) → IsReady s → IsValid (find_locked ip (enter now s)).0
found-IsValid now ip s r =
    IsValid-entries (find_locked-entries ip (enter now s)) (enter-IsValid now s r)

lookup-IsReady : (now ip : ℕ) (s : Arp) → IsReady s → IsReady (lookup_ipv4 now ip s).0
unfolding lookup_ipv4
lookup-IsReady now ip s r = elim (Bool-cases (ip == 0)) [
  | inl e ↦ rw e r
  | inr e ↦ rw e (λ _. found-IsValid now ip s r)
]

pub set_ipv4-IsReady :
    (hz now ip : ℕ) (mac : List ℕ) (flags : ℕ) (s : Arp)
    → length mac ≡ mac_len
    → IsReady s
    → IsReady (set_ipv4 hz now ip mac flags s).0
unfolding set_ipv4
set_ipv4-IsReady hz now ip mac flags s l r = elim (Bool-cases ((ip == 0) || mac_is_zero mac)) [
  | inl e ↦ rw e r
  | inr e ↦
      rw e
        (λ _. upsert_locked-IsValid hz ip mac flags _ now (enter now s) l (enter-IsValid now s r))
]

nonzero_absent : (k : ℕ) (es : List Entry) → All IsEntry es → AbsentBut k 0 es
nonzero_absent k [] h = tt
nonzero_absent zero (e ∷ es) h = used_nonzero es h.1
  where
    used_nonzero : (fs : List Entry) → All IsEntry fs → Absent 0 fs
    used_nonzero [] g = tt
    used_nonzero (f ∷ fs) g = (g.0.has_address, used_nonzero fs g.1)
nonzero_absent (suc k) (e ∷ es) h = (h.0.has_address, nonzero_absent k es h.1)

delete_locked-IsValid : (ip : ℕ) (s : Arp) → IsValid s → IsValid (delete_locked ip s).0
unfolding delete_locked find_entry_index_locked
delete_locked-IsValid ip s v = elim (Option-cases (find_from ip s.entries 0)) [
  | inl e ↦ rw (e, delete_locked) v
  | inr (k, e) ↦
      rw (e, delete_locked)
        (fill-IsValid k zero_entry s v zero_entry-IsEntry (nonzero_absent k s.entries v.each) _
          refl)
]

delete_ipv4-IsReady : (now ip : ℕ) (s : Arp) → IsReady s → IsReady (delete_ipv4 now ip s).0
unfolding delete_ipv4
delete_ipv4-IsReady now ip s r = elim (Bool-cases (ip == 0)) [
  | inl e ↦ rw e r
  | inr e ↦ rw e (λ _. delete_locked-IsValid ip (enter now s) (enter-IsValid now s r))
]

get-IsReady : (now : ℕ) (q : Request) (s : Arp) → IsReady s → IsReady (ioctl_get now q s).0
unfolding ioctl_get
get-IsReady now q s r = elim (Option-cases (parse_request_ipv4 q)) [
  | inl e ↦ rw (e, ioctl_get) r
  | inr (ip, e) ↦ rw (e, ioctl_get) (λ _. found-IsValid now ip s r)
]

set-IsReady :
    (hz now : ℕ) (q : Request) (s : Arp)
    → length q.ha_data ≡ 14
    → IsReady s
    → IsReady (ioctl_set hz now q s).0
unfolding ioctl_set
set-IsReady hz now q s l r = elim (Option-cases (parse_request_ipv4 q)) [
  | inl e ↦ rw (e, ioctl_set) r
  | inr (ip, e) ↦ elim (Option-cases (parse_hwaddr q)) [
    | inl f ↦ rw (e, f, ioctl_set) r
    | inr (mac, f) ↦
        rw (e, f, ioctl_set)
          (set_ipv4-IsReady hz now ip mac (request_flags q.arp_flags) s (parse_hwaddr_mac q l f) r)
  ]
]

del-IsReady : (now : ℕ) (q : Request) (s : Arp) → IsReady s → IsReady (ioctl_delete now q s).0
unfolding ioctl_delete
del-IsReady now q s r = elim (Option-cases (parse_request_ipv4 q)) [
  | inl e ↦ rw (e, ioctl_delete) r
  | inr (ip, e) ↦ rw (e, ioctl_delete) (delete_ipv4-IsReady now ip s r)
]

pub step-IsReady :
    (hz now : ℕ) (op : Op) (s : Arp) → IsCall op → IsReady s → IsReady (step hz now op s)
unfolding step
step-IsReady hz now (note frame) s c r = note-IsReady hz now frame s r
step-IsReady hz now (lookup ip) s c r = lookup-IsReady now ip s r
step-IsReady hz now (assign ip mac flags) s c r = set_ipv4-IsReady hz now ip mac flags s c r
step-IsReady hz now (delete ip) s c r = delete_ipv4-IsReady now ip s r
step-IsReady hz now (get_request q) s c r = get-IsReady now q s r
step-IsReady hz now (set_request q) s c r = set-IsReady hz now q s c r
step-IsReady hz now (delete_request q) s c r = del-IsReady now q s r

-- From a table that is not initialised or is well formed, any calls of the entry points at any ticks
-- leave a table that, once initialised, is well formed: 128 entries, each used one with a non-zero
-- address and a non-zero hardware address of six bytes, each permanent one with the expiry
-- UINT64_MAX, each free one all zero, and no address in two used entries.
pub run-IsReady :
    (hz : ℕ) (ops : List (ℕ × Op)) (s : Arp)
    → All (λ op. IsCall op.1) ops
    → IsReady s
    → IsReady (run hz ops s)
unfolding run
run-IsReady hz [] s c r = r
run-IsReady hz ((now, op) ∷ ops) s c r =
    run-IsReady hz ops (step hz now op s) c.1 (step-IsReady hz now op s c.0 r)
