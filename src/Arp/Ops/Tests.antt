-- ===== src/Arp/Ops/Tests.antt =====
-- Runs of the ARP model: a table of the full size, frames and requests as bytes.
use the_os_reborn.Common.{
  ℕ, ◌+◌, ◌≡◌, ◌≢◌, refl, true, false, List, [], ◌∷◌, ◌++◌, none, some, leb, replicate, All, arith,
}
use the_os_reborn.Arp.{
  Arp, table_capacity, atf_com, mac_is_zero, deadline_passed, is_expired, cleanup_loop,
  cleanup_expired_locked, find_from, find_entry_index_locked, find_unused, find_oldest,
  find_replace_slot_locked, upsert_flags, upsert_expiry, new_entry, replace_slot, upsert_locked,
}
use the_os_reborn.Arp.Inv.{IsValid}
use the_os_reborn.Arp.Upsert.{entry_for}
use the_os_reborn.Arp.Refine.{KeptOrEvicted, upsert_locked_refines, upsert_locked_fails}
use the_os_reborn.Arp.Ops.{
  Op, note, assign, delete, init, enter, sender_of, note_ethernet_frame, find_locked, lookup_ipv4,
  set_ipv4, delete_locked, delete_ipv4, step, run,
}
use the_os_reborn.Arp.Ops.Keep.{IsReady, run-IsReady}
use the_os_reborn.Arp.Ops.RoundTrip.{lookup_ipv4-set_ipv4}
use the_os_reborn.Arp.Ops.Frames.{dynamic_lifetime, lookup_ipv4-delete_ipv4, frame_replaces_static}

abbrev cold : Arp
cold = record {
  initialized = false;
  entries = [];
  rx_arp_frames = 0;
  learned_entries = 0;
  replaced_entries = 0;
  expired_entries = 0;
  lookup_hits = 0;
  lookup_misses = 0;
}

cold-IsReady : IsReady cold
cold-IsReady h = cc

abbrev mac_a : List ℕ
mac_a = 2 ∷ 0 ∷ 0 ∷ 0 ∷ 0 ∷ 1 ∷ []

abbrev mac_b : List ℕ
mac_b = 2 ∷ 0 ∷ 0 ∷ 0 ∷ 0 ∷ 2 ∷ []

-- an ARP reply of 10.0.2.2 with the hardware address `mac_b`
abbrev frame_b : List ℕ
frame_b =
    replicate 12 0xff
    ++ (8 ∷ 6 ∷ 0 ∷ 1 ∷ 8 ∷ 0 ∷ 6 ∷ 4 ∷ 0 ∷ 2 ∷ [])
    ++ mac_b
    ++ (10 ∷ 0 ∷ 2 ∷ 2 ∷ [])
    ++ replicate 10 0

abbrev gateway : ℕ
gateway = 0x0a000202

exec : List (ℕ × Op) → Arp → Arp
unfolding run step note_ethernet_frame sender_of enter init lookup_ipv4 set_ipv4 delete_ipv4
    delete_locked find_locked find_entry_index_locked find_from find_replace_slot_locked find_unused
    find_oldest upsert_locked replace_slot upsert_flags upsert_expiry cleanup_expired_locked
    cleanup_loop is_expired deadline_passed mac_is_zero
exec ops s = run 100 ops s

frame_b_sender : sender_of frame_b ≡ some (gateway, mac_b)
unfolding exec
frame_b_sender = refl

learned : (exec ((5, note frame_b) ∷ []) cold).learned_entries ≡ 1
unfolding exec
learned = refl

run-IsReady_example : IsReady (run 100 ((5, note frame_b) ∷ (9, delete gateway) ∷ []) cold)
run-IsReady_example =
    run-IsReady 100 ((5, note frame_b) ∷ (9, delete gateway) ∷ []) cold (tt, (tt, tt)) cold-IsReady

lookup_ipv4-set_ipv4_example :
    (lookup_ipv4 90 gateway (set_ipv4 100 5 gateway mac_a 2 cold).0).1 ≡ some (mac_a, 2)
unfolding exec
lookup_ipv4-set_ipv4_example =
    lookup_ipv4-set_ipv4 100 5 90 gateway mac_a 2 cold cold-IsReady refl refl

lookup_ipv4-delete_ipv4_example :
    (lookup_ipv4 30 gateway (delete_ipv4 20 gateway (exec ((5, note frame_b) ∷ []) cold)).0).1
    ≡ none
unfolding exec
lookup_ipv4-delete_ipv4_example =
    lookup_ipv4-delete_ipv4 20 30 gateway (exec ((5, note frame_b) ∷ []) cold)
      (run-IsReady 100 ((5, note frame_b) ∷ []) cold (tt, tt) cold-IsReady) refl

-- the entry is gone 30000 ticks of 10 ms after its update
dynamic_lifetime_example :
    is_expired 30005 (new_entry 100 gateway mac_a 2 false 5) ≡ leb (5 + 30000) 30005
unfolding exec
dynamic_lifetime_example =
    dynamic_lifetime 100 5 30005 gateway mac_a 2 (omega arith) (omega arith) (omega arith)
      (omega arith) (omega arith)

-- a static entry for the gateway
abbrev with_static : Arp
with_static = exec ((5, assign gateway mac_a 4) ∷ []) cold

with_static-IsValid : IsValid with_static
unfolding exec
with_static-IsValid =
    run-IsReady 100 ((5, assign gateway mac_a 4) ∷ []) cold (refl, tt) cold-IsReady refl

frame_replaces_static_example :
    entry_for gateway (note_ethernet_frame 100 9 frame_b with_static).entries
    ≡ some (new_entry 100 gateway mac_b atf_com false 9)
unfolding exec
frame_replaces_static_example =
    frame_replaces_static 100 9 gateway mac_b frame_b with_static
      (new_entry 100 gateway mac_a 4 true 5) refl with_static-IsValid refl refl refl

abbrev peer : ℕ
peer = 0x0a000203

upsert_locked_refines_example :
    let t = (upsert_locked 100 peer mac_a 2 false 9 with_static).0 in
    (peer ≢ 0)
    × (mac_is_zero mac_a ≡ false)
    × (entry_for peer t.entries ≡ some (new_entry 100 peer mac_a 2 false 9))
    × ((ip' : ℕ) → ip' ≢ peer → KeptOrEvicted peer ip' with_static.entries t.entries)
    × ((lost : ℕ) × ((ip' : ℕ)
          → ip' ≢ peer
          → ip' ≢ lost
          → entry_for ip' t.entries ≡ entry_for ip' with_static.entries))
unfolding exec
upsert_locked_refines_example =
    upsert_locked_refines 100 peer mac_a 2 false 9 with_static with_static-IsValid refl

abbrev all_static : Arp
all_static = record cold {
  initialized = true;
  entries = replicate table_capacity (new_entry 100 gateway mac_a 4 true 5);
}

upsert_locked_fails_example :
    All (λ e. (e.used ≡ true) × (e.permanent ≡ true) × (e.ipv4_addr_be ≢ peer)) all_static.entries
unfolding exec
upsert_locked_fails_example =
    upsert_locked_fails 100 peer mac_a 2 false 9 all_static (omega arith) refl (omega arith) refl
