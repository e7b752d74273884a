-- ===== src/Arp.antt =====
-- Address resolution: Kernel/Network/ARP.c and Includes/Network/ARP.h. Here the table: its entries,
-- their expiry, the choice of a slot. The tick counter and its rate (ISR_get_timer_ticks,
-- ISR_get_tick_hz) are arguments of the operations that read them.
pub mod Inv
pub mod Slots
pub mod Upsert
pub mod Refine
pub mod Ops
use Prim.Native.Nat.{bit_and, bit_or}
use the_os_reborn.Common.{
  ℕ, zero, suc, ◌+◌, ◌-◌, ◌*◌, ◌/◌, ◌%◌, ◌^◌, Bool, true, false, not, ◌&&◌, ◌||◌, List, [], ◌∷◌,
  Option, none, some, ltb, leb, ◌==◌, if◌then◌else◌, get_or, set, replicate,
}

abbrev pub table_capacity : ℕ
table_capacity = 128

-- ARP_MAC_LEN
abbrev pub mac_len : ℕ
mac_len = 6

abbrev pub dynamic_entry_ttl_ms : ℕ
dynamic_entry_ttl_ms = 300000

abbrev pub uint64_max : ℕ
uint64_max = 2 ^ 64 - 1

abbrev pub u64 : ℕ → ℕ
u64 n = n % 2 ^ 64

abbrev pub atf_com : ℕ
atf_com = 0x02

abbrev pub atf_perm : ℕ
atf_perm = 0x04

-- `arp_entry_t`; a hardware address is the list of its six bytes.
pub record Entry : Type 0 where
  pub used : Bool
  pub permanent : Bool
  pub flags : ℕ
  pub ipv4_addr_be : ℕ
  pub mac : List ℕ
  pub updated_ticks : ℕ
  pub expires_ticks : ℕ

-- `arp_runtime_state_t` less its lock, which every operation holds from its first access on.
pub record Arp : Type 0 where
  pub initialized : Bool
  pub entries : List Entry
  pub rx_arp_frames : ℕ
  pub learned_entries : ℕ
  pub replaced_entries : ℕ
  pub expired_entries : ℕ
  pub lookup_hits : ℕ
  pub lookup_misses : ℕ

-- an entry after `memset(entry, 0, sizeof(*entry))`
abbrev pub zero_entry : Entry
zero_entry = record {
  used = false;
  permanent = false;
  flags = 0;
  ipv4_addr_be = 0;
  mac = 0 ∷ 0 ∷ 0 ∷ 0 ∷ 0 ∷ 0 ∷ [];
  updated_ticks = 0;
  expires_ticks = 0;
}

pub mac_is_zero : List ℕ → Bool
mac_is_zero [] = true
mac_is_zero (b ∷ bs) = if not (b == 0) then false else mac_is_zero bs

abbrev pub ipv4_is_zero : ℕ → Bool
ipv4_is_zero ip = ip == 0

-- `hz` is what ISR_get_tick_hz returns.
unfoldable pub ms_to_ticks : ℕ → ℕ → ℕ
ms_to_ticks hz ms =
    let rate : ℕ = (if hz == 0 then 100 else hz) in
    let ticks : ℕ = u64 (u64 (ms * rate) + 999) / 1000 in if ticks == 0 then 1 else ticks

-- the sign of the 64-bit difference
unfoldable pub deadline_passed : ℕ → ℕ → Bool
deadline_passed now deadline = ltb (u64 (now + 2 ^ 64 - deadline)) (2 ^ 63)

-- the test of ARP_cleanup_expired_locked
pub is_expired : ℕ → Entry → Bool
is_expired now e = if not e.used || e.permanent then false else deadline_passed now e.expires_ticks

-- its loop: the entries, and the counter `expired_entries`
pub cleanup_loop : ℕ → List Entry → ℕ → List Entry × ℕ
cleanup_loop now [] n = ([], n)
cleanup_loop now (e ∷ es) n =
    let expired = is_expired now e in
    let rest = cleanup_loop now es (if expired then u64 (n + 1) else n) in
    ((if expired then zero_entry else e) ∷ rest.0, rest.1)

pub cleanup_expired_locked : ℕ → Arp → Arp
cleanup_expired_locked now s =
    let r = cleanup_loop now s.entries s.expired_entries in
    record s { entries = r.0; expired_entries = r.1 }

-- The index of the entry for an address, from index `i` on; `none` is the code's -1.
pub find_from : ℕ → List Entry → ℕ → Option ℕ
find_from ip [] i = none
find_from ip (e ∷ es) i =
    let rest = find_from ip es (i + 1) in
    if not e.used then rest else if e.ipv4_addr_be == ip then some i else rest

pub find_entry_index_locked : ℕ → Arp → Option ℕ
find_entry_index_locked ip s = find_from ip s.entries 0

pub find_unused : List Entry → ℕ → Option ℕ
find_unused [] i = none
find_unused (e ∷ es) i = let rest = find_unused es (i + 1) in if not e.used then some i else rest

-- the second loop of ARP_find_replace_slot_locked, with its two variables
pub find_oldest : List Entry → ℕ → Option ℕ → ℕ → Option ℕ
find_oldest [] i slot ticks = slot
find_oldest (e ∷ es) i slot ticks =
    let older = not e.permanent && leb e.updated_ticks ticks in
    find_oldest es (i + 1) (if older then some i else slot)
      (if older then e.updated_ticks else ticks)

pub find_replace_slot_locked : Arp → Option ℕ
find_replace_slot_locked s = elim (find_unused s.entries 0) [
  | some i ↦ some i
  | none ↦ find_oldest s.entries 0 none uint64_max
]

-- `uint16_t` flags after the assignments of ARP_upsert_locked
unfoldable pub upsert_flags : ℕ → Bool → ℕ
upsert_flags flags permanent =
    let complete : ℕ = bit_or flags atf_com % 2 ^ 16 in
    if permanent then bit_or complete atf_perm else bit_and complete (2 ^ 16 - 1 - atf_perm)

unfoldable pub upsert_expiry : ℕ → Bool → ℕ → ℕ
unfolding ms_to_ticks
upsert_expiry hz permanent now =
    let ttl : ℕ = ms_to_ticks hz dynamic_entry_ttl_ms in
    if permanent then uint64_max else if ltb (uint64_max - ttl) now then uint64_max else now + ttl

-- what ARP_upsert_locked writes into its slot
abbrev pub new_entry : ℕ → ℕ → List ℕ → ℕ → Bool → ℕ → Entry
new_entry hz ip mac flags permanent now = record {
  used = true;
  permanent = permanent;
  flags = upsert_flags flags permanent;
  ipv4_addr_be = ip;
  mac = mac;
  updated_ticks = now;
  expires_ticks = upsert_expiry hz permanent now;
}

-- its last part: write the slot and count
abbrev pub fill_slot : ℕ → Entry → Arp → Arp × Bool
fill_slot slot e s = (
  record s { entries = set s.entries slot e; learned_entries = u64 (s.learned_entries + 1) },
  true,
)

-- the slot that is not the address's own: count if an entry is replaced
pub replace_slot : ℕ → Entry → Arp → Arp × Bool
replace_slot slot e s =
    if (get_or s.entries slot zero_entry).used
    then fill_slot slot e (record s { replaced_entries = u64 (s.replaced_entries + 1) })
    else fill_slot slot e s

pub upsert_locked : ℕ → ℕ → List ℕ → ℕ → Bool → ℕ → Arp → Arp × Bool
upsert_locked hz ip mac flags permanent now s =
    let e = new_entry hz ip mac flags permanent now in
    if ipv4_is_zero ip || mac_is_zero mac then (s, false) else elim (find_entry_index_locked ip s) [
      | some slot ↦ fill_slot slot e s
      | none ↦ elim (find_replace_slot_locked s) [
        | none ↦ (s, false)
        | some slot ↦ replace_slot slot e s
      ]
    ]
