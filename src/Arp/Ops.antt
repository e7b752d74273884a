-- ===== src/Arp/Ops.antt =====
-- The entry points of Kernel/Network/ARP.c: frames from the network, lookups, and the ioctl requests.
-- `now` is what ISR_get_timer_ticks returns under the lock. Pointers are taken not to be NULL; bytes
-- are below 256, so that `|` of shifted bytes is their sum.
pub mod Keep
pub mod RoundTrip
pub mod Frames
mod Tests
use Prim.Native.Nat.{Ordering, bit_and, bit_or, eq}
use the_os_reborn.Common.{
  ℕ, zero, suc, ◌+◌, ◌*◌, ◌/◌, ◌%◌, ◌^◌, Bool, true, false, not, ◌&&◌, ◌||◌, List, [], ◌∷◌, ◌++◌,
  Option, none, some, ltb, ◌==◌, if◌then◌else◌, get_or, set, take, drop, replicate, length,
}
use the_os_reborn.Libc.Strings.{strcmp, is_eq}
use the_os_reborn.Arp.{
  Entry, Arp, table_capacity, mac_len, u64, atf_com, atf_perm, zero_entry, mac_is_zero,
  ipv4_is_zero, cleanup_expired_locked, find_entry_index_locked, upsert_locked,
}

abbrev pub byte_at : List ℕ → ℕ → ℕ
byte_at bytes i = get_or bytes i 0

pub read_be16 : List ℕ → ℕ → ℕ
read_be16 bytes i = byte_at bytes i * 2 ^ 8 + byte_at bytes (i + 1)

pub read_be32 : List ℕ → ℕ → ℕ
read_be32 bytes i =
    byte_at bytes i * 2 ^ 24
    + byte_at bytes (i + 1) * 2 ^ 16
    + byte_at bytes (i + 2) * 2 ^ 8
    + byte_at bytes (i + 3)

-- `ARP_write_be32(&bytes[i], value)`
pub write_be32 : List ℕ → ℕ → ℕ → List ℕ
write_be32 bytes i value =
    set
      (set (set (set bytes i (value / 2 ^ 24 % 2 ^ 8)) (i + 1) (value / 2 ^ 16 % 2 ^ 8)) (i + 2)
        (value / 2 ^ 8 % 2 ^ 8))
      (i + 3) (value % 2 ^ 8)

-- `sys_arpreq_t`: the families and data of its two addresses, the flags and the device name.
pub record Request : Type 0 where
  pub pa_family : ℕ
  pub pa_data : List ℕ
  pub ha_family : ℕ
  pub ha_data : List ℕ
  pub arp_flags : ℕ
  pub arp_dev : List ℕ

abbrev pub af_unspec : ℕ
af_unspec = 0

abbrev pub af_inet : ℕ
af_inet = 2

abbrev pub arphrd_ether : ℕ
arphrd_ether = 1

abbrev pub ifnamsiz : ℕ
ifnamsiz = 16

abbrev pub ipv4_offset : ℕ
ipv4_offset = 2

-- ARP_DEVICE_NAME, "net0"
abbrev pub device_name : List ℕ
device_name = 0x6e ∷ 0x65 ∷ 0x74 ∷ 0x30 ∷ []

-- the device that the request names is not this one
pub other_device : List ℕ → Bool
unfolding strcmp
other_device arp_dev =
    let dev_name : List ℕ = take ifnamsiz arp_dev in
    not (byte_at dev_name 0 == 0) && not (is_eq (strcmp dev_name device_name))

pub parse_request_ipv4 : Request → Option ℕ
unfolding other_device read_be32
parse_request_ipv4 r =
    if not (r.pa_family == af_inet)
    then none
    else if other_device r.arp_dev
    then none
    else if ipv4_is_zero (read_be32 r.pa_data ipv4_offset)
    then none
    else some (read_be32 r.pa_data ipv4_offset)

pub parse_hwaddr : Request → Option (List ℕ)
parse_hwaddr r =
    if not (r.ha_family == 0) && not (r.ha_family == af_unspec) && not (r.ha_family == arphrd_ether)
    then none
    else if mac_is_zero (take mac_len r.ha_data)
    then none
    else some (take mac_len r.ha_data)

pub fill_reply : ℕ → Entry → Request
unfolding write_be32
fill_reply ip e = record {
  pa_family = af_inet;
  pa_data = write_be32 (replicate 14 0) ipv4_offset ip;
  ha_family = arphrd_ether;
  ha_data = e.mac ++ replicate 8 0;
  arp_flags = e.flags;
  arp_dev = device_name ++ replicate 12 0;
}

pub init : Arp → Arp
init s =
    if not s.initialized
    then record {
      initialized = true;
      entries = replicate table_capacity zero_entry;
      rx_arp_frames = 0;
      learned_entries = 0;
      replaced_entries = 0;
      expired_entries = 0;
      lookup_hits = 0;
      lookup_misses = 0;
    }
    else s

-- how every entry point begins: initialise the table, take the lock, drop what has expired
pub enter : ℕ → Arp → Arp
unfolding init
enter now s = cleanup_expired_locked now (if not s.initialized then init s else s)

-- the checks of ARP_note_ethernet_frame: the sender's addresses, if the frame is an ARP packet
pub sender_of : List ℕ → Option (ℕ × List ℕ)
unfolding read_be16 read_be32
sender_of frame =
    let ip : ℕ = read_be32 frame 28 in
    let mac : List ℕ = take mac_len (drop 22 frame) in
    if ltb (length frame) 42
    then none
    else if not (read_be16 frame 12 == 0x0806)
    then none
    else if not (read_be16 frame 14 == arphrd_ether)
        || not (read_be16 frame 16 == 0x0800)
        || not (byte_at frame 18 == mac_len)
        || not (byte_at frame 19 == 4)
    then none
    else if not (read_be16 frame 20 == 1) && not (read_be16 frame 20 == 2)
    then none
    else if ipv4_is_zero ip || mac_is_zero mac
    then none
    else some (ip, mac)

abbrev count_frame : Arp → Arp
count_frame s = record s { rx_arp_frames = u64 (s.rx_arp_frames + 1) }

pub note_ethernet_frame : ℕ → ℕ → List ℕ → Arp → Arp
note_ethernet_frame hz now frame s = elim (sender_of frame) [
  | none ↦ s
  | some (ip, mac) ↦ (upsert_locked hz ip mac atf_com false now (count_frame (enter now s))).0
]

abbrev hit : Arp → Arp
hit s = record s { lookup_hits = u64 (s.lookup_hits + 1) }

abbrev miss : Arp → Arp
miss s = record s { lookup_misses = u64 (s.lookup_misses + 1) }

-- the lookup under the lock, with the entry found
pub find_locked : ℕ → Arp → Arp × Option Entry
find_locked ip s = elim (find_entry_index_locked ip s) [
  | none ↦ (miss s, none)
  | some slot ↦ (hit s, some (get_or s.entries slot zero_entry))
]

pub lookup_ipv4 : ℕ → ℕ → Arp → Arp × Option (List ℕ × ℕ)
lookup_ipv4 now ip s =
    if ipv4_is_zero ip
    then (s, none)
    else let (t, found) = find_locked ip (enter now s) in
      (t, elim found [ none ↦ none | some e ↦ some (e.mac, e.flags) ])

pub set_ipv4 : ℕ → ℕ → ℕ → List ℕ → ℕ → Arp → Arp × Bool
set_ipv4 hz now ip mac flags s =
    if ipv4_is_zero ip || mac_is_zero mac
    then (s, false)
    else upsert_locked hz ip mac flags (not (bit_and flags atf_perm == 0)) now (enter now s)

pub delete_locked : ℕ → Arp → Arp × Bool
delete_locked ip s = elim (find_entry_index_locked ip s) [
  | none ↦ (s, false)
  | some slot ↦ (record s { entries = set s.entries slot zero_entry }, true)
]

pub delete_ipv4 : ℕ → ℕ → Arp → Arp × Bool
delete_ipv4 now ip s = if ipv4_is_zero ip then (s, false) else delete_locked ip (enter now s)

pub ioctl_get : ℕ → Request → Arp → Arp × Option Request
ioctl_get now r s = elim (parse_request_ipv4 r) [
  | none ↦ (s, none)
  | some ip ↦
      let (t, found) = find_locked ip (enter now s) in
      (t, elim found [ none ↦ none | some e ↦ some (fill_reply ip e) ])
]

-- `(uint16_t) arp_flags`, with ATF_COM added where it is missing
pub request_flags : ℕ → ℕ
request_flags arp_flags =
    let flags : ℕ = arp_flags % 2 ^ 16 in
    if bit_and flags atf_com == 0 then bit_or flags atf_com else flags

pub ioctl_set : ℕ → ℕ → Request → Arp → Arp × Bool
ioctl_set hz now r s = elim (parse_request_ipv4 r) [
  | none ↦ (s, false)
  | some ip ↦ elim (parse_hwaddr r) [
    | none ↦ (s, false)
    | some mac ↦ set_ipv4 hz now ip mac (request_flags r.arp_flags) s
  ]
]

pub ioctl_delete : ℕ → Request → Arp → Arp × Bool
ioctl_delete now r s = elim (parse_request_ipv4 r) [
  | none ↦ (s, false)
  | some ip ↦ delete_ipv4 now ip s
]

-- a call of an entry point
pub data Op : Type 0 where
  note : List ℕ → Op
  lookup : ℕ → Op
  assign : ℕ → List ℕ → ℕ → Op
  delete : ℕ → Op
  get_request : Request → Op
  set_request : Request → Op
  delete_request : Request → Op

pub step : ℕ → ℕ → Op → Arp → Arp
step hz now (note frame) s = note_ethernet_frame hz now frame s
step hz now (lookup ip) s = (lookup_ipv4 now ip s).0
step hz now (assign ip mac flags) s = (set_ipv4 hz now ip mac flags s).0
step hz now (delete ip) s = (delete_ipv4 now ip s).0
step hz now (get_request r) s = (ioctl_get now r s).0
step hz now (set_request r) s = (ioctl_set hz now r s).0
step hz now (delete_request r) s = (ioctl_delete now r s).0

-- calls at the given ticks, in order
pub run : ℕ → List (ℕ × Op) → Arp → Arp
run hz [] s = s
run hz ((now, op) ∷ ops) s = run hz ops (step hz now op s)
