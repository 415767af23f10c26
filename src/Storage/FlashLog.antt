-- ===== src/Storage/FlashLog.antt =====
-- src/storage/flash_manager.c: a ring of fixed slots over a flash partition.
--
-- The flash driver and the CRC are not under this repository: they are the parameter `Flash`. A read
-- of 32 bytes at a slot's offset is seen as the struct slot that the code reads it into.
use nrf54l15_tag.Common.{
  ℕ, zero, suc, ◌+◌, ◌-◌, ◌*◌, ◌/◌, ◌%◌, ◌≢◌, ◌≡◌, Bool, true, false, not, ◌&&◌, ◌||◌, ltb, leb,
  ◌==◌, min, u32, add32, sub32, if◌then◌else◌, length, take, List, [], ◌∷◌, ◌++◌, map, Option, none,
  some, Status, enodev, enoent, einval,
}
mod Types
unfoldable pub use Types.*
pub mod Window
pub mod Ring
pub mod Scan
pub mod Append
pub mod Reading
pub mod Erase

module _ (flash : Flash) where
  open flash use {Area, read, write, erase, crc16}

  -- slot_valid
  unfoldable pub slot_valid : Slot → Bool
  slot_valid s = (s.magic == record_magic) && (s.crc == crc16 s.seq s.payload)

  -- `read_slot(...) == 0 && slot_valid(...)`
  unfoldable pub checked : Option Slot → Option Slot
  unfolding slot_valid
  checked none = none
  checked (some s) = if slot_valid s then some s else none

  unfoldable pub valid_at : ℕ → Area → Option Slot
  valid_at i a = checked (read i a)

  -- The loop of scan, from slot i on over n slots.
  unfoldable pub scan_from : ℕ → ℕ → Area → Found → Found
  scan_from zero i a f = f
  scan_from (suc n) i a f = scan_from n (i + 1) a (note_valid i (valid_at i a) f)

  -- scan
  unfoldable pub scan : FlashLog Area → FlashLog Area
  scan l =
      let f = scan_from l.total_slots 0 l.area nothing_found in
      if f.used == 0
      then record l { head_slot = 0; tail_slot = f.tail; used_slots = 0; next_seq = 1 }
      else record l {
        head_slot = add32 f.newest_slot 1 % l.total_slots;
        tail_slot = f.tail;
        used_slots = f.used;
        next_seq = add32 f.newest_seq 1;
      }

  unfoldable pub set_geometry : Partition → FlashLog Area → FlashLog Area × Status
  unfolding scan
  set_geometry p l =
      let per = p.page_size / slot_size in
      let all = p.size / slot_size in
      let sized = record l {
        sector_size = p.page_size;
        slots_per_sector = per;
        total_slots = all;
      } in
      if (per == 0) || ltb all per
      then (sized, some einval)
      else (record (scan (record sized { total_slots = all - all % per })) { ready = true }, none)

  unfoldable pub open_device : Partition → Status → FlashLog Area → FlashLog Area × Status
  unfolding set_geometry
  open_device p (some err) l = (l, some err)
  open_device p none l = set_geometry p l

  unfoldable pub open_partition : Partition → Status → FlashLog Area → FlashLog Area × Status
  unfolding open_device
  open_partition p (some err) l = (l, some err)
  open_partition p none l =
      if not p.device_ready then (l, some enodev) else open_device p p.page_info l

  -- flash_log_init
  unfoldable pub flash_log_init : Partition → FlashLog Area → FlashLog Area × Status
  unfolding open_partition
  flash_log_init p l =
      let idle_log = record l { ready = false } in
      if (l.payload_size == 0) || ltb max_payload l.payload_size
      then (idle_log, some einval)
      else open_partition p p.opened idle_log

  -- The loop of make_room: how many of n slots from i on are valid.
  unfoldable pub count_valid : ℕ → ℕ → Area → ℕ
  count_valid zero i a = 0
  count_valid (suc n) i a = one_if_some (valid_at i a) + count_valid n (i + 1) a

  unfoldable pub sector_erased : ℕ → FlashLog Area → Area × Status → FlashLog Area × Status
  sector_erased lost l (a, some err) = (record l { area = a }, some err)
  sector_erased lost l (a, none) =
      if ltb 0 lost
      then (
        record l {
          area = a;
          used_slots = l.used_slots - min l.used_slots lost;
          tail_slot = add32 l.head_slot l.slots_per_sector % l.total_slots;
        },
        none,
      )
      else (record l { area = a }, none)

  -- make_room
  unfoldable pub make_room : FlashLog Area → FlashLog Area × Status
  unfolding sector_erased
  make_room l =
      if not (l.head_slot % l.slots_per_sector == 0)
      then (l, none)
      else sector_erased (count_valid l.slots_per_sector l.head_slot l.area) l
          (erase (l.head_slot * slot_size) l.sector_size l.area)

  -- The slot that flash_log_append fills.
  unfoldable pub new_slot : List ℕ → FlashLog Area → Slot
  new_slot bytes l =
      let copied = take l.payload_size bytes in
      let body = copied ++ repeat (max_payload - length copied) 0 in
      record { magic = record_magic; crc = crc16 l.next_seq body; seq = l.next_seq; payload = body }

  unfoldable pub slot_written : FlashLog Area → Area × Status → FlashLog Area × Status × Option ℕ
  slot_written l (a, some err) = (record l { area = a }, some err, none)
  slot_written l (a, none) = (
    record l {
      area = a;
      tail_slot = if l.used_slots == 0 then l.head_slot else l.tail_slot;
      next_seq = add32 l.next_seq 1;
      used_slots = add32 l.used_slots 1;
      head_slot = add32 l.head_slot 1 % l.total_slots;
    },
    none,
    some l.next_seq,
  )

  unfoldable pub write_head : List ℕ → FlashLog Area × Status → FlashLog Area × Status × Option ℕ
  unfolding slot_written
  write_head bytes (l, some err) = (l, some err, none)
  write_head bytes (l, none) = slot_written l (write l.head_slot (new_slot bytes l) l.area)

  -- flash_log_append: with the sequence number that it writes through its pointer.
  unfoldable pub flash_log_append : List ℕ → FlashLog Area → FlashLog Area × Status × Option ℕ
  unfolding write_head
  flash_log_append bytes l =
      if not l.ready then (l, some enodev, none) else write_head bytes (make_room l)

  unfoldable pub first_index : ℕ → Option Slot → ℕ
  first_index start_seq none = 0
  first_index start_seq (some s) = if ltb s.seq start_seq then start_seq - s.seq else 0

  unfoldable pub wanted : ℕ → Option Slot → Option Slot
  wanted start_seq none = none
  wanted start_seq (some s) = if ltb s.seq start_seq then none else some s

  -- The loop of flash_log_read from index i on: n slots are left, and room for max records.
  unfoldable pub collect : ℕ → ℕ → ℕ → ℕ → FlashLog Area → List Slot
  collect zero i max start_seq l = []
  collect (suc n) i zero start_seq l = []
  collect (suc n) i (suc max) start_seq l =
      elim (wanted start_seq (valid_at (add32 l.tail_slot i % l.total_slots) l.area)) [
        | none ↦ collect n (i + 1) (suc max) start_seq l
        | some s ↦ s ∷ collect n (i + 1) max start_seq l
      ]

  -- The slots that flash_log_read copies from.
  unfoldable pub read_slots : ℕ → ℕ → FlashLog Area → List Slot
  unfolding collect first_index
  read_slots start_seq max l =
      let first =
        if ltb 0 l.used_slots then first_index start_seq (valid_at l.tail_slot l.area) else 0 in
      collect (l.used_slots - first) first max start_seq l

  -- flash_log_read: the records, or none for -ENODEV.
  unfoldable pub flash_log_read : ℕ → ℕ → FlashLog Area → Option (List (List ℕ))
  flash_log_read start_seq max l =
      if not l.ready
      then none
      else some (map (λ s. take l.payload_size s.payload) (read_slots start_seq max l))

  unfoldable pub oldest_seq_of : Option Slot → ℕ
  oldest_seq_of none = 0
  oldest_seq_of (some s) = s.seq

  -- flash_log_get_info
  unfoldable pub flash_log_get_info : FlashLog Area → FlashLogInfo
  flash_log_get_info l =
      if not l.ready
      then record {
        record_count = 0;
        capacity = 0;
        oldest_seq = 0;
        newest_seq = 0;
        record_size = l.payload_size;
        ready = false;
      }
      else record {
        record_count = l.used_slots;
        capacity = l.total_slots;
        oldest_seq = if ltb 0 l.used_slots then oldest_seq_of (valid_at l.tail_slot l.area) else 0;
        newest_seq = if ltb 0 l.used_slots then sub32 l.next_seq 1 else 0;
        record_size = l.payload_size;
        ready = true;
      }

  abbrev oldest_payload : ℕ → Option Slot → Option (List ℕ) × Status
  oldest_payload size none = (none, some enoent)
  oldest_payload size (some s) = (some (take size s.payload), none)

  -- flash_log_get_oldest: with the record that it copies out.
  unfoldable pub flash_log_get_oldest : FlashLog Area → Option (List ℕ) × Status
  flash_log_get_oldest l =
      if not l.ready
      then (none, some enodev)
      else if ltb 0 l.used_slots
      then oldest_payload l.payload_size (valid_at l.tail_slot l.area)
      else (none, some enoent)
