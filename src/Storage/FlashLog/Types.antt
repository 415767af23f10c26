-- ===== src/Storage/FlashLog/Types.antt =====
-- src/storage/flash_manager.c: slots, the log's fields, the partition, and the flash driver as a
-- parameter.
use nrf54l15_tag.Common.{
  ℕ, zero, suc, ◌≡◌, ◌≢◌, ◌⊎◌, ◌≤◌, ◌*◌, ◌+◌, Bool, ltb, add32, if◌then◌else◌, List, [], ◌∷◌,
  Option, none, some, Status,
}

abbrev pub slot_size : ℕ
slot_size = 32

abbrev pub max_payload : ℕ
max_payload = 24

abbrev pub record_magic : ℕ
record_magic = 23111

-- struct slot, its header with it.
pub record Slot : Type 0 where
  pub magic : ℕ
  pub crc : ℕ
  pub seq : ℕ
  pub payload : List ℕ

unfoldable pub repeat : ℕ → ℕ → List ℕ
repeat zero b = []
repeat (suc n) b = b ∷ repeat n b

-- A slot of 0xff bytes.
abbrev pub erased_slot : Slot
erased_slot = record {
  magic = 65535;
  crc = 65535;
  seq = 4294967295;
  payload = repeat max_payload 255;
}

-- flash_area_read, flash_area_write and flash_area_erase on the log's partition, and crc16_ccitt over
-- the sequence number and the payload. Reads and writes go by slot, an erasure by its offset and size
-- in bytes. A write that succeeds on an erased slot is read back, an erasure that succeeds leaves its
-- slots erased, and neither touches another slot.
pub record Flash : Type 1 where
  pub Area : Type 0
  pub read : ℕ → Area → Option Slot
  pub write : ℕ → Slot → Area → Area × Status
  pub erase : ℕ → ℕ → Area → Area × Status
  pub crc16 : ℕ → List ℕ → ℕ
  pub read-write :
      (i : ℕ) (s : Slot) (a : Area)
      → read i a ≡ some erased_slot
      → (write i s a).1 ≡ none
      → read i (write i s a).0 ≡ some s
  pub read-write_ne :
      (i j : ℕ) (s : Slot) (a : Area)
      → i ≢ j
      → (write i s a).1 ≡ none
      → read j (write i s a).0 ≡ read j a
  pub read-erase :
      (from size j : ℕ) (a : Area)
      → (erase from size a).1 ≡ none
      → from ≤ j * 32
      → j * 32 + 32 ≤ from + size
      → read j (erase from size a).0 ≡ some erased_slot
  pub read-erase_ne :
      (from size j : ℕ) (a : Area)
      → (erase from size a).1 ≡ none
      → (j * 32 + 32 ≤ from) ⊎ (from + size ≤ j * 32)
      → read j (erase from size a).0 ≡ read j a

-- struct flash_log, without its name and its lock.
pub record FlashLog (A : Type 0) : Type 0 where
  pub payload_size : ℕ
  pub area : A
  pub sector_size : ℕ
  pub total_slots : ℕ
  pub slots_per_sector : ℕ
  pub head_slot : ℕ
  pub tail_slot : ℕ
  pub used_slots : ℕ
  pub next_seq : ℕ
  pub ready : Bool

-- The local variables of scan and the fields that it fills.
pub record Found : Type 0 where
  pub used : ℕ
  pub newest_seq : ℕ
  pub newest_slot : ℕ
  pub oldest_seq : ℕ
  pub tail : ℕ

-- What flash_log_init learns of the partition: the results of the calls, the size of a page and of
-- the partition.
pub record Partition : Type 0 where
  pub opened : Status
  pub device_ready : Bool
  pub page_info : Status
  pub page_size : ℕ
  pub size : ℕ

-- struct flash_log_info
pub record FlashLogInfo : Type 0 where
  pub record_count : ℕ
  pub capacity : ℕ
  pub oldest_seq : ℕ
  pub newest_seq : ℕ
  pub record_size : ℕ
  pub ready : Bool

abbrev pub nothing_found : Found
nothing_found = record {
  used = 0;
  newest_seq = 0;
  newest_slot = 0;
  oldest_seq = 4294967295;
  tail = 0;
}

-- The body of the loop of scan, for a slot that is valid.
unfoldable pub note_slot : ℕ → Slot → Found → Found
note_slot i s f =
    let newer = ltb f.newest_seq s.seq in
    let older = ltb s.seq f.oldest_seq in
    record {
      used = add32 f.used 1;
      newest_seq = if newer then s.seq else f.newest_seq;
      newest_slot = if newer then i else f.newest_slot;
      oldest_seq = if older then s.seq else f.oldest_seq;
      tail = if older then i else f.tail;
    }

unfoldable pub note_valid : ℕ → Option Slot → Found → Found
unfolding note_slot
note_valid i none f = f
note_valid i (some s) f = note_slot i s f

abbrev pub one_if_some : Option Slot → ℕ
one_if_some none = 0
one_if_some (some s) = 1
