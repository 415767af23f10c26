-- ===== src/Scenarios/Flash.antt =====
-- Runs of the flash log, over a flash of four slots in two sectors.
use nrf54l15_tag.Common.{
  ℕ, ◌+◌, ◌%◌, ◌/◌, ◌<◌, ◌≤◌, ◌≡◌, ◌≢◌, ◌⊎◌, inl, inr, ◌*◌, refl, true, if◌then◌else◌, ◌==◌, ltb,
  leb, ◌&&◌, Option, none, some, arith,
}
use nrf54l15_tag.Storage.FlashLog.{
  Flash, Slot, FlashLog, erased_slot, repeat, record_magic, slot_valid, checked, valid_at, scan,
}
use nrf54l15_tag.Storage.FlashLog.Scan.{scan_recovers}

unfoldable pub put_slot : ℕ → Slot → (ℕ → Option Slot) → ℕ → Option Slot
put_slot i s a j = if j == i then some s else a j

pub put_slot_read : (i : ℕ) (s : Slot) (a : ℕ → Option Slot) → put_slot i s a i ≡ some s
unfolding put_slot
put_slot_read i s a = ground arith

pub put_slot_read_ne : (i j : ℕ) (s : Slot) (a : ℕ → Option Slot) → i ≢ j → put_slot i s a j ≡ a j
unfolding put_slot
put_slot_read_ne i j s a h = ground arith

unfoldable pub erase_slots : ℕ → ℕ → (ℕ → Option Slot) → ℕ → Option Slot
erase_slots from size a j =
    if leb (from / 32) j && ltb j ((from + size) / 32) then some erased_slot else a j

pub erase_slots_read :
    (from size j : ℕ) (a : ℕ → Option Slot)
    → from ≤ j * 32
    → j * 32 + 32 ≤ from + size
    → erase_slots from size a j ≡ some erased_slot
unfolding erase_slots
erase_slots_read from size j a low high = ground arith

pub erase_slots_read_ne :
    (from size j : ℕ) (a : ℕ → Option Slot)
    → (j * 32 + 32 ≤ from) ⊎ (from + size ≤ j * 32)
    → erase_slots from size a j ≡ a j
unfolding erase_slots
erase_slots_read_ne from size j a (inl h) = ground arith
erase_slots_read_ne from size j a (inr h) = ground arith

-- A flash that never fails, with a weak checksum.
abbrev pub ram_flash : Flash
ram_flash = record {
  Area = ℕ → Option Slot;
  read = λ i a. a i;
  write = λ i s a. (put_slot i s a, none);
  erase = λ from size a. (erase_slots from size a, none);
  crc16 = λ seq payload. seq % 65536;
  read-write = λ i s a blank ok. put_slot_read i s a;
  read-write_ne = λ i j s a h ok. put_slot_read_ne i j s a h;
  read-erase = λ from size j a ok low high. erase_slots_read from size j a low high;
  read-erase_ne = λ from size j a ok h. erase_slots_read_ne from size j a h;
}

abbrev fifth : Slot
fifth = record { magic = record_magic; crc = 5; seq = 5; payload = repeat 24 1 }

abbrev worn : FlashLog (ℕ → Option Slot)
worn = record {
  payload_size = 8;
  area = λ i. some fifth;
  sector_size = 64;
  total_slots = 4;
  slots_per_sector = 2;
  head_slot = 2;
  tail_slot = 0;
  used_slots = 4;
  next_seq = 6;
  ready = true;
}

scan_recovers_example :
    let flash = ram_flash in
    let l = worn in
    let s = fifth in
    (s.seq < (scan flash l).next_seq)
    × (t : Slot) × (valid_at flash (scan flash l).tail_slot l.area ≡ some t)
    × (t.seq ≤ s.seq)
unfolding valid_at checked slot_valid
scan_recovers_example =
    scan_recovers ram_flash worn 3 fifth (omega arith) (λ j t e. ground arith) (omega arith) refl
