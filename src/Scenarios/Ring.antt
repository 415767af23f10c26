-- ===== src/Scenarios/Ring.antt =====
-- Runs on a full ring of twelve slots in three sectors, which has been written round once.
use nrf54l15_tag.Common.{
  ℕ, ◌+◌, ◌≡◌, refl, true, if◌then◌else◌, ltb, List, [], ◌∷◌, ◌++◌, Option, none, some, arith, map,
  take, drop, Status,
}
use nrf54l15_tag.Storage.FlashLog.{
  Slot, FlashLog, Partition, flash_log_init, repeat, slot_valid, checked, valid_at, make_room,
  sector_erased, count_valid, slot_written, write_head, flash_log_append, flash_log_read,
}
use nrf54l15_tag.Storage.FlashLog.Erase.{
  erase_from, flash_log_erase, flash_log_erase_total, flash_log_erase-IsRing,
}
use nrf54l15_tag.Storage.FlashLog.Window.{slot_of}
use nrf54l15_tag.Storage.FlashLog.Ring.{IsRing}
use nrf54l15_tag.Storage.FlashLog.Ring.Write.{stored, flash_log_append-IsRing}
use nrf54l15_tag.Storage.FlashLog.Ring.Read.{flash_log_read-IsRing}
use nrf54l15_tag.Storage.FlashLog.Ring.Restart.{restarted_log, flash_log_init-IsRing}
use nrf54l15_tag.Scenarios.Flash.{ram_flash, erase_slots}

-- The slots hold the positions 20 to 31, the oldest record in slot 8.
abbrev pub full_area : ℕ → Option Slot
full_area i =
    let seq = if ltb i 8 then i + 25 else i + 13 in some (slot_of ram_flash seq (repeat 24 seq))

abbrev pub ring_of : ℕ → FlashLog (ℕ → Option Slot)
ring_of payload_size = record {
  payload_size = payload_size;
  area = full_area;
  sector_size = 128;
  total_slots = 12;
  slots_per_sector = 4;
  head_slot = 8;
  tail_slot = 8;
  used_slots = 12;
  next_seq = 33;
  ready = true;
}

-- With the size of a sensor log record, and of an event record.
abbrev pub full_ring : FlashLog (ℕ → Option Slot)
full_ring = ring_of 17

abbrev pub event_ring : FlashLog (ℕ → Option Slot)
event_ring = ring_of 8

abbrev pub twelve : List (List ℕ)
twelve =
    repeat 24 21
    ∷ repeat 24 22
    ∷ repeat 24 23
    ∷ repeat 24 24
    ∷ repeat 24 25
    ∷ repeat 24 26
    ∷ repeat 24 27
    ∷ repeat 24 28
    ∷ repeat 24 29
    ∷ repeat 24 30
    ∷ repeat 24 31
    ∷ repeat 24 32
    ∷ []

pub ring_of-IsRing : (n : ℕ) → IsRing ram_flash (ring_of n) 20 0 twelve
unfolding valid_at checked slot_valid
ring_of-IsRing n = record {
  ready = refl;
  sector_some = omega arith;
  sector_fits = omega arith;
  sector_bytes = refl;
  whole = refl;
  word = omega arith;
  used = refl;
  seq = refl;
  head = refl;
  tail = refl;
  holds = (
    refl,
    (refl, (refl, (refl, (refl, (refl, (refl, (refl, (refl, (refl, (refl, (refl, tt))))))))))),
  );
  outside = λ k low high. absurd (omega arith);
  blank = λ k low high. absurd (omega arith);
  space = omega arith;
  aligned = refl;
}

pub full_ring-IsRing : IsRing ram_flash full_ring 20 0 twelve
full_ring-IsRing = ring_of-IsRing 17

abbrev full_ring_erased : FlashLog (ℕ → Option Slot)
full_ring_erased = record full_ring {
  area = erase_slots 256 128 (erase_slots 128 128 (erase_slots 0 128 full_area));
  head_slot = 0;
  tail_slot = 0;
  used_slots = 0;
  next_seq = 1;
}

flash_log_append-IsRing_example :
    let flash = ram_flash in
    let bytes : List ℕ = 7 ∷ 8 ∷ [] in
    let l = full_ring in
    ((flash_log_append flash bytes l).2 ≡ some 33)
    × (room' : ℕ) × IsRing flash
        (flash_log_append flash bytes l).0
        24
        room'
        (drop 4 twelve ++ stored flash bytes l ∷ [])
unfolding make_room sector_erased flash_log_append write_head slot_written count_valid valid_at
    checked
flash_log_append-IsRing_example =
    flash_log_append-IsRing ram_flash (7 ∷ 8 ∷ []) full_ring 20 0 twelve full_ring-IsRing
      (omega arith) refl

flash_log_read-IsRing_example :
    let flash = ram_flash in
    let l = full_ring in
    flash_log_read flash 29 3 l
    ≡ some (map (take 17) (repeat 24 29 ∷ repeat 24 30 ∷ repeat 24 31 ∷ []))
flash_log_read-IsRing_example =
    flash_log_read-IsRing ram_flash full_ring 20 0 twelve 29 3 full_ring-IsRing

flash_log_erase_total_example :
    let flash = ram_flash in
    let l = full_ring in
    (r : FlashLog (ℕ → Option Slot) × Status) × (flash_log_erase flash l ≡ some r)
flash_log_erase_total_example = flash_log_erase_total ram_flash full_ring (omega arith)

flash_log_erase-IsRing_example :
    let flash = ram_flash in let l = full_ring in IsRing flash full_ring_erased 0 l.total_slots []
unfolding flash_log_erase erase_from
flash_log_erase-IsRing_example =
    flash_log_erase-IsRing ram_flash full_ring full_ring_erased 20 0 twelve full_ring-IsRing refl

abbrev reopened : Partition
reopened = record {
  opened = none;
  device_ready = true;
  page_info = none;
  page_size = 128;
  size = 384;
}

flash_log_init-IsRing_example :
    let flash = ram_flash in
    let l = full_ring in
    flash_log_init flash reopened (restarted_log flash l 0 0 0 0 0 0 0) ≡ (l, none)
flash_log_init-IsRing_example =
    flash_log_init-IsRing ram_flash full_ring 20 0 twelve reopened 0 0 0 0 0 0 0 full_ring-IsRing
      (omega arith) (omega arith) (omega arith) (omega arith) refl refl refl refl refl
