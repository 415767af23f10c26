-- ===== src/Storage/FlashLog/Reading.antt =====
-- What flash_log_read of src/storage/flash_manager.c returns.
use nrf54l15_tag.Common.{
  ℕ, zero, suc, ◌+◌, ◌%◌, ◌≤◌, ◌≡◌, refl, true, Option, none, some, add32, arith, length, List, ◌∷◌,
  All,
}
use nrf54l15_tag.Storage.FlashLog.{
  Flash, Slot, FlashLog, slot_valid, checked, valid_at, wanted, collect, read_slots,
}

module _ (flash : Flash) where
  open flash use {Area, read}

  abbrev IsWanted : ℕ → Slot → Type 0
  IsWanted start_seq s = (start_seq ≤ s.seq) × (slot_valid flash s ≡ true)

  checked-valid :
      (o : Option Slot) (s : Slot) → checked flash o ≡ some s → slot_valid flash s ≡ true
  unfolding checked
  checked-valid o s e = ground arith

  wanted-IsWanted :
      (start_seq : ℕ) (o : Option Slot) (s : Slot)
      → wanted flash start_seq (checked flash o) ≡ some s
      → IsWanted start_seq s
  unfolding wanted checked
  wanted-IsWanted start_seq o s e = (ground arith, ground arith)

  abbrev Collected : ℕ → ℕ → List Slot → Type 0
  Collected max start_seq ss = All (IsWanted start_seq) ss × (length ss ≤ max)

  one_turn :
      (max start_seq : ℕ) (o : Option Slot) (same more : List Slot)
      → ((s : Slot) → o ≡ some s → IsWanted start_seq s)
      → Collected (suc max) start_seq same
      → Collected max start_seq more
      → Collected (suc max) start_seq (elim o [ none ↦ same | some s ↦ s ∷ more ])
  one_turn max start_seq none same more w h k = h
  one_turn max start_seq (some s) same more w h k = ((w s refl, k.0), omega (arith, k.1))

  collect-Collected :
      (n i max start_seq : ℕ) (l : FlashLog Area)
      → Collected max start_seq (collect flash n i max start_seq l)
  unfolding collect valid_at
  collect-Collected zero i max start_seq l = (tt, omega arith)
  collect-Collected (suc n) i zero start_seq l = (tt, omega arith)
  collect-Collected (suc n) i (suc max) start_seq l =
      let slot = add32 l.tail_slot i % l.total_slots in
      one_turn max start_seq (wanted flash start_seq (valid_at flash slot l.area))
        (collect flash n (i + 1) (suc max) start_seq l) (collect flash n (i + 1) max start_seq l)
        (wanted-IsWanted start_seq (read slot l.area))
        (collect-Collected n (i + 1) (suc max) start_seq l)
        (collect-Collected n (i + 1) max start_seq l)

  -- Whatever the state of the ring and the flash, a read copies only from slots that are valid, with
  -- a sequence number from the requested one on, and no more of them than the caller has room for.
  pub read_slots_bounds :
      (start_seq max : ℕ) (l : FlashLog Area)
      → All
          (λ s. (start_seq ≤ s.seq) × (slot_valid flash s ≡ true))
          (read_slots flash start_seq max l)
        × (length (read_slots flash start_seq max l) ≤ max)
  unfolding read_slots
  read_slots_bounds start_seq max l = collect-Collected _ _ max start_seq l
