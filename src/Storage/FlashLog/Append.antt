-- ===== src/Storage/FlashLog/Append.antt =====
-- What flash_log_append of src/storage/flash_manager.c leaves on the flash.
use nrf54l15_tag.Common.{
  ℕ, ◌*◌, ◌%◌, ◌≡◌, inl, inr, refl, sym, true, Bool-cases, ltb, ◌==◌, Option, none, some, add32,
  arith, List, Status,
}
use nrf54l15_tag.Storage.FlashLog.{
  Flash, FlashLog, slot_size, count_valid, erased_slot, slot_valid, checked, valid_at, make_room,
  sector_erased, new_slot, slot_written, write_head, flash_log_append,
}

same_number : (n : ℕ) → (n == n) ≡ true
same_number n = ground arith

module _ (flash : Flash) where
  open flash use {Area, read, write, erase, read-write}

  pub new_slot-valid :
      (bytes : List ℕ) (l : FlashLog Area)
      → checked flash (some (new_slot flash bytes l)) ≡ some (new_slot flash bytes l)
  unfolding checked slot_valid new_slot
  new_slot-valid bytes l = rw (same_number _) refl

  pub written :
      (l : FlashLog Area) (r : Area × Status)
      → (slot_written flash l r).1 ≡ none
      → let after = slot_written flash l r in
        (r.1 ≡ none)
        × (after.0.area ≡ r.0)
        × (after.2 ≡ some l.next_seq)
        × (after.0.next_seq ≡ add32 l.next_seq 1)
        × (after.0.head_slot ≡ add32 l.head_slot 1 % l.total_slots)
  unfolding slot_written
  written l (a, none) ok = (refl, refl, refl, refl, refl)
  written l (a, some err) ok = cc

  -- What a successful append promises, of the log that make_room left.
  abbrev pub Appended : List ℕ → FlashLog Area → FlashLog Area × Status × Option ℕ → Type 0
  Appended bytes l r =
      (valid_at flash l.head_slot r.0.area ≡ some (new_slot flash bytes l))
      × (r.2 ≡ some l.next_seq)
      × (r.0.next_seq ≡ add32 l.next_seq 1)
      × (r.0.head_slot ≡ add32 l.head_slot 1 % l.total_slots)

  write_lem :
      (bytes : List ℕ) (m : FlashLog Area × Status)
      → read m.0.head_slot m.0.area ≡ some erased_slot
      → (write_head flash bytes m).1 ≡ none
      → Appended bytes m.0 (write_head flash bytes m)
  unfolding write_head valid_at
  write_lem bytes (l, some err) blank ok = cc
  write_lem bytes (l, none) blank ok =
      let s = new_slot flash bytes l in
      let (done, area, seq, next, head) = written l (write l.head_slot s l.area) ok in
      (
        rw (area, read-write l.head_slot s l.area blank done) (new_slot-valid bytes l),
        seq,
        next,
        head,
      )

  pub opened :
      (bytes : List ℕ) (l : FlashLog Area)
      → l.ready ≡ true
      → flash_log_append flash bytes l ≡ write_head flash bytes (make_room flash l)
  unfolding flash_log_append
  opened bytes l ready = rw ready refl

  erased-keeps :
      (lost : ℕ) (l : FlashLog Area) (r : Area × Status)
      → let m = (sector_erased flash lost l r).0 in
        (m.head_slot ≡ l.head_slot)
        × (m.next_seq ≡ l.next_seq)
        × (m.payload_size ≡ l.payload_size)
        × (m.total_slots ≡ l.total_slots)
  unfolding sector_erased
  erased-keeps lost l (a, some err) = (refl, refl, refl, refl)
  erased-keeps lost l (a, none) = elim (Bool-cases (ltb 0 lost)) [
    | inl some_lost ↦ rw some_lost (refl, refl, refl, refl)
    | inr none_lost ↦ rw none_lost (refl, refl, refl, refl)
  ]

  pub make_room-keeps :
      (l : FlashLog Area)
      → let m = (make_room flash l).0 in
        (m.head_slot ≡ l.head_slot)
        × (m.next_seq ≡ l.next_seq)
        × (m.payload_size ≡ l.payload_size)
        × (m.total_slots ≡ l.total_slots)
  unfolding make_room
  make_room-keeps l = elim (Bool-cases (l.head_slot % l.slots_per_sector == 0)) [
    | inl entering ↦ rw entering (
        erased-keeps (count_valid flash l.slots_per_sector l.head_slot l.area) l
          (erase (l.head_slot * slot_size) l.sector_size l.area))
    | inr inside ↦ rw inside (refl, refl, refl, refl)
  ]

  -- An append that returns 0 has stored its record, if make_room left the slot at the head erased:
  -- where the head stood there is now a valid slot with the record and the sequence number that is
  -- returned, which is the next one; the next sequence number is one higher and the head one slot
  -- on, round the ring.
  pub flash_log_append_lem :
      (bytes : List ℕ) (l : FlashLog Area)
      → l.ready ≡ true
      → read l.head_slot (make_room flash l).0.area ≡ some erased_slot
      → (flash_log_append flash bytes l).1 ≡ none
      → let r = flash_log_append flash bytes l in
        (valid_at flash l.head_slot r.0.area ≡ some (new_slot flash bytes l))
        × (r.2 ≡ some l.next_seq)
        × (r.0.next_seq ≡ add32 l.next_seq 1)
        × (r.0.head_slot ≡ add32 l.head_slot 1 % l.total_slots)
  unfolding new_slot
  flash_log_append_lem bytes l ready blank ok =
      let m = make_room flash l in
      let (head, seq, size, total) = make_room-keeps l in
      let e = opened bytes l ready in
      let (at, given, next, on) = write_lem bytes m (rw head blank) (rw (sym e) ok) in
      let same : new_slot flash bytes m.0 ≡ new_slot flash bytes l = rw (seq, size) refl in
      (cc, cc, cc, cc)
