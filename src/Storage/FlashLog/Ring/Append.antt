-- ===== src/Storage/FlashLog/Ring/Append.antt =====
-- make_room and flash_log_append of src/storage/flash_manager.c on a ring, as operations on the list
-- of its records.
use native.Mathlib.Nat.{mod-add-mod, add-mod_right}
use nrf54l15_tag.Common.{
  drop, length-drop, ℕ, ◌+◌, ◌-◌, ◌*◌, ◌%◌, ◌≤◌, ◌<◌, ◌≡◌, ◌≢◌, ◌⊎◌, inl, inr, Bool-cases, ltb,
  ltb→lt, ◌==◌, refl, sym, ◌∙◌, ap, arith, length, List, none, some, add32, min, if◌then◌else◌,
}
use nrf54l15_tag.Storage.FlashLog.{
  Flash, FlashLog, erased_slot, valid_at, count_valid, make_room, slot_size,
}
use nrf54l15_tag.Storage.FlashLog.Window.{turn_ne, Holds-frame, Holds-drop, erased-none}
use nrf54l15_tag.Storage.FlashLog.Ring.{
  IsRing, head_in, head_place, room_inside, sector_inside, step_on, apart, counted, erased_ok,
}

module _ (flash : Flash) where
  open flash use {Area, read, erase, read-erase, read-erase_ne}

  module _ (l : FlashLog Area) (f room : ℕ) (rs : List (List ℕ)) (v : IsRing flash l f room rs)
      (entering : l.head_slot % l.slots_per_sector ≡ 0)
      (erased : (erase (l.head_slot * slot_size) l.sector_size l.area).1 ≡ none) where
    abbrev b : Area
    b = (erase (l.head_slot * slot_size) l.sector_size l.area).0

    -- The positions of the sector read as erased.
    inside_erased :
        (k : ℕ)
        → f + length rs ≤ k
        → k < f + length rs + l.slots_per_sector
        → read (k % l.total_slots) b ≡ some erased_slot
    inside_erased k low high =
        let j = k - (f + length rs) in
        let at : k % l.total_slots ≡ l.head_slot + j =
          ap (λ (x : ℕ). x % l.total_slots) (omega arith)
          ∙ step_on flash l f room rs v j
              (omega (arith, sector_inside flash l f room rs v entering)) in
        read-erase (l.head_slot * slot_size) l.sector_size (k % l.total_slots) l.area erased
          (omega (arith, at)) (omega (arith, at, v.sector_bytes))

    -- The positions from p + per up to a turn behind p are left as they were.
    outside_same :
        (k : ℕ)
        → k < f + length rs + l.total_slots
        → (k < f + length rs) × (f + length rs + l.slots_per_sector ≤ k + l.total_slots)
          ⊎ (f + length rs + l.slots_per_sector ≤ k)
        → valid_at flash (k % l.total_slots) b ≡ valid_at flash (k % l.total_slots) l.area
    unfolding valid_at
    outside_same k high where_it_is =
        rw
          (read-erase_ne (l.head_slot * slot_size) l.sector_size (k % l.total_slots) l.area erased
            (apart flash l f room rs v k entering (λ j low. ne j low where_it_is)))
          refl
      where
        ne :
            (j : ℕ)
            → j < l.slots_per_sector
            → (k < f + length rs) × (f + length rs + l.slots_per_sector ≤ k + l.total_slots)
              ⊎ (f + length rs + l.slots_per_sector ≤ k)
            → k % l.total_slots ≢ (f + length rs + j) % l.total_slots
        ne j low (inl (before, near)) e =
            let d = f + length rs + j - k in
            let split : f + length rs + j ≡ k + d = omega arith in
            turn_ne l.total_slots k d (omega (arith, v.sector_fits)) (omega arith)
              (omega (arith, near)) (ap (λ (x : ℕ). x % l.total_slots) (sym split) ∙ sym e)
        ne j low (inr behind) e =
            let d = k - (f + length rs + j) in
            let split : k ≡ f + length rs + j + d = omega arith in
            turn_ne l.total_slots (f + length rs + j) d (omega (arith, v.sector_fits)) (omega arith)
              (omega arith) (ap (λ (x : ℕ). x % l.total_slots) (sym split) ∙ e)

    tail_moved :
        (lost : ℕ)
        → lost ≡ length rs + l.slots_per_sector - l.total_slots
        → (if ltb 0 lost then add32 l.head_slot l.slots_per_sector % l.total_slots else l.tail_slot)
          ≡ (f + lost) % l.total_slots
    unfolding add32
    tail_moved lost e = elim (Bool-cases (ltb 0 lost)) [
      | inl some_lost ↦
          let t = l.total_slots in
          let h = head_in flash l f room rs v in
          let small : (l.head_slot + l.slots_per_sector) % 4294967296
              ≡ l.head_slot + l.slots_per_sector =
            omega (arith, h, v.word, v.sector_fits) in
          let round : f + length rs + l.slots_per_sector ≡ f + lost + t =
            ground (arith, v.sector_fits) in
          rw (some_lost, small, v.head)
            (mod-add-mod (f + length rs) t l.slots_per_sector
              ∙ ap (λ (x : ℕ). x % t) round
              ∙ add-mod_right (f + lost) t)
      | inr none_lost ↦ let z : f + lost ≡ f = ground arith in rw (none_lost, z) v.tail
    ]

    nothing_behind :
        (lost k : ℕ)
        → lost ≡ length rs + l.slots_per_sector - l.total_slots
        → f + length rs ≤ k
        → k < f + lost + l.total_slots
        → valid_at flash (k % l.total_slots) b ≡ none
    nothing_behind lost k e low high =
        elim (Bool-cases (ltb k (f + length rs + l.slots_per_sector))) [
          | inl within ↦
              erased-none flash (k % l.total_slots) b (inside_erased k low (ltb→lt _ _ within))
          | inr beyond ↦
              let far : f + length rs + l.slots_per_sector ≤ k = ground arith in
              outside_same k (omega (arith, v.sector_fits)) (inr far)
              ∙ v.outside k low (omega arith)
        ]

    -- The records that the sector held are the oldest; without them the log is a ring again.
    entered :
        (lost : ℕ)
        → lost ≡ length rs + l.slots_per_sector - l.total_slots
        → IsRing flash
            (record l {
              area = b;
              used_slots = l.used_slots - min l.used_slots lost;
              tail_slot =
                  if ltb 0 lost
                  then add32 l.head_slot l.slots_per_sector % l.total_slots
                  else l.tail_slot;
            })
            (f + lost)
            l.slots_per_sector
            (drop lost rs)
    entered lost e =
        let n = length-drop lost rs in
        let fits = v.sector_fits in
        let some_slot = v.sector_some in
        let q : f + lost + length (drop lost rs) ≡ f + length rs = omega arith in
        record {
          ready = v.ready;
          sector_some = v.sector_some;
          sector_fits = v.sector_fits;
          sector_bytes = v.sector_bytes;
          whole = v.whole;
          word = v.word;
          used = omega (arith, v.used, n);
          seq = omega (arith, v.seq, q);
          head = rw q v.head;
          tail = tail_moved lost e;
          holds =
              Holds-frame flash l.total_slots l.area b (f + lost) (drop lost rs)
                (λ k low high. outside_same k (omega arith) (inl (omega arith, omega arith)))
                (Holds-drop flash l.total_slots l.area f (f + lost) lost rs (omega arith) refl
                  v.holds);
          outside = λ k low high. nothing_behind lost k e (omega arith) (omega arith);
          blank = λ k low high. inside_erased k (omega arith) (omega arith);
          space = omega (arith, n);
          aligned = rw q (
              add-mod_right (f + length rs) l.slots_per_sector
              ∙ sym (head_place flash l f room rs v)
              ∙ entering);
        }

  -- What make_room leaves, if it succeeds: a ring with an erased slot at its head, from which the
  -- oldest records are gone, those of the sector that the head enters.
  abbrev pub lost_by : FlashLog Area → ℕ
  lost_by l =
      if l.head_slot % l.slots_per_sector == 0
      then l.used_slots + l.slots_per_sector - l.total_slots
      else 0

  pub make_room-IsRing :
      (l : FlashLog Area) (f room : ℕ) (rs : List (List ℕ))
      → IsRing flash l f room rs
      → (make_room flash l).1 ≡ none
      → (room' : ℕ) × (0 < room')
        × IsRing flash (make_room flash l).0 (f + lost_by l) room' (drop (lost_by l) rs)
  unfolding make_room
  make_room-IsRing l f room rs v ok = elim (Bool-cases (l.head_slot % l.slots_per_sector == 0)) [
    | inl entering ↦
        let n = count_valid flash l.slots_per_sector l.head_slot l.area in
        let h : l.head_slot % l.slots_per_sector ≡ 0 = ground arith in
        let done = rw entering at ok in
        let (er, shape) =
          erased_ok flash n l (erase (l.head_slot * slot_size) l.sector_size l.area) done in
        let c = counted flash l f room rs v h in
        let same : l.used_slots + l.slots_per_sector - l.total_slots ≡ n =
          omega (arith, c, v.used) in
        rw (entering, shape, same)
          (l.slots_per_sector, v.sector_some, entered l f room rs v h er n c)
    | inr inside ↦
        let z : f + 0 ≡ f = omega arith in
        rw (inside, z) (room, room_inside flash l f room rs v (ground arith), v)
  ]
