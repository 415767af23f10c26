-- ===== src/Storage/FlashLog/Ring.antt =====
-- The ring of src/storage/flash_manager.c as the list of its records, oldest first.
use native.Mathlib.Nat.{
  mod-eq_of_lt, mod-lt, mod-add-mod, mod-eq-sub-mod, mod-mod_of_dvd, dvd_of_mod-eq-zero,
}
use nrf54l15_tag.Common.{
  ℕ, zero, suc, ◌+◌, ◌-◌, ◌*◌, ◌%◌, ◌≤◌, ◌<◌, ◌≡◌, ◌≢◌, ◌⊎◌, inl, inr, Bool-cases, ltb, ltb→lt,
  ◌==◌, true, false, refl, sym, ◌∙◌, ap, arith, length, List, [], ◌∷◌, ◌++◌, Option, none, some,
  take, Status, add32, min, if◌then◌else◌,
}
use nrf54l15_tag.Storage.FlashLog.{
  Flash, Slot, FlashLog, erased_slot, valid_at, count_valid, one_if_some, make_room, sector_erased,
  slot_size,
}
use nrf54l15_tag.Storage.FlashLog.Window.{turn_ne, Holds, Same, Holds-some, erased-none}
pub mod Append
pub mod Write
pub mod Read
pub mod Turn
pub mod Recall
pub mod Restart

-- The log holds the records rs from position f on. Behind them `room` slots are erased, up to the end
-- of a sector, and nothing is valid up to the next turn of the oldest.
pub record IsRing (flash : Flash) (l : FlashLog flash.Area) (f room : ℕ) (rs : List (List ℕ))
    : Type 0 where
  pub ready : l.ready ≡ true
  pub sector_some : 0 < l.slots_per_sector
  pub sector_fits : l.slots_per_sector ≤ l.total_slots
  pub sector_bytes : l.sector_size ≡ l.slots_per_sector * 32
  pub whole : l.total_slots % l.slots_per_sector ≡ 0
  pub word : l.total_slots ≤ 2147483648
  pub used : l.used_slots ≡ length rs
  pub seq : l.next_seq ≡ f + length rs + 1
  pub head : l.head_slot ≡ (f + length rs) % l.total_slots
  pub tail : l.tail_slot ≡ f % l.total_slots
  pub holds : Holds flash l.total_slots l.area f rs
  pub outside :
      (k : ℕ)
      → f + length rs ≤ k
      → k < f + l.total_slots
      → valid_at flash (k % l.total_slots) l.area ≡ none
  pub blank :
      (k : ℕ)
      → f + length rs ≤ k
      → k < f + length rs + room
      → flash.read (k % l.total_slots) l.area ≡ some erased_slot
  pub space : length rs + room ≤ l.total_slots
  pub aligned : (f + length rs + room) % l.slots_per_sector ≡ 0

module _ (flash : Flash) where
  open flash use {Area, read, erase}

  module _ (l : FlashLog Area) (f room : ℕ) (rs : List (List ℕ))
      (v : IsRing flash l f room rs) where
    abbrev pub p : ℕ
    p = f + length rs

    abbrev pub total : ℕ
    total = l.total_slots

    abbrev pub per : ℕ
    per = l.slots_per_sector

    head_in : l.head_slot < total
    head_in =
        let h : p % total < total = mod-lt p (omega (arith, v.sector_some, v.sector_fits)) in
        omega (arith, v.head, h)

    -- The head's place in its sector is that of its position.
    head_place : l.head_slot % per ≡ p % per
    head_place = rw v.head (mod-mod_of_dvd per p (dvd_of_mod-eq-zero per v.whole))

    -- In mid-sector there is an erased slot.
    room_inside : l.head_slot % per ≢ 0 → 0 < room
    room_inside h = elim (Bool-cases (ltb 0 room)) [
      | inl some_room ↦ ltb→lt _ _ some_room
      | inr full ↦
          let e : room ≡ 0 = ground arith in
          let q : p + room ≡ p = omega arith in
          let z : p % per ≡ 0 = rw q at v.aligned in absurd (h (head_place ∙ z))
    ]

    -- From the head on, positions and slots go in step up to the end of the area.
    step_on : (j : ℕ) → l.head_slot + j < total → (p + j) % total ≡ l.head_slot + j
    step_on j h = sym (mod-add-mod p total j) ∙ rw (sym v.head) (mod-eq_of_lt h)

    -- A sector that the head enters ends inside the area.
    sector_inside : l.head_slot % per ≡ 0 → l.head_slot + per ≤ total
    sector_inside h =
        let x = total - l.head_slot in
        let split : l.head_slot + x ≡ total = omega (arith, head_in) in
        let z : x % per ≡ 0 =
          ap (λ (k : ℕ). k % per) (omega arith)
          ∙ ap (λ (k : ℕ). (k + x) % per) (sym h)
          ∙ mod-add-mod l.head_slot per x
          ∙ ap (λ (k : ℕ). k % per) split
          ∙ v.whole in
        elim (Bool-cases (ltb x per)) [
          | inl short ↦ omega (arith, head_in, z, mod-eq_of_lt {n = x} {m = per} (ltb→lt _ _ short))
          | inr long ↦ ground (arith, head_in)
        ]

    -- Another position within a turn of a sector is outside it.
    apart :
        (k : ℕ)
        → l.head_slot % per ≡ 0
        → ((j : ℕ) → j < per → k % total ≢ (p + j) % total)
        → (k % total * 32 + 32 ≤ l.head_slot * 32)
          ⊎ (l.head_slot * 32 + l.sector_size ≤ k % total * 32)
    apart k h other =
        let s = k % total in
        elim (Bool-cases (ltb s l.head_slot)) [
          | inl before ↦ inl (ground arith)
          | inr not_before ↦ elim (Bool-cases (ltb s (l.head_slot + per))) [
            | inl within ↦
                let j = s - l.head_slot in
                let low : j < per = ground arith in
                let back : l.head_slot + j ≡ s = ground arith in
                let on = step_on j (omega (arith, sector_inside h)) in
                absurd (other j low (sym (on ∙ back)))
            | inr behind ↦
                let far : l.head_slot + per ≤ s = ground arith in
                inr (omega (arith, v.sector_bytes))
          ]
        ]

    -- The sector that is entered holds what the window has in it: its oldest records.
    count_window :
        (n i k : ℕ)
        → ((j : ℕ) → j < n → (k + j) % total ≡ i + j)
        → p ≤ k
        → k + n ≤ p + total
        → count_valid flash n i l.area ≡ n - (f + total - k)
    unfolding count_valid
    count_window zero i k on low high = omega arith
    count_window (suc n) i k on low high =
        let here : k % total ≡ i =
          ap (λ (x : ℕ). x % total) (omega arith) ∙ on 0 (omega arith) ∙ omega arith in
        let rest =
          count_window n (i + 1) (k + 1)
            (λ j h.
              ap (λ (x : ℕ). x % total) (omega arith) ∙ on (suc j) (omega arith) ∙ omega arith)
            (omega arith) (omega arith) in
        elim (Bool-cases (ltb k (f + total))) [
          | inl free ↦
              let nothing = v.outside k low (ltb→lt _ _ free) in
              let zero_here : one_if_some (valid_at flash i l.area) ≡ 0 =
                rw (sym here, nothing) refl in
              ground (arith, rest, zero_here)
          | inr taken ↦
              let old : f + total ≤ k = ground arith in
              let wound : k % total ≡ (k - total) % total =
                mod-eq-sub-mod {n = k} {m = total} (omega arith) in
              let one_here : one_if_some (valid_at flash i l.area) ≡ 1 =
                rw (sym here, wound)
                  (Holds-some flash total l.area f (k - total) rs v.holds (omega arith)
                    (omega arith)) in
              ground (arith, rest, one_here)
        ]

    counted :
        l.head_slot % per ≡ 0 → count_valid flash per l.head_slot l.area ≡ length rs + per - total
    counted h =
        let c =
          count_window per l.head_slot p (λ j low. step_on j (omega (arith, sector_inside h, low)))
            (omega arith) (omega (arith, v.sector_fits)) in
        omega (arith, c)

  -- An erasure that succeeds, field by field.
  erased_ok :
      (n : ℕ) (l : FlashLog Area) (r : Area × Status)
      → (sector_erased flash n l r).1 ≡ none
      → (r.1 ≡ none)
        × ((sector_erased flash n l r).0 ≡ record l {
          area = r.0;
          used_slots = l.used_slots - min l.used_slots n;
          tail_slot =
              if ltb 0 n then add32 l.head_slot l.slots_per_sector % l.total_slots else l.tail_slot;
        })
  unfolding sector_erased
  erased_ok n l (a, some err) h = cc
  erased_ok n l (a, none) h = elim (Bool-cases (ltb 0 n)) [
    | inl some_lost ↦ (refl, rw some_lost refl)
    | inr none_lost ↦
        let keep : l.used_slots ≡ l.used_slots - min l.used_slots n = ground arith in
        (refl, rw none_lost (λ i. record l { area = a; used_slots = keep i }))
  ]
