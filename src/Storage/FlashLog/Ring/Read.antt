-- ===== src/Storage/FlashLog/Ring/Read.antt =====
-- flash_log_read and flash_log_get_oldest of src/storage/flash_manager.c on the list of the records.
use native.Mathlib.Nat.{mod-add-mod, mod-lt}
use nrf54l15_tag.Common.{
  drop, length-drop, ℕ, zero, suc, ◌+◌, ◌-◌, ◌%◌, ◌≤◌, ◌<◌, ◌≡◌, Bool-cases, if_ready, inl, inr,
  ltb, ltb→lt, true, false, refl, sym, ◌∙◌, ap, arith, length, List, [], ◌∷◌, map, take, some,
  add32,
}
use nrf54l15_tag.Storage.FlashLog.{
  Flash, Slot, FlashLog, valid_at, first_index, wanted, collect, read_slots, flash_log_read,
}
use nrf54l15_tag.Storage.FlashLog.Window.{Holds, Holds-drop, slot_of}
use nrf54l15_tag.Storage.FlashLog.Ring.{IsRing}

module _ (flash : Flash) where
  open flash use {Area}

  -- The records as slots, numbered from position p.
  abbrev slots_from : ℕ → List (List ℕ) → List Slot
  slots_from p [] = []
  slots_from p (r ∷ rs) = slot_of flash (suc p) r ∷ slots_from (suc p) rs

  payloads :
      (size max p : ℕ) (rs : List (List ℕ))
      → map (λ s. take size s.payload) (take max (slots_from p rs)) ≡ map (take size) (take max rs)
  payloads size zero p rs = refl
  payloads size (suc max) p [] = refl
  payloads size (suc max) p (r ∷ rs) = ap (λ xs. take size r ∷ xs) (payloads size max (suc p) rs)

  wanted_lem :
      (start_seq : ℕ) (s : Slot) → start_seq ≤ s.seq → wanted flash start_seq (some s) ≡ some s
  unfolding wanted
  wanted_lem start_seq s h = ground arith

  drop_all : (d : ℕ) (xs : List (List ℕ)) → length xs ≤ d → drop d xs ≡ []
  drop_all zero [] h = refl
  drop_all zero (x ∷ xs) h = absurd (omega arith)
  drop_all (suc d) [] h = refl
  drop_all (suc d) (x ∷ xs) h = drop_all d xs (omega arith)

  first_slot :
      (a : Area) (total p : ℕ) (rs : List (List ℕ))
      → Holds flash total a p rs
      → 0 < length rs
      → (r : List ℕ) × (valid_at flash (p % total) a ≡ some (slot_of flash (suc p) r))
  first_slot a total p [] h low = absurd (omega arith)
  first_slot a total p (r ∷ rs) h low = (r, h.0)

  module _ (l : FlashLog Area) (f room : ℕ) (rs : List (List ℕ))
      (v : IsRing flash l f room rs) where
    collect_none :
        (i max start_seq : ℕ) → collect flash 0 i max start_seq l ≡ take {A = Slot} max []
    unfolding collect
    collect_none i zero start_seq = refl
    collect_none i (suc max) start_seq = refl

    slot_at :
        (i : ℕ) → i < length rs → add32 l.tail_slot i % l.total_slots ≡ (f + i) % l.total_slots
    unfolding add32
    slot_at i h =
        let t = l.total_slots in
        let below = mod-lt f {m = t} (omega (arith, v.space)) in
        let small : (l.tail_slot + i) % 4294967296 ≡ l.tail_slot + i =
          omega (arith, below, v.tail, v.word, v.space) in
        rw (small, v.tail) (mod-add-mod f t i)

    collect_lem :
        (n i max start_seq : ℕ) (ss : List (List ℕ))
        → n ≡ length ss
        → i + n ≡ length rs
        → start_seq ≤ f + i + 1
        → Holds flash l.total_slots l.area (f + i) ss
        → collect flash n i max start_seq l ≡ take max (slots_from (f + i) ss)
    unfolding collect
    collect_lem zero i zero start_seq [] e at h w = refl
    collect_lem zero i (suc max) start_seq [] e at h w = refl
    collect_lem zero i max start_seq (r ∷ ss) e at h w = absurd (omega arith)
    collect_lem (suc n) i zero start_seq ss e at h w = refl
    collect_lem (suc n) i (suc max) start_seq [] e at h w = absurd (omega arith)
    collect_lem (suc n) i (suc max) start_seq (r ∷ ss) e at h w =
        let here = slot_at i (omega arith) in
        let next : suc (f + i) ≡ f + (i + 1) = omega arith in
        let s = slot_of flash (suc (f + i)) r in
        let found : wanted flash start_seq
              (valid_at flash (add32 l.tail_slot i % l.total_slots) l.area)
            ≡ some s =
          rw (here, w.0) (wanted_lem start_seq s (omega arith)) in
        rw (found, collect)
          (ap (λ xs. s ∷ xs)
            (collect_lem n (i + 1) max start_seq ss (omega arith) (omega arith) (omega arith)
                (rw (sym next) w.1)
              ∙ ap (λ p. take max (slots_from p ss)) (sym next)))

    -- From the record with the requested number on; d is its index.
    collect_from :
        (n d max start_seq : ℕ)
        → n ≡ length rs
        → start_seq ≤ f + d + 1
        → collect flash (n - d) d max start_seq l ≡ take max (slots_from (f + d) (drop d rs))
    collect_from n d max start_seq e h = elim (Bool-cases (ltb (length rs) d)) [
      | inl past ↦
          let none_left : n - d ≡ 0 = ground arith in
          rw (none_left, drop_all d rs (ground arith)) (collect_none d max start_seq)
      | inr within ↦
          let m = length-drop d rs in
          let le : d ≤ length rs = ground arith in
          collect_lem (n - d) d max start_seq (drop d rs) (omega (arith, m)) (omega arith) h
            (Holds-drop flash l.total_slots l.area f (f + d) d rs le refl v.holds)
    ]

    tail_first :
        (start_seq : ℕ)
        → 0 < length rs
        → first_index flash start_seq (valid_at flash l.tail_slot l.area) ≡ start_seq - (f + 1)
    unfolding first_index
    tail_first start_seq h =
        let (r, e) = first_slot l.area l.total_slots f rs v.holds h in rw (v.tail, e) (ground arith)

    read_slots_lem :
        (start_seq max : ℕ)
        → read_slots flash start_seq max l
          ≡ take max (slots_from (f + (start_seq - (f + 1))) (drop (start_seq - (f + 1)) rs))
    unfolding read_slots
    read_slots_lem start_seq max =
        let d = start_seq - (f + 1) in
        elim (Bool-cases (ltb 0 (length rs))) [
          | inl some_there ↦
              let lt : ltb 0 l.used_slots ≡ true = rw v.used some_there in
              rw (lt, tail_first start_seq (ltb→lt _ _ some_there))
                (collect_from l.used_slots d max start_seq v.used (omega arith))
          | inr nothing ↦
              let z : l.used_slots ≡ 0 = ground (arith, v.used) in
              let lt : ltb 0 l.used_slots ≡ false = rw v.used nothing in
              rw (lt, z, drop_all d rs (ground arith)) (collect_none 0 max start_seq)
        ]

  -- Reading a ring is reading the list of its records: those numbered from the requested sequence
  -- number on, oldest first, and of these as many as the caller has room for.
  pub flash_log_read-IsRing :
      (l : FlashLog Area) (f room : ℕ) (rs : List (List ℕ)) (start_seq max : ℕ)
      → IsRing flash l f room rs
      → flash_log_read flash start_seq max l
        ≡ some (map (take l.payload_size) (take max (drop (start_seq - (f + 1)) rs)))
  unfolding flash_log_read
  flash_log_read-IsRing l f room rs start_seq max v =
      let d = start_seq - (f + 1) in
      if_ready l.ready _ _ v.ready
      ∙ ap (λ ss. some (map (λ s. take l.payload_size s.payload) ss))
          (read_slots_lem l f room rs v start_seq max)
      ∙ ap some (payloads l.payload_size max (f + d) (drop d rs))
