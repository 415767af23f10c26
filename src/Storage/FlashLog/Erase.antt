-- ===== src/Storage/FlashLog/Erase.antt =====
-- flash_log_erase of src/storage/flash_manager.c, sector by sector.
use nrf54l15_tag.Common.{
  ℕ, zero, suc, ◌+◌, ◌-◌, ◌*◌, ◌%◌, ◌≤◌, ◌<◌, ◌≡◌, ◌⊎◌, Bool-cases, if_ready, subst, inl, inr, ltb,
  ltb→lt, true, false, not, refl, sym, ◌∙◌, ap, arith, min, List, [], Option, none, some, Status,
  Errno, enodev, if◌then◌else◌,
}
use nrf54l15_tag.Storage.FlashLog.{Flash, FlashLog, erased_slot, slot_size}
use nrf54l15_tag.Storage.FlashLog.Window.{erased-none}
use nrf54l15_tag.Storage.FlashLog.Ring.{IsRing}
use native.Mathlib.Nat.{mod-lt, mod-eq_of_lt}

module _ (flash : Flash) where
  open flash use {Area, read, erase, read-erase, read-erase_ne}

  -- The loop: none if the fuel runs out.
  unfoldable pub erase_from : ℕ → ℕ → ℕ → ℕ → Area → Option (Area × Status)
  erase_from zero offset total sector a = none
  erase_from (suc n) offset total sector a =
      let chunk = min sector (total - offset) in
      let b = (erase offset chunk a).0 in
      elim (ltb offset total) [
        | false ↦ some (a, none)
        | true ↦ elim (erase offset chunk a).1 [
          | none ↦ erase_from n (offset + chunk) total sector b
          | some err ↦ some (b, some err)
        ]
      ]

  unfoldable restarted : FlashLog Area → Option (Area × Status) → Option (FlashLog Area × Status)
  restarted l none = none
  restarted l (some (a, some err)) = some (record l { area = a }, some err)
  restarted l (some (a, none)) =
      some (record l { area = a; head_slot = 0; tail_slot = 0; used_slots = 0; next_seq = 1 }, none)

  -- flash_log_erase, with a turn of the loop for each slot, and one for its end.
  unfoldable pub flash_log_erase : FlashLog Area → Option (FlashLog Area × Status)
  unfolding restarted
  flash_log_erase l =
      if not l.ready
      then some (l, some enodev)
      else restarted l
          (erase_from (suc l.total_slots) 0 (l.total_slots * slot_size) l.sector_size l.area)

  status_cases : {A : Type 0} (s : Option A) → (s ≡ none) ⊎ ((err : A) × (s ≡ some err))
  status_cases none = inl refl
  status_cases (some err) = inr (err, refl)

  module _ (n sector total : ℕ) (a : Area) (offset : ℕ) where
    abbrev chunk : ℕ
    chunk = min sector (total - offset)

    at_end : ltb offset total ≡ false → erase_from (suc n) offset total sector a ≡ some (a, none)
    unfolding erase_from
    at_end h = rw (h, erase_from) refl

    turn_fails :
        (err : Errno)
        → ltb offset total ≡ true
        → (erase offset chunk a).1 ≡ some err
        → erase_from (suc n) offset total sector a ≡ some ((erase offset chunk a).0, some err)
    unfolding erase_from
    turn_fails err h k = rw (h, erase_from) (rw k refl)

    turn_goes_on :
        ltb offset total ≡ true
        → (erase offset chunk a).1 ≡ none
        → erase_from (suc n) offset total sector a
          ≡ erase_from n (offset + chunk) total sector (erase offset chunk a).0
    unfolding erase_from
    turn_goes_on h k = rw (h, erase_from) (rw k refl)

  -- Every turn but the last erases a slot's size or more.
  erase_from_total :
      (n sector total : ℕ) (a : Area) (offset : ℕ)
      → slot_size ≤ sector
      → total ≤ offset + n * slot_size
      → (r : Area × Status) × (erase_from (suc n) offset total sector a ≡ some r)
  erase_from_total zero sector total a offset s h =
      ((a, none), at_end zero sector total a offset (ground arith))
  erase_from_total (suc n) sector total a offset s h =
      let c = min sector (total - offset) in
      elim (Bool-cases (ltb offset total)) [
        | inr done ↦ ((a, none), at_end (suc n) sector total a offset done)
        | inl more ↦ elim (status_cases (erase offset c a).1) [
          | inl fine ↦
              let rest =
                erase_from_total n sector total (erase offset c a).0 (offset + c) s
                  (ground arith) in
              (rest.0, turn_goes_on (suc n) sector total a offset more fine ∙ rest.1)
          | inr bad ↦ (
            ((erase offset c a).0, some bad.0),
            turn_fails (suc n) sector total a offset bad.0 more bad.1,
          )
        ]
      ]

  -- The slots from o on to t are erased, and those before o stay so.
  erase_from_erases :
      (n per o t : ℕ) (a b : Area)
      → o ≤ t
      → ((j : ℕ) → j < o → read j a ≡ some erased_slot)
      → erase_from n (o * 32) (t * 32) (per * 32) a ≡ some (b, none)
      → (j : ℕ) → j < t
      → read j b ≡ some erased_slot
  unfolding erase_from
  erase_from_erases zero per o t a b w before h j low = cc
  erase_from_erases (suc n) per o t a b w before h j low =
      let c = min (per * 32) (t * 32 - o * 32) in
      let q = min per (t - o) in
      let same : c ≡ q * 32 = ground arith in
      elim (Bool-cases (ltb (o * 32) (t * 32))) [
        | inr done ↦
            let e = sym (at_end n (per * 32) (t * 32) a (o * 32) done) ∙ h in
            let ab : a ≡ b = cc in sym (ap (read j) ab) ∙ before j (ground arith)
        | inl more ↦ elim (status_cases (erase (o * 32) c a).1) [
          | inr bad ↦
              let failed = sym (turn_fails n (per * 32) (t * 32) a (o * 32) bad.0 more bad.1) ∙ h in
              absurd (clash (erase (o * 32) c a).0 bad.0 failed)
          | inl fine ↦
              let on : o * 32 + c ≡ (o + q) * 32 = omega (arith, same) in
              let e =
                ap (λ (x : ℕ). erase_from n x (t * 32) (per * 32) (erase (o * 32) c a).0) (sym on)
                ∙ sym (turn_goes_on n (per * 32) (t * 32) a (o * 32) more fine)
                ∙ h in
              erase_from_erases n per (o + q) t (erase (o * 32) c a).0 b (ground arith)
                (λ k below. erased_too k below fine same) e j low
        ]
      ]
    where
      clash :
          (x : Area) (err : Errno)
          → ◌≡◌ {A = Option (Area × Status)} (some (x, some err)) (some (b, none))
          → ⊥
      clash x err h = cc

      erased_too :
          (k : ℕ)
          → k < o + min per (t - o)
          → (erase (o * 32) (min (per * 32) (t * 32 - o * 32)) a).1 ≡ none
          → min (per * 32) (t * 32 - o * 32) ≡ min per (t - o) * 32
          → read k (erase (o * 32) (min (per * 32) (t * 32 - o * 32)) a).0 ≡ some erased_slot
      erased_too k below fine same = elim (Bool-cases (ltb k o)) [
        | inl old ↦
            read-erase_ne (o * 32) (min (per * 32) (t * 32 - o * 32)) k a fine (inl (ground arith))
            ∙ before k (ltb→lt _ _ old)
        | inr new ↦
            read-erase (o * 32) (min (per * 32) (t * 32 - o * 32)) k a fine (ground arith)
              (omega (arith, same, below))
      ]

  restarted-some :
      (l : FlashLog Area) (x : Area × Status)
      → (r : FlashLog Area × Status) × (restarted l (some x) ≡ some r)
  unfolding restarted
  restarted-some l (a, none) = (_, refl)
  restarted-some l (a, some err) = (_, refl)

  -- flash_log_erase returns on a log whose sectors have a slot or more, whatever the driver answers.
  pub flash_log_erase_total :
      (l : FlashLog Area)
      → slot_size ≤ l.sector_size
      → (r : FlashLog Area × Status) × (flash_log_erase l ≡ some r)
  unfolding flash_log_erase
  flash_log_erase_total l h = elim (Bool-cases l.ready) [
    | inr off ↦ ((l, some enodev), rw off refl)
    | inl on ↦
        let looped =
          erase_from_total l.total_slots l.sector_size (l.total_slots * slot_size) l.area 0 h
            (omega arith) in
        let (r, e) = restarted-some l looped.0 in
        (r, if_ready l.ready _ _ on ∙ ap (restarted l) looped.1 ∙ e)
  ]

  empty-IsRing :
      (l : FlashLog Area) (b : Area) (f room : ℕ) (rs : List (List ℕ))
      → IsRing flash l f room rs
      → ((j : ℕ) → j < l.total_slots → read j b ≡ some erased_slot)
      → IsRing flash
          (record l { area = b; head_slot = 0; tail_slot = 0; used_slots = 0; next_seq = 1 })
          0
          l.total_slots
          []
  empty-IsRing l b f room rs v h =
      let some_slot : 0 < l.total_slots = omega (arith, v.sector_some, v.sector_fits) in
      let z : 0 ≡ 0 % l.total_slots = sym (mod-eq_of_lt some_slot) in
      let blank = λ (k : ℕ). h (k % l.total_slots) (mod-lt k some_slot) in
      record {
        ready = v.ready;
        sector_some = v.sector_some;
        sector_fits = v.sector_fits;
        sector_bytes = v.sector_bytes;
        whole = v.whole;
        word = v.word;
        used = refl;
        seq = refl;
        head = z;
        tail = z;
        holds = tt;
        outside = λ k low high. erased-none flash (k % l.total_slots) b (blank k);
        blank = λ k low high. blank k;
        space = omega arith;
        aligned = ap (λ (x : ℕ). x % l.slots_per_sector) (omega arith) ∙ v.whole;
      }

  restarted_ok :
      (l l2 : FlashLog Area) (x : Area × Status)
      → restarted l (some x) ≡ some (l2, none)
      → (x.1 ≡ none)
        × (record l { area = x.0; head_slot = 0; tail_slot = 0; used_slots = 0; next_seq = 1 } ≡ l2)
  unfolding restarted
  restarted_ok l l2 (a, none) h = (refl, cc)
  restarted_ok l l2 (a, some err) h = cc

  -- An erasure that succeeds turns any ring into the empty one: no record, the numbering from 1 on,
  -- and room in every slot.
  pub flash_log_erase-IsRing :
      (l l2 : FlashLog Area) (f room : ℕ) (rs : List (List ℕ))
      → IsRing flash l f room rs
      → flash_log_erase l ≡ some (l2, none)
      → IsRing flash l2 0 l.total_slots []
  unfolding flash_log_erase
  flash_log_erase-IsRing l l2 f room rs v h =
      let bytes : slot_size ≤ l.sector_size = omega (arith, v.sector_bytes, v.sector_some) in
      let (x, looped) =
        erase_from_total l.total_slots l.sector_size (l.total_slots * slot_size) l.area 0 bytes
          (omega arith) in
      let ended : restarted l (some x) ≡ some (l2, none) =
        ap (restarted l) (sym looped) ∙ sym (if_ready l.ready _ _ v.ready) ∙ h in
      let (fine, e) = restarted_ok l l2 x ended in
      let walked : erase_from (suc l.total_slots) 0 (l.total_slots * 32) (l.slots_per_sector * 32)
            l.area
          ≡ some (x.0, none) =
        ap (λ (z : ℕ). erase_from (suc l.total_slots) 0 (l.total_slots * 32) z l.area)
          (sym v.sector_bytes)
        ∙ looped
        ∙ ap (λ s. some (x.0, s)) fine in
      let erased =
        erase_from_erases (suc l.total_slots) l.slots_per_sector 0 l.total_slots l.area x.0
          (omega arith) (λ j low. absurd (omega arith)) walked in
      subst (λ w. IsRing flash w 0 l.total_slots []) e (empty-IsRing l x.0 f room rs v erased)
