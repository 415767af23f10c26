-- ===== src/Storage/FlashLog/Ring/Restart.antt =====
-- flash_log_init of src/storage/flash_manager.c on the flash that a ring has left.
use native.Mathlib.Nat.{mod-lt, mod-add-mod}
use nrf54l15_tag.Common.{
  ℕ, zero, suc, ◌+◌, ◌-◌, ◌*◌, ◌/◌, ◌%◌, ◌≤◌, ◌<◌, ◌≡◌, ◌⊎◌, inl, inr, Bool-cases, ltb, ltb→lt,
  ◌==◌, true, false, ◌||◌, refl, sym, ◌∙◌, ap, arith, length, List, [], ◌∷◌, Option, none, some,
  add32,
}
use nrf54l15_tag.Storage.FlashLog.{
  Flash, Slot, FlashLog, Found, Partition, nothing_found, note_slot, note_valid, valid_at,
  scan_from, scan, count_valid, one_if_some, set_geometry, open_device, open_partition,
  flash_log_init,
}
use nrf54l15_tag.Storage.FlashLog.Scan.{scan_covers}
use nrf54l15_tag.Storage.FlashLog.Window.{Holds, Holds-some, slot_of}
use nrf54l15_tag.Storage.FlashLog.Ring.{IsRing}
use nrf54l15_tag.Storage.FlashLog.Ring.Turn.{
  position, scan_counts, around, around-add, around_turn, around_all, around_none, count_around,
}

module _ (flash : Flash) where
  open flash use {Area}

  -- What the newest slot that scan has noted holds.
  abbrev Newest : ℕ → Area → Found → Type 0
  Newest n a f =
      (f.newest_seq ≡ 0)
      ⊎ (f.newest_slot < n)
        × (t : Slot) × (valid_at flash f.newest_slot a ≡ some t)
        × (t.seq ≡ f.newest_seq)

  note_valid-Newest :
      (i n : ℕ) (o : Option Slot) (a : Area) (f : Found)
      → i < n
      → valid_at flash i a ≡ o
      → Newest n a f
      → Newest n a (note_valid i o f)
  unfolding note_valid note_slot
  note_valid-Newest i n none a f h e v = v
  note_valid-Newest i n (some s) a f h e v = elim (Bool-cases (ltb f.newest_seq s.seq)) [
    | inl newer ↦ rw newer (inr (h, s, e, refl))
    | inr kept ↦ rw kept v
  ]

  abbrev Oldest : ℕ → Area → Found → Type 0
  Oldest n a f =
      (f.oldest_seq ≡ 4294967295)
      ⊎ (f.tail < n) × (t : Slot) × (valid_at flash f.tail a ≡ some t) × (t.seq ≡ f.oldest_seq)

  note_valid-Oldest :
      (i n : ℕ) (o : Option Slot) (a : Area) (f : Found)
      → i < n
      → valid_at flash i a ≡ o
      → Oldest n a f
      → Oldest n a (note_valid i o f)
  unfolding note_valid note_slot
  note_valid-Oldest i n none a f h e v = v
  note_valid-Oldest i n (some s) a f h e v = elim (Bool-cases (ltb s.seq f.oldest_seq)) [
    | inl older ↦ rw older (inr (h, s, e, refl))
    | inr kept ↦ rw kept v
  ]

  -- What every slot's turn keeps, the loop keeps.
  scan_from_keeps :
      (P : Found → Type 0) (n : ℕ) (a : Area)
      → ((i : ℕ) (f : Found) → i < n → P f → P (note_valid i (valid_at flash i a) f))
      → (m i : ℕ) (f : Found) → i + m ≤ n
      → P f
      → P (scan_from flash m i a f)
  unfolding scan_from
  scan_from_keeps P n a keep zero i f h v = v
  scan_from_keeps P n a keep (suc m) i f h v =
      scan_from_keeps P n a keep m (i + 1) (note_valid i (valid_at flash i a) f) (omega arith)
        (keep i f (omega arith) v)

  module _ (l : FlashLog Area) (f room : ℕ) (rs : List (List ℕ))
      (v : IsRing flash l f room rs) where
    all_counted : count_valid flash l.total_slots 0 l.area ≡ length rs
    all_counted =
        let t = l.total_slots in
        let n = length rs in
        let used : around flash l.area t n f ≡ n =
          around_all flash l.area t n f
            (λ k low high. Holds-some flash t l.area f k rs v.holds low high) in
        let free : around flash l.area t (t - n) (f + n) ≡ 0 =
          around_none flash l.area t (t - n) (f + n)
            (λ k low high. ap one_if_some (v.outside k low (omega (arith, v.space)))) in
        let whole : n + (t - n) ≡ t = omega (arith, v.space) in
        let split = around-add flash l.area t n (t - n) f in
        let turn : around flash l.area t (n + (t - n)) f ≡ around flash l.area t t f =
          ap (λ (j : ℕ). around flash l.area t j f) whole in
        omega (
          arith,
          count_around flash l.area t t 0 (omega arith),
          around_turn flash l.area t f,
          turn,
          split,
          used,
          free,
        )

    Holds-at :
        (p k : ℕ) (ss : List (List ℕ))
        → Holds flash l.total_slots l.area p ss
        → p ≤ k
        → k < p + length ss
        → (r : List ℕ) × (valid_at flash (k % l.total_slots) l.area
            ≡ some (slot_of flash (suc k) r))
    Holds-at p k [] h low high = absurd (omega arith)
    Holds-at p k (s ∷ ss) h low high = elim (Bool-cases (k == p)) [
      | inl first ↦ let same : k ≡ p = ground arith in rw same (s, h.0)
      | inr later ↦ Holds-at (suc p) k ss h.1 (ground arith) (omega arith)
    ]

    -- A valid slot is that of a position in the window, under that position's number.
    valid_position :
        (i : ℕ) (t : Slot)
        → i < l.total_slots
        → valid_at flash i l.area ≡ some t
        → (k : ℕ) × (f ≤ k) × (k < f + length rs) × (k % l.total_slots ≡ i) × (t.seq ≡ suc k)
    valid_position i t h e =
        let (k, low, high, at) = position l.total_slots f i h in
        let here : valid_at flash (k % l.total_slots) l.area ≡ some t =
          ap (λ (j : ℕ). valid_at flash j l.area) at ∙ e in
        elim (Bool-cases (ltb k (f + length rs))) [
          | inl within ↦
              let (r, holds) = Holds-at f k rs v.holds low (ltb→lt _ _ within) in
              let number : t.seq ≡ suc k = ground arith in (k, low, ltb→lt _ _ within, at, number)
          | inr beyond ↦ let nothing = v.outside k (ground arith) high in cc
        ]

    module _ (some_there : 0 < length rs) (numbers : f + length rs < 4294967294) where
      abbrev found : Found
      found = scan_from flash l.total_slots 0 l.area nothing_found

      found_used : found.used ≡ length rs
      found_used = omega (
        arith,
        scan_counts flash l.total_slots 0 l.area nothing_found (omega (arith, v.word)),
        all_counted,
      )

      -- The slot of a position in the window bounds what was found.
      found_covers :
          (k : ℕ)
          → f ≤ k
          → k < f + length rs
          → (suc k ≤ found.newest_seq) × (found.oldest_seq ≤ suc k)
      found_covers k low high =
          let (r, e) = Holds-at f k rs v.holds low high in
          let below : k % l.total_slots < l.total_slots =
            mod-lt k (omega (arith, v.sector_some, v.sector_fits)) in
          let c =
            scan_covers flash l.total_slots 0 l.area nothing_found (k % l.total_slots)
              (slot_of flash (suc k) r) (omega (arith, v.word)) (omega arith) (omega arith) e in
          (c.0, c.1)

      found_newest :
          (found.newest_seq ≡ f + length rs)
          × (add32 found.newest_slot 1 % l.total_slots ≡ (f + length rs) % l.total_slots)
      unfolding add32
      found_newest =
          let c = found_covers (f + length rs - 1) (omega arith) (omega arith) in
          newest
            (scan_from_keeps (Newest l.total_slots l.area) l.total_slots l.area
              (λ i g h. note_valid-Newest i l.total_slots (valid_at flash i l.area) l.area g h refl)
              l.total_slots 0 nothing_found (omega arith) (inl refl))
            c.0
        where
          newest :
              Newest l.total_slots l.area found
              → suc (f + length rs - 1) ≤ found.newest_seq
              → (found.newest_seq ≡ f + length rs)
                × ((found.newest_slot + 1) % 4294967296 % l.total_slots
                    ≡ (f + length rs) % l.total_slots)
          newest (inl untouched) c = absurd (omega arith)
          newest (inr (below, t, e, same)) c =
              let (k, low, high, at, number) = valid_position found.newest_slot t below e in
              let last : k + 1 ≡ f + length rs = omega arith in
              let small : (found.newest_slot + 1) % 4294967296 ≡ k % l.total_slots + 1 =
                omega (arith, v.word) in
              (
                omega arith,
                ap (λ (x : ℕ). x % l.total_slots) small
                    ∙ mod-add-mod k l.total_slots 1
                    ∙ ap (λ (x : ℕ). x % l.total_slots) last,
              )

      found_tail : found.tail ≡ f % l.total_slots
      found_tail =
          oldest
            (scan_from_keeps (Oldest l.total_slots l.area) l.total_slots l.area
              (λ i g h. note_valid-Oldest i l.total_slots (valid_at flash i l.area) l.area g h refl)
              l.total_slots 0 nothing_found (omega arith) (inl refl))
            (found_covers f (omega arith) (omega arith)).1
        where
          oldest :
              Oldest l.total_slots l.area found
              → found.oldest_seq ≤ suc f
              → found.tail ≡ f % l.total_slots
          oldest (inl untouched) c = absurd (omega arith)
          oldest (inr (below, t, e, same)) c =
              let (k, low, high, at, number) = valid_position found.tail t below e in
              let first : k ≡ f = omega arith in sym at ∙ ap (λ (x : ℕ). x % l.total_slots) first

      found_number : add32 found.newest_seq 1 ≡ l.next_seq
      unfolding add32
      found_number = omega (arith, found_newest.0, v.seq)

      -- Whatever the fields in memory were, the scan finds those of the ring.
      scan-IsRing :
          (head tail used next : ℕ)
          → scan flash (record l {
            head_slot = head;
            tail_slot = tail;
            used_slots = used;
            next_seq = next;
            ready = false;
          })
            ≡ record l { ready = false }
      unfolding scan
      scan-IsRing head tail used next =
          let some_found : (found.used == 0) ≡ false = ground (arith, found_used) in
          let at_head = found_newest.1 ∙ sym v.head in
          let at_tail = found_tail ∙ sym v.tail in
          let count = found_used ∙ sym v.used in
          rw some_found (λ i. record l {
            head_slot = at_head i;
            tail_slot = at_tail i;
            used_slots = count i;
            next_seq = found_number i;
            ready = false;
          })

  -- The fields of a log in memory, with whatever a restart leaves in those that flash_log_init fills.
  abbrev pub restarted_log :
      FlashLog Area → (sector total per head tail used next : ℕ) → FlashLog Area
  restarted_log l sector total per head tail used next = record l {
    sector_size = sector;
    total_slots = total;
    slots_per_sector = per;
    head_slot = head;
    tail_slot = tail;
    used_slots = used;
    next_seq = next;
    ready = false;
  }

  geometry-IsRing :
      (l : FlashLog Area) (f room : ℕ) (rs : List (List ℕ)) (p : Partition)
      (sector total per head tail used next : ℕ)
      → IsRing flash l f room rs
      → 0 < length rs
      → f + length rs < 4294967294
      → p.page_size ≡ l.sector_size
      → p.size ≡ l.total_slots * 32
      → set_geometry flash p (restarted_log l sector total per head tail used next) ≡ (l, none)
  unfolding set_geometry
  geometry-IsRing l f room rs p sector total per head tail used next v some_there numbers page
        size =
      let slots : p.page_size / 32 ≡ l.slots_per_sector = omega (arith, v.sector_bytes) in
      let all : p.size / 32 ≡ l.total_slots = omega arith in
      let whole : l.total_slots - l.total_slots % l.slots_per_sector ≡ l.total_slots =
        omega (arith, v.whole) in
      let fits : ((l.slots_per_sector == 0) || ltb l.total_slots l.slots_per_sector) ≡ false =
        ground (arith, v.sector_some, v.sector_fits) in
      rw (slots, all, whole, fits, page)
        (ap (λ (x : FlashLog Area). (record x { ready = true }, none))
            (scan-IsRing l f room rs v some_there numbers head tail used next)
          ∙ ap (λ b. (record l { ready = b }, none)) (sym v.ready))

  -- flash_log_init, run again over the flash that a ring with a record or more has left, with a
  -- partition that opens as before: it returns 0 and gives every field of the ring its value back,
  -- whatever was in memory. The sequence numbers must not be exhausted.
  pub flash_log_init-IsRing :
      (l : FlashLog Area) (f room : ℕ) (rs : List (List ℕ)) (p : Partition)
      (sector total per head tail used next : ℕ)
      → IsRing flash l f room rs
      → 0 < length rs
      → f + length rs < 4294967294
      → 0 < l.payload_size
      → l.payload_size ≤ 24
      → p.opened ≡ none
      → p.device_ready ≡ true
      → p.page_info ≡ none
      → p.page_size ≡ l.sector_size
      → p.size ≡ l.total_slots * 32
      → flash_log_init flash p (restarted_log l sector total per head tail used next) ≡ (l, none)
  unfolding flash_log_init open_partition open_device
  flash_log_init-IsRing l f room rs p sector total per head tail used next v some_there numbers low
        high op dev info page size =
      let fits : ((l.payload_size == 0) || ltb 24 l.payload_size) ≡ false = ground arith in
      rw (fits, op, dev, info)
        (geometry-IsRing l f room rs p sector total per head tail used next v some_there numbers
          page size)
