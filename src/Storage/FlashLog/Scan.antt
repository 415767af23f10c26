-- ===== src/Storage/FlashLog/Scan.antt =====
-- What scan of src/storage/flash_manager.c recovers from the flash.
use nrf54l15_tag.Common.{
  ℕ, zero, suc, ◌+◌, ◌≤◌, ◌<◌, ◌≡◌, ◌⊎◌, inl, inr, refl, sym, false, Bool-cases, ltb, ◌==◌, Option,
  none, some, add32, arith,
}
use nrf54l15_tag.Storage.FlashLog.{
  Flash, Slot, FlashLog, Found, nothing_found, note_slot, note_valid, valid_at, scan_from, scan,
}

low_step :
    (i : ℕ) (o : Option Slot) (f : Found)
    → ((t : Slot) → o ≡ some t → t.seq < 4294967295)
    → f.newest_seq < 4294967295
    → (note_valid i o f).newest_seq < 4294967295
unfolding note_valid note_slot
low_step i none f bounded h = h
low_step i (some t) f bounded h = let b = bounded t refl in ground (arith, b)

-- One slot moves the bounds outwards only.
pub step_bounds :
    (i : ℕ) (o : Option Slot) (f : Found)
    → f.used < 4294967295
    → let g = note_valid i o f in
      (f.newest_seq ≤ g.newest_seq)
      × (g.oldest_seq ≤ f.oldest_seq)
      × (f.used ≤ g.used)
      × (g.used ≤ f.used + 1)
unfolding note_valid note_slot add32
step_bounds i none f h = (omega arith, omega arith, omega arith, omega arith)
step_bounds i (some t) f h = (ground arith, ground arith, ground arith, ground arith)

step_covers :
    (i : ℕ) (o : Option Slot) (s : Slot) (f : Found)
    → o ≡ some s
    → f.used < 4294967295
    → let g = note_valid i o f in (s.seq ≤ g.newest_seq) × (g.oldest_seq ≤ s.seq) × (0 < g.used)
unfolding note_valid note_slot add32
step_covers i none s f e h = cc
step_covers i (some t) s f e h = (ground arith, ground arith, ground arith)

module _ (flash : Flash) where
  open flash use {Area}

  -- The tail is untouched, or a valid slot has the oldest sequence number.
  abbrev Tail : Area → Found → Type 0
  Tail a f =
      (f.oldest_seq ≡ 4294967295)
      ⊎ (t : Slot) × (valid_at flash f.tail a ≡ some t) × (t.seq ≡ f.oldest_seq)

  note_valid-Tail :
      (i : ℕ) (o : Option Slot) (a : Area) (f : Found)
      → valid_at flash i a ≡ o
      → Tail a f
      → Tail a (note_valid i o f)
  unfolding note_valid note_slot
  note_valid-Tail i none a f e t = t
  note_valid-Tail i (some s) a f e t = elim (Bool-cases (ltb s.seq f.oldest_seq)) [
    | inl older ↦ rw older (inr (s, e, refl))
    | inr kept ↦ rw kept t
  ]

  scan_bounds :
      (n i : ℕ) (a : Area) (f : Found)
      → f.used + n < 4294967296
      → let g = scan_from flash n i a f in
        (f.newest_seq ≤ g.newest_seq) × (g.oldest_seq ≤ f.oldest_seq) × (f.used ≤ g.used)
  unfolding scan_from
  scan_bounds zero i a f h = (omega arith, omega arith, omega arith)
  scan_bounds (suc n) i a f h =
      let f' = note_valid i (valid_at flash i a) f in
      let (p, q, r, s) = step_bounds i (valid_at flash i a) f (omega arith) in
      let (p', q', r') = scan_bounds n (i + 1) a f' (omega arith) in
      (omega arith, omega arith, omega arith)

  pub scan_covers :
      (n i : ℕ) (a : Area) (f : Found) (k : ℕ) (s : Slot)
      → f.used + n < 4294967296
      → i ≤ k
      → k < i + n
      → valid_at flash k a ≡ some s
      → let g = scan_from flash n i a f in
        (s.seq ≤ g.newest_seq) × (g.oldest_seq ≤ s.seq) × (0 < g.used)
  unfolding scan_from
  scan_covers zero i a f k s h low high e = omega arith
  scan_covers (suc n) i a f k s h low high e =
      let f' = note_valid i (valid_at flash i a) f in
      let (b, c, d, m) = step_bounds i (valid_at flash i a) f (omega arith) in
      elim (Bool-cases (k == i)) [
        | inl here ↦
            let same : k ≡ i = ground arith in
            let at : valid_at flash i a ≡ some s = rw (sym same) e in
            let (p, q, r) = step_covers i (valid_at flash i a) s f at (omega arith) in
            let (p', q', r') = scan_bounds n (i + 1) a f' (omega arith) in
            (omega arith, omega arith, omega arith)
        | inr past ↦ scan_covers n (i + 1) a f' k s (omega arith) (ground arith) (omega arith) e
      ]

  scan_low :
      (n i : ℕ) (a : Area) (f : Found)
      → ((k : ℕ) (t : Slot) → valid_at flash k a ≡ some t → t.seq < 4294967295)
      → f.newest_seq < 4294967295
      → (scan_from flash n i a f).newest_seq < 4294967295
  unfolding scan_from
  scan_low zero i a f bounded h = h
  scan_low (suc n) i a f bounded h =
      scan_low n (i + 1) a (note_valid i (valid_at flash i a) f) bounded
        (low_step i (valid_at flash i a) f (bounded i) h)

  scan_from-Tail : (n i : ℕ) (a : Area) (f : Found) → Tail a f → Tail a (scan_from flash n i a f)
  unfolding scan_from
  scan_from-Tail zero i a f h = h
  scan_from-Tail (suc n) i a f h =
      scan_from-Tail n (i + 1) a (note_valid i (valid_at flash i a) f)
        (note_valid-Tail i (valid_at flash i a) a f refl h)

  oldest_found :
      (a : Area) (g : Found) (s : Slot)
      → Tail a g
      → g.oldest_seq ≤ s.seq
      → s.seq < 4294967295
      → (t : Slot) × (valid_at flash g.tail a ≡ some t) × (t.seq ≤ s.seq)
  oldest_found a g s (inl untouched) q b = ground arith
  oldest_found a g s (inr (u, at, same)) q b = (u, at, omega arith)

  -- After a restart, whatever was torn: for every valid record in the ring, the next sequence number
  -- is above its own, and the tail holds a valid record whose number is not above it; the valid
  -- records' numbers must be below 2 ^ 32 - 1 and the ring must have fewer than 2 ^ 32 slots.
  pub scan_recovers :
      (l : FlashLog Area) (k : ℕ) (s : Slot)
      → l.total_slots < 4294967296
      → ((j : ℕ) (t : Slot) → valid_at flash j l.area ≡ some t → t.seq < 4294967295)
      → k < l.total_slots
      → valid_at flash k l.area ≡ some s
      → (s.seq < (scan flash l).next_seq)
        × (t : Slot) × (valid_at flash (scan flash l).tail_slot l.area ≡ some t)
        × (t.seq ≤ s.seq)
  unfolding scan add32
  scan_recovers l k s word bounded inside e =
      let g = scan_from flash l.total_slots 0 l.area nothing_found in
      let (p, q, r) =
        scan_covers l.total_slots 0 l.area nothing_found k s (omega arith) (omega arith)
          (omega arith) e in
      let low = scan_low l.total_slots 0 l.area nothing_found bounded (omega arith) in
      let b = bounded k s e in
      let used : (g.used == 0) ≡ false = ground arith in
      let t = scan_from-Tail l.total_slots 0 l.area nothing_found (inl refl) in
      let (u, at, least) = oldest_found l.area g s t q b in rw used (omega arith, u, at, least)
