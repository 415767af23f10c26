-- ===== src/Storage/FlashLog/Ring/Turn.antt =====
-- A whole turn round a ring of slots.
use native.Mathlib.Nat.{mod-eq_of_lt, mod-lt, mod-add-mod, add-mod_right}
use nrf54l15_tag.Common.{
  ℕ, zero, suc, ◌+◌, ◌-◌, ◌%◌, ◌≤◌, ◌<◌, ◌≡◌, inl, inr, Bool-cases, ltb, refl, sym, ◌∙◌, ap, arith,
  Option, none, some, add32,
}
use nrf54l15_tag.Storage.FlashLog.{
  Flash, Slot, Found, note_slot, note_valid, valid_at, scan_from, count_valid, one_if_some,
}
use nrf54l15_tag.Storage.FlashLog.Scan.{step_bounds}

-- A position from f on that is wound round to slot i.
pub position : (total f i : ℕ) → i < total → (k : ℕ) × (f ≤ k) × (k < f + total) × (k % total ≡ i)
position total f i h =
    let r = f % total in
    let below : r < total = mod-lt f (omega arith) in
    elim (Bool-cases (ltb i r)) [
      | inr ahead ↦
          let back : r + (i - r) ≡ i = ground arith in
          (
            f + (i - r),
            omega arith,
            ground arith,
            sym (mod-add-mod f total (i - r)) ∙ ap (λ (x : ℕ). x % total) back ∙ mod-eq_of_lt h,
          )
      | inl behind ↦
          let back : r + (i + total - r) ≡ i + total = ground arith in
          (
            f + (i + total - r),
            omega arith,
            ground arith,
            sym (mod-add-mod f total (i + total - r))
                ∙ ap (λ (x : ℕ). x % total) back
                ∙ add-mod_right i total
                ∙ mod-eq_of_lt h,
          )
    ]

module _ (flash : Flash) where
  open flash use {Area}

  counts_one :
      (i : ℕ) (o : Option Slot) (f : Found)
      → f.used < 4294967295
      → (note_valid i o f).used ≡ f.used + one_if_some o
  unfolding note_valid note_slot add32
  counts_one i none f h = omega arith
  counts_one i (some s) f h = omega arith

  pub scan_counts :
      (m i : ℕ) (a : Area) (f : Found)
      → f.used + m < 4294967296
      → (scan_from flash m i a f).used ≡ f.used + count_valid flash m i a
  unfolding scan_from count_valid
  scan_counts zero i a f h = omega arith
  scan_counts (suc m) i a f h =
      let one = counts_one i (valid_at flash i a) f (omega arith) in
      let (p, q, r, s) = step_bounds i (valid_at flash i a) f (omega arith) in
      omega (arith, one, s, scan_counts m (i + 1) a (note_valid i (valid_at flash i a) f))

  module _ (a : Area) (total : ℕ) where
    abbrev one_at : ℕ → ℕ
    one_at p = one_if_some (valid_at flash (p % total) a)

    -- The valid slots at n positions from p on.
    pub around : ℕ → ℕ → ℕ
    around zero p = 0
    around (suc n) p = one_at p + around n (p + 1)

    pub around-add : (m n p : ℕ) → around (m + n) p ≡ around m p + around n (p + m)
    unfolding around
    around-add zero n p =
        let none_first : around (0 + n) p ≡ around n p = ap (λ (j : ℕ). around j p) (omega arith) in
        let start : around n (p + 0) ≡ around n p = ap (λ (j : ℕ). around n j) (omega arith) in
        omega (arith, none_first, start)
    around-add (suc m) n p =
        let more : suc m + n ≡ suc (m + n) = omega arith in
        let on : p + 1 + m ≡ p + suc m = omega arith in
        ap (λ (j : ℕ). around j p) more
        ∙ ap (λ (j : ℕ). one_at p + j)
            (around-add m n (p + 1) ∙ ap (λ (j : ℕ). around m (p + 1) + around n j) on)
        ∙ omega arith

    around_one : (p : ℕ) → around 1 p ≡ one_at p
    unfolding around
    around_one p = omega arith

    -- A whole turn counts each slot once, wherever it starts.
    pub around_turn : (p : ℕ) → around total p ≡ around total 0
    around_turn zero = refl
    around_turn (suc p) =
        let same : one_at (p + total) ≡ one_at p =
          ap (λ (j : ℕ). one_if_some (valid_at flash j a)) (add-mod_right p total) in
        let first : around (1 + total) p ≡ around 1 p + around total (p + 1) =
          around-add 1 total p in
        let last : around (total + 1) p ≡ around total p + around 1 (p + total) =
          around-add total 1 p in
        let swap : around (1 + total) p ≡ around (total + 1) p =
          ap (λ (j : ℕ). around j p) (omega arith) in
        let next : around total (suc p) ≡ around total (p + 1) =
          ap (λ (j : ℕ). around total j) (omega arith) in
        omega (
          arith,
          same,
          first,
          last,
          swap,
          next,
          around_turn p,
          around_one p,
          around_one (p + total),
        )

    pub around_all : (n p : ℕ) → ((k : ℕ) → p ≤ k → k < p + n → one_at k ≡ 1) → around n p ≡ n
    unfolding around
    around_all zero p h = refl
    around_all (suc n) p h = omega (
      arith,
      h p (omega arith) (omega arith),
      around_all n (p + 1) (λ k low high. h k (omega arith) (omega arith)),
    )

    pub around_none : (n p : ℕ) → ((k : ℕ) → p ≤ k → k < p + n → one_at k ≡ 0) → around n p ≡ 0
    unfolding around
    around_none zero p h = refl
    around_none (suc n) p h = omega (
      arith,
      h p (omega arith) (omega arith),
      around_none n (p + 1) (λ k low high. h k (omega arith) (omega arith)),
    )

    pub count_around : (n i : ℕ) → i + n ≤ total → count_valid flash n i a ≡ around n i
    unfolding count_valid around
    count_around zero i h = refl
    count_around (suc n) i h =
        let here : one_at i ≡ one_if_some (valid_at flash i a) =
          ap (λ (j : ℕ). one_if_some (valid_at flash j a)) (mod-eq_of_lt (omega arith)) in
        omega (arith, here, count_around n (i + 1) (omega arith))
