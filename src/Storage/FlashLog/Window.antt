-- ===== src/Storage/FlashLog/Window.antt =====
-- Regions of a ring of slots, by their positions on an endless tape that is wound round it: position
-- k is slot k % total.
use native.Mathlib.Nat.{mod-eq_of_lt, mod-eq-sub-mod, mod-lt, mod-add-mod}
use nrf54l15_tag.Common.{
  drop, ℕ, zero, suc, ◌+◌, ◌-◌, ◌%◌, ◌≤◌, ◌<◌, ◌≡◌, ◌≢◌, inl, inr, Bool-cases, ltb, ltb→lt, ◌==◌,
  refl, sym, ◌∙◌, arith, length, List, [], ◌∷◌, ◌++◌, none, some,
}
use nrf54l15_tag.Storage.FlashLog.{
  Flash, Slot, erased_slot, record_magic, valid_at, one_if_some, slot_valid, checked,
}

-- Fewer than a whole turn leads to another slot.
pub turn_ne : (total k d : ℕ) → 0 < total → 0 < d → d < total → (k + d) % total ≢ k % total
turn_ne total k d t p h =
    let r = k % total in
    let below : r < total = mod-lt k t in
    let wound : (k + d) % total ≡ (r + d) % total = sym (mod-add-mod k total d) in
    elim (Bool-cases (ltb (r + d) total)) [
      | inl short ↦ omega (arith, wound, mod-eq_of_lt {n = r + d} {m = total} (ltb→lt _ _ short))
      | inr long ↦
          let over : total ≤ r + d = ground arith in
          omega (
            arith,
            wound,
            mod-eq-sub-mod {n = r + d} {m = total} over,
            mod-eq_of_lt {n = r + d - total} {m = total} (omega arith),
          )
    ]

module _ (flash : Flash) where
  open flash use {Area, read, crc16}

  -- The slot that holds record r under the sequence number q.
  abbrev pub slot_of : ℕ → List ℕ → Slot
  slot_of q r = record { magic = record_magic; crc = crc16 q r; seq = q; payload = r }

  -- The records rs stand from position p on, numbered by their positions from 1.
  abbrev pub Holds : ℕ → Area → ℕ → List (List ℕ) → Type 0
  Holds total a p [] = Unit
  Holds total a p (r ∷ rs) =
      (valid_at flash (p % total) a ≡ some (slot_of (suc p) r)) × Holds total a (suc p) rs

  -- Two areas read the same on n positions from p on.
  abbrev pub Same : ℕ → Area → Area → ℕ → ℕ → Type 0
  Same total a b p n =
      (k : ℕ) → p ≤ k → k < p + n → valid_at flash (k % total) b ≡ valid_at flash (k % total) a

  pub Holds-frame :
      (total : ℕ) (a b : Area) (p : ℕ) (rs : List (List ℕ))
      → Same total a b p (length rs)
      → Holds total a p rs
      → Holds total b p rs
  Holds-frame total a b p [] same h = tt
  Holds-frame total a b p (r ∷ rs) same h = (
    same p (omega arith) (omega arith) ∙ h.0,
    Holds-frame total a b (suc p) rs (λ k low high. same k (omega arith) (omega arith)) h.1,
  )

  pub Holds-append :
      (total : ℕ) (a : Area) (p q : ℕ) (rs : List (List ℕ)) (r : List ℕ)
      → q ≡ p + length rs
      → Holds total a p rs
      → valid_at flash (q % total) a ≡ some (slot_of (suc q) r)
      → Holds total a p (rs ++ r ∷ [])
  Holds-append total a p q [] r e h new = let same : q ≡ p = omega arith in (rw (sym same) new, tt)
  Holds-append total a p q (x ∷ rs) r e h new =
      (h.0, Holds-append total a (suc p) q rs r (omega arith) h.1 new)

  pub Holds-drop :
      (total : ℕ) (a : Area) (p q n : ℕ) (rs : List (List ℕ))
      → n ≤ length rs
      → q ≡ p + n
      → Holds total a p rs
      → Holds total a q (drop n rs)
  Holds-drop total a p q zero rs le e h = let same : q ≡ p = omega arith in rw same h
  Holds-drop total a p q (suc n) [] le e h = tt
  Holds-drop total a p q (suc n) (r ∷ rs) le e h =
      Holds-drop total a (suc p) q n rs (omega arith) (omega arith) h.1

  -- What stands inside the window is valid.
  pub Holds-some :
      (total : ℕ) (a : Area) (p k : ℕ) (rs : List (List ℕ))
      → Holds total a p rs
      → p ≤ k
      → k < p + length rs
      → one_if_some (valid_at flash (k % total) a) ≡ 1
  Holds-some total a p k [] h low high = omega arith
  Holds-some total a p k (r ∷ rs) h low high = elim (Bool-cases (k == p)) [
    | inl first ↦ let same : k ≡ p = ground arith in rw (same, h.0) refl
    | inr later ↦ Holds-some total a (suc p) k rs h.1 (ground arith) (omega arith)
  ]

  erased-checked : checked flash (some erased_slot) ≡ none
  unfolding checked slot_valid
  erased-checked = refl

  pub erased-none : (i : ℕ) (a : Area) → read i a ≡ some erased_slot → valid_at flash i a ≡ none
  unfolding valid_at
  erased-none i a e = rw e erased-checked
