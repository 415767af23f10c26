-- ===== src/Sensors/Root.antt =====
-- isqrt32 of src/sensors/sensor_manager.c: the integer square root, a binary digit at a time.
use native.Mathlib.Nat.{mul-le-mul, le_refl, div-add-mod', mod-lt, pow-succ'}
use nrf54l15_tag.Common.{
  ℕ, zero, suc, ◌+◌, ◌*◌, ◌^◌, ◌/◌, ◌%◌, ◌≤◌, ◌<◌, ◌≡◌, Bool-cases, inl, inr, ltb, ltb→lt, refl,
  ◌∙◌, ap, arith, u32, sub32, if◌then◌else◌,
}

-- The local variables.
pub record Digits : Type 0 where
  pub rest : ℕ
  pub root : ℕ
  pub value : ℕ

-- The body of the loop. `(rest << 2) | (value >> 30)` and `root | 1U` set bits that are clear, so they
-- are sums.
unfoldable pub isqrt_step : Digits → Digits
isqrt_step s =
    let root = u32 (s.root * 2) in
    let rest = u32 (s.rest * 4) + s.value / 1073741824 in
    record {
      rest = if ltb root rest then sub32 rest (root + 1) else rest;
      root = if ltb root rest then u32 (root + 2) else root;
      value = u32 (s.value * 4);
    }

unfoldable pub isqrt_loop : ℕ → Digits → Digits
isqrt_loop zero s = s
isqrt_loop (suc n) s = isqrt_loop n (isqrt_step s)

-- isqrt32
unfoldable pub isqrt32 : ℕ → ℕ
isqrt32 value = (isqrt_loop 16 (record { rest = 0; root = 0; value = value })).root / 2

-- The root so far, r, of the digits read so far, which stand for m.
record IsRoot (m r : ℕ) (s : Digits) : Type 0 where
  root : s.root ≡ 2 * r
  rest : r * r + s.rest ≡ m
  low : s.rest ≤ 2 * r

root_low : (m r : ℕ) → r * r ≤ m → m < 1073741824 → r < 32768
root_low m r h k = elim (Bool-cases (ltb r 32768)) [
  | inl low ↦ ltb→lt _ _ low
  | inr high ↦
      let le : 32768 ≤ r = ground arith in let big = mul-le-mul le le in absurd (omega (arith, big))
]

step_lem :
    (m r d x : ℕ) (s : Digits)
    → IsRoot m r s
    → m < 1073741824
    → d < 4
    → x < 1073741824
    → s.value ≡ d * 1073741824 + x
    → (t : ℕ) × IsRoot (m * 4 + d) t (isqrt_step s) × ((isqrt_step s).value ≡ x * 4)
unfolding isqrt_step sub32
step_lem m r d x s v small digit tail e =
    let low = root_low m r (omega (arith, v.rest)) small in
    let root2 : u32 (s.root * 2) ≡ 4 * r = omega (arith, v.root) in
    let top : s.value / 1073741824 ≡ d = omega arith in
    let rest2 : u32 (s.rest * 4) + s.value / 1073741824 ≡ s.rest * 4 + d = omega (arith, v.low) in
    let rest_of : s.value * 4 % 4294967296 ≡ x * 4 = omega arith in
    elim (Bool-cases (ltb (u32 (s.root * 2)) (u32 (s.rest * 4) + s.value / 1073741824))) [
      | inl one ↦
          let more : 4 * r < s.rest * 4 + d = omega (arith, ltb→lt _ _ one, root2, rest2) in
          rw one (
            2 * r + 1,
            record {
              root = omega (arith, root2, low);
              rest = omega (arith, root2, rest2, low, more, v.rest, v.low);
              low = omega (arith, root2, rest2, low, more, v.low);
            },
            rest_of,
          )
      | inr zero_digit ↦
          let least : u32 (s.rest * 4) + s.value / 1073741824 ≤ u32 (s.root * 2) = ground arith in
          rw zero_digit (
            2 * r,
            record {
              root = omega (arith, root2);
              rest = omega (arith, rest2, v.rest);
              low = omega (arith, rest2, root2, least);
            },
            rest_of,
          )
    ]

-- The next digit d of w, and the digits x behind it, where e = 4 ^ n and e * q = 2 ^ 30.
module _ (e q m w : ℕ) (quarter : e * q ≡ 1073741824) (below : w < 4 * e) where
  abbrev d : ℕ
  d = w / e

  abbrev x : ℕ
  x = w % e

  some_digits : 0 < e
  some_digits = elim (Bool-cases (ltb 0 e)) [
    | inl h ↦ ltb→lt _ _ h
    | inr h ↦ let z : e ≡ 0 = ground arith in absurd (omega (arith, ap (λ (k : ℕ). k * q) z))
  ]

  split : d * e + x ≡ w
  split = div-add-mod' w e

  digit : d < 4
  digit = elim (Bool-cases (ltb d 4)) [
    | inl h ↦ ltb→lt _ _ h
    | inr h ↦
        let large : 4 ≤ d = ground arith in
        absurd (omega (arith, split, mul-le-mul large (le_refl e)))
  ]

  behind : x < e
  behind = mod-lt w some_digits

  tail : x * q < 1073741824
  tail =
      let le : (x + 1) * q ≤ e * q = mul-le-mul behind' (le_refl q) in
      let some_q : 0 < q = positive in omega (arith, le, quarter, some_q)
    where
      behind' : x + 1 ≤ e
      behind' = omega (arith, behind)

      positive : 0 < q
      positive = elim (Bool-cases (ltb 0 q)) [
        | inl h ↦ ltb→lt _ _ h
        | inr h ↦
            let z : q ≡ 0 = ground arith in absurd (omega (arith, quarter, ap (λ (k : ℕ). e * k) z))
      ]

  value_split : w * q ≡ d * 1073741824 + x * q
  value_split = omega (arith, ap (λ (k : ℕ). k * q) split, ap (λ (k : ℕ). d * k) quarter)

  few : m * (4 * e) + w < 4294967296 → m < 1073741824
  few h = let le : m * 1 ≤ m * e = mul-le-mul (le_refl m) some_digits in omega (arith, le, h)

  read_on : m * (4 * e) + w ≡ (m * 4 + d) * e + x
  read_on = omega (arith, split)

-- With n digits still to be read, which stand for w at the top of the word; q is 4 ^ (16 - n).
loop_lem :
    (n q m r w : ℕ) (s : Digits)
    → 4 ^ n * q ≡ 4294967296
    → IsRoot m r s
    → w < 4 ^ n
    → s.value ≡ w * q
    → m * 4 ^ n + w < 4294967296
    → (t : ℕ) × IsRoot (m * 4 ^ n + w) t (isqrt_loop n s)
unfolding isqrt_loop
loop_lem zero q m r w s word v below value bound =
    let same : m * 4 ^ 0 + w ≡ m = omega arith in rw same (r, v)
loop_lem (suc n) q m r w s word v below value bound =
    let e = 4 ^ n in
    let four : 4 ^ suc n ≡ 4 * e = pow-succ' 4 n in
    let quarter : e * q ≡ 1073741824 = omega (arith, ap (λ (k : ℕ). k * q) four) in
    let less : w < 4 * e = omega (arith, four) in
    let whole : m * (4 * e) + w < 4294967296 = omega (arith, ap (λ (k : ℕ). m * k) four) in
    let next = read_on e q m w quarter less in
    let (t, root, left) =
      step_lem m r (w / e) (w % e * q) s v (few e q m w quarter less whole)
        (digit e q m w quarter less) (tail e q m w quarter less)
        (value ∙ value_split e q m w quarter less) in
    let (u, done) =
      loop_lem n (q * 4) (m * 4 + w / e) t (w % e) (isqrt_step s) (omega (arith, quarter)) root
        (behind e q m w quarter less) (omega (arith, left)) (omega (arith, next)) in
    let all : m * 4 ^ suc n + w ≡ (m * 4 + w / e) * e + w % e =
      ap (λ (k : ℕ). m * k + w) four ∙ next in
    rw all (u, done)

-- The result is the square root, rounded down, for every 32-bit value.
pub isqrt32_lem :
    (n : ℕ) → n < 4294967296 → (isqrt32 n * isqrt32 n ≤ n) × (n < (isqrt32 n + 1) * (isqrt32 n + 1))
unfolding isqrt32
isqrt32_lem n h =
    let start : Digits = record { rest = 0; root = 0; value = n } in
    let begun : IsRoot 0 0 start = record { root = refl; rest = refl; low = omega arith } in
    let (t, v) = loop_lem 16 1 0 0 n start refl begun h (omega arith) (omega arith) in
    let half : (isqrt_loop 16 start).root / 2 ≡ t = omega (arith, v.root) in
    rw half (omega (arith, v.rest), omega (arith, v.rest, v.low))
