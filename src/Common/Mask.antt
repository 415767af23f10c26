-- ===== src/Common/Mask.antt =====
-- Bit masks: a mask is the unsigned number itself. `test k m`, `insert k m` and `remove k m` are
-- `(m & BIT(k)) != 0`, `m | BIT(k)` and `m & ~BIT(k)`, by recursion on the binary digits.
use Prim.Native.Nat.{ℕ, zero, suc, ◌+◌, ◌*◌, ◌/◌, ◌%◌, ◌^◌, ◌<◌}
use mathlib.Core.Path.{◌≡◌, refl, sym, ap, ◌∙◌}
use mathlib.Core.Logic.{◌≢◌}
use mathlib.Core.Bool.{Bool, true, false, ◌||◌}
use native.Mathlib.Decide.{ℕ_discrete}
use native.Mathlib.Nat.{pow-succ'}
use native.Mathlib.Omega.{arith}
use nrf54l15_tag.Common.Tests.{◌==◌}

unfoldable pub test : ℕ → ℕ → Bool
test zero m = m % 2 == 1
test (suc k) m = test k (m / 2)

unfoldable pub insert : ℕ → ℕ → ℕ
insert zero m = m / 2 * 2 + 1
insert (suc k) m = insert k (m / 2) * 2 + m % 2

unfoldable pub remove : ℕ → ℕ → ℕ
remove zero m = m / 2 * 2
remove (suc k) m = remove k (m / 2) * 2 + m % 2

-- `a & b` on words of the given width.
unfoldable pub and_word : ℕ → ℕ → ℕ → ℕ
and_word zero a b = 0
and_word (suc w) a b = and_word w (a / 2) (b / 2) * 2 + a % 2 * (b % 2)

half : (x r : ℕ) → r < 2 → (x * 2 + r) / 2 ≡ x
half x r h = omega arith

low : (m : ℕ) → m % 2 < 2
low m = omega arith

pub test-zero : (k : ℕ) → test k 0 ≡ false
unfolding test
test-zero zero = refl
test-zero (suc k) = test-zero k

pub test-insert_self : (k m : ℕ) → test k (insert k m) ≡ true
unfolding test insert
test-insert_self zero m = ground arith
test-insert_self (suc k) m =
    ap (test k) (half (insert k (m / 2)) (m % 2) (low m)) ∙ test-insert_self k (m / 2)

pub test-insert_ne : (j k m : ℕ) → j ≢ k → test j (insert k m) ≡ test j m
unfolding test insert
test-insert_ne zero zero m h = absurd (h refl)
test-insert_ne zero (suc k) m h = ground arith
test-insert_ne (suc j) zero m h = ap (test j) (omega arith)
test-insert_ne (suc j) (suc k) m h =
    ap (test j) (half (insert k (m / 2)) (m % 2) (low m))
    ∙ test-insert_ne j k (m / 2) (λ e. h (ap suc e))

pub test-remove_self : (k m : ℕ) → test k (remove k m) ≡ false
unfolding test remove
test-remove_self zero m = ground arith
test-remove_self (suc k) m =
    ap (test k) (half (remove k (m / 2)) (m % 2) (low m)) ∙ test-remove_self k (m / 2)

pub test-remove_ne : (j k m : ℕ) → j ≢ k → test j (remove k m) ≡ test j m
unfolding test remove
test-remove_ne zero zero m h = absurd (h refl)
test-remove_ne zero (suc k) m h = ground arith
test-remove_ne (suc j) zero m h = ap (test j) (omega arith)
test-remove_ne (suc j) (suc k) m h =
    ap (test j) (half (remove k (m / 2)) (m % 2) (low m))
    ∙ test-remove_ne j k (m / 2) (λ e. h (ap suc e))

==_self : (k : ℕ) → (k == k) ≡ true
==_self k = ground arith

==_ne : (j k : ℕ) → j ≢ k → (j == k) ≡ false
==_ne j k h = ground arith

or_left : (a b : Bool) → a ≡ true → (a || b) ≡ true
or_left a b h = ground arith

or_right : (a b : Bool) → a ≡ false → (a || b) ≡ b
or_right a b h = ground arith

pub test-insert : (j k m : ℕ) → test j (insert k m) ≡ ((j == k) || test j m)
test-insert j k m = elim (ℕ_discrete j k) [
  | yes same ↦ rw same (test-insert_self k m ∙ sym (or_left _ _ (==_self k)))
  | no other ↦ test-insert_ne j k m other ∙ sym (or_right _ _ (==_ne j k other))
]

-- A mask that has no bit outside another is the conjunction of the two.
pub and_word_of_subset :
    (w a b : ℕ) → b < 2 ^ w → ((k : ℕ) → test k b ≡ true → test k a ≡ true) → and_word w a b ≡ b
unfolding and_word test
and_word_of_subset zero a b h sub = omega arith
and_word_of_subset (suc w) a b h sub =
    let rest =
      and_word_of_subset w (a / 2) (b / 2) (omega (arith, pow-succ' 2 w)) (λ k e. sub (suc k) e) in
    ground (arith, rest, sub 0)

pub insert-lt : (j w m : ℕ) → j < w → m < 2 ^ w → insert j m < 2 ^ w
unfolding insert
insert-lt zero zero m h k = absurd (omega arith)
insert-lt zero (suc w) m h k = omega (arith, pow-succ' 2 w)
insert-lt (suc j) zero m h k = absurd (omega arith)
insert-lt (suc j) (suc w) m h k =
    omega (arith, pow-succ' 2 w, insert-lt j w (m / 2) (omega arith) (omega (arith, pow-succ' 2 w)))
