-- ===== src/Common/Word.antt =====
-- Unsigned machine words as native numbers: every operation that can leave its range wraps.
use Prim.Native.Nat.{ℕ, ◌+◌, ◌-◌, ◌*◌, ◌%◌, ◌≤◌, ◌<◌}
use mathlib.Core.Path.{◌≡◌}
use native.Mathlib.Omega.{arith}

abbrev pub u16 : ℕ → ℕ
u16 n = n % 65536

abbrev pub u32 : ℕ → ℕ
u32 n = n % 4294967296

-- uint32_t a + b, a - b and a * b. `-` on ℕ stops at 0, so the modulus is added first.
unfoldable pub add32 : ℕ → ℕ → ℕ
add32 a b = u32 (a + b)

unfoldable pub sub32 : ℕ → ℕ → ℕ
sub32 a b = u32 (a + 4294967296 - b)

unfoldable pub mul32 : ℕ → ℕ → ℕ
mul32 a b = u32 (a * b)

pub sub32-eq-sub : (a b : ℕ) → a < 4294967296 → b ≤ a → sub32 a b ≡ a - b
unfolding sub32
sub32-eq-sub a b h k = omega arith

pub sub32_self : (a : ℕ) → a < 4294967296 → sub32 a a ≡ 0
unfolding sub32
sub32_self a h = omega arith

pub sub32-add32 : (a b : ℕ) → a < 4294967296 → b < 4294967296 → sub32 (add32 a b) b ≡ a
unfolding sub32 add32
sub32-add32 a b h k = omega arith
