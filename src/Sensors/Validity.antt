-- ===== src/Sensors/Validity.antt =====
-- What the samples of src/sensors/ say of the devices.
use native.Mathlib.Nat.{mul-le-mul}
use nrf54l15_tag.Common.{
  ℕ, ◌+◌, ◌*◌, ◌≤◌, ◌<◌, ◌≡◌, ℤ, Bool, true, false, ◌&&◌, ◌||◌, Bool-cases, inl, inr, ltb, ltb→lt,
  ◌==◌, min, u32, nat_abs, refl, ◌∙◌, ap, arith, Option, none, some,
}
use nrf54l15_tag.Common.Mask
use nrf54l15_tag.SmartTag.{SensorData}
use nrf54l15_tag.Sensors.Root.{isqrt32, isqrt32_lem}
use nrf54l15_tag.Sensors.Board.{
  Axes, EnvDevice, BoardInit, device_ready, apply_accel, put_climate, put_temperature, put_humidity,
  put_pressure, put_gas,
}
use nrf54l15_tag.Sensors.Manager.{put_battery}

isqrt32_byte : (n s : ℕ) → s * s ≤ n → n < 4294967296 → s ≤ 65535
isqrt32_byte n s h k = elim (Bool-cases (ltb s 65536)) [
  | inl low ↦ omega (arith, ltb→lt _ _ low)
  | inr high ↦ let le : 65536 ≤ s = ground arith in absurd (omega (arith, mul-le-mul le le))
]

-- The sum of the squares of the axes.
abbrev pub square_sum : Axes → ℕ
square_sum a = nat_abs a.x * nat_abs a.x + nat_abs a.y * nat_abs a.y + nat_abs a.z * nat_abs a.z

-- The magnitude of a sample is the length of its acceleration, rounded down, if the sum of the squares
-- fits an int32_t.
pub apply_accel_lem :
    (a : Axes) (d : SensorData)
    → square_sum a < 2147483648
    → let m = (apply_accel a d).magnitude_mg in
      (m * m ≤ square_sum a) × (square_sum a < (m + 1) * (m + 1))
unfolding apply_accel
apply_accel_lem a d h =
    let same : u32 (square_sum a) ≡ square_sum a = omega arith in
    let (low, high) = isqrt32_lem (square_sum a) (omega arith) in
    let byte = isqrt32_byte (square_sum a) (isqrt32 (square_sum a)) low (omega arith) in
    let whole : min (isqrt32 (square_sum a)) 65535 ≡ isqrt32 (square_sum a) = omega arith in
    rw (same, whole) (low, high)

abbrev pub is_some : {A : Type 0} → Option A → Bool
is_some none = false
is_some (some x) = true

pub device_ready_bit :
    (k j : ℕ) (r : Bool) (i : BoardInit)
    → Mask.test k (device_ready r (some j) i).0.expected_valid
      ≡ ((r && (k == j)) || Mask.test k i.expected_valid)
unfolding device_ready
device_ready_bit k j true i = Mask.test-insert k j i.expected_valid
device_ready_bit k j false i = refl

pub put_pressure_bit :
    (k : ℕ) (p : Option ℤ) (d : SensorData)
    → Mask.test k (put_pressure p d).valid ≡ ((is_some p && (k == 1)) || Mask.test k d.valid)
unfolding put_pressure
put_pressure_bit k none d = refl
put_pressure_bit k (some p) d = Mask.test-insert k 1 d.valid

pub put_gas_bit :
    (k : ℕ) (g : Option ℕ) (d : SensorData)
    → Mask.test k (put_gas g d).valid ≡ ((is_some g && (k == 4)) || Mask.test k d.valid)
unfolding put_gas
put_gas_bit k none d = refl
put_gas_bit k (some g) d = Mask.test-insert k 4 d.valid

put_temperature_valid : (t : Option ℤ) (d : SensorData) → (put_temperature t d).valid ≡ d.valid
unfolding put_temperature
put_temperature_valid none d = refl
put_temperature_valid (some t) d = refl

put_humidity_valid : (h : Option ℕ) (d : SensorData) → (put_humidity h d).valid ≡ d.valid
unfolding put_humidity
put_humidity_valid none d = refl
put_humidity_valid (some h) d = refl

pub put_climate_bit :
    (k : ℕ) (env : EnvDevice) (d : SensorData)
    → Mask.test k (put_climate env d).valid ≡ ((k == 0) || Mask.test k d.valid)
unfolding put_climate
put_climate_bit k env d =
    Mask.test-insert k 0 (put_humidity env.humidity (put_temperature env.temperature d)).valid
    ∙ ap (λ (m : ℕ). (k == 0) || Mask.test k m)
        (put_humidity_valid env.humidity (put_temperature env.temperature d)
          ∙ put_temperature_valid env.temperature d)

pub put_battery_bit :
    (k : ℕ) (b : Option (ℕ × ℕ)) (d : SensorData)
    → Mask.test k (put_battery b d).valid ≡ ((is_some b && (k == 3)) || Mask.test k d.valid)
unfolding put_battery
put_battery_bit k none d = refl
put_battery_bit k (some (mv, percent)) d = Mask.test-insert k 3 d.valid
