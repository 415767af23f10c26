-- ===== src/SmartTag/Bounds.antt =====
-- Ranges and round trips of the inline helpers of src/app/smart_tag.h.
use nrf54l15_tag.Common.{ℕ, ◌+◌, ◌*◌, ◌/◌, ◌≤◌, ◌<◌, ℤ, ◌≤ℤ◌, ◌≡◌, arith, add32, sub32, mul32}
use nrf54l15_tag.SmartTag.Helpers.{
  battery_percent, gas_alarm_floor, boot_epoch_utc, utc_from_uptime,
}

pub battery_percent_bound : (m : ℤ) → battery_percent m ≤ 100
unfolding battery_percent
battery_percent_bound m = ground arith

-- A higher voltage never reads as a lower charge, and every reading is a percentage.
pub battery_percent_mono :
    (a b : ℤ) → a ≤ℤ b → (battery_percent a ≤ battery_percent b) × (battery_percent b ≤ 100)
unfolding battery_percent
battery_percent_mono a b h = ground arith

-- Up to a baseline of 61,356,675 ohm the floor is 70 % of it, rounded down, and so not above it.
pub gas_alarm_floor-le :
    (b : ℕ) → b ≤ 61356675 → (gas_alarm_floor b ≡ b * 70 / 100) × (gas_alarm_floor b ≤ b)
unfolding gas_alarm_floor mul32
gas_alarm_floor-le b h = (omega arith, omega arith)

-- Every 32-bit baseline above 61,356,675 ohm gets a floor below its 70 %.
pub gas_alarm_floor_wraps :
    (b : ℕ) → 61356675 < b → b < 4294967296 → gas_alarm_floor b < b * 70 / 100
unfolding gas_alarm_floor mul32
gas_alarm_floor_wraps b h k = omega arith

-- When the clock is set to a time above the uptime, the stored epoch gives it back: at every later
-- uptime the conversion is the time that was sent plus the seconds since, while that is below
-- 2 ^ 32.
pub utc_from_uptime-boot_epoch_utc :
    (utc_now uptime later : ℕ)
    → uptime < utc_now
    → utc_now + later < 4294967296
    → utc_from_uptime (boot_epoch_utc utc_now uptime) (uptime + later) ≡ utc_now + later
unfolding utc_from_uptime boot_epoch_utc add32 sub32
utc_from_uptime-boot_epoch_utc u t d h k = ground arith
