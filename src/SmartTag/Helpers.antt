-- ===== src/SmartTag/Helpers.antt =====
-- src/app/smart_tag.h: the inline helpers.
use nrf54l15_tag.Common.{
  ℕ, ◌-◌, ◌*◌, ◌/◌, ◌%◌, ℤ, pos, Bool, ◌||◌, leb_ℤ, pos_part, ltb, ◌==◌, if◌then◌else◌, add32,
  sub32, mul32,
}
use nrf54l15_tag.Common.Mask
use nrf54l15_tag.SmartTag.Types.{SensorData, SensorLogRecord}
use nrf54l15_tag.SmartTag.Constants.{
  battery_full_mv, battery_empty_mv, flag_moving, flag_alarm, gas_alarm_percent,
}

-- smart_tag_battery_percent. Between the two guards the argument is positive.
unfoldable pub battery_percent : ℤ → ℕ
battery_percent millivolts =
    if leb_ℤ (pos battery_full_mv) millivolts
    then 100
    else if leb_ℤ millivolts (pos battery_empty_mv)
    then 0
    else (pos_part millivolts - battery_empty_mv) * 100 / (battery_full_mv - battery_empty_mv) % 256

-- smart_tag_fill_log_record
unfoldable pub fill_log_record : SensorData → Bool → SensorLogRecord
fill_log_record d alarm =
    let flags = if d.motion then Mask.insert flag_moving d.valid else d.valid in
    record {
      timestamp = d.timestamp;
      temperature = d.temperature_c_x100;
      humidity = d.humidity_x100;
      pressure = d.pressure_pa;
      gas_resistance_ohm = d.gas_resistance_ohm;
      flags = if alarm then Mask.insert flag_alarm flags else flags;
    }

-- smart_tag_gas_alarm_floor
unfoldable pub gas_alarm_floor : ℕ → ℕ
gas_alarm_floor baseline_ohm = mul32 baseline_ohm gas_alarm_percent / 100

-- smart_tag_boot_epoch_utc
unfoldable pub boot_epoch_utc : ℕ → ℕ → ℕ
boot_epoch_utc utc_now uptime_s =
    if (utc_now == 0) || ltb utc_now uptime_s then 0 else sub32 utc_now uptime_s

-- smart_tag_utc_from_uptime
unfoldable pub utc_from_uptime : ℕ → ℕ → ℕ
utc_from_uptime epoch uptime_s = if epoch == 0 then 0 else add32 epoch uptime_s
