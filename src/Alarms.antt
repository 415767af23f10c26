-- ===== src/Alarms.antt =====
-- src/app/app_alarms.c: the threshold and alarm policy.
--
-- A pointer that the code tests for NULL is an Option. The event array and its counter are one
-- buffer: the events counted so far, and whether both pointers are there to be written through.
use nrf54l15_tag.Common.{
  ℕ, ◌+◌, ◌/◌, ℤ, pos, Bool, true, false, not, ◌&&◌, List, [], ◌∷◌, ◌++◌, Option, none, some, ltb,
  leb, ◌==◌, ltb_ℤ, if◌then◌else◌, length, u16, to_int16, min,
}
use nrf54l15_tag.Common.Mask
use nrf54l15_tag.SmartTag.{
  SensorData, TagConfig, EventType, temp_high, temp_low, humidity_high, battery_low, sensor_fault,
  gas_low, Severity, alarm, warning, alarm_temp_high, alarm_temp_low, alarm_humidity_high,
  alarm_sensor_fault, alarm_battery_low, alarm_gas_low, valid_temp_rh, valid_battery, valid_gas,
  battery_hysteresis_mv,
}
pub mod Stages
pub mod Policy
pub mod Edges
pub mod Events
pub mod Repeat

abbrev pub alarm_max_events : ℕ
alarm_max_events = 8

-- struct app_alarm_event
pub record AlarmEvent : Type 0 where
  pub type : EventType
  pub severity : Severity
  pub value : ℤ

-- `events` and `n_events`: `writable` says that neither pointer is NULL.
pub record EventBuffer : Type 0 where
  pub writable : Bool
  pub items : List AlarmEvent

-- The flags and the events while one sample is evaluated.
pub record Eval : Type 0 where
  pub flags : ℕ
  pub out : EventBuffer

unfoldable pub emit : EventBuffer → EventType → Severity → ℤ → EventBuffer
emit b t s v =
    if b.writable && ltb (length b.items) alarm_max_events
    then record b { items = b.items ++ (record { type = t; severity = s; value = v }) ∷ [] }
    else b

-- `if ((flags & BIT(k)) == 0U) { flags |= BIT(k); emit(...); }`
unfoldable pub raise : ℕ → EventType → Severity → ℤ → Eval → Eval
raise k t s v e =
    if Mask.test k e.flags
    then e
    else record { flags = Mask.insert k e.flags; out = emit e.out t s v }

-- `flags &= ~BIT(k)`
unfoldable pub lower : ℕ → Eval → Eval
lower k e = record e { flags = Mask.remove k e.flags }

unfoldable pub eval_temperature : SensorData → TagConfig → Eval → Eval
eval_temperature d c e =
    if ltb_ℤ c.temp_high_c_x100 d.temperature_c_x100
    then raise alarm_temp_high temp_high alarm d.temperature_c_x100 e
    else if ltb_ℤ d.temperature_c_x100 c.temp_low_c_x100
    then raise alarm_temp_low temp_low alarm d.temperature_c_x100 e
    else lower alarm_temp_high (lower alarm_temp_low e)

unfoldable pub eval_humidity : SensorData → TagConfig → Eval → Eval
eval_humidity d c e =
    if ltb c.humidity_high_x100 d.humidity_x100
    then raise alarm_humidity_high humidity_high warning (to_int16 d.humidity_x100) e
    else lower alarm_humidity_high e

-- The block behind SENSOR_VALID_TEMP_RH.
unfoldable pub eval_temp_rh : SensorData → TagConfig → Eval → Eval
eval_temp_rh d c e =
    if Mask.test valid_temp_rh d.valid then eval_humidity d c (eval_temperature d c e) else e

unfoldable pub eval_gas : SensorData → TagConfig → Eval → Eval
eval_gas d c e =
    if Mask.test valid_gas d.valid && not (c.gas_low_threshold_ohm == 0)
    then (if ltb d.gas_resistance_ohm c.gas_low_threshold_ohm
        then raise alarm_gas_low gas_low warning
            (to_int16 (min (d.gas_resistance_ohm / 1000) 32767)) e
        else lower alarm_gas_low e)
    else e

unfoldable pub eval_battery : SensorData → TagConfig → Eval → Eval
eval_battery d c e =
    if Mask.test valid_battery d.valid
    then (if ltb d.battery_mv c.battery_low_mv
        then raise alarm_battery_low battery_low warning (to_int16 d.battery_mv) e
        else if leb (u16 (c.battery_low_mv + battery_hysteresis_mv)) d.battery_mv
        then lower alarm_battery_low e
        else e)
    else e

-- `(valid & expected_valid) != expected_valid`, on bytes.
unfoldable pub misses : ℕ → ℕ → Bool
misses valid expected_valid = not (Mask.and_word 8 valid expected_valid == expected_valid)

unfoldable pub eval_fault : SensorData → ℕ → Eval → Eval
eval_fault d expected_valid e =
    if misses d.valid expected_valid
    then raise alarm_sensor_fault sensor_fault warning (to_int16 d.valid) e
    else lower alarm_sensor_fault e

-- The body, once no pointer is NULL.
unfoldable pub eval : SensorData → TagConfig → ℕ → Eval → Eval
eval d c expected_valid e =
    eval_fault d expected_valid (eval_battery d c (eval_gas d c (eval_temp_rh d c e)))

-- app_alarms_eval. The result is what stands behind `alarm_flags` and the event pointers after it.
unfoldable pub app_alarms_eval :
    Option SensorData → Option TagConfig → ℕ → Option ℕ → EventBuffer → Option ℕ × EventBuffer
app_alarms_eval none c x f b = (f, b)
app_alarms_eval (some d) none x f b = (f, b)
app_alarms_eval (some d) (some c) x none b = (none, b)
app_alarms_eval (some d) (some c) x (some flags) b =
    let done = eval d c x (record { flags = flags; out = record b { items = [] } }) in
    (some done.flags, done.out)
