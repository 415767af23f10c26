-- ===== src/Alarms/Edges.antt =====
-- The events of src/app/app_alarms.c: one for each alarm bit that a sample sets anew.
use nrf54l15_tag.Common.{
  ℕ, ◌+◌, ◌/◌, ◌≤◌, ◌<◌, ◌≡◌, true, not, ◌&&◌, List, [], ◌∷◌, ◌++◌, arith, if◌then◌else◌, length,
  length-append, to_int16, min,
}
use mathlib.Core.List.{append-nil}
use nrf54l15_tag.Common.Mask
use nrf54l15_tag.SmartTag.{
  SensorData, TagConfig, EventType, temp_high, temp_low, humidity_high, battery_low, sensor_fault,
  gas_low, alarm, warning,
}
use nrf54l15_tag.Alarms.{
  AlarmEvent, Eval, emit, raise, lower, eval_temperature, eval_humidity, eval_gas, eval_battery,
  eval_fault,
}

-- The event of a bit that is clear before and set after.
unfoldable pub edge : ℕ → ℕ → ℕ → AlarmEvent → List AlarmEvent
edge k before after v = if Mask.test k after && not (Mask.test k before) then v ∷ [] else []

abbrev pub climate_event : SensorData → EventType → AlarmEvent
climate_event d t = record { type = t; severity = alarm; value = d.temperature_c_x100 }

abbrev pub humidity_event : SensorData → AlarmEvent
humidity_event d = record {
  type = humidity_high;
  severity = warning;
  value = to_int16 d.humidity_x100;
}

abbrev pub gas_event : SensorData → AlarmEvent
gas_event d = record {
  type = gas_low;
  severity = warning;
  value = to_int16 (min (d.gas_resistance_ohm / 1000) 32767);
}

abbrev pub battery_event : SensorData → AlarmEvent
battery_event d = record { type = battery_low; severity = warning; value = to_int16 d.battery_mv }

abbrev pub fault_event : SensorData → AlarmEvent
fault_event d = record { type = sensor_fault; severity = warning; value = to_int16 d.valid }

pub ruleset edge_laws = (
  arith, append-nil, length-append, Mask.test-insert_self, Mask.test-insert_ne,
  Mask.test-remove_self, Mask.test-remove_ne,
)

module _ (d : SensorData) (c : TagConfig) (e : Eval) (w : e.out.writable ≡ true) where
  pub temperature-items :
      length e.out.items < 8
      → let after = eval_temperature d c e in
        (after.out.writable ≡ true)
        × (after.out.items
            ≡ e.out.items
              ++ (edge 0 e.flags after.flags (climate_event d temp_high)
                  ++ edge 1 e.flags after.flags (climate_event d temp_low)))
        × (length after.out.items ≤ length e.out.items + 1)
  unfolding edge eval_temperature raise lower emit
  temperature-items h = (grind edge_laws, grind edge_laws, grind edge_laws)

  pub humidity-items :
      length e.out.items < 8
      → let after = eval_humidity d c e in
        (after.out.writable ≡ true)
        × (after.out.items ≡ e.out.items ++ edge 2 e.flags after.flags (humidity_event d))
        × (length after.out.items ≤ length e.out.items + 1)
  unfolding edge eval_humidity raise lower emit
  humidity-items h = (grind edge_laws, grind edge_laws, grind edge_laws)

  pub gas-items :
      length e.out.items < 8
      → let after = eval_gas d c e in
        (after.out.writable ≡ true)
        × (after.out.items ≡ e.out.items ++ edge 8 e.flags after.flags (gas_event d))
        × (length after.out.items ≤ length e.out.items + 1)
  unfolding edge eval_gas raise lower emit
  gas-items h = (grind edge_laws, grind edge_laws, grind edge_laws)

  pub battery-items :
      length e.out.items < 8
      → let after = eval_battery d c e in
        (after.out.writable ≡ true)
        × (after.out.items ≡ e.out.items ++ edge 7 e.flags after.flags (battery_event d))
        × (length after.out.items ≤ length e.out.items + 1)
  unfolding edge eval_battery raise lower emit
  battery-items h = (grind edge_laws, grind edge_laws, grind edge_laws)

  pub fault-items :
      (x : ℕ)
      → length e.out.items < 8
      → let after = eval_fault d x e in
        (after.out.items ≡ e.out.items ++ edge 6 e.flags after.flags (fault_event d))
        × (length after.out.items ≤ length e.out.items + 1)
  unfolding edge eval_fault raise lower emit
  fault-items x h = (grind edge_laws, grind edge_laws)
