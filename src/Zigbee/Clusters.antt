-- ===== src/Zigbee/Clusters.antt =====
-- src/zigbee/zigbee_clusters.c: the attributes that a coordinator reads.
--
-- An attribute has the value that was last given to zb_zcl_set_attr_val, or that start-up stored; the
-- strings of the basic cluster, and what the code never sets, are left out. What the board is, is an
-- argument.
use nrf54l15_tag.Common.{
  ℕ, ◌+◌, ◌-◌, ◌*◌, ◌/◌, ◌%◌, ℤ, pos, negsuc, Bool, not, ◌&&◌, min, to_int16, if◌then◌else◌,
}
use nrf54l15_tag.Common.Mask
use nrf54l15_tag.SmartTag.{
  SensorData, TagStatus, TagConfig, TagStatistics, MotionState, Orientation, unknown, valid_temp_rh,
  valid_pressure, valid_battery, valid_gas,
}
use nrf54l15_tag.Zigbee.Reporting.{
  report_temperature, report_humidity, report_pressure, report_battery, report_tag_monitor,
}

-- struct power_config_attrs
pub record PowerConfigAttrs : Type 0 where
  pub voltage : ℕ
  pub size : ℕ
  pub quantity : ℕ
  pub rated_voltage : ℕ
  pub voltage_min_threshold : ℕ
  pub remaining : ℕ

-- struct measure_attrs
pub record MeasureAttrs : Type 0 where
  pub temp_value : ℤ
  pub temp_min : ℤ
  pub temp_max : ℤ
  pub humidity_value : ℕ
  pub humidity_min : ℕ
  pub humidity_max : ℕ
  pub pressure_value : ℤ
  pub pressure_min : ℤ
  pub pressure_max : ℤ

-- struct tag_monitor_attrs
pub record TagMonitorAttrs : Type 0 where
  pub motion_state : MotionState
  pub orientation : Orientation
  pub shock_count : ℕ
  pub maximum_shock : ℕ
  pub free_fall_count : ℕ
  pub tamper_state : ℕ
  pub movement_duration : ℕ
  pub last_movement_time : ℕ
  pub event_count : ℕ
  pub log_record_count : ℕ
  pub alarm_flags : ℕ
  pub operating_mode : ℕ
  pub sampling_interval : ℕ
  pub gas_resistance : ℕ
  pub boot_epoch : ℕ

-- struct device_ctx
pub record DeviceCtx : Type 0 where
  pub power : PowerConfigAttrs
  pub measure : MeasureAttrs
  pub tag : TagMonitorAttrs

-- zigbee_clusters_init
unfoldable pub zigbee_clusters_init : Bool → TagConfig → DeviceCtx → DeviceCtx
zigbee_clusters_init bme688 c x = record {
  power = record {
    voltage = 255;
    size = 10;
    quantity = 1;
    rated_voltage = 30;
    voltage_min_threshold = c.battery_low_mv / 100 % 256;
    remaining = 255;
  };
  measure = record x.measure {
    temp_min = negsuc 3999;
    temp_max = if bme688 then pos 8500 else pos 12500;
    humidity_min = 0;
    humidity_max = 10000;
    pressure_min = pos 26;
    pressure_max = pos 126;
  };
  tag = record x.tag {
    orientation = unknown;
    operating_mode = c.operating_mode;
    sampling_interval = c.sampling_interval_s;
  };
}

-- `(int16_t)(z / 1000)`: towards 0, and the low 16 bits of it.
unfoldable pub kilo_int16 : ℤ → ℤ
kilo_int16 (pos n) = to_int16 (n / 1000)
kilo_int16 (negsuc n) = to_int16 (65536 - (n + 1) / 1000 % 65536)

unfoldable pub update_temperature : SensorData → ℕ → DeviceCtx → DeviceCtx
update_temperature d report x =
    if Mask.test report_temperature report && Mask.test valid_temp_rh d.valid
    then record x { measure = record x.measure { temp_value = d.temperature_c_x100 } }
    else x

unfoldable pub update_humidity : SensorData → ℕ → DeviceCtx → DeviceCtx
update_humidity d report x =
    if Mask.test report_humidity report && Mask.test valid_temp_rh d.valid
    then record x { measure = record x.measure { humidity_value = d.humidity_x100 } }
    else x

unfoldable pub update_pressure : SensorData → ℕ → DeviceCtx → DeviceCtx
unfolding kilo_int16
update_pressure d report x =
    if Mask.test report_pressure report && Mask.test valid_pressure d.valid
    then record x { measure = record x.measure { pressure_value = kilo_int16 d.pressure_pa } }
    else x

unfoldable pub update_battery : SensorData → ℕ → DeviceCtx → DeviceCtx
update_battery d report x =
    if Mask.test report_battery report && Mask.test valid_battery d.valid
    then record x {
      power = record x.power {
        voltage = d.battery_mv / 100 % 256;
        remaining = min (d.battery_percent * 2) 200;
      };
    }
    else x

-- The part of zigbee_clusters_update behind its early return.
unfoldable pub update_tag :
    SensorData → TagStatus → ℕ → TagConfig → TagStatistics → DeviceCtx → DeviceCtx
update_tag d s log_record_count c statistics x = record x {
  tag = record {
    motion_state = s.motion_state;
    orientation = s.orientation;
    shock_count = s.shock_count;
    maximum_shock = s.max_shock_mg;
    free_fall_count = s.free_fall_count;
    tamper_state = s.tamper;
    movement_duration = s.movement_duration_s;
    last_movement_time = s.last_movement_time;
    event_count = s.event_count;
    log_record_count = log_record_count;
    alarm_flags = s.alarm_flags;
    operating_mode = c.operating_mode;
    sampling_interval = c.sampling_interval_s;
    gas_resistance =
        if Mask.test valid_gas d.valid then d.gas_resistance_ohm else x.tag.gas_resistance;
    boot_epoch = statistics.boot_epoch_utc;
  };
}

-- zigbee_clusters_update, with the statistics that app_state_get_statistics gives.
unfoldable pub zigbee_clusters_update :
    SensorData → TagStatus → ℕ → TagConfig → TagStatistics → ℕ → DeviceCtx → DeviceCtx
unfolding update_temperature update_humidity update_pressure update_battery update_tag
zigbee_clusters_update d s log_record_count c statistics report x =
    let measured =
      update_battery d report
        (update_pressure d report (update_humidity d report (update_temperature d report x))) in
    if not (Mask.test report_tag_monitor report)
    then measured
    else update_tag d s log_record_count c statistics measured
