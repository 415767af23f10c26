-- ===== src/Scenarios/Network.antt =====
-- A run of the Zigbee stack's signals.
use nrf54l15_tag.Common.{pos, refl, true, false, List, [], ◌∷◌}
use nrf54l15_tag.Common.Mask
use nrf54l15_tag.SmartTag.{stationary, unknown}
use nrf54l15_tag.Zigbee.Reporting.{zero_baseline}
use nrf54l15_tag.Zigbee.Clusters.{DeviceCtx}
use nrf54l15_tag.Zigbee.Manager.{Zigbee, Signal, commissioning, leave, other_signal}
use nrf54l15_tag.Zigbee.Manager.Joining.{IsShown, signals, signals-IsShown}
use nrf54l15_tag.Scenarios.{lit_led}
use nrf54l15_tag.Scenarios.Storing.{flash_settings, Blobs}
use nrf54l15_tag.Scenarios.Service.{Counts, counting_logs, fresh_app}

abbrev zero_ctx : DeviceCtx
zero_ctx = record {
  power = record {
    voltage = 0;
    size = 0;
    quantity = 0;
    rated_voltage = 0;
    voltage_min_threshold = 0;
    remaining = 0;
  };
  measure = record {
    temp_value = pos 0;
    temp_min = pos 0;
    temp_max = pos 0;
    humidity_value = 0;
    humidity_min = 0;
    humidity_max = 0;
    pressure_value = pos 0;
    pressure_min = pos 0;
    pressure_max = pos 0;
  };
  tag = record {
    motion_state = stationary;
    orientation = unknown;
    shock_count = 0;
    maximum_shock = 0;
    free_fall_count = 0;
    tamper_state = 0;
    movement_duration = 0;
    last_movement_time = 0;
    event_count = 0;
    log_record_count = 0;
    alarm_flags = 0;
    operating_mode = 0;
    sampling_interval = 0;
    gas_resistance = 0;
    boot_epoch = 0;
  };
}

-- Joining, with the LED showing it.
abbrev searching : Zigbee Blobs Counts
searching = record {
  joined = false;
  joining = true;
  scheduled = 0;
  baseline = zero_baseline;
  clusters = zero_ctx;
  app = record fresh_app {
    config_state = record fresh_app.config_state { led = record lit_led { active_mask = 4 } };
  };
}

abbrev visits : List Signal
visits = commissioning true ∷ commissioning false ∷ other_signal ∷ leave ∷ commissioning true ∷ []

searching-IsShown : IsShown searching.joined searching.joining searching.app.config_state.led
unfolding Mask.test
searching-IsShown = record {
  ready = refl;
  joining_lit = refl;
  connected_lit = refl;
  settled = λ e. cc;
}

signals-IsShown_example :
    let y = signals flash_settings counting_logs (λ l. l.events) visits searching in
    IsShown y.joined y.joining y.app.config_state.led
signals-IsShown_example =
    signals-IsShown flash_settings counting_logs (λ l. l.events) visits searching searching-IsShown
