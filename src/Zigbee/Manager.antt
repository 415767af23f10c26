-- ===== src/Zigbee/Manager.antt =====
-- src/zigbee/zigbee_manager.c: joining and leaving, publishing, and the attributes that a coordinator
-- writes.
--
-- The stack's calls are Zephyr's and Nordic's: a signal and a device callback are arguments, a callback
-- given to ZB_SCHEDULE_APP_CALLBACK is counted in `scheduled`. The buffers are not modelled.
use nrf54l15_tag.Common.{
  ℕ, ◌+◌, ◌%◌, ◌==◌, ◌||◌, ℤ, pos, Bool, true, false, not, if◌then◌else◌, none, some, Status,
  to_int16,
}
use nrf54l15_tag.SmartTag.{
  TagConfig, EventType, Severity, info, warning, config_changed, zigbee_joined, zigbee_left,
}
use nrf54l15_tag.Storage.ConfigStorage.{Settings}
use nrf54l15_tag.Led.{
  LedState, zigbee_joining, zigbee_connected, identify, led_manager_set, led_manager_identify,
}
use nrf54l15_tag.AppConfig.{app_config_set, power_manager_config_changed}
use nrf54l15_tag.AppState.Service.{
  Logs, App, set_config, app_raise_event, app_state_subscribe, app_state_set_time_utc,
}
use nrf54l15_tag.Zigbee.Reporting.{
  Baseline, zero_baseline, zigbee_reporting_force, zigbee_reporting_evaluate,
  zigbee_reporting_commit,
}
use nrf54l15_tag.Zigbee.Clusters.{DeviceCtx, zigbee_clusters_init, zigbee_clusters_update}
pub mod Joining

-- The static state of the file, with the modules that it calls.
pub record Zigbee (S L : Type 0) : Type 0 where
  pub joined : Bool
  pub joining : Bool
  pub scheduled : ℕ
  pub baseline : Baseline
  pub clusters : DeviceCtx
  pub app : App S L

-- zb_zdo_app_signal_type_t, as far as the handler tells them apart: DEVICE_FIRST_START, DEVICE_REBOOT
-- and STEERING with whether the status is RET_OK, LEAVE, and any other.
pub data Signal : Type 0 where
  commissioning : Bool → Signal
  leave other_signal : Signal

-- What the callback leaves in param->status.
pub data RetStatus : Type 0 where
  ret_ok ret_not_implemented ret_invalid_parameter : RetStatus

-- The device callback: an attribute write with its cluster, attribute and value, or another one, with
-- what zigbee_ota_zcl_cb returns.
pub data DeviceCallback : Type 0 where
  set_attr_value : ℕ → ℕ → ℕ → DeviceCallback
  other_callback : Bool → DeviceCallback

abbrev pub cluster_tag_monitor : ℕ
cluster_tag_monitor = 64512

abbrev pub attr_operating_mode : ℕ
attr_operating_mode = 11

abbrev pub attr_sampling_interval : ℕ
attr_sampling_interval = 12

abbrev pub attr_boot_epoch : ℕ
attr_boot_epoch = 14

abbrev pub identify_duration_s : ℕ
identify_duration_s = 10

module _ (settings : Settings) (logging : Logs) (record_count : logging.LogStore → ℕ) where
  open settings use {Store}
  open logging use {LogStore}

  -- led_manager_set, on the tag's LED.
  unfoldable pub set_led : LedState → Bool → Zigbee Store LogStore → Zigbee Store LogStore
  set_led s on z = record z {
    app = record z.app {
      config_state = record z.app.config_state {
        led = led_manager_set s on z.app.config_state.led;
      };
    };
  }

  -- publish_attributes, where record_count is that of event_log_get_info.
  unfoldable pub publish_attributes : Zigbee Store LogStore → Zigbee Store LogStore
  publish_attributes z =
      let a = z.app in
      let d = a.core.last_sample in
      let s = a.core.status in
      let c = a.config_state.config in
      let report = zigbee_reporting_evaluate d s c z.baseline in
      if not z.joined || (report == 0) then z else record z {
        clusters =
            zigbee_clusters_update d s (record_count a.logs) c a.core.statistics report z.clusters;
        baseline = zigbee_reporting_commit d s report z.baseline;
      }

  -- on_sensor_data and on_event, which do the same.
  unfoldable pub schedule_if_joined : Zigbee Store LogStore → Zigbee Store LogStore
  schedule_if_joined z = if not z.joined then z else record z { scheduled = z.scheduled + 1 }

  -- app_raise_event, with the call of on_event that it makes.
  unfoldable pub raise_and_notice :
      EventType → Severity → ℤ → Zigbee Store LogStore → Zigbee Store LogStore
  unfolding schedule_if_joined
  raise_and_notice t s v z =
      schedule_if_joined (record z { app = (app_raise_event settings logging t s v z.app).0 })

  -- identify_cb, with whether it is given a buffer.
  unfoldable pub identify_cb : Bool → Zigbee Store LogStore → Zigbee Store LogStore
  unfolding set_led
  identify_cb false z = set_led identify false z
  identify_cb true z = record z {
    app = record z.app {
      config_state = record z.app.config_state {
        led = led_manager_identify identify_duration_s z.app.config_state.led;
      };
    };
  }

  -- What follows app_config_set in zcl_device_cb.
  unfoldable pub config_set :
      TagConfig
      → App Store LogStore × Status
      → Zigbee Store LogStore
      → Zigbee Store LogStore × RetStatus
  unfolding raise_and_notice
  config_set c (a, some err) z = (record z { app = a }, ret_invalid_parameter)
  config_set c (a, none) z =
      let woken = record a { config_state = power_manager_config_changed a.config_state } in
      (
        raise_and_notice config_changed info (to_int16 c.operating_mode) (record z { app = woken }),
        ret_ok,
      )

  -- The write of the boot epoch in zcl_device_cb, which raises an event if it succeeds.
  unfoldable pub time_set :
      App Store LogStore × Status → Zigbee Store LogStore → Zigbee Store LogStore × RetStatus
  unfolding schedule_if_joined
  time_set (a, some err) z = (record z { app = a }, ret_invalid_parameter)
  time_set (a, none) z = (schedule_if_joined (record z { app = a }), ret_ok)

  unfoldable pub write_config :
      TagConfig → Zigbee Store LogStore → Zigbee Store LogStore × RetStatus
  unfolding config_set
  write_config c z =
      config_set c
        (set_config settings logging z.app (app_config_set settings c z.app.config_state)) z

  -- The writes to the Tag Monitor cluster: data8 and data16 are the low bytes of the value.
  unfoldable pub write_attribute : ℕ → ℕ → Zigbee Store LogStore → Zigbee Store LogStore × RetStatus
  unfolding write_config time_set
  write_attribute attr value z =
      let c = z.app.config_state.config in
      if attr == attr_operating_mode
      then write_config (record c { operating_mode = value % 256 }) z
      else if attr == attr_sampling_interval
      then write_config (record c { sampling_interval_s = value % 65536 }) z
      else if attr == attr_boot_epoch
      then time_set (app_state_set_time_utc settings logging value z.app) z
      else (z, ret_not_implemented)

  -- zcl_device_cb
  unfoldable pub zcl_device_cb :
      DeviceCallback → Zigbee Store LogStore → Zigbee Store LogStore × RetStatus
  unfolding write_attribute
  zcl_device_cb (set_attr_value cluster attr value) z =
      if not (cluster == cluster_tag_monitor)
      then (z, ret_not_implemented)
      else write_attribute attr value z
  zcl_device_cb (other_callback handled) z =
      (z, if not handled then ret_not_implemented else ret_ok)

  -- zboss_signal_handler
  unfoldable pub zboss_signal_handler : Signal → Zigbee Store LogStore → Zigbee Store LogStore
  unfolding raise_and_notice set_led
  zboss_signal_handler (commissioning true) z =
      let told = if not z.joined then raise_and_notice zigbee_joined info (pos 0) z else z in
      let up = record told { joined = true; joining = false } in
      let lit = set_led zigbee_connected true (set_led zigbee_joining false up) in
      record lit { baseline = zigbee_reporting_force lit.baseline; scheduled = lit.scheduled + 1 }
  zboss_signal_handler (commissioning false) z =
      set_led zigbee_connected false (set_led zigbee_joining true (record z { joining = true }))
  zboss_signal_handler leave z =
      let down = record z { joined = false; joining = true } in
      let lit = set_led zigbee_joining true (set_led zigbee_connected false down) in
      raise_and_notice zigbee_left warning (pos 0) lit
  zboss_signal_handler other_signal z = z

  -- zigbee_manager_init, with zigbee_clusters_init and zigbee_reporting_init.
  unfoldable pub zigbee_manager_init : Bool → Zigbee Store LogStore → Zigbee Store LogStore
  unfolding set_led
  zigbee_manager_init bme688 z =
      let ready = record z {
        clusters = zigbee_clusters_init bme688 z.app.config_state.config z.clusters;
        baseline = zero_baseline;
        app =
            app_state_subscribe settings logging
              (some (record { on_sensor_data = true; on_event = true })) z.app;
        joining = true;
      } in
      set_led zigbee_joining true ready
