-- ===== src/Zigbee/Reporting/Heartbeat.antt =====
-- The longest interval of src/zigbee/zigbee_reporting.c is one clock for all attribute groups.
use nrf54l15_tag.Common.{ℕ, zero, suc, ◌≤◌, ◌<◌, ◌≡◌, ◌≢◌, ◌-ℤ◌, true, false, arith, sub32, nat_abs}
use nrf54l15_tag.Common.Mask
use nrf54l15_tag.SmartTag.{SensorData, TagStatus, TagConfig}
use nrf54l15_tag.Zigbee.Reporting.{
  Baseline, report_temperature, zigbee_reporting_evaluate, zigbee_reporting_commit,
}
use nrf54l15_tag.Zigbee.Reporting.Policy.{evaluate-groups}

module _ (d : SensorData) (s : TagStatus) (r : ℕ) (b : Baseline) where
  commit_without_temperature :
      r ≢ 0
      → Mask.test report_temperature r ≡ false
      → let v = zigbee_reporting_commit d s r b in
        (v.temperature ≡ b.temperature) × (v.last_report_time ≡ d.timestamp) × (v.valid ≡ true)
  unfolding zigbee_reporting_commit
  commit_without_temperature h k = (ground arith, ground arith, ground arith)

  -- A report of other groups puts the temperature's heartbeat off: if a report without the
  -- temperature is committed and the longest interval has not passed since, then a temperature
  -- within its delta is not reported, however long ago it was last reported itself.
  pub temperature_heartbeat_put_off :
      (later : SensorData) (s' : TagStatus) (c : TagConfig)
      → r ≢ 0
      → Mask.test report_temperature r ≡ false
      → sub32 later.timestamp d.timestamp < c.report_max_interval_s
      → nat_abs (later.temperature_c_x100 -ℤ b.temperature) < c.report_temp_delta_c_x100
      → Mask.test report_temperature
          (zigbee_reporting_evaluate later s' c (zigbee_reporting_commit d s r b))
        ≡ false
  temperature_heartbeat_put_off later s' c h k i j = ground (
    arith,
    commit_without_temperature h k,
    (evaluate-groups later s' c (zigbee_reporting_commit d s r b)).0,
  )

-- When the longest interval has passed since the last report of any group, every one of the five
-- groups is reported.
pub heartbeat :
    (d : SensorData) (s : TagStatus) (c : TagConfig) (b : Baseline) (k : ℕ)
    → c.report_max_interval_s ≤ sub32 d.timestamp b.last_report_time
    → k < 5
    → Mask.test k (zigbee_reporting_evaluate d s c b) ≡ true
heartbeat d s c b zero h l = ground (arith, (evaluate-groups d s c b).0)
heartbeat d s c b (suc zero) h l = ground (arith, (evaluate-groups d s c b).1)
heartbeat d s c b (suc (suc zero)) h l = ground (arith, (evaluate-groups d s c b).2)
heartbeat d s c b (suc (suc (suc zero))) h l = ground (arith, (evaluate-groups d s c b).3)
heartbeat d s c b (suc (suc (suc (suc zero)))) h l = ground (arith, (evaluate-groups d s c b).4)
heartbeat d s c b (suc (suc (suc (suc (suc k))))) h l = absurd (omega arith)
