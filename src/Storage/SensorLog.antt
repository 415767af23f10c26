-- ===== src/Storage/SensorLog.antt =====
-- src/storage/sensor_log.c: the sensor history, a flash log of readings.
use nrf54l15_tag.Common.{ℕ, Bool, List, Option, Status}
use nrf54l15_tag.SmartTag.{SensorData, SensorLogRecord, fill_log_record}
use nrf54l15_tag.Storage.Layout.Records.{history_bytes}
use nrf54l15_tag.Storage.FlashLog.{
  Flash, FlashLog, FlashLogInfo, Partition, flash_log_init, flash_log_append, flash_log_read,
  flash_log_get_info,
}
use nrf54l15_tag.Storage.FlashLog.Erase.{flash_log_erase}

-- The payload_size of log_instance.
abbrev pub sensor_record_size : ℕ
sensor_record_size = 17

module _ (flash : Flash) where
  open flash use {Area}

  -- sensor_log_init
  unfoldable pub sensor_log_init : Partition → FlashLog Area → FlashLog Area × Status
  sensor_log_init p l = flash_log_init flash p (record l { payload_size = sensor_record_size })

  -- The appending of sensor_log_add.
  unfoldable pub sensor_log_append :
      SensorLogRecord → FlashLog Area → FlashLog Area × Status × Option ℕ
  sensor_log_append r l = flash_log_append flash (history_bytes r) l

  -- sensor_log_add
  unfoldable pub sensor_log_add :
      SensorData → Bool → FlashLog Area → FlashLog Area × Status × Option ℕ
  unfolding sensor_log_append
  sensor_log_add d alarm l = sensor_log_append (fill_log_record d alarm) l

  -- sensor_log_read
  unfoldable pub sensor_log_read : ℕ → ℕ → FlashLog Area → Option (List (List ℕ))
  sensor_log_read start_seq max l = flash_log_read flash start_seq max l

  -- sensor_log_get_info
  unfoldable pub sensor_log_get_info : FlashLog Area → FlashLogInfo
  sensor_log_get_info l = flash_log_get_info flash l

  -- sensor_log_clear
  unfoldable pub sensor_log_clear : FlashLog Area → Option (FlashLog Area × Status)
  sensor_log_clear l = flash_log_erase flash l
