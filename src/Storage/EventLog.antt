-- ===== src/Storage/EventLog.antt =====
-- src/storage/event_log.c: the event log, a flash log of event records.
use nrf54l15_tag.Common.{ℕ, u32, ℤ, List, Option, Status}
use nrf54l15_tag.SmartTag.{EventType, Severity, EventRecord}
use nrf54l15_tag.Storage.Layout.Records.{event_bytes}
use nrf54l15_tag.Storage.FlashLog.{
  Flash, FlashLog, FlashLogInfo, Partition, flash_log_init, flash_log_append, flash_log_read,
  flash_log_get_info,
}
use nrf54l15_tag.Storage.FlashLog.Erase.{flash_log_erase}

-- The payload_size of log_instance.
abbrev pub event_record_size : ℕ
event_record_size = 8

module _ (flash : Flash) where
  open flash use {Area}

  -- event_log_init
  unfoldable pub event_log_init : Partition → FlashLog Area → FlashLog Area × Status
  event_log_init p l = flash_log_init flash p (record l { payload_size = event_record_size })

  -- The appending of event_log_add, whose record the callers of the model make.
  unfoldable pub event_log_append : EventRecord → FlashLog Area → FlashLog Area × Status × Option ℕ
  event_log_append e l = flash_log_append flash (event_bytes e) l

  -- event_log_add
  unfoldable pub event_log_add :
      ℕ → EventType → Severity → ℤ → FlashLog Area → FlashLog Area × Status × Option ℕ
  unfolding event_log_append
  event_log_add uptime_s t s v l =
      event_log_append (record { timestamp = u32 uptime_s; type = t; severity = s; value = v }) l

  -- event_log_read
  unfoldable pub event_log_read : ℕ → ℕ → FlashLog Area → Option (List (List ℕ))
  event_log_read start_seq max l = flash_log_read flash start_seq max l

  -- event_log_get_info
  unfoldable pub event_log_get_info : FlashLog Area → FlashLogInfo
  event_log_get_info l = flash_log_get_info flash l

  -- event_log_clear
  unfoldable pub event_log_clear : FlashLog Area → Option (FlashLog Area × Status)
  event_log_clear l = flash_log_erase flash l
