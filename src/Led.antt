-- ===== src/Led.antt =====
-- src/ui/led_manager.c: one RGB LED for several indications.
--
-- A rescheduled work item is its delay in milliseconds until it runs; the GPIO pins are the colour
-- driven last. The GPIO and workqueue calls themselves are Zephyr's.
use nrf54l15_tag.Common.{
  ℕ, ◌+◌, ◌-◌, ◌*◌, ◌<◌, ◌≤◌, ◌≡◌, Bool, true, false, not, ◌&&◌, ◌||◌, ltb, leb, ◌==◌, min,
  if◌then◌else◌, Option, none, some, Status, enodev,
}
use nrf54l15_tag.Common.Mask
pub mod Priority
pub mod Blink

-- led_state_t, in the order of priority; the code indexes by the number.
pub data LedState : Type 0 where
  idle ble_advertising zigbee_joining zigbee_connected ota alarm identify : LedState

abbrev pub led_index : LedState → ℕ
led_index idle = 0
led_index ble_advertising = 1
led_index zigbee_joining = 2
led_index zigbee_connected = 3
led_index ota = 4
led_index alarm = 5
led_index identify = 6

abbrev pub colour_off : ℕ
colour_off = 0

-- struct led_pattern
pub record LedPattern : Type 0 where
  pub colour : ℕ
  pub on_ms : ℕ
  pub period_ms : ℕ

unfoldable pub patterns : LedState → LedPattern
patterns idle = record { colour = 0; on_ms = 0; period_ms = 0 }
patterns ble_advertising = record { colour = 4; on_ms = 30; period_ms = 2000 }
patterns zigbee_joining = record { colour = 3; on_ms = 100; period_ms = 500 }
patterns zigbee_connected = record { colour = 2; on_ms = 20; period_ms = 5000 }
patterns ota = record { colour = 5; on_ms = 100; period_ms = 300 }
patterns alarm = record { colour = 1; on_ms = 100; period_ms = 1000 }
patterns identify = record { colour = 7; on_ms = 250; period_ms = 500 }

-- The static state of the file, with the pins and the two work items.
pub record LedManager : Type 0 where
  pub ready : Bool
  pub enabled : Bool
  pub active_mask : ℕ
  pub flash_remaining : ℕ
  pub flash_colour : ℕ
  pub light_on : Bool
  pub pins : ℕ
  pub blink_work : Option ℕ
  pub identify_timeout_work : Option ℕ

-- Before led_manager_init.
abbrev pub led_boot : LedManager
led_boot = record {
  ready = false;
  enabled = true;
  active_mask = 0;
  flash_remaining = 0;
  flash_colour = 0;
  light_on = false;
  pins = 0;
  blink_work = none;
  identify_timeout_work = none;
}

unfoldable pub drive : ℕ → LedManager → LedManager
drive colour l = if l.ready then record l { pins = colour } else l

-- led_manager_init, over whether the three pins are ready.
unfoldable pub led_manager_init : Bool → LedManager → LedManager × Status
led_manager_init gpio_ready l =
    if not gpio_ready
    then (l, some enodev)
    else (record l { ready = true; pins = colour_off }, none)

-- top_state: the loop from the highest state down.
unfoldable pub top_state : ℕ → LedState
top_state active_mask =
    if Mask.test 6 active_mask
    then identify
    else if Mask.test 5 active_mask
    then alarm
    else if Mask.test 4 active_mask
    then ota
    else if Mask.test 3 active_mask
    then zigbee_connected
    else if Mask.test 2 active_mask
    then zigbee_joining
    else if Mask.test 1 active_mask
    then ble_advertising
    else idle

-- The work item has left the queue when its function runs.
unfoldable pub blink_flash : LedManager → LedManager
unfolding drive
blink_flash l =
    let on = not l.light_on in
    let driven = drive (if on then l.flash_colour else colour_off) (record l { light_on = on }) in
    record driven { flash_remaining = l.flash_remaining - 1; blink_work = some 80 }

unfoldable pub blink_pattern : LedPattern → LedManager → LedManager
unfolding drive
blink_pattern p l =
    if p.period_ms == 0
    then drive colour_off (record l { light_on = false })
    else if l.light_on
    then record (drive colour_off (record l { light_on = false })) {
      blink_work = some (p.period_ms - p.on_ms);
    }
    else record (drive p.colour (record l { light_on = true })) { blink_work = some p.on_ms }

-- blink_work_fn
unfoldable pub blink_work_fn : LedManager → LedManager
unfolding drive blink_flash blink_pattern
blink_work_fn started =
    let l = record started { blink_work = none } in
    if not l.enabled
    then drive colour_off l
    else if ltb 0 l.flash_remaining
    then blink_flash l
    else blink_pattern (patterns (top_state l.active_mask)) l

-- led_manager_set
unfoldable pub led_manager_set : LedState → Bool → LedManager → LedManager
led_manager_set s active l = if not l.ready then l else record l {
  active_mask =
      if active
      then Mask.insert (led_index s) l.active_mask
      else Mask.remove (led_index s) l.active_mask;
  light_on = false;
  blink_work = some 0;
}

-- identify_timeout_fn
unfoldable pub identify_timeout_fn : LedManager → LedManager
unfolding led_manager_set
identify_timeout_fn l = led_manager_set identify false (record l { identify_timeout_work = none })

-- led_manager_identify
unfoldable pub led_manager_identify : ℕ → LedManager → LedManager
unfolding led_manager_set
led_manager_identify duration_s l =
    if not l.ready then l else record (led_manager_set identify true l) {
      identify_timeout_work = some (duration_s * 1000);
    }

-- led_manager_flash
unfoldable pub led_manager_flash : LedState → ℕ → LedManager → LedManager
led_manager_flash s count l = if not l.ready || not l.enabled || (count == 0) then l else record l {
  flash_colour = (patterns s).colour;
  flash_remaining = min (count * 2) 255;
  light_on = false;
  blink_work = some 0;
}

-- led_manager_set_enabled
unfoldable pub led_manager_set_enabled : Bool → LedManager → LedManager
unfolding drive
led_manager_set_enabled value l =
    if not value
    then drive colour_off (record l { enabled = value; flash_remaining = 0; light_on = false })
    else record l { enabled = value; blink_work = some 0 }
