-- ===== src/Led/Blink.antt =====
-- The light over time in src/ui/led_manager.c.
use nrf54l15_tag.Common.{ℕ, ◌≡◌, ◌≢◌, ◌-◌, Bool, true, false, List, [], ◌∷◌, some, arith}
use nrf54l15_tag.Led.{
  LedState, idle, patterns, top_state, LedManager, colour_off, blink_work_fn, led_manager_set,
  led_manager_set_enabled, led_manager_flash, led_manager_identify, identify_timeout_fn,
}

-- While the LED is disabled it is dark and no flash is pending.
pub record IsDark (l : LedManager) : Type 0 where
  pub disabled : l.enabled ≡ false
  pub dark : l.pins ≡ colour_off
  pub no_flash : l.flash_remaining ≡ 0

-- Every call but led_manager_set_enabled.
pub data LedCall : Type 0 where
  blink : LedCall
  identify_timeout : LedCall
  set_state : LedState → Bool → LedCall
  start_identify : ℕ → LedCall
  flash : LedState → ℕ → LedCall

unfoldable pub call : LedCall → LedManager → LedManager
unfolding blink_work_fn identify_timeout_fn led_manager_set led_manager_identify led_manager_flash
call blink l = blink_work_fn l
call identify_timeout l = identify_timeout_fn l
call (set_state s active) l = led_manager_set s active l
call (start_identify n) l = led_manager_identify n l
call (flash s n) l = led_manager_flash s n l

unfoldable pub calls : List LedCall → LedManager → LedManager
calls [] l = l
calls (c ∷ cs) l = calls cs (call c l)

call-IsDark : (c : LedCall) (l : LedManager) → IsDark l → IsDark (call c l)
unfolding call
call-IsDark blink l d = ground arith
call-IsDark _ l d = ground arith

calls-IsDark : (cs : List LedCall) (l : LedManager) → IsDark l → IsDark (calls cs l)
unfolding calls
calls-IsDark [] l d = d
calls-IsDark (c ∷ cs) l d = calls-IsDark cs (call c l) (call-IsDark c l d)

set_enabled-IsDark : (l : LedManager) → l.ready ≡ true → IsDark (led_manager_set_enabled false l)
unfolding led_manager_set_enabled
set_enabled-IsDark l r = ground arith

-- A LED that is ready and is switched off goes dark, and is dark after any sequence of blink work,
-- identify timeouts, indications set and cleared, identify requests and flashes.
pub disabled_stays-IsDark :
    (l : LedManager) (cs : List LedCall)
    → l.ready ≡ true
    → IsDark (calls cs (led_manager_set_enabled false l))
disabled_stays-IsDark l cs r =
    calls-IsDark cs (led_manager_set_enabled false l) (set_enabled-IsDark l r)

-- An indication blinks with the pattern of the state that ranks highest: on an enabled LED with no
-- flash pending, two runs of the blink work show the state's colour for its on-time, then nothing
-- for the rest of its period.
pub blink_cycle :
    (l : LedManager)
    → l.ready ≡ true
    → l.enabled ≡ true
    → l.flash_remaining ≡ 0
    → l.light_on ≡ false
    → top_state l.active_mask ≢ idle
    → let p = patterns (top_state l.active_mask) in
      let on = blink_work_fn l in
      let off = blink_work_fn on in
      (on.pins ≡ p.colour)
      × (on.blink_work ≡ some p.on_ms)
      × (off.pins ≡ colour_off)
      × (off.blink_work ≡ some (p.period_ms - p.on_ms))
      × (off.light_on ≡ false)
unfolding blink_work_fn patterns
blink_cycle l r e f o t = (ground arith, ground arith, ground arith, ground arith, ground arith)
