-- ===== src/Zigbee/Manager/Joining.antt =====
-- What the tag's LED shows of its network, over any signals of the stack.
use nrf54l15_tag.Common.{
  ℕ, ◌≡◌, ◌∙◌, refl, arith, Bool, true, false, not, Bool-cases, inl, inr, List, [], ◌∷◌,
  if◌then◌else◌, pos,
}
use nrf54l15_tag.Common.Mask
use nrf54l15_tag.SmartTag.{info, zigbee_joined}
use nrf54l15_tag.Storage.ConfigStorage.{Settings}
use nrf54l15_tag.Led.{LedManager, zigbee_joining, zigbee_connected, led_manager_set}
use nrf54l15_tag.AppState.Service.{Logs, app_raise_event}
use nrf54l15_tag.Zigbee.Manager.{
  Zigbee, Signal, commissioning, leave, other_signal, set_led, schedule_if_joined, raise_and_notice,
  zboss_signal_handler,
}

-- The LED is ready, it shows joining exactly while the tag is joining, and being connected exactly
-- while it is not; a tag that is not joining has joined.
pub record IsShown (joined joining : Bool) (led : LedManager) : Type 0 where
  pub ready : led.ready ≡ true
  pub joining_lit : Mask.test 2 led.active_mask ≡ joining
  pub connected_lit : Mask.test 3 led.active_mask ≡ not joining
  pub settled : joining ≡ false → joined ≡ true

lit-IsShown :
    (led : LedManager)
    → led.ready ≡ true
    → IsShown true false
        (led_manager_set zigbee_connected true (led_manager_set zigbee_joining false led))
unfolding led_manager_set
lit-IsShown led h = rw h (record {
  ready = refl;
  joining_lit =
      Mask.test-insert_ne 2 3 (Mask.remove 2 led.active_mask) (omega arith)
      ∙ Mask.test-remove_self 2 led.active_mask;
  connected_lit = Mask.test-insert_self 3 (Mask.remove 2 led.active_mask);
  settled = λ e. refl;
})

-- While the tag is joining, in whichever order the two indications are set.
failed-IsShown :
    (joined : Bool) (led : LedManager)
    → led.ready ≡ true
    → IsShown joined true
        (led_manager_set zigbee_connected false (led_manager_set zigbee_joining true led))
unfolding led_manager_set
failed-IsShown joined led h = rw h (record {
  ready = refl;
  joining_lit =
      Mask.test-remove_ne 2 3 (Mask.insert 2 led.active_mask) (omega arith)
      ∙ Mask.test-insert_self 2 led.active_mask;
  connected_lit = Mask.test-remove_self 3 (Mask.insert 2 led.active_mask);
  settled = λ e. cc;
})

left-IsShown :
    (led : LedManager)
    → led.ready ≡ true
    → IsShown false true
        (led_manager_set zigbee_joining true (led_manager_set zigbee_connected false led))
unfolding led_manager_set
left-IsShown led h = rw h (record {
  ready = refl;
  joining_lit = Mask.test-insert_self 2 (Mask.remove 3 led.active_mask);
  connected_lit =
      Mask.test-insert_ne 3 2 (Mask.remove 3 led.active_mask) (omega arith)
      ∙ Mask.test-remove_self 3 led.active_mask;
  settled = λ e. cc;
})

module _ (settings : Settings) (logging : Logs) (record_count : logging.LogStore → ℕ) where
  open settings use {Store}
  open logging use {LogStore}

  unfoldable pub signals : List Signal → Zigbee Store LogStore → Zigbee Store LogStore
  signals [] z = z
  signals (s ∷ ss) z = signals ss (zboss_signal_handler settings logging record_count s z)

  abbrev pub Shown : Zigbee Store LogStore → Type 0
  Shown z = IsShown z.joined z.joining z.app.config_state.led

  joined_ready :
      (c : Bool) (z : Zigbee Store LogStore)
      → z.app.config_state.led.ready ≡ true
      → (if c
          then raise_and_notice settings logging record_count zigbee_joined info (pos 0) z
          else z).app.config_state.led.ready
        ≡ true
  unfolding raise_and_notice schedule_if_joined app_raise_event
  joined_ready false z h = h
  joined_ready true z h = elim (Bool-cases z.joined) [ inl on ↦ rw on h | inr off ↦ rw off h ]

  signal-Shown :
      (s : Signal) (z : Zigbee Store LogStore)
      → Shown z
      → Shown (zboss_signal_handler settings logging record_count s z)
  unfolding zboss_signal_handler set_led raise_and_notice schedule_if_joined app_raise_event
  signal-Shown (commissioning true) z v =
      let told =
        if not z.joined
        then raise_and_notice settings logging record_count zigbee_joined info (pos 0) z
        else z in
      lit-IsShown told.app.config_state.led (joined_ready (not z.joined) z v.ready)
  signal-Shown (commissioning false) z v = failed-IsShown z.joined z.app.config_state.led v.ready
  signal-Shown leave z v = left-IsShown z.app.config_state.led v.ready
  signal-Shown other_signal z v = v

  -- Over any signals of the stack, a tag whose LED is ready and shows joining exactly while it is
  -- joining, and being connected exactly while it is not, and which has joined if it is not joining,
  -- stays so.
  pub signals-IsShown :
      (ss : List Signal) (z : Zigbee Store LogStore)
      → IsShown z.joined z.joining z.app.config_state.led
      → let y = signals ss z in IsShown y.joined y.joining y.app.config_state.led
  unfolding signals
  signals-IsShown [] z v = v
  signals-IsShown (s ∷ ss) z v =
      signals-IsShown ss (zboss_signal_handler settings logging record_count s z)
        (signal-Shown s z v)
