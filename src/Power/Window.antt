-- ===== src/Power/Window.antt =====
-- The window of src/power/power_manager.c under every sequence of calls and callbacks.
use nrf54l15_tag.Common.{
  ℕ, ◌≡◌, Bool, true, false, not, ◌&&◌, ◌≢◌, ◌⊎◌, subst, if_yes, if_no, Bool-cases, inl, inr,
  if◌then◌else◌, ◌==◌, refl, sym, ◌∙◌, ap, Option, none, some, Status,
}
use nrf54l15_tag.Common.Mask
use nrf54l15_tag.SmartTag.{EventType, SensorData, TagStatus}
use nrf54l15_tag.Led.{LedManager, led_manager_set, ble_advertising}
use nrf54l15_tag.AppState.Service.{running, service}
use nrf54l15_tag.Ble.Manager.{
  Radio, ble_manager_start_advertising, ble_manager_stop_advertising, on_connected, on_disconnected,
  set_adv_led, adv_started, manuf_bytes, ble_manager_update_adv_data, update_on_air,
  nothing_subscribed,
}
use nrf54l15_tag.Ble.Log.{log_abort}
use nrf54l15_tag.Power.{
  Power, opened, request_service_mode, end_service_mode, service_timeout_fn, Step, request, ended,
  expired, joined, left, Steps, none_taken, one_more,
}

abbrev pub is_some : Option ℕ → Bool
is_some none = false
is_some (some n) = true

-- Whether the pattern for advertising is among those that the LED shows.
abbrev pub led_shows : LedManager → Bool
led_shows l = Mask.test 1 l.active_mask

-- The radio is off outside the window, and the LED shows advertising when the tag can be found.
pub record IsQuiet (service_mode : Bool) (r : Radio) : Type 0 where
  pub advertising : r.advertising ≡ (service_mode && r.advertising)
  pub connected : r.connected ≡ (service_mode && r.connected)
  pub led_ready : r.led.ready ≡ true
  pub led : led_shows r.led ≡ (r.advertising && not r.connected)

-- An open window has its timeout scheduled, and only an open one.
pub record IsSound (p : Power) : Type 0 where
  pub timeout : is_some p.timeout ≡ p.service_mode
  pub phase : p.phase ≡ (if p.service_mode then service else running)
  pub quiet : IsQuiet p.service_mode p.radio

led_set :
    (on : Bool) (l : LedManager)
    → l.ready ≡ true
    → led_shows (led_manager_set ble_advertising on l) ≡ on
unfolding led_manager_set
led_set true l h = rw h (Mask.test-insert_self 1 l.active_mask)
led_set false l h = rw h (Mask.test-remove_self 1 l.active_mask)

led_set_ready :
    (on : Bool) (l : LedManager)
    → l.ready ≡ true
    → (led_manager_set ble_advertising on l).ready ≡ true
unfolding led_manager_set
led_set_ready on l h = rw h refl

-- Nothing is connected, and the tag cannot be found, or it can.
record IsIdle (found : Bool) (r : Radio) : Type 0 where
  advertising : r.advertising ≡ found
  connected : r.connected ≡ false
  led_ready : r.led.ready ≡ true
  led : led_shows r.led ≡ found

and_true : (b : Bool) → (b && true) ≡ b
and_true true = refl
and_true false = refl

and_false : (b : Bool) → false ≡ (b && false)
and_false true = refl
and_false false = refl

IsIdle-IsQuiet : (b found : Bool) (r : Radio) → IsIdle found r → found ≡ (b && found) → IsQuiet b r
IsIdle-IsQuiet b found r v h = record {
  advertising = v.advertising ∙ h ∙ ap (λ x. b && x) (sym v.advertising);
  connected = v.connected ∙ and_false b ∙ ap (λ x. b && x) (sym v.connected);
  led_ready = v.led_ready;
  led = v.led ∙ sym (and_true found) ∙ sym (λ i. v.advertising i && not (v.connected i));
}

set_adv_led-IsIdle :
    (on : Bool) (r : Radio)
    → r.advertising ≡ on
    → r.connected ≡ false
    → r.led.ready ≡ true
    → IsIdle on (set_adv_led on r)
unfolding set_adv_led
set_adv_led-IsIdle on r a c ready = record {
  advertising = a;
  connected = c;
  led_ready = led_set_ready on r.led ready;
  led = led_set on r.led ready;
}

-- Advertising starts, or it does not and the radio stays off.
abbrev Outcome : Radio × Status → Type 0
Outcome x = ((x.1 ≡ none) × IsIdle true x.0) ⊎ ((x.1 ≢ none) × IsIdle false x.0)

adv_started_lem : (started : Status) (r : Radio) → IsIdle false r → Outcome (adv_started started r)
unfolding adv_started
adv_started_lem (some err) r v = inr (λ h. cc, v)
adv_started_lem none r v = inl (
  refl,
  set_adv_led-IsIdle true (record r { advertising = true; on_air = r.manuf_data }) refl v.connected
      v.led_ready,
)

start_lem :
    (started : Status) (sample : SensorData) (status : TagStatus) (r : Radio)
    → IsIdle false r
    → Outcome (ble_manager_start_advertising started sample status r)
unfolding ble_manager_start_advertising ble_manager_update_adv_data update_on_air
start_lem started sample status r v = elim (Bool-cases r.stack_ready) [
  | inr off ↦ subst Outcome (sym (if_yes (not r.stack_ready) _ _ (ap not off))) (inr (λ h. cc, v))
  | inl on ↦
      let shown = record r { manuf_data = manuf_bytes sample status } in
      let same : update_on_air none shown ≡ shown = if_no r.advertising _ _ v.advertising in
      let idle : IsIdle false shown = record {
        advertising = v.advertising;
        connected = v.connected;
        led_ready = v.led_ready;
        led = v.led;
      } in
      subst Outcome
        (ap (adv_started started) (sym same)
          ∙ sym (if_no (not r.stack_ready) _ _ (ap not on) ∙ if_no r.advertising _ _ v.advertising))
        (adv_started_lem started shown idle)
]

IsQuiet-IsIdle :
    (b : Bool) (r : Radio)
    → IsQuiet b r
    → r.advertising ≡ false
    → r.connected ≡ false
    → IsIdle false r
IsQuiet-IsIdle b r q a c = record {
  advertising = a;
  connected = c;
  led_ready = q.led_ready;
  led = q.led ∙ ap (λ x. x && not r.connected) a;
}

closed-IsIdle : (b : Bool) (r : Radio) → IsQuiet b r → b ≡ false → IsIdle false r
closed-IsIdle b r q h =
    IsQuiet-IsIdle b r q (q.advertising ∙ ap (λ x. x && r.advertising) h)
      (q.connected ∙ ap (λ x. x && r.connected) h)

opened-IsSound :
    (window_s : ℕ) (p : Power) (x : Radio × Status)
    → IsSound p
    → p.service_mode ≡ false
    → Outcome x
    → IsSound (opened window_s p x)
unfolding opened
opened-IsSound window_s p (r, none) v closed (inl (fine, idle)) = record {
  timeout = refl;
  phase = refl;
  quiet = IsIdle-IsQuiet true true r idle refl;
}
opened-IsSound window_s p (r, none) v closed (inr (bad, idle)) = absurd (bad refl)
opened-IsSound window_s p (r, some err) v closed (inl (fine, idle)) = cc
opened-IsSound window_s p (r, some err) v closed (inr (bad, idle)) = record {
  timeout = v.timeout ∙ closed;
  phase = v.phase ∙ ap (λ b. if b then service else running) closed;
  quiet = IsIdle-IsQuiet false false r idle refl;
}

request-IsSound :
    (window_s : ℕ) (started : Status) (sample : SensorData) (status : TagStatus) (p : Power)
    → IsSound p
    → IsSound (request_service_mode window_s started sample status p)
unfolding request_service_mode
request-IsSound window_s started sample status p v = elim (Bool-cases p.service_mode) [
  | inl open_now ↦
      subst IsSound (sym (if_yes p.service_mode _ _ open_now))
        (record { timeout = sym open_now; phase = v.phase; quiet = v.quiet })
  | inr closed ↦
      let idle = closed-IsIdle p.service_mode p.radio v.quiet closed in
      subst IsSound (sym (if_no p.service_mode _ _ closed)) (
        opened-IsSound window_s p (ble_manager_start_advertising started sample status p.radio) v
          closed (start_lem started sample status p.radio idle))
]

stop-IsIdle :
    (r : Radio)
    → IsQuiet true r
    → r.connected ≡ false
    → IsIdle false (ble_manager_stop_advertising r)
unfolding ble_manager_stop_advertising
stop-IsIdle r q c = elim (Bool-cases r.advertising) [
  | inr off ↦
      subst (IsIdle false) (sym (if_yes (not r.advertising) _ _ (ap not off)))
        (IsQuiet-IsIdle true r q off c)
  | inl on ↦ subst (IsIdle false) (sym (if_no (not r.advertising) _ _ (ap not on))) (
      set_adv_led-IsIdle false (record r { advertising = false; disconnect_asked = r.connected })
        refl c q.led_ready)
]

end_connected :
    (p : Power)
    → p.service_mode ≡ true
    → p.radio.connected ≡ true
    → end_service_mode p ≡ record p { timeout = some 30 }
unfolding end_service_mode
end_connected p h c = if_no (not p.service_mode) _ _ (ap not h) ∙ if_yes p.radio.connected _ _ c

end_alone :
    (p : Power)
    → p.service_mode ≡ true
    → p.radio.connected ≡ false
    → end_service_mode p ≡ record p {
      service_mode = false;
      timeout = none;
      phase = running;
      radio = ble_manager_stop_advertising p.radio;
    }
unfolding end_service_mode
end_alone p h c = if_no (not p.service_mode) _ _ (ap not h) ∙ if_no p.radio.connected _ _ c

-- No timeout is asked for: it has just run out, or it is still scheduled.
end_open :
    (p : Power)
    → p.service_mode ≡ true
    → p.phase ≡ (if p.service_mode then service else running)
    → IsQuiet p.service_mode p.radio
    → IsSound (end_service_mode p)
end_open p h at q = elim (Bool-cases p.radio.connected) [
  | inl c ↦
      subst IsSound (sym (end_connected p h c)) (record { timeout = sym h; phase = at; quiet = q })
  | inr c ↦
      let q2 = subst (λ b. IsQuiet b p.radio) h q in
      subst IsSound (sym (end_alone p h c)) (record {
        timeout = refl;
        phase = refl;
        quiet = IsIdle-IsQuiet false false _ (stop-IsIdle p.radio q2 c) refl;
      })
]

end-IsSound : (p : Power) → IsSound p → IsSound (end_service_mode p)
unfolding end_service_mode
end-IsSound p v = elim (Bool-cases p.service_mode) [
  | inl h ↦ end_open p h v.phase v.quiet
  | inr h ↦ subst IsSound (sym (if_yes (not p.service_mode) _ _ (ap not h))) v
]

expired-IsSound :
    (t : ℕ) (p : Power) → p.timeout ≡ some t → IsSound p → IsSound (service_timeout_fn p)
unfolding service_timeout_fn
expired-IsSound t p h v =
    end_open (record p { timeout = none }) (sym v.timeout ∙ ap is_some h) v.phase v.quiet

-- What is on the air or connected is so in an open window.
within : (b x : Bool) → x ≡ (b && x) → x ≡ true → b ≡ true
within true x e h = refl
within false x e h = sym e ∙ h

joined-IsQuiet :
    (err : ℕ) (b : Bool) (r : Radio)
    → IsQuiet b r
    → r.advertising ≡ true
    → IsQuiet b (on_connected err r).0
unfolding on_connected set_adv_led
joined-IsQuiet err b r q a = elim (Bool-cases (err == 0)) [
  | inr failed ↦
      subst (λ (x : Radio × Option EventType). IsQuiet b x.0)
        (sym (if_yes (not (err == 0)) _ _ (ap not failed))) q
  | inl fine ↦
      subst (λ (x : Radio × Option EventType). IsQuiet b x.0)
        (sym (if_no (not (err == 0)) _ _ (ap not fine)))
        (record {
          advertising = q.advertising;
          connected = sym (within b r.advertising q.advertising a) ∙ sym (and_true b);
          led_ready = led_set_ready false r.led q.led_ready;
          led = led_set false r.led q.led_ready ∙ and_false r.advertising;
        })
]

left-IsQuiet :
    (started : Status) (sample : SensorData) (status : TagStatus) (b : Bool) (r : Radio)
    → IsQuiet b r
    → r.connected ≡ true
    → IsQuiet b (on_disconnected started sample status r)
unfolding on_disconnected
left-IsQuiet started sample status b r q c = elim (Bool-cases r.advertising) [
  | inr off ↦
      subst (IsQuiet b) (sym (if_no r.advertising _ _ off))
        (IsIdle-IsQuiet b false _ (alone r.advertising off) (and_false b))
  | inl on ↦
      subst (IsQuiet b) (sym (if_yes r.advertising _ _ on))
        (either (start_lem started sample status _ (alone false refl)))
]
  where
    lone : Bool → Radio
    lone a = record r {
      connected = false;
      subscribed = nothing_subscribed;
      stream = (log_abort r.stream).0;
      stream_work = (log_abort r.stream).1;
      advertising = a;
    }

    dark : led_shows r.led ≡ false
    dark = q.led ∙ ap (λ x. r.advertising && not x) c ∙ sym (and_false r.advertising)

    alone : (a : Bool) → a ≡ false → IsIdle false (lone a)
    alone a e = record { advertising = e; connected = refl; led_ready = q.led_ready; led = dark }

    either : {x : Radio × Status} → Outcome x → IsQuiet b x.0
    either (inl (ok, idle)) =
        IsIdle-IsQuiet b true _ idle (sym (within b r.connected q.connected c) ∙ sym (and_true b))
    either (inr (bad, idle)) = IsIdle-IsQuiet b false _ idle (and_false b)

Step-IsSound : (p q : Power) → Step p q → IsSound p → IsSound q
Step-IsSound _ _ (request window_s started sample status p) v =
    request-IsSound window_s started sample status p v
Step-IsSound _ _ (ended p) v = end-IsSound p v
Step-IsSound _ _ (expired t p h) v = expired-IsSound t p h v
Step-IsSound _ _ (joined err p a c) v = record {
  timeout = v.timeout;
  phase = v.phase;
  quiet = joined-IsQuiet err p.service_mode p.radio v.quiet a;
}
Step-IsSound _ _ (left started sample status p c) v = record {
  timeout = v.timeout;
  phase = v.phase;
  quiet = left-IsQuiet started sample status p.service_mode p.radio v.quiet c;
}

-- Whatever requests, timeouts, connections and disconnections come, in any order, and whatever the
-- controller answers: an open window has its timeout scheduled and a closed one has none; the phase is
-- SERVICE in it and RUNNING outside; outside it the radio neither advertises nor is connected; and the
-- LED shows advertising exactly while the tag advertises without a connection.
pub Steps-IsSound : (p q : Power) → Steps p q → IsSound p → IsSound q
Steps-IsSound _ _ (none_taken p) v = v
Steps-IsSound _ _ (one_more p m q steps step) v = Step-IsSound m q step (Steps-IsSound p m steps v)

-- When the timeout of an open window runs out, the window goes on for 30 seconds if there is a
-- connection; if there is none, it closes: no timeout is left, the phase is RUNNING, the tag does not
-- advertise and the LED does not show it.
pub service_timeout_fn_lem :
    (t : ℕ) (p : Power)
    → IsSound p
    → p.timeout ≡ some t
    → ((p.radio.connected ≡ true) × (service_timeout_fn p ≡ record p { timeout = some 30 }))
      ⊎ ((p.radio.connected ≡ false)
          × ((service_timeout_fn p).service_mode ≡ false)
          × ((service_timeout_fn p).timeout ≡ none)
          × ((service_timeout_fn p).phase ≡ running)
          × ((service_timeout_fn p).radio.advertising ≡ false)
          × (led_shows (service_timeout_fn p).radio.led ≡ false))
unfolding service_timeout_fn
service_timeout_fn_lem t p v h =
    let on : p.service_mode ≡ true = sym v.timeout ∙ ap is_some h in
    let due : Power = record p { timeout = none } in
    elim (Bool-cases p.radio.connected) [
      | inl c ↦ inl (c, end_connected due on c)
      | inr c ↦
          let idle = stop-IsIdle p.radio (subst (λ b. IsQuiet b p.radio) on v.quiet) c in
          inr (
            subst
              (λ (x : Power).
                (p.radio.connected ≡ false)
                × (x.service_mode ≡ false)
                × (x.timeout ≡ none)
                × (x.phase ≡ running)
                × (x.radio.advertising ≡ false)
                × (led_shows x.radio.led ≡ false))
              (sym (end_alone due on c)) (c, refl, refl, refl, idle.advertising, idle.led))
    ]
