-- ===== src/Alarms/Events.antt =====
-- The events of src/app/app_alarms.c over the whole body: its blocks one after the other.
use nrf54l15_tag.Common.{
  ℕ, ◌+◌, ◌≤◌, ◌<◌, ◌≡◌, ◌≢◌, refl, true, List, [], ◌++◌, arith, length, ap, sym, ◌∙◌,
}
use mathlib.Core.List.{append-nil, append_assoc}
use nrf54l15_tag.Common.Mask
use nrf54l15_tag.SmartTag.{SensorData, TagConfig, temp_high, temp_low}
use nrf54l15_tag.Alarms.{
  AlarmEvent, Eval, raise, lower, eval_temperature, eval_humidity, eval_temp_rh, eval_gas,
  eval_battery, eval_fault, eval,
}
use nrf54l15_tag.Alarms.Stages.{temp_rh_frame, gas_frame, battery_frame, fault_frame}
use nrf54l15_tag.Alarms.Edges.{
  edge, climate_event, humidity_event, gas_event, battery_event, fault_event, edge_laws,
  temperature-items, humidity-items, gas-items, battery-items, fault-items,
}

-- An edge depends on its own bit only.
edge_congr :
    (k a b a' b' : ℕ) (v : AlarmEvent)
    → Mask.test k a' ≡ Mask.test k a
    → Mask.test k b' ≡ Mask.test k b
    → edge k a' b' v ≡ edge k a b v
unfolding edge
edge_congr k a b a' b' v p q = rw (p, q)

temperature_frame :
    (d : SensorData) (c : TagConfig) (e : Eval)
    → Mask.test 2 (eval_temperature d c e).flags ≡ Mask.test 2 e.flags
unfolding eval_temperature raise lower
temperature_frame d c e = grind edge_laws

humidity_frame :
    (d : SensorData) (c : TagConfig) (e : Eval) (j : ℕ)
    → j ≢ 2
    → Mask.test j (eval_humidity d c e).flags ≡ Mask.test j e.flags
unfolding eval_humidity raise lower
humidity_frame d c e j h = grind edge_laws

edge_none : (k f : ℕ) (v : AlarmEvent) → edge k f f v ≡ []
unfolding edge
edge_none k f v = ground arith

abbrev pub climate_edges : SensorData → ℕ → ℕ → List AlarmEvent
climate_edges d before after =
    edge 0 before after (climate_event d temp_high)
    ++ (edge 1 before after (climate_event d temp_low) ++ edge 2 before after (humidity_event d))

both-items :
    (d : SensorData) (c : TagConfig) (e : Eval)
    → e.out.writable ≡ true
    → length e.out.items < 7
    → let after = eval_humidity d c (eval_temperature d c e) in
      (after.out.writable ≡ true)
      × (after.out.items ≡ e.out.items ++ climate_edges d e.flags after.flags)
      × (length after.out.items ≤ length e.out.items + 2)
both-items d c e w h =
    let t = eval_temperature d c e in
    let u = eval_humidity d c t in
    let (tw, ti, tl) = temperature-items d c e w (omega arith) in
    let (uw, ui, ul) = humidity-items d c t tw (omega arith) in
    (
      uw,
      grind (
        arith,
        append_assoc,
        edge_congr 0 e.flags t.flags e.flags u.flags (climate_event d temp_high) refl
            (humidity_frame d c t 0 (omega arith)),
        edge_congr 1 e.flags t.flags e.flags u.flags (climate_event d temp_low) refl
            (humidity_frame d c t 1 (omega arith)),
        edge_congr 2 e.flags u.flags t.flags u.flags (humidity_event d) (temperature_frame d c e)
            refl,
      ),
      omega arith,
    )

temp_rh-items :
    (d : SensorData) (c : TagConfig) (e : Eval)
    → e.out.writable ≡ true
    → length e.out.items < 7
    → let after = eval_temp_rh d c e in
      (after.out.writable ≡ true)
      × (after.out.items ≡ e.out.items ++ climate_edges d e.flags after.flags)
      × (length after.out.items ≤ length e.out.items + 2)
unfolding eval_temp_rh
temp_rh-items d c e w h = grind (arith, both-items d c e w h, append-nil, edge_none)

nil_append {ℓ} : {A : Type ℓ} (xs : List A) → [] ++ xs ≡ xs
nil_append xs = refl

late_frame :
    (d : SensorData) (c : TagConfig) (x : ℕ) (t : Eval) (k : ℕ)
    → k ≢ 8
    → k ≢ 7
    → k ≢ 6
    → Mask.test k (eval_fault d x (eval_battery d c (eval_gas d c t))).flags ≡ Mask.test k t.flags
late_frame d c x t k p q r =
    fault_frame d x (eval_battery d c (eval_gas d c t)) k r
    ∙ battery_frame d c (eval_gas d c t) k q
    ∙ gas_frame d c t k p

module _ (d : SensorData) (c : TagConfig) (x : ℕ) (e : Eval) where
  gas_edge :
      let t = eval_temp_rh d c e in
      let g = eval_gas d c t in
      edge 8 e.flags (eval_fault d x (eval_battery d c g)).flags (gas_event d)
      ≡ edge 8 t.flags g.flags (gas_event d)
  gas_edge =
      let t = eval_temp_rh d c e in
      let g = eval_gas d c t in
      edge_congr 8 t.flags g.flags e.flags (eval_fault d x (eval_battery d c g)).flags (gas_event d)
        (sym (temp_rh_frame d c e 8 (omega arith) (omega arith) (omega arith)))
        (fault_frame d x (eval_battery d c g) 8 (omega arith) ∙ battery_frame d c g 8 (omega arith))

  battery_edge :
      let g = eval_gas d c (eval_temp_rh d c e) in
      let b = eval_battery d c g in
      edge 7 e.flags (eval_fault d x b).flags (battery_event d)
      ≡ edge 7 g.flags b.flags (battery_event d)
  battery_edge =
      let t = eval_temp_rh d c e in
      let g = eval_gas d c t in
      let b = eval_battery d c g in
      edge_congr 7 g.flags b.flags e.flags (eval_fault d x b).flags (battery_event d)
        (sym (temp_rh_frame d c e 7 (omega arith) (omega arith) (omega arith))
          ∙ sym (gas_frame d c t 7 (omega arith)))
        (fault_frame d x b 7 (omega arith))

  fault_edge :
      let b = eval_battery d c (eval_gas d c (eval_temp_rh d c e)) in
      edge 6 e.flags (eval_fault d x b).flags (fault_event d)
      ≡ edge 6 b.flags (eval_fault d x b).flags (fault_event d)
  fault_edge =
      let t = eval_temp_rh d c e in
      let g = eval_gas d c t in
      let b = eval_battery d c g in
      edge_congr 6 b.flags (eval_fault d x b).flags e.flags (eval_fault d x b).flags (fault_event d)
        (sym (temp_rh_frame d c e 6 (omega arith) (omega arith) (omega arith))
          ∙ sym (gas_frame d c t 6 (omega arith))
          ∙ sym (battery_frame d c g 6 (omega arith)))
        refl

-- The events of one sample, started with an empty buffer that can be written: exactly one for each alarm bit that is
-- clear before the sample and set after it, in the order high temperature, low temperature,
-- humidity, gas, battery, fault, each with its severity and its reading; the limit of eight events
-- drops none of them.
pub eval-events :
    (d : SensorData) (c : TagConfig) (x : ℕ) (e : Eval)
    → e.out.writable ≡ true
    → e.out.items ≡ []
    → let after = eval d c x e in
      (after.out.items
        ≡ climate_edges d e.flags after.flags
          ++ (edge 8 e.flags after.flags (gas_event d)
              ++ (edge 7 e.flags after.flags (battery_event d)
                  ++ edge 6 e.flags after.flags (fault_event d))))
      × (length after.out.items ≤ 5)
unfolding eval
eval-events d c x e w h =
    let t = eval_temp_rh d c e in
    let g = eval_gas d c t in
    let b = eval_battery d c g in
    let f = eval_fault d x b in
    let (tw, ti, tl) = temp_rh-items d c e w (rw h (omega arith)) in
    let none_yet : length e.out.items ≡ 0 = ap length h in
    let (gw, gi, gl) = gas-items d c t tw (omega arith) in
    let (bw, bi, bl) = battery-items d c g gw (omega arith) in
    let (fi, fl) = fault-items d c b bw x (omega arith) in
    let late = late_frame d c x t in
    (
      grind (
        arith,
        append_assoc,
        nil_append,
        edge_congr 0 e.flags t.flags e.flags f.flags (climate_event d temp_high) refl
            (late 0 (omega arith) (omega arith) (omega arith)),
        edge_congr 1 e.flags t.flags e.flags f.flags (climate_event d temp_low) refl
            (late 1 (omega arith) (omega arith) (omega arith)),
        edge_congr 2 e.flags t.flags e.flags f.flags (humidity_event d) refl
            (late 2 (omega arith) (omega arith) (omega arith)),
        gas_edge d c x e,
        battery_edge d c x e,
        fault_edge d c x e,
      ),
      omega arith,
    )
