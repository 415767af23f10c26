-- ===== src/Alarms/Repeat.antt =====
-- Latching in src/app/app_alarms.c: a sample that comes again raises nothing.
use nrf54l15_tag.Common.{ℕ, zero, suc, ◌≡◌, ◌≢◌, refl, true, [], some, arith, ◌∙◌}
use nrf54l15_tag.Common.Mask
use nrf54l15_tag.SmartTag.{SensorData, TagConfig}
use nrf54l15_tag.Alarms.{AlarmEvent, EventBuffer, Eval, eval, app_alarms_eval}
use nrf54l15_tag.Alarms.Stages.{latch}
use nrf54l15_tag.Alarms.Policy.{eval-flags, eval-frame}
use nrf54l15_tag.Alarms.Edges.{edge}
use nrf54l15_tag.Alarms.Events.{eval-events}

-- Where a second look finds every bit as the first left it, no edge is seen.
edge_same : (k a b : ℕ) (v : AlarmEvent) → Mask.test k b ≡ Mask.test k a → edge k a b v ≡ []
unfolding edge
edge_same k a b v h = ground arith

module _ (d : SensorData) (c : TagConfig) (x : ℕ) (e r : Eval)
    (same : r.flags ≡ (eval d c x e).flags) where
  repeat-temp_high : Mask.test 0 (eval d c x r).flags ≡ Mask.test 0 r.flags
  unfolding latch
  repeat-temp_high = ground (arith, (eval-flags d c x e).0, (eval-flags d c x r).0, same)

  repeat-temp_low : Mask.test 1 (eval d c x r).flags ≡ Mask.test 1 r.flags
  unfolding latch
  repeat-temp_low = ground (arith, (eval-flags d c x e).1, (eval-flags d c x r).1, same)

  repeat-humidity : Mask.test 2 (eval d c x r).flags ≡ Mask.test 2 r.flags
  unfolding latch
  repeat-humidity = ground (arith, (eval-flags d c x e).2, (eval-flags d c x r).2, same)

  repeat-gas : Mask.test 8 (eval d c x r).flags ≡ Mask.test 8 r.flags
  unfolding latch
  repeat-gas = ground (arith, (eval-flags d c x e).3, (eval-flags d c x r).3, same)

  repeat-battery : Mask.test 7 (eval d c x r).flags ≡ Mask.test 7 r.flags
  unfolding latch
  repeat-battery = ground (arith, (eval-flags d c x e).4, (eval-flags d c x r).4, same)

  repeat-fault : Mask.test 6 (eval d c x r).flags ≡ Mask.test 6 r.flags
  repeat-fault = ground (arith, (eval-flags d c x e).5, (eval-flags d c x r).5, same)

  repeat-other :
      (j : ℕ)
      → (j ≢ 0) × (j ≢ 1) × (j ≢ 2) × (j ≢ 6) × (j ≢ 7) × (j ≢ 8)
      → Mask.test j (eval d c x r).flags ≡ Mask.test j r.flags
  repeat-other j h = eval-frame d c x r j h

  repeat-flags : (j : ℕ) → Mask.test j (eval d c x r).flags ≡ Mask.test j r.flags
  repeat-flags zero = repeat-temp_high
  repeat-flags (suc zero) = repeat-temp_low
  repeat-flags (suc (suc zero)) = repeat-humidity
  repeat-flags (suc (suc (suc zero))) = repeat-other 3 (omega arith)
  repeat-flags (suc (suc (suc (suc zero)))) = repeat-other 4 (omega arith)
  repeat-flags (suc (suc (suc (suc (suc zero))))) = repeat-other 5 (omega arith)
  repeat-flags (suc (suc (suc (suc (suc (suc zero)))))) = repeat-fault
  repeat-flags (suc (suc (suc (suc (suc (suc (suc zero))))))) = repeat-battery
  repeat-flags (suc (suc (suc (suc (suc (suc (suc (suc zero)))))))) = repeat-gas
  repeat-flags (suc (suc (suc (suc (suc (suc (suc (suc (suc j))))))))) =
      repeat-other (suc (suc (suc (suc (suc (suc (suc (suc (suc j))))))))) (omega arith)

  repeat-events : r.out.writable ≡ true → r.out.items ≡ [] → (eval d c x r).out.items ≡ []
  repeat-events w h =
      let f = (eval d c x r).flags in
      (eval-events d c x r w h).0
      ∙ rw (
        edge_same 0 r.flags f _ (repeat-flags 0),
        edge_same 1 r.flags f _ (repeat-flags 1),
        edge_same 2 r.flags f _ (repeat-flags 2),
        edge_same 8 r.flags f _ (repeat-flags 8),
        edge_same 7 r.flags f _ (repeat-flags 7),
        edge_same 6 r.flags f _ (repeat-flags 6),
      )

-- With a buffer for the events, the evaluation of a sample gives flags; evaluating the same sample a
-- second time with those, under the same configuration, raises no event and leaves every alarm bit
-- as the first evaluation left it.
pub app_alarms_eval-repeat :
    (d : SensorData) (c : TagConfig) (x flags j : ℕ) (b : EventBuffer)
    → b.writable ≡ true
    → (f : ℕ) × (g : ℕ) × ((app_alarms_eval (some d) (some c) x (some flags) b).0 ≡ some f)
      × ((app_alarms_eval (some d) (some c) x (some f) b).0 ≡ some g)
      × ((app_alarms_eval (some d) (some c) x (some f) b).1.items ≡ [])
      × (Mask.test j g ≡ Mask.test j f)
unfolding app_alarms_eval
app_alarms_eval-repeat d c x flags j b w =
    let e : Eval = record { flags = flags; out = record b { items = [] } } in
    let f = (eval d c x e).flags in
    let r : Eval = record e { flags = f } in
    (
      f,
      (eval d c x r).flags,
      refl,
      refl,
      repeat-events d c x e r refl w refl,
      repeat-flags d c x e r refl j,
    )
