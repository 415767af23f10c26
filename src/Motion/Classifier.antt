-- ===== src/Motion/Classifier.antt =====
-- src/motion/motion_classifier.c: "is it moving" and "which way is up", with no state.
use nrf54l15_tag.Common.{
  ℕ, ◌/◌, ◌<◌, ◌≤◌, ◌≡◌, ◌≢◌, ◌⊎◌, refl, inl, inr, Bool-cases, ltb→lt, true, false, ℤ, pos, ◌-ℤ◌,
  Bool, ◌&&◌, ltb, leb, ltb_ℤ, nat_abs, pos_part, if◌then◌else◌, arith,
}
use nrf54l15_tag.SmartTag.{
  SensorData, Orientation, unknown, x_up, x_down, y_up, y_down, z_up, z_down, one_g_mg,
}

abbrev pub orientation_min_mg : ℕ
orientation_min_mg = one_g_mg / 2

-- motion_classifier_deviation
unfoldable pub deviation : SensorData → ℤ
deviation d = pos d.magnitude_mg -ℤ pos one_g_mg

-- motion_classifier_is_active
unfoldable pub is_active : SensorData → ℕ → Bool
is_active d threshold_mg = ltb threshold_mg (nat_abs (deviation d))

-- `az >= ax && az >= ay && az > ORIENTATION_MIN_MG`, and the same of `ay`.
abbrev pub dominates : ℕ → ℕ → ℕ → Bool
dominates a b c = leb b a && leb c a && ltb orientation_min_mg a

-- motion_classifier_orientation
unfoldable pub classify_orientation : SensorData → Orientation
classify_orientation d =
    let ax = nat_abs d.accel_x_mg in
    let ay = nat_abs d.accel_y_mg in
    let az = nat_abs d.accel_z_mg in
    if dominates az ax ay
    then (if ltb_ℤ (pos 0) d.accel_z_mg then z_up else z_down)
    else if dominates ay ax az
    then (if ltb_ℤ (pos 0) d.accel_y_mg then y_up else y_down)
    else if ltb orientation_min_mg ax
    then (if ltb_ℤ (pos 0) d.accel_x_mg then x_up else x_down)
    else unknown

-- How far an orientation's own axis points its way, in milli-g.
abbrev pub upward : Orientation → SensorData → ℤ
upward unknown d = pos 0
upward x_up d = d.accel_x_mg
upward x_down d = pos 0 -ℤ d.accel_x_mg
upward y_up d = d.accel_y_mg
upward y_down d = pos 0 -ℤ d.accel_y_mg
upward z_up d = d.accel_z_mg
upward z_down d = pos 0 -ℤ d.accel_z_mg

abbrev pub IsDominant : Orientation → SensorData → Type 0
IsDominant o d =
    (500 < pos_part (upward o d))
    × (nat_abs d.accel_x_mg ≤ pos_part (upward o d))
    × (nat_abs d.accel_y_mg ≤ pos_part (upward o d))
    × (nat_abs d.accel_z_mg ≤ pos_part (upward o d))

abbrev pub IsShort : SensorData → Type 0
IsShort d =
    (nat_abs d.accel_x_mg ≤ 500) × (nat_abs d.accel_y_mg ≤ 500) × (nat_abs d.accel_z_mg ≤ 500)

known_or_unknown : (o : Orientation) → (o ≡ unknown) ⊎ (o ≢ unknown)
known_or_unknown unknown = inl refl
known_or_unknown _ = inr (λ e. cc)

-- The branch of each axis, and the last one.
module _ (d : SensorData) where
  abbrev z_leads : Bool
  z_leads = dominates (nat_abs d.accel_z_mg) (nat_abs d.accel_x_mg) (nat_abs d.accel_y_mg)

  abbrev y_leads : Bool
  y_leads = dominates (nat_abs d.accel_y_mg) (nat_abs d.accel_x_mg) (nat_abs d.accel_z_mg)

  z_branch : z_leads ≡ true → IsDominant (if ltb_ℤ (pos 0) d.accel_z_mg then z_up else z_down) d
  unfolding ◌-ℤ◌
  z_branch h = ground arith

  y_branch : y_leads ≡ true → IsDominant (if ltb_ℤ (pos 0) d.accel_y_mg then y_up else y_down) d
  unfolding ◌-ℤ◌
  y_branch h = ground arith

  y-le-x :
      z_leads ≡ false
      → y_leads ≡ false
      → 500 < nat_abs d.accel_x_mg
      → (nat_abs d.accel_y_mg ≤ nat_abs d.accel_x_mg)
        × (nat_abs d.accel_z_mg ≤ nat_abs d.accel_x_mg)
  y-le-x nz ny x = ground arith

  x_branch :
      (nat_abs d.accel_y_mg ≤ nat_abs d.accel_x_mg) × (nat_abs d.accel_z_mg ≤ nat_abs d.accel_x_mg)
      → 500 < nat_abs d.accel_x_mg
      → IsDominant (if ltb_ℤ (pos 0) d.accel_x_mg then x_up else x_down) d
  unfolding ◌-ℤ◌
  x_branch h l = ground arith

  unknown-IsShort : classify_orientation d ≡ unknown → IsShort d
  unfolding classify_orientation
  unknown-IsShort h = ground arith

  known-IsDominant : classify_orientation d ≢ unknown → IsDominant (classify_orientation d) d
  unfolding classify_orientation
  known-IsDominant h = elim (Bool-cases z_leads) [
    | inl z ↦ rw z (z_branch z)
    | inr nz ↦ elim (Bool-cases y_leads) [
      | inl y ↦ rw (nz, y) (y_branch y)
      | inr ny ↦ elim (Bool-cases (ltb orientation_min_mg (nat_abs d.accel_x_mg))) [
        | inl x ↦ rw (nz, ny, x) (x_branch (y-le-x nz ny (ltb→lt _ _ x)) (ltb→lt _ _ x))
        | inr nx ↦ absurd (h (rw (nz, ny, nx)))
      ]
    ]
  ]

-- The orientation of a sample is unknown and no axis is longer than half a g, or it names an axis
-- with its sign that points that way by more than half a g and is as long as each axis.
pub classify_orientation_lem :
    (d : SensorData)
    → (classify_orientation d ≡ unknown) × IsShort d ⊎ IsDominant (classify_orientation d) d
classify_orientation_lem d = elim (known_or_unknown (classify_orientation d)) [
  | inl u ↦ inl (u, unknown-IsShort d u)
  | inr k ↦ inr (known-IsDominant d k)
]
