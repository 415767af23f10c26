-- ===== src/Ble/Gatt/Table.antt =====
-- The service table of src/ble/ble_gatt.c, and the check of it at start-up.
--
-- BT_GATT_CHARACTERISTIC stands for two attributes, the declaration and the value. A characteristic is
-- named by the number that its UUID is made from.
use nrf54l15_tag.Common.{ℕ, zero, suc, ◌+◌, ◌≡◌, refl, List, [], ◌∷◌, Option, none, some}
use nrf54l15_tag.Ble.Gatt.{BleChar, sensor_data, status, event, log_data, command}

pub data Attribute : Type 0 where
  primary_service : Attribute
  declaration value : ℕ → Attribute
  ccc : BleChar → Attribute

abbrev pub characteristic : ℕ → List Attribute → List Attribute
characteristic uuid rest = declaration uuid ∷ value uuid ∷ rest

-- smart_tag_svc
unfoldable pub service_table : List Attribute
service_table =
    primary_service
    ∷ characteristic 1 (
        ccc sensor_data
        ∷ characteristic 2 (
            ccc status
            ∷ characteristic 3 (
                characteristic 4 (
                  ccc event
                  ∷ characteristic 5 (
                      characteristic 6 (
                        characteristic 7 (
                          ccc log_data ∷ characteristic 8 (ccc command ∷ characteristic 9 []))))))))

-- attr_index
unfoldable pub attr_index : BleChar → ℕ
attr_index sensor_data = 2
attr_index status = 5
attr_index event = 10
attr_index log_data = 17
attr_index command = 20

-- attr_uuid
unfoldable pub attr_uuid : BleChar → ℕ
attr_uuid sensor_data = 1
attr_uuid status = 2
attr_uuid event = 4
attr_uuid log_data = 7
attr_uuid command = 8

abbrev pub attribute_at : ℕ → List Attribute → Option Attribute
attribute_at n [] = none
attribute_at zero (a ∷ rest) = some a
attribute_at (suc n) (a ∷ rest) = attribute_at n rest

-- A characteristic that the notifications go to is a value with the UUID that is meant, and its
-- subscription is the attribute behind it.
pub attr_index_lem :
    (which : BleChar)
    → (attribute_at (attr_index which) service_table ≡ some (value (attr_uuid which)))
      × (attribute_at (attr_index which + 1) service_table ≡ some (ccc which))
unfolding attr_index attr_uuid service_table
attr_index_lem sensor_data = (refl, refl)
attr_index_lem status = (refl, refl)
attr_index_lem event = (refl, refl)
attr_index_lem log_data = (refl, refl)
attr_index_lem command = (refl, refl)
