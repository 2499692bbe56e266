-- ===== src/Gatt/Attributes/Consistent.antt =====
-- The attribute table says of each characteristic what its declaration says.
use esp32_remot_control.Prelude.{◌+◌, ◌≡◌, Bool, true, false, ◌||◌, arith}
use esp32_remot_control.Gatt.Attributes.{
  Index, position, idx_rx_char, Properties, Attribute, Uuid, client_config, efbe, properties,
  gatt_build_attr_table,
}

abbrev is_configuration : Uuid → Bool
is_configuration client_config = true
is_configuration _ = false

abbrev is_value : Uuid → Bool
is_value (efbe n) = true
is_value _ = false

-- Of the declaration with the properties p, the attribute behind it.
pub record Declares (p : Properties) (v : Attribute) : Type 0 where
  pub a_value : is_value v.uuid ≡ true
  pub reads : v.readable ≡ p.can_read
  pub writes : v.writable ≡ (p.can_write || p.can_write_nr)

-- What stands behind the table's row i.
pub record Described (i : Index) (p : Properties) : Type 0 where
  pub declares : (v : Index) → position v ≡ position i + 1 → Declares p (gatt_build_attr_table v)
  pub configures :
      (c : Index)
      → position c ≡ position i + 2
      → is_configuration (gatt_build_attr_table c).uuid ≡ p.can_notify

declares_lem :
    (i : Index) (p : Properties)
    → (gatt_build_attr_table i).value ≡ properties p
    → (v : Index) → position v ≡ position i + 1
    → Declares p (gatt_build_attr_table v)
unfolding gatt_build_attr_table
declares_lem idx_rx_char p e v h = ground arith
declares_lem _ p e v h = ground arith

configures_lem :
    (i : Index) (p : Properties)
    → (gatt_build_attr_table i).value ≡ properties p
    → (c : Index) → position c ≡ position i + 2
    → is_configuration (gatt_build_attr_table c).uuid ≡ p.can_notify
unfolding gatt_build_attr_table
configures_lem idx_rx_char p e c h = ground arith
configures_lem _ p e c h = ground arith

-- Behind the declaration of every characteristic stands its value, which can be read and written as
-- the properties say, and behind that a client configuration just where they say that it notifies.
pub gatt_build_attr_table-Described :
    (i : Index) (p : Properties) → (gatt_build_attr_table i).value ≡ properties p → Described i p
gatt_build_attr_table-Described i p e = record {
  declares = declares_lem i p e;
  configures = configures_lem i p e;
}
