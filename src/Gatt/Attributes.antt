-- ===== src/Gatt/Attributes.antt =====
-- gatt_attrs.c, with the indexes of gatt_priv.h and the UUIDs of ble_ids.c: the attribute table that is
-- given to Bluedroid, and the handles that it answers with. The bit masks of ESP-IDF (properties,
-- permissions, how a request is answered) are records of flags.
pub mod Consistent
pub mod Handles
use esp32_remot_control.Prelude.{
  ℕ, zero, suc, ◌+◌, ◌*◌, Bool, true, false, not, ◌&&◌, List, [], ◌∷◌, Bytes, codes, length, ltb,
  ◌==◌, if◌then◌else◌,
}

-- The enumeration of the attributes.
pub data Index : Type 0 where
  idx_svc idx_rx_char idx_rx_val idx_tx_char idx_tx_val idx_tx_ccc idx_wifi_char : Index
  idx_wifi_val idx_errsrc_char idx_errsrc_val idx_errsrc_ccc idx_alert_char idx_alert_val : Index
  idx_alert_ccc idx_ota_ctrl_char idx_ota_ctrl_val idx_ota_data_char idx_ota_data_val : Index
  idx_dht_char idx_dht_val idx_dht_ccc : Index

-- The value that C gives an index.
abbrev pub position : Index → ℕ
position idx_svc = 0
position idx_rx_char = 1
position idx_rx_val = 2
position idx_tx_char = 3
position idx_tx_val = 4
position idx_tx_ccc = 5
position idx_wifi_char = 6
position idx_wifi_val = 7
position idx_errsrc_char = 8
position idx_errsrc_val = 9
position idx_errsrc_ccc = 10
position idx_alert_char = 11
position idx_alert_val = 12
position idx_alert_ccc = 13
position idx_ota_ctrl_char = 14
position idx_ota_ctrl_val = 15
position idx_ota_data_char = 16
position idx_ota_data_val = 17
position idx_dht_char = 18
position idx_dht_val = 19
position idx_dht_ccc = 20

-- `EFBE_IDX_NB`
abbrev pub efbe_idx_nb : ℕ
efbe_idx_nb = 21

-- `ESP_GATT_CHAR_PROP_BIT_...`
pub record Properties : Type 0 where
  pub can_read : Bool
  pub can_write_nr : Bool
  pub can_write : Bool
  pub can_notify : Bool

abbrev pub rx_props : Properties
rx_props = record { can_read = false; can_write_nr = true; can_write = true; can_notify = false }

abbrev pub tx_props : Properties
tx_props = record { can_read = true; can_write_nr = false; can_write = false; can_notify = true }

abbrev pub wifi_props : Properties
wifi_props = record { can_read = false; can_write_nr = false; can_write = true; can_notify = false }

abbrev pub errsrc_props : Properties
errsrc_props = record {
  can_read = true;
  can_write_nr = false;
  can_write = false;
  can_notify = true;
}

abbrev pub alert_props : Properties
alert_props = record { can_read = true; can_write_nr = false; can_write = false; can_notify = true }

abbrev pub ota_ctrl_props : Properties
ota_ctrl_props = record {
  can_read = false;
  can_write_nr = false;
  can_write = true;
  can_notify = false;
}

abbrev pub ota_data_props : Properties
ota_data_props = record {
  can_read = false;
  can_write_nr = true;
  can_write = false;
  can_notify = false;
}

abbrev pub dht_props : Properties
dht_props = record { can_read = true; can_write_nr = false; can_write = false; can_notify = true }

-- The 128-bit UUIDs of this service differ in one byte.
unfoldable pub efbe_uuid : ℕ → Bytes
efbe_uuid n =
    0x56 ∷ 0x49 ∷ 0x43 ∷ 0x45 ∷ 0x45 ∷ 0x49 ∷ 0x4B ∷ 0xFB ∷ 0xFB ∷ 0xFB ∷ 0xFB ∷ 0xFB ∷ 0x00 ∷ n
    ∷ 0xBE ∷ 0xEF ∷ []

-- The type of an attribute: a 16-bit one of the standard, or the UUID of a value.
pub data Uuid : Type 0 where
  primary_service character_declaration client_config : Uuid
  efbe : ℕ → Uuid

-- The initial value: none, a service, properties, or bytes that are kept.
pub data Initial : Type 0 where
  no_value : Initial
  service : Bytes → Initial
  properties : Properties → Initial
  stored : Bytes → Initial

-- `esp_gatts_attr_db_t`; `by_app` is ESP_GATT_RSP_BY_APP, in place of ESP_GATT_AUTO_RSP.
pub record Attribute : Type 0 where
  pub by_app : Bool
  pub uuid : Uuid
  pub readable : Bool
  pub writable : Bool
  pub max_length : ℕ
  pub value_length : ℕ
  pub value : Initial

-- The four kinds of the table's rows.
abbrev pub declaration : Properties → Attribute
declaration p = record {
  by_app = false;
  uuid = character_declaration;
  readable = true;
  writable = false;
  max_length = 1;
  value_length = 1;
  value = properties p;
}

-- A client configuration: two bytes, both 0.
abbrev pub configuration : Attribute
configuration = record {
  by_app = false;
  uuid = client_config;
  readable = true;
  writable = true;
  max_length = 2;
  value_length = 2;
  value = stored (0 ∷ 0 ∷ []);
}

abbrev pub written_value : ℕ → ℕ → Attribute
written_value n max = record {
  by_app = false;
  uuid = efbe n;
  readable = false;
  writable = true;
  max_length = max;
  value_length = 0;
  value = no_value;
}

abbrev pub read_value : Bool → ℕ → ℕ → Attribute
read_value by_app n max = record {
  by_app = by_app;
  uuid = efbe n;
  readable = true;
  writable = false;
  max_length = max;
  value_length = 0;
  value = no_value;
}

-- `db` in `gatt_build_attr_table`
unfoldable pub gatt_build_attr_table : Index → Attribute
unfolding efbe_uuid
gatt_build_attr_table idx_svc = record {
  by_app = false;
  uuid = primary_service;
  readable = true;
  writable = false;
  max_length = 16;
  value_length = 16;
  value = service (efbe_uuid 0);
}
gatt_build_attr_table idx_rx_char = declaration rx_props
gatt_build_attr_table idx_rx_val = written_value 1 512
gatt_build_attr_table idx_tx_char = declaration tx_props
gatt_build_attr_table idx_tx_val = read_value false 2 512
gatt_build_attr_table idx_tx_ccc = configuration
gatt_build_attr_table idx_wifi_char = declaration wifi_props
gatt_build_attr_table idx_wifi_val = written_value 3 128
gatt_build_attr_table idx_errsrc_char = declaration errsrc_props
gatt_build_attr_table idx_errsrc_val = read_value false 4 64
gatt_build_attr_table idx_errsrc_ccc = configuration
gatt_build_attr_table idx_alert_char = declaration alert_props
gatt_build_attr_table idx_alert_val = read_value false 5 128
gatt_build_attr_table idx_alert_ccc = configuration
gatt_build_attr_table idx_ota_ctrl_char = declaration ota_ctrl_props
gatt_build_attr_table idx_ota_ctrl_val = written_value 6 512
gatt_build_attr_table idx_ota_data_char = declaration ota_data_props
gatt_build_attr_table idx_ota_data_val = written_value 7 512
gatt_build_attr_table idx_dht_char = declaration dht_props
gatt_build_attr_table idx_dht_val = read_value true 8 64
gatt_build_attr_table idx_dht_ccc = configuration

-- The value of a client configuration, little-endian; nothing is 0.
unfoldable pub gatt_ccc_decode : Bytes → ℕ
gatt_ccc_decode [] = 0
gatt_ccc_decode (lo ∷ []) = lo
gatt_ccc_decode (lo ∷ hi ∷ rest) = lo + hi * 256

-- The elements of an array: 0 beyond its end, as in static storage that nothing has set.
abbrev pub at : List ℕ → ℕ → ℕ
at [] i = 0
at (h ∷ t) zero = h
at (h ∷ t) (suc i) = at t i

-- `gatt_handle_table[i]`
abbrev pub handle_of : List ℕ → Index → ℕ
handle_of table i = at table (position i)
