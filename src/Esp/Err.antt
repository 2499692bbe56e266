-- ===== src/Esp/Err.antt =====
-- `esp_err_t`, with the codes that the sources name.
use esp32_remot_control.Prelude.{◌≡◌, ◌≢◌, Bool, true, false, arith}

pub data EspErr : Type 0 where
  esp_ok esp_fail no_mem invalid_arg invalid_state invalid_size not_found invalid_crc : EspErr
  other : EspErr

-- `e == ESP_OK`
abbrev pub is_ok : EspErr → Bool
is_ok esp_ok = true
is_ok _ = false

-- `e == ESP_ERR_INVALID_CRC`
abbrev pub is_invalid_crc : EspErr → Bool
is_invalid_crc invalid_crc = true
is_invalid_crc _ = false

-- `e == ESP_ERR_INVALID_STATE`
abbrev pub is_invalid_state : EspErr → Bool
is_invalid_state invalid_state = true
is_invalid_state _ = false

pub is_ok-ne : (e : EspErr) → e ≢ esp_ok → is_ok e ≡ false
is_ok-ne e h = ground arith

pub is_ok-eq : (e : EspErr) → is_ok e ≡ true → e ≡ esp_ok
is_ok-eq e h = ground arith
