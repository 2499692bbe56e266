-- ===== src/Gatt/Server/Values.antt =====
-- The texts of the values that can be read.
use esp32_remot_control.Prelude.{ℕ, ◌∷◌, ◌++◌, Bytes, codes, take, if◌then◌else◌}
use esp32_remot_control.Print.{print_u}
use esp32_remot_control.Alerts.{
  Alert, AlertCode, alert_none, alert_ota_apply_fail, alert_ota_verify_fail,
  alert_rollback_executed, alert_watchdog_reset, alert_flash_write_error, alert_fs_mount_fail,
  alert_image_invalid, alert_tcp_fatal, alert_ble_fatal,
}
use esp32_remot_control.Dht.{Sample}

-- The value that C gives an alert code.
abbrev pub alert_number : AlertCode → ℕ
alert_number alert_none = 0
alert_number alert_ota_apply_fail = 1
alert_number alert_ota_verify_fail = 2
alert_number alert_rollback_executed = 3
alert_number alert_watchdog_reset = 4
alert_number alert_flash_write_error = 5
alert_number alert_fs_mount_fail = 6
alert_number alert_image_invalid = 7
alert_number alert_tcp_fatal = 8
alert_number alert_ble_fatal = 9

-- "ALERT seq=%u code=%u %s", into 128 bytes.
unfoldable pub alert_line : Alert → Bytes
alert_line a = take 127 (
    codes "ALERT seq="
    ++ (print_u a.seq ++ (codes " code=" ++ (print_u (alert_number a.code) ++ (b' ' ∷ a.detail)))))

-- "DHT T=%.1fC RH=%.1f%% age=%ums", of whole values, or "DHT NA"; 64 bytes are enough.
unfoldable pub dht_line : Sample → ℕ → Bytes
dht_line s age_ms =
    if s.valid
    then codes "DHT T="
      ++ (print_u s.temp_c
          ++ (codes ".0C RH="
              ++ (print_u s.rh ++ (codes ".0% age=" ++ (print_u age_ms ++ codes "ms")))))
    else codes "DHT NA"
