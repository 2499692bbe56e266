-- ===== src/Boot/Examples.antt =====
-- A boot for the tests, and instances of the theorems on boots and on the credentials they load.
use esp32_remot_control.Prelude.{Bytes, ◌≡◌, refl, true, false, none, some, [], codes, arith}
use esp32_remot_control.Esp.{esp_ok, invalid_state}
use esp32_remot_control.Device.{Device}
use esp32_remot_control.Errsrc.{es_no_creds}
use esp32_remot_control.System.Fixtures.{booted, factory, settled_platform}
use esp32_remot_control.Wifi.{sta_start, wifi_evt, report}
use esp32_remot_control.Wifi.Credentials.{Station, is_nonempty, written, wifi_set_credentials}
use esp32_remot_control.Wifi.Start.{WifiCalls, wifi_start, wifi_start_restores, long_ssid_lost}
use esp32_remot_control.Command.Fixtures.{board}
use esp32_remot_control.Boot.{Machine, BootEnv, nvs_ready}
use esp32_remot_control.Boot.Started.{Started}

abbrev flashed : Machine
flashed = record {
  board = record board { device = booted; bus = none };
  peripherals = record {
    led_level = 1;
    dht = record {
      inited = false;
      def_period_ms = 0;
      stream_on = false;
      period_ms = 0;
      last_tick = 0;
      last = record { valid = false; temp_c = 0; rh = 0 };
      task = false;
      woken = false;
    };
    answers = [];
  };
  worker = false;
  router = false;
}

abbrev all_fine : WifiCalls
all_fine = record {
  netif_init = esp_ok;
  event_loop = invalid_state;
  sta_netif = true;
  wifi_init = esp_ok;
  timer_create = esp_ok;
  wifi_handler = esp_ok;
  got_ip_handler = esp_ok;
  lost_ip_handler = esp_ok;
  set_wifi_mode = esp_ok;
  set_config = esp_ok;
  start = esp_ok;
}

abbrev boot_env : BootEnv
boot_env = record {
  nvs_init = nvs_ready;
  nvs_erase = esp_ok;
  nvs_again = nvs_ready;
  running = some factory;
  wifi_readable = true;
  now = 7;
  sys_queue_created = true;
  worker_created = true;
  bus_created = true;
  sampler_created = true;
  router_created = true;
  led_configured = esp_ok;
  wifi = all_fine;
}

abbrev station : Station
station = record { saved = none; ssid = []; password = []; wpa2 = false }

wifi_start_restores_example :
    (after : Device × Station) × (wifi_start all_fine true none none
        (booted, record station { saved = some (codes "home", codes "secret") })
      ≡ some after)
    × (after.1
        ≡ (wifi_set_credentials written 5 (codes "home") (codes "secret") (booted, station)).1)
unfolding wifi_set_credentials
wifi_start_restores_example =
    wifi_start_restores all_fine 5 (codes "home") (codes "secret") booted station booted
      (record station { saved = some (codes "home", codes "secret") }) refl (omega arith)
      (omega arith) refl

abbrev long_ssid : Bytes
long_ssid = codes "a network with a name of 32 byte"

long_ssid_lost_example :
    (d' : Device) × (w' : Station) × (wifi_start all_fine true none none
        (booted, record station { saved = some (long_ssid, codes "secret") })
      ≡ some (d', w'))
    × (w'.ssid ≡ [])
    × (w'.password ≡ [])
    × (wifi_evt settled_platform 5 (sta_start (is_nonempty w'.ssid)) d'
        ≡ report settled_platform es_no_creds d')
long_ssid_lost_example =
    long_ssid_lost all_fine settled_platform 5 long_ssid (codes "secret") booted
      (record station { saved = some (long_ssid, codes "secret") }) refl refl (omega arith)
