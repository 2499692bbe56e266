-- ===== src/Command/Fixtures.antt =====
-- A board and its clients for the tests.
use esp32_remot_control.Prelude.{true, false, none, some, [], codes}
use esp32_remot_control.Esp.{esp_ok}
use esp32_remot_control.Wifi.Credentials.{written}
use esp32_remot_control.System.Fixtures.{booted, settled_platform}
use esp32_remot_control.Command.{tcp, Context, Board, Environment}

abbrev pub env : Environment
env = record {
  platform = settled_platform;
  auth_readable = true;
  auth_saved = esp_ok;
  wifi_saved = written;
  random = 5;
  described = codes "1.0";
  project_ver = none;
  label = λ _. codes "ota_0";
}

abbrev pub board : Board
board = record {
  device = booted;
  token = record { s_auth_token = codes "secret"; s_auth_loaded = true; stored = none };
  station = record { saved = none; ssid = []; password = []; wpa2 = false };
  bus = some [];
  out = [];
}

abbrev pub guest : Context
guest = record { authed = false; xport = tcp; link = 3 }

abbrev pub owner : Context
owner = record { authed = true; xport = tcp; link = 4 }
