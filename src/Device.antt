-- ===== src/Device.antt =====
-- The state that the coordinating components share (components/syscoord, components/monitor,
-- components/net/wifi, and the components they call), and what ESP-IDF answers them. A function
-- of the source is a function on the whole state; the tasks interleave at whole functions.
use esp32_remot_control.Prelude.{ℕ, Bool, Option, List, Bytes}
use esp32_remot_control.Esp.{EspErr, Partition, ImageState}
use esp32_remot_control.Mode.{Mode}
use esp32_remot_control.Errsrc.{Errsrc}
use esp32_remot_control.Alerts.{Alerts}
use esp32_remot_control.Bootflag.{Nvs}
use esp32_remot_control.Fallback.{Fb}
use esp32_remot_control.Monitor.{Monitor}

-- The Wi-Fi statics: `s_retries`, the period of the reconnect timer in ticks while it runs, and the timer
-- that starts the TCP server, once it exists: whether it runs.
pub record Wifi : Type 0 where
  pub s_retries : ℕ
  pub reconnect_in : Option ℕ
  pub tcp_timer : Option Bool

-- `recoveries` is the number of `SYS_EVT_ENTER_RECOVERY` in the queue, once that exists. `boot` is
-- the partition that `esp_ota_set_boot_partition` has last set here, `confirms` counts the calls
-- that mark the image valid, and `statuses` are the lines for the status characteristic.
pub record Device : Type 0 where
  pub mode : Mode
  pub tcp_authed : Bool
  pub recoveries : Option ℕ
  pub monitor : Monitor
  pub fb : Fb
  pub nvs : Nvs
  pub alerts : Alerts
  pub errsrc : Errsrc
  pub wifi : Wifi
  pub boot : Option Partition
  pub confirms : ℕ
  pub statuses : List Bytes

-- What ESP-IDF answers. `state_of` is given the number of confirmations so far. Partitions are
-- told apart by their addresses. The official rollback reboots (none) or returns an error; `set_boot` is
-- what `esp_ota_set_boot_partition` answers.
pub record Platform : Type 0 where
  pub running_partition : Option Partition
  pub state_of : ℕ → Partition → Option ImageState
  pub find_first : ℕ → Option Partition
  pub official_rollback : Option EspErr
  pub set_boot : Partition → EspErr
  pub adv_start : EspErr
  pub feature_ble_lifeboat : Bool

-- A function returns, or the device restarts inside it.
pub data Step : Type 0 where
  runs restarts : Device → Step

unfoldable pub and_then : Step → (Device → Step) → Step
and_then (runs d) k = k d
and_then (restarts d) k = restarts d
