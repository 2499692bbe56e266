-- ===== src/Wifi/Start.antt =====
-- `wifi_start` of components/net/wifi/wifi_api.c, and the credentials across a reboot. A call
-- of ESP-IDF that stops the program when it fails ends `wifi_start` without a state.
use esp32_remot_control.Prelude.{
  ℕ, ◌+◌, ◌≤◌, ◌≡◌, ap, ◌∙◌, Bool, true, false, Option, none, some, [], Bytes, length, take,
  take-all, ltb, ◌&&◌, ◌||◌, refl, if◌then◌else◌, arith,
}
use esp32_remot_control.Esp.{EspErr, esp_ok, invalid_state, is_ok}
use esp32_remot_control.Device.{Device, Platform, Wifi}
use esp32_remot_control.Wifi.{set_running, wifi_tcp_timer_create_once, sta_start, wifi_evt, report}
use esp32_remot_control.Errsrc.{es_no_creds}
use esp32_remot_control.Wifi.Credentials.{Station, written, is_nonempty, wifi_set_credentials}

-- `nvs_get_str` into a buffer of n bytes: a text that does not fit with its NUL is an error.
abbrev pub nvs_get_str : ℕ → Bytes → Option Bytes
nvs_get_str n s = if ltb (length s) n then some s else none

-- What is left in the buffers of the configuration, once both keys have been read.
unfoldable pub loaded : Option Bytes → Option Bytes → Bytes × Bytes
loaded none o = ([], [])
loaded (some ssid) none = (ssid, [])
loaded (some ssid) (some pwd) = (ssid, pwd)

-- `readable`: the namespace can be opened.
unfoldable pub load_credentials : Bool → Option (Bytes × Bytes) → Bytes × Bytes
unfolding loaded
load_credentials false saved = ([], [])
load_credentials true none = loaded none none
load_credentials true (some (ssid, pwd)) = loaded (nvs_get_str 32 ssid) (nvs_get_str 64 pwd)

abbrev pub given : Option Bytes → Bytes
given none = []
given (some s) = s

-- The configuration: the arguments, if there is an SSID among them, or what NVS holds.
unfoldable pub start_config : Bool → Option Bytes → Option Bytes → Station → Bytes × Bytes
unfolding load_credentials
start_config readable ssid pwd w =
    if is_nonempty (given ssid)
    then (take 31 (given ssid), take 63 (given pwd))
    else load_credentials readable w.saved

abbrev configured : Bytes × Bytes → Station → Station
configured (ssid, pwd) w = record w { ssid = ssid; password = pwd; wpa2 = is_nonempty pwd }

-- What ESP-IDF answers to the calls that are checked, in their order.
pub record WifiCalls : Type 0 where
  pub netif_init : EspErr
  pub event_loop : EspErr
  pub sta_netif : Bool
  pub wifi_init : EspErr
  pub timer_create : EspErr
  pub wifi_handler : EspErr
  pub got_ip_handler : EspErr
  pub lost_ip_handler : EspErr
  pub set_wifi_mode : EspErr
  pub set_config : EspErr
  pub start : EspErr

-- The event loop may exist already.
abbrev pub has_loop : EspErr → Bool
has_loop esp_ok = true
has_loop invalid_state = true
has_loop _ = false

abbrev pub has_timer : Option Bool → Bool
has_timer none = false
has_timer (some running) = true

-- None of the calls stops the program.
abbrev pub goes_through : WifiCalls → Wifi → Bool
goes_through c w =
    is_ok c.netif_init
    && has_loop c.event_loop
    && c.sta_netif
    && is_ok c.wifi_init
    && (has_timer w.tcp_timer || is_ok c.timer_create)
    && is_ok c.wifi_handler
    && is_ok c.got_ip_handler
    && is_ok c.lost_ip_handler
    && is_ok c.set_wifi_mode
    && is_ok c.set_config
    && is_ok c.start

unfoldable pub wifi_start :
    WifiCalls → Bool → Option Bytes → Option Bytes → Device × Station → Option (Device × Station)
unfolding start_config
wifi_start c readable ssid pwd (d, w) =
    if goes_through c d.wifi
    then some (
      record d { wifi = wifi_tcp_timer_create_once d.wifi },
      configured (start_config readable ssid pwd w) w,
    )
    else none

-- Where the calls go through.
pub wifi_start_lem :
    (c : WifiCalls) (readable : Bool) (ssid pwd : Option Bytes) (d : Device) (w : Station)
    → goes_through c d.wifi ≡ true
    → wifi_start c readable ssid pwd (d, w)
      ≡ some (
        record d { wifi = wifi_tcp_timer_create_once d.wifi },
        configured (start_config readable ssid pwd w) w,
      )
unfolding wifi_start
wifi_start_lem c readable ssid pwd d w g = rw g refl

-- What it leaves of the device, if it returns.
pub wifi_start-device :
    (c : WifiCalls) (readable : Bool) (ssid pwd : Option Bytes) (d : Device) (w : Station)
    (x : Device × Station)
    → wifi_start c readable ssid pwd (d, w) ≡ some x
    → x.0 ≡ record d { wifi = wifi_tcp_timer_create_once d.wifi }
unfolding wifi_start
wifi_start-device c readable ssid pwd d w x h = chosen (goes_through c d.wifi) _ h
  where
    chosen : (b : Bool) (y : Device × Station) → (if b then some y else none) ≡ some x → x.0 ≡ y.0
    chosen true y e = ground (arith, e)
    chosen false y e = absurd cc

-- `tcp_start_timer_cb` and `launch_tcp_server`: the timer, which runs once, has run out, and a task
-- of the listener is created besides those that there are.
unfoldable pub tcp_start_timer_cb : Wifi × ℕ → Wifi × ℕ
tcp_start_timer_cb (w, tasks) = (record w { tcp_timer = set_running false w.tcp_timer }, tasks + 1)

-- Credentials of at most 31 and 63 bytes that have been saved and configured are configured again
-- after a reboot, whatever else the device and its driver have then, if NVS can be read and no call of
-- ESP-IDF fails.
pub wifi_start_restores :
    (c : WifiCalls) (r : ℕ) (ssid pwd : Bytes) (d : Device) (w : Station) (d' : Device)
    (w' : Station)
    → goes_through c d'.wifi ≡ true
    → length ssid ≤ 31
    → length pwd ≤ 63
    → let before = (wifi_set_credentials written r ssid pwd (d, w)).1 in
      w'.saved ≡ before.saved
      → (after : Device × Station) × (wifi_start c true none none (d', w') ≡ some after)
        × (after.1 ≡ before)
unfolding wifi_set_credentials start_config load_credentials loaded
wifi_start_restores c r ssid pwd d w d' w' g h k e = (
  (
    record d' { wifi = wifi_tcp_timer_create_once d'.wifi },
    configured (start_config true none none w') w',
  ),
  wifi_start_lem c true none none d' w' g,
  ground (arith, take-all 31 ssid h, take-all 63 pwd k),
)

load_long :
    (ssid pwd : Bytes) → 32 ≤ length ssid → load_credentials true (some (ssid, pwd)) ≡ ([], [])
unfolding load_credentials loaded
load_long ssid pwd h = ground arith

load_long_pwd :
    (ssid pwd : Bytes)
    → length ssid ≤ 31
    → 64 ≤ length pwd
    → load_credentials true (some (ssid, pwd)) ≡ (ssid, [])
unfolding load_credentials loaded
load_long_pwd ssid pwd h k = ground arith

-- With an SSID of 32 bytes or more in NVS (`setwifi` takes 32), a boot in which no call of ESP-IDF fails
-- configures neither SSID nor password, and the start of Wi-Fi is reported as NO_CREDS.
pub long_ssid_lost :
    (c : WifiCalls) (p : Platform) (r : ℕ) (ssid pwd : Bytes) (d : Device) (w : Station)
    → goes_through c d.wifi ≡ true
    → w.saved ≡ some (ssid, pwd)
    → 32 ≤ length ssid
    → (d' : Device) × (w' : Station) × (wifi_start c true none none (d, w) ≡ some (d', w'))
      × (w'.ssid ≡ [])
      × (w'.password ≡ [])
      × (wifi_evt p r (sta_start (is_nonempty w'.ssid)) d' ≡ report p es_no_creds d')
unfolding start_config wifi_evt
long_ssid_lost c p r ssid pwd d w g e h =
    let d' = record d { wifi = wifi_tcp_timer_create_once d.wifi } in
    let l : start_config true none none w ≡ ([], []) =
      ap (load_credentials true) e ∙ load_long ssid pwd h in
    (
      d',
      configured (start_config true none none w) w,
      wifi_start_lem c true none none d w g,
      ap (λ (x : Bytes × Bytes). x.0) l,
      ap (λ (x : Bytes × Bytes). x.1) l,
      ap (λ (x : Bytes × Bytes). wifi_evt p r (sta_start (is_nonempty x.0)) d') l,
    )

-- With a shorter SSID and a password of 64 bytes or more (`setwifi` takes 64), what it configures is an
-- open network.
long_password_opens :
    (ssid pwd : Bytes) (w : Station)
    → w.saved ≡ some (ssid, pwd)
    → length ssid ≤ 31
    → 64 ≤ length pwd
    → let w' = configured (start_config true none none w) w in
      (w'.ssid ≡ ssid) × (w'.password ≡ []) × (w'.wpa2 ≡ false)
unfolding start_config
long_password_opens ssid pwd w e h k =
    let c : start_config true none none w ≡ (ssid, []) =
      ap (load_credentials true) e ∙ load_long_pwd ssid pwd h k in
    (
      ap (λ (x : Bytes × Bytes). x.0) c,
      ap (λ (x : Bytes × Bytes). x.1) c,
      ap (λ (x : Bytes × Bytes). is_nonempty x.1) c,
    )
