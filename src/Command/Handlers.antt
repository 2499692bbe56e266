-- ===== src/Command/Handlers.antt =====
-- The handlers of the command table: cmd_base.c, cmd_auth.c, cmd_diag.c, cmd_led.c, cmd_wifi.c,
-- cmd_ota.c and cmd_dht.c. The arguments are a C string, empty where there are none. The upload of
-- `ota` is that of components/ota/ota_handler.c and is kept as a call here.
use esp32_remot_control.Prelude.{
  ℕ, Bool, true, false, not, Option, none, some, ◌∷◌, ◌++◌, Bytes, codes, equal, equal_nocase, ltb,
  leb, length, take, if◌then◌else◌,
}
use esp32_remot_control.Scan.{scan_ux, scan_s, scan_u, scan_ss}
use esp32_remot_control.Esp.{is_ok, Partition, ImageState, undefined}
use esp32_remot_control.Errsrc.{errsrc_get, errsrc_get_code}
use esp32_remot_control.Bootflag.{bootflag_is_post_rollback}
use esp32_remot_control.Device.{Device}
use esp32_remot_control.Syscoord.{
  syscoord_mark_tcp_authed, syscoord_control_path_ok, syscoord_get_mode,
}
use esp32_remot_control.Wifi.Credentials.{wifi_set_credentials}
use esp32_remot_control.Command.Bus.{
  BusCommand, bus_dht_stream_on, bus_dht_stream_off, cmd_bus_is_ready, cmd_bus_send_msg,
}
use esp32_remot_control.Command.Auth.{is_nil, trim_trailing, auth_token_load, auth_token_save}
use esp32_remot_control.Command.Texts.{error_text, diag_text}
use esp32_remot_control.Command.{
  Transport, tcp, ble, Context, upload, Board, Environment, say, cmd_replyf,
}

-- `cmd_xport_t` is that of TCP.
abbrev pub over_tcp : Transport → Bool
over_tcp tcp = true
over_tcp ble = false

unfoldable pub cmd_ping : Board → Board
cmd_ping b = say (codes "PONG\n") b

-- The version of the running image, or that of the build.
abbrev pub version_text : Environment → Bytes
version_text env =
    if not (is_nil env.described)
    then take 319 (env.described ++ codes "\n")
    else elim env.project_ver [ none ↦ codes "unknown\n" | some v ↦ take 319 (v ++ codes "\n") ]

unfoldable pub cmd_version : Environment → Board → Board
cmd_version env b = say (version_text env) b

unfoldable pub cmd_errsrc : Board → Board
cmd_errsrc b =
    cmd_replyf
      (error_text (syscoord_get_mode b.device) (errsrc_get_code b.device.errsrc)
        (errsrc_get b.device.errsrc))
      b

-- The state of the running image, where ESP-IDF gives it.
unfoldable pub running_state : Environment → Device → Option Partition → ImageState
running_state env d none = undefined
running_state env d (some run) = elim (env.platform.state_of d.confirms run) [
  | none ↦ undefined
  | some st ↦ st
]

unfoldable pub cmd_diag : Environment → Board → Board
unfolding running_state
cmd_diag env b =
    let run = env.platform.running_partition in
    cmd_replyf
      (diag_text env.label run (running_state env b.device run)
        (bootflag_is_post_rollback b.device.nvs) (syscoord_get_mode b.device))
      b

-- `syscoord_mark_tcp_authed(); syscoord_control_path_ok("TCP")`
unfoldable pub control_proven : Environment → Device → Device
control_proven env d =
    syscoord_control_path_ok env.platform (some (codes "TCP")) (syscoord_mark_tcp_authed d)

unfoldable pub cmd_auth : Environment → Bytes → Context → Board → Context × Board
cmd_auth env args ctx b =
    let b1 = record b { token = auth_token_load env.auth_readable b.token } in
    let buf = trim_trailing (take 65 args) in
    if equal buf b1.token.s_auth_token
    then (
      record ctx { authed = true },
      say (codes "OK\n") (record b1 {
        device = if over_tcp ctx.xport then control_proven env b1.device else b1.device;
      }),
    )
    else (ctx, say (codes "DENIED\n") b1)

unfoldable pub cmd_settoken : Environment → Bytes → Context → Board → Board
cmd_settoken env args ctx b =
    let buf = trim_trailing (take 64 args) in
    if not ctx.authed
    then say (codes "DENIED\n") b
    else if is_nil args
    then say (codes "usage: SETTOKEN <newtoken>\n") b
    else if is_nil buf
    then say (codes "ERR empty token\n") b
    else if leb 65 (length buf)
    then say (codes "ERR token too long\n") b
    else say (if is_ok env.auth_saved then codes "OK\n" else codes "ERR\n")
        (record b { token = auth_token_save env.auth_saved buf b.token })

-- Post a message for the router, or say that there is no room.
unfoldable pub post : BusCommand → ℕ → Context → Board → Board
post c arg ctx b =
    let (sent, q) =
      cmd_bus_send_msg (record { command = c; ctx = some ctx.link; arg = arg }) b.bus in
    let b' = record b { bus = q } in if not sent then say (codes "BUS_FULL\n") b' else b'

-- The commands that only post: `led_on`, `led_off`, `dht?`, `dhtstate`.
unfoldable pub cmd_post : BusCommand → Context → Board → Board
cmd_post c ctx b =
    if not (cmd_bus_is_ready b.bus) then say (codes "BUS_DOWN\n") b else post c 0 ctx b

-- The interval that follows an option, or 0.
abbrev pub with_interval : Option (Bytes × Bytes) → Option (Bytes × ℕ)
with_interval none = none
with_interval (some (opt, rest)) = some (opt, elim (scan_u rest) [ none ↦ 0 | some (n, _) ↦ n ])

-- `sscanf(args, "%15s %u", opt, &interval)`, if it reads an option.
abbrev pub scan_stream : Bytes → Option (Bytes × ℕ)
scan_stream args = with_interval (scan_s 15 args)

abbrev pub stream_usage : Bytes
stream_usage = codes "usage: DHTSTREAM on|off [ms]\n"

unfoldable pub stream_option : Option (Bytes × ℕ) → Context → Board → Board
stream_option none ctx b = say stream_usage b
stream_option (some (opt, interval)) ctx b =
    if equal_nocase opt (codes "on")
    then post bus_dht_stream_on interval ctx b
    else if equal_nocase opt (codes "off")
    then post bus_dht_stream_off interval ctx b
    else say stream_usage b

unfoldable pub cmd_dhtstream : Bytes → Context → Board → Board
unfolding stream_option
cmd_dhtstream args ctx b =
    if not ctx.authed
    then say (codes "DENIED\n") b
    else if not (cmd_bus_is_ready b.bus)
    then say (codes "BUS_DOWN\n") b
    else if is_nil args
    then say stream_usage b
    else stream_option (scan_stream args) ctx b

-- `sscanf(args, "%32s %64s", ssid, pwd) == 2`
unfoldable pub set_wifi : Environment → Option (Bytes × Bytes) → Board → Board
set_wifi env none b = say (codes "BADFMT\n") b
set_wifi env (some (ssid, pwd)) b =
    let (d, w) = wifi_set_credentials env.wifi_saved env.random ssid pwd (b.device, b.station) in
    say (codes "WIFI_UPDATED\n") (record b { device = d; station = w })

unfoldable pub cmd_setwifi : Environment → Bytes → Board → Board
unfolding set_wifi
cmd_setwifi env args b =
    if is_nil args then say (codes "BADFMT\n") b else set_wifi env (scan_ss 32 64 args) b

-- `sscanf(args, "%u %x", &size_u, &crc_u) == 2 && size_u > 0`
run_ota : Option (ℕ × ℕ) → Context → Board → Board
run_ota none ctx b = say (codes "BADFMT\n") b
run_ota (some (size, crc)) ctx b =
    if not (ltb 0 size)
    then say (codes "BADFMT\n") b
    else if over_tcp ctx.xport
    then record b { out = upload size ∷ b.out }
    else say (codes "OTA_UNSUPPORTED\n") b

unfoldable pub cmd_ota : Bytes → Context → Board → Board
unfolding run_ota
cmd_ota args ctx b = if is_nil args then say (codes "BADFMT\n") b else run_ota (scan_ux args) ctx b
