-- ===== src/Command/Examples.antt =====
-- Tests and instances of the theorems on commands.
use esp32_remot_control.Prelude.{
  zero, suc, ◌≡◌, ◌≢◌, refl, Bool, true, false, some, [], ◌∷◌, ◌++◌, ap, Bytes, codes, take, length,
  arith,
}
use esp32_remot_control.Print.{print_u, print_06x}
use esp32_remot_control.Esp.{pending_verify, new, valid}
use esp32_remot_control.Bootflag.{bootflag_is_post_rollback}
use esp32_remot_control.Device.{Device, Step, runs, restarts, and_then}
use esp32_remot_control.Monitor.Policy.{
  monitor_on_wifi_error, monitor_is_rollback_eligible, monitor_try_rollback_now, after_official,
  manual_fallback, select_manual_fallback_target, first_failure,
}
use esp32_remot_control.Syscoord.{
  syscoord_get_mode, syscoord_on_no_control_path, syscoord_on_wifi_state,
}
use esp32_remot_control.Wifi.{no_ap_found, sta_disconnected, wifi_evt, report}
use esp32_remot_control.System.{Runs, here, next, handle, wifi, no_control}
use esp32_remot_control.System.Fixtures.{updated}
use esp32_remot_control.Command.Confirming.{token_keeps_image}
use esp32_remot_control.Mode.{normal, wait_control}
use esp32_remot_control.Errsrc.{es_ip_lost, errsrc_get, errsrc_get_code}
use esp32_remot_control.Command.{reply, Environment}
use esp32_remot_control.Command.Texts.{diag_text, error_text}
use esp32_remot_control.Command.Streaming.{line_then_router, interval_read, stream_reported}
use esp32_remot_control.Command.Auth.{auth_token_load}
use esp32_remot_control.Command.Fixtures.{env, board, guest, owner}
use esp32_remot_control.Command.Handlers.{cmd_ping, cmd_diag, cmd_errsrc, running_state}
use esp32_remot_control.Command.Fits.{replies_whole}
use esp32_remot_control.Command.Dispatch.{
  run_handler, run_entry, dispatch_trimmed, cmd_dispatch_line,
}
use esp32_remot_control.Dht.{no_sample, dht_get_stream_state, dht_read_latest}
use esp32_remot_control.Command.Router.{Peripherals}
use esp32_remot_control.Command.Gate.{Gated, cmd_dispatch_line-Gated}
use esp32_remot_control.Command.Renewal.{settoken_renews, settoken_truncates}

ping_answers :
    (cmd_dispatch_line env (codes "  PinG \r") guest board).1.out ≡ reply (codes "PONG\n") ∷ []
unfolding cmd_dispatch_line dispatch_trimmed run_entry run_handler cmd_ping
ping_answers = refl

ota_denied :
    (cmd_dispatch_line env (codes "ota 5 1") guest board).1.out ≡ reply (codes "DENIED\n") ∷ []
unfolding cmd_dispatch_line dispatch_trimmed run_entry run_handler
ota_denied = refl

cmd_dispatch_line-Gated_example :
    Gated env (codes "ho ap") board (cmd_dispatch_line env (codes "setwifi ho ap") guest board)
cmd_dispatch_line-Gated_example =
    cmd_dispatch_line-Gated env (codes "setwifi ho ap") guest board refl

settoken_renews_example :
    let b' = (cmd_dispatch_line env (codes "settoken n3w") owner board).1 in
    ((cmd_dispatch_line env (codes "auth n3w") guest b').0.authed ≡ true)
    × ((cmd_dispatch_line env (codes "auth secret") guest b').0.authed ≡ false)
settoken_renews_example =
    settoken_renews env env (codes "n3w") (codes "secret") owner guest board
      (record { nonempty = refl; all_printable = refl })
      (record { nonempty = refl; all_printable = refl }) (omega arith)
      (λ e. omega (arith, ap length e)) refl refl

abbrev long_token : Bytes
long_token = codes "0123456789abcdef0123456789abcdef0123456789abcdef0123456789abcdefX"

settoken_truncates_example :
    let b' = (cmd_dispatch_line env (codes "settoken " ++ long_token) owner board).1 in
    (b'.out ≡ reply (codes "OK\n") ∷ [])
    × (b'.token.s_auth_token ≡ take 64 long_token)
    × ((cmd_dispatch_line env (codes "auth " ++ long_token) guest b').0.authed ≡ false)
settoken_truncates_example =
    settoken_truncates env env long_token owner guest board
      (record { nonempty = refl; all_printable = refl }) (omega arith) refl refl

abbrev peripherals : Peripherals
peripherals = record {
  led_level = 0;
  dht = record {
    inited = true;
    def_period_ms = 2000;
    stream_on = false;
    period_ms = 2000;
    last_tick = 0;
    last = no_sample;
    task = true;
    woken = false;
  };
  answers = [];
}

stream_reported_example :
    let on =
      line_then_router env
        (λ link. true)
        10
        100
        (codes "dhtstream on " ++ print_u 3000)
        owner
        (board, peripherals) in
    let asked = line_then_router env (λ link. true) 10 150 (codes "dhtstate") owner on in
    (asked.0.bus ≡ some [])
    × (dht_get_stream_state asked.1.dht ≡ (true, 3000))
    × (asked.1.answers
        ≡ (4, codes "DHTSTATE stream=1 interval=3000 valid=0 age=1500 ms\n")
          ∷ (4, codes "DHTSTREAM ON\n")
          ∷ [])
    × (interval_read (codes "DHTSTATE stream=1 interval=3000 valid=0 age=1500 ms\n") ≡ some 3000)
unfolding print_u dht_read_latest
stream_reported_example =
    stream_reported env (λ link. true) 3000 10 100 150 owner board peripherals (omega arith)
      (omega arith) refl refl refl

diag_text_example :
    diag_text
      (λ _. codes "ota_0")
      (some (record { subtype = 16; address = 131072; size = 1048576 }))
      pending_verify
      true
      wait_control
    ≡ codes
        "PART=ota_0 SUB=16 OFF=0x020000 SIZE=1048576\nOTA_STATE=PENDING_VERIFY\nPOST_RB=1\nMODE=WAIT_CONTROL\n"
unfolding print_u print_06x
diag_text_example = refl

errsrc_answers :
    error_text normal es_ip_lost (codes "IP_LOST") ≡ codes "mode=NORMAL errsrc=2 IP_LOST\n"
unfolding print_u
errsrc_answers = refl

-- An image that is new until it is marked valid.
abbrev confirming : Environment
confirming = record env {
  platform = record updated { state_of = λ n run. elim n [ zero ↦ some new | suc _ ↦ some valid ] };
}

abbrev proved : Device
proved = (cmd_dispatch_line confirming (codes "auth secret") guest board).1.device

request : Runs confirming.platform proved (syscoord_on_no_control_path proved)
unfolding handle
request = next no_control here refl

token_keeps_image_example :
    handle confirming.platform
      (wifi 3 (sta_disconnected no_ap_found))
      (syscoord_on_no_control_path proved)
    ≢ restarts proved
unfolding auth_token_load
token_keeps_image_example =
    token_keeps_image confirming (codes "secret") guest board
      (wifi 3 (sta_disconnected no_ap_found)) (syscoord_on_no_control_path proved) proved
      (λ n run. refl) (record { nonempty = refl; all_printable = refl }) refl refl request

abbrev is_restart : Step → Bool
is_restart (runs d) = false
is_restart (restarts d) = true

-- Without the token the same event takes the device back.
lost_without_token :
    is_restart (handle confirming.platform (wifi 3 (sta_disconnected no_ap_found)) board.device)
    ≡ true
unfolding handle wifi_evt report monitor_on_wifi_error first_failure monitor_is_rollback_eligible
    monitor_try_rollback_now after_official manual_fallback select_manual_fallback_target and_then
    bootflag_is_post_rollback syscoord_on_wifi_state
lost_without_token = refl

replies_whole_example :
    ((cmd_diag env board).out
      ≡ reply (
          codes
            "PART=ota_0 SUB=16 OFF=0x220000 SIZE=2097152\nOTA_STATE=VALID\nPOST_RB=0\nMODE=STARTUP\n")
        ∷ [])
    × ((cmd_errsrc board).out ≡ reply (codes "mode=STARTUP errsrc=0 NONE\n") ∷ [])
unfolding print_u print_06x running_state errsrc_get errsrc_get_code bootflag_is_post_rollback
    syscoord_get_mode
replies_whole_example = replies_whole env board (λ q. omega arith) (omega arith)
