-- ===== src/Gatt/Credentials.antt =====
-- gatt_wifi_cred.c: Wi-Fi credentials that are written to their characteristic.
use esp32_remot_control.Prelude.{
  not, Option, none, some, [], ◌∷◌, ◌++◌, Bytes, codes, c_str, equal_nocase, length, take, ltb,
  if◌then◌else◌,
}
use esp32_remot_control.Scan.{scan_s, scan_ss}
use esp32_remot_control.Framing.{split_at_nl, ble_cmd_on_rx}
use esp32_remot_control.Command.{Context, Board, Environment}
use esp32_remot_control.Command.Auth.{is_nil, trim_trailing}
use esp32_remot_control.Command.Dispatch.{cmd_dispatch_line}

-- `gatt_server_send_status`
abbrev pub send_status : Bytes → Board → Board
send_status s b = record b { device = record b.device { statuses = s ∷ b.device.statuses } }

-- Two words behind a command, which must be SETWIFI.
abbrev pub named : Bytes → Option (Bytes × Bytes) → Option (Bytes × Bytes)
named cmd none = none
named cmd (some c) = if equal_nocase cmd (codes "SETWIFI") then some c else none

unfoldable pub after_command : Option (Bytes × Bytes) → Option (Bytes × Bytes)
unfolding scan_ss
after_command none = none
after_command (some (cmd, rest)) = named cmd (scan_ss 32 64 rest)

-- The form "SETWIFI <ssid> <pwd>": `sscanf(buf, "%15s %32s %64s", cmd, ssid, pwd) == 3`.
unfoldable pub words_form : Bytes → Option (Bytes × Bytes)
unfolding scan_s after_command
words_form buf = after_command (scan_s 15 buf)

-- The form "<ssid>\n<pwd>", with an SSID that is not empty.
unfoldable pub lines_form : Bytes → Bytes → Option (Bytes × Bytes)
lines_form before after =
    let ssid = take 32 (trim_trailing before) in
    if not (is_nil ssid) then some (ssid, take 64 (trim_trailing after)) else none

-- Which form it is: `strchr` has found a newline, or not.
unfoldable pub choose_form : Bytes → Bytes × Option Bytes → Option (Bytes × Bytes)
unfolding words_form lines_form
choose_form buf (before, none) = words_form buf
choose_form buf (before, some after) = lines_form before after

unfoldable pub parse_cred : Bytes → Option (Bytes × Bytes)
unfolding choose_form
parse_cred buf = choose_form buf (split_at_nl buf)

-- `snprintf` into 120 bytes, and the newline if there is room for it.
unfoldable pub command_line : Bytes → Bytes → Bytes
command_line ssid pwd =
    let cmdline = take 119 (codes "setwifi " ++ (ssid ++ (b' ' ∷ pwd))) in
    if ltb (length cmdline) 119 then cmdline ++ b'\n' ∷ [] else cmdline

-- The dispatcher of the BLE connection.
unfoldable pub dispatch_on : Environment → Bytes → Context × Board → Context × Board
dispatch_on env line (ctx, b) = cmd_dispatch_line env line ctx b

-- The credentials as a command of the connection, behind the line that it has begun.
unfoldable pub forward :
    Environment → Option (Bytes × Bytes) → Bytes × (Context × Board) → Bytes × (Context × Board)
forward env none (line, (ctx, b)) = (line, (ctx, send_status (codes "BADFMT") b))
forward env (some (ssid, pwd)) st = ble_cmd_on_rx (dispatch_on env) (command_line ssid pwd) st

-- An empty write is nothing; of a long one the first 199 bytes are read.
unfoldable pub gatt_on_wifi_cred_write :
    Environment → Bytes → Bytes × (Context × Board) → Bytes × (Context × Board)
unfolding forward
gatt_on_wifi_cred_write env [] st = st
gatt_on_wifi_cred_write env (c ∷ rest) st =
    forward env (parse_cred (c_str (take 199 (c ∷ rest)))) st
