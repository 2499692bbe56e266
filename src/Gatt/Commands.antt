-- ===== src/Gatt/Commands.antt =====
-- ble_cmd.c: the command line of the BLE client. How it cuts bytes into lines is in Framing; what a
-- command replies goes to the link by `ble_cmd_write_cb`.
use esp32_remot_control.Prelude.{
  ℕ, Bool, false, Option, none, some, [], ◌∷◌, Bytes, c_str, length, take, ltb, ◌==◌, if◌then◌else◌,
}
use esp32_remot_control.Framing.{ble_cmd_on_rx}
use esp32_remot_control.Command.{ble, Context, Board, Environment}
use esp32_remot_control.Gatt.Credentials.{dispatch_on}
use esp32_remot_control.Gatt.Notify.{Link, gatt_server_send_status}

-- `struct ble_cmd`
pub record BleCmd : Type 0 where
  pub ifx : ℕ
  pub conn_id : ℕ
  pub tx_handle : ℕ
  pub line : Bytes
  pub ctx : Context

-- `BLE_CMD_LINE_MAX`
abbrev pub ble_cmd_line_max : ℕ
ble_cmd_line_max = 128

-- `int` has 31 bits besides its sign.
abbrev int_max : ℕ
int_max = 2147483647

-- Without one newline at the end.
unfoldable pub trim_newline : Bytes → Bytes
trim_newline [] = []
trim_newline (c ∷ []) = if c == b'\n' then [] else c ∷ []
trim_newline (c ∷ d ∷ s) = c ∷ trim_newline (d ∷ s)

abbrev pub ends_in_nul : Bytes → Bool
ends_in_nul [] = false
ends_in_nul (c ∷ []) = c == 0
ends_in_nul (c ∷ d ∷ s) = ends_in_nul (d ∷ s)

-- What it returns, and the link; a buffer of n bytes, as C strings end, holds no more than them.
unfoldable pub ble_cmd_write_cb : Bytes → Link → ℕ × Link
unfolding trim_newline
ble_cmd_write_cb [] l = (0, l)
ble_cmd_write_cb (c ∷ s) l =
    let p = trim_newline (c ∷ s) in
    let n = length p in
    (
      if ltb int_max n then int_max else n,
      if ends_in_nul p
          then gatt_server_send_status (c_str p) l
          else gatt_server_send_status (c_str (take ble_cmd_line_max p)) l,
    )

-- `calloc`; a context has a transport once a client has connected, and no bytes come before that.
unfoldable pub ble_cmd_create : BleCmd
ble_cmd_create = record {
  ifx = 0;
  conn_id = 0;
  tx_handle = 0;
  line = [];
  ctx = record { authed = false; xport = ble; link = 0 };
}

unfoldable pub ble_cmd_on_connect : ℕ → ℕ → ℕ → Option BleCmd → Option BleCmd
ble_cmd_on_connect gatts_if conn_id tx_char_handle none = none
ble_cmd_on_connect gatts_if conn_id tx_char_handle (some cli) = some (record {
  ifx = gatts_if;
  conn_id = conn_id;
  tx_handle = tx_char_handle;
  line = [];
  ctx = record { authed = false; xport = ble; link = 0 };
})

unfoldable pub ble_cmd_on_disconnect : Option BleCmd → Option BleCmd
ble_cmd_on_disconnect none = none
ble_cmd_on_disconnect (some cli) =
    some (record cli { line = []; ctx = record cli.ctx { authed = false } })

-- The line and the context of the client, with the board, as the dispatcher has them.
abbrev pub feed :
    (Bytes × (Context × Board) → Bytes × (Context × Board)) → BleCmd → Board → Option BleCmd × Board
feed f cli b =
    let (line, (ctx, b')) = f (cli.line, (cli.ctx, b)) in
    (some (record cli { line = line; ctx = ctx }), b')

-- `ble_cmd_on_rx` on the client of the server, if there is one.
unfoldable pub receive : Environment → Bytes → Option BleCmd → Board → Option BleCmd × Board
receive env d none b = (none, b)
receive env d (some cli) b = feed (ble_cmd_on_rx (dispatch_on env) d) cli b
