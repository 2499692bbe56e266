-- ===== src/Gatt/Server/Lines.antt =====
-- The lines of a client that is not authenticated at their end.
use esp32_remot_control.Prelude.{
  ℕ, ◌≡◌, refl, ◌∙◌, true, false, not, Option, none, some, [], ◌∷◌, Bytes, c_str, codes, take, ◌==◌,
  Bool-cases, inl, inr, arith,
}
use esp32_remot_control.Device.{Device}
use esp32_remot_control.Framing.{dispatch_line, rx_byte, ble_cmd_on_rx}
use esp32_remot_control.Command.{Context, Board, Environment}
use esp32_remot_control.Command.Auth.{trim_trailing}
use esp32_remot_control.Command.Handlers.{cmd_auth}
use esp32_remot_control.Command.Dispatch.{
  Handler, ping, auth, Entry, cmds, find_entry, run_handler, run_entry, dispatch_trimmed,
  cmd_dispatch_line, lskip, split_name,
}
use esp32_remot_control.Command.Gate.{Harmless, cmd_dispatch_line-Gated}
use esp32_remot_control.Gatt.Credentials.{
  dispatch_on, send_status, parse_cred, command_line, forward, gatt_on_wifi_cred_write,
}

-- What a guest leaves of the device.
pub record Same (d d' : Device) : Type 0 where
  pub mode_kept : d'.mode ≡ d.mode
  pub authed_kept : d'.tcp_authed ≡ d.tcp_authed
  pub nvs_kept : d'.nvs ≡ d.nvs
  pub boot_kept : d'.boot ≡ d.boot
  pub confirms_kept : d'.confirms ≡ d.confirms
  pub wifi_kept : d'.wifi ≡ d.wifi
  pub monitor_kept : d'.monitor ≡ d.monitor

pub record Untouched (b b' : Board) : Type 0 where
  pub harmless : Harmless b b'
  pub device_kept : Same b.device b'.device

pub Harmless-refl : (b : Board) → Harmless b b
Harmless-refl b = record {
  token_kept = refl;
  station_kept = refl;
  no_upload = refl;
  no_order = refl;
}

pub Untouched-refl : (b : Board) → Untouched b b
Untouched-refl b = record { harmless = Harmless-refl b; device_kept = ground arith }

pub Untouched-trans : {b c d : Board} → Untouched b c → Untouched c d → Untouched b d
Untouched-trans u v = record {
  harmless = record {
    token_kept = v.harmless.token_kept ∙ u.harmless.token_kept;
    station_kept = v.harmless.station_kept ∙ u.harmless.station_kept;
    no_upload = v.harmless.no_upload ∙ u.harmless.no_upload;
    no_order = v.harmless.no_order ∙ u.harmless.no_order;
  };
  device_kept = record {
    mode_kept = v.device_kept.mode_kept ∙ u.device_kept.mode_kept;
    authed_kept = v.device_kept.authed_kept ∙ u.device_kept.authed_kept;
    nvs_kept = v.device_kept.nvs_kept ∙ u.device_kept.nvs_kept;
    boot_kept = v.device_kept.boot_kept ∙ u.device_kept.boot_kept;
    confirms_kept = v.device_kept.confirms_kept ∙ u.device_kept.confirms_kept;
    wifi_kept = v.device_kept.wifi_kept ∙ u.device_kept.wifi_kept;
    monitor_kept = v.device_kept.monitor_kept ∙ u.device_kept.monitor_kept;
  };
}

run_handler-authed :
    (env : Environment) (h : Handler) (args : Bytes) (ctx : Context) (b : Board)
    → ctx.authed ≡ true
    → (run_handler env h args ctx b).0.authed ≡ true
unfolding run_handler cmd_auth
run_handler-authed env ping args ctx b a = a
run_handler-authed env auth args ctx b a = ground arith
run_handler-authed env _ args ctx b a = a

run_entry-authed :
    (env : Environment) (o : Option Entry) (args : Bytes) (ctx : Context) (b : Board)
    → ctx.authed ≡ true
    → (run_entry env o args ctx b).0.authed ≡ true
unfolding run_entry
run_entry-authed env none args ctx b a = a
run_entry-authed env (some e) args ctx b a = ground (arith, run_handler-authed env e.fn args ctx b)

-- No line takes an authentication back.
pub cmd_dispatch_line-authed :
    (env : Environment) (line : Bytes) (ctx : Context) (b : Board)
    → ctx.authed ≡ true
    → (cmd_dispatch_line env line ctx b).0.authed ≡ true
unfolding cmd_dispatch_line dispatch_trimmed
cmd_dispatch_line-authed env line ctx b a =
    let trimmed = lskip (trim_trailing line) in
    ground (
      arith,
      run_entry-authed env (find_entry (split_name trimmed).0 cmds)
          (c_str (lskip (split_name trimmed).1)) ctx b,
    )

-- The client was a guest, and has touched nothing.
pub record Guest (ctx : Context) (b : Board) (r : Context × Board) : Type 0 where
  pub unauthenticated : ctx.authed ≡ false
  pub untouched : Untouched b r.1

device-Same : (b b' : Board) → b'.device ≡ b.device → Same b.device b'.device
device-Same b b' e = ground arith

line-Guest :
    (env : Environment) (line : Bytes) (ctx : Context) (b : Board)
    → (cmd_dispatch_line env line ctx b).0.authed ≡ false
    → Guest ctx b (cmd_dispatch_line env line ctx b)
line-Guest env line ctx b h = elim (Bool-cases ctx.authed) [
  | inl y ↦ absurd (ground (arith, cmd_dispatch_line-authed env line ctx b))
  | inr n ↦
      let g = cmd_dispatch_line-Gated env line ctx b n in
      record {
        unauthenticated = n;
        untouched = record {
          harmless = g.harmless;
          device_kept = device-Same b (cmd_dispatch_line env line ctx b).1 (g.denied h);
        };
      }
]

pub dispatch_line-Guest :
    (env : Environment) (line : Bytes) (ctx : Context) (b : Board)
    → (dispatch_line (dispatch_on env) line (ctx, b)).0.authed ≡ false
    → Guest ctx b (dispatch_line (dispatch_on env) line (ctx, b))
unfolding dispatch_on
dispatch_line-Guest env [] ctx b h = record { unauthenticated = h; untouched = Untouched-refl b }
dispatch_line-Guest env (c ∷ line) ctx b h = line-Guest env (c ∷ line) ctx b h

rx_byte-Guest :
    (env : Environment) (c : ℕ) (line : Bytes) (ctx : Context) (b : Board)
    → (rx_byte (dispatch_on env) c (line, (ctx, b))).1.0.authed ≡ false
    → Guest ctx b (rx_byte (dispatch_on env) c (line, (ctx, b))).1
unfolding rx_byte
rx_byte-Guest env c line ctx b h = elim (Bool-cases (c == b'\r')) [
  | inl y ↦ rw y (record { unauthenticated = rw y at h; untouched = Untouched-refl b })
  | inr n ↦ elim (Bool-cases (not (c == b'\n'))) [
    | inl y ↦ rw (n, y) (record { unauthenticated = rw (n, y) at h; untouched = Untouched-refl b })
    | inr m ↦ rw (n, m) (dispatch_line-Guest env line ctx b (rw (n, m) at h))
  ]
]

-- Bytes of a client that is not authenticated at their end have touched nothing.
pub ble_cmd_on_rx-Guest :
    (env : Environment) (p line : Bytes) (ctx : Context) (b : Board)
    → (ble_cmd_on_rx (dispatch_on env) p (line, (ctx, b))).1.0.authed ≡ false
    → Guest ctx b (ble_cmd_on_rx (dispatch_on env) p (line, (ctx, b))).1
unfolding ble_cmd_on_rx
ble_cmd_on_rx-Guest env [] line ctx b h = record {
  unauthenticated = h;
  untouched = Untouched-refl b;
}
ble_cmd_on_rx-Guest env (c ∷ p) line ctx b h =
    let (line', (ctx', b')) = rx_byte (dispatch_on env) c (line, (ctx, b)) in
    let later = ble_cmd_on_rx-Guest env p line' ctx' b' h in
    let now = rx_byte-Guest env c line ctx b later.unauthenticated in
    record {
      unauthenticated = now.unauthenticated;
      untouched = Untouched-trans now.untouched later.untouched;
    }

-- A change of the device alone.
pub device-Untouched :
    (b : Board) (d : Device) → Same b.device d → Untouched b (record b { device = d })
device-Untouched b d same = record {
  harmless = record { token_kept = refl; station_kept = refl; no_upload = refl; no_order = refl };
  device_kept = same;
}

pub send_status-Untouched : (s : Bytes) (b : Board) → Untouched b (send_status s b)
send_status-Untouched s b =
    device-Untouched b (record b.device { statuses = s ∷ b.device.statuses }) (ground arith)

forward-Guest :
    (env : Environment) (o : Option (Bytes × Bytes)) (line : Bytes) (ctx : Context) (b : Board)
    → (forward env o (line, (ctx, b))).1.0.authed ≡ false
    → Guest ctx b (forward env o (line, (ctx, b))).1
unfolding forward
forward-Guest env none line ctx b h = record {
  unauthenticated = h;
  untouched = send_status-Untouched (codes "BADFMT") b;
}
forward-Guest env (some (ssid, pwd)) line ctx b h =
    ble_cmd_on_rx-Guest env (command_line ssid pwd) line ctx b h

-- So too for written credentials.
pub gatt_on_wifi_cred_write-Guest :
    (env : Environment) (d line : Bytes) (ctx : Context) (b : Board)
    → (gatt_on_wifi_cred_write env d (line, (ctx, b))).1.0.authed ≡ false
    → Guest ctx b (gatt_on_wifi_cred_write env d (line, (ctx, b))).1
unfolding gatt_on_wifi_cred_write
gatt_on_wifi_cred_write-Guest env [] line ctx b h = record {
  unauthenticated = h;
  untouched = Untouched-refl b;
}
gatt_on_wifi_cred_write-Guest env (c ∷ d) line ctx b h =
    forward-Guest env (parse_cred (c_str (take 199 (c ∷ d)))) line ctx b h
