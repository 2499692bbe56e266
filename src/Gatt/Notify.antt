-- ===== src/Gatt/Notify.antt =====
-- gatt_notify.c, and the state of the link in gatt_server.c: what is sent to a BLE client. The text of
-- an alert is an argument, which Gatt.Server.Values formats. Attribute handles are known once
-- the table has been created.
pub mod Stream
pub mod Subscribers
use esp32_remot_control.Prelude.{
  ℕ, zero, suc, ◌-◌, Bool, true, false, not, ◌&&◌, ◌||◌, Option, none, some, List, [], ◌∷◌, Bytes,
  codes, equal, length, take, drop, ltb, if◌then◌else◌,
}
use esp32_remot_control.Command.Auth.{is_nil}

-- The characteristics that notify text.
pub data Char : Type 0 where
  tx errsrc alert dht : Char

-- The calls of Bluedroid: set the value that a client reads, and send an indication.
pub data GattCall : Type 0 where
  set_value indicate : Char → Bytes → GattCall

-- The statics: `registered` and `connected` say whether `g_gatts_if` and `g_conn_id` are set.
pub record Link : Type 0 where
  pub registered : Bool
  pub connected : Bool
  pub has_table : Bool
  pub mtu_payload : ℕ
  pub tx_notify : Bool
  pub es_notify : Bool
  pub alert_notify : Bool
  pub s_last_errsrc_sent : Bytes
  pub calls : List GattCall

set_value_if : Bool → Char → Bytes → List GattCall → List GattCall
set_value_if able c s calls = if able then set_value c s ∷ calls else calls

-- The loop of `gatt_server_send_status`, with fuel for the bytes.
send_chunks : ℕ → ℕ → Bytes → List GattCall → List GattCall
send_chunks zero max s calls = calls
send_chunks (suc fuel) max [] calls = calls
send_chunks (suc fuel) max (c ∷ s) calls =
    let chunk = if ltb max (length (c ∷ s)) then max else length (c ∷ s) in
    send_chunks fuel max (drop chunk (c ∷ s)) (indicate tx (take chunk (c ∷ s)) ∷ calls)

-- `max_chunk`
abbrev pub max_chunk : ℕ → ℕ
max_chunk payload = if ltb payload 1 then 1 else if ltb 180 payload then 180 else payload

unfoldable pub gatt_server_send_status : Bytes → Link → Link
unfolding set_value_if send_chunks
gatt_server_send_status s l =
    let calls = set_value_if (l.registered && l.has_table) tx s l.calls in
    record l {
      calls =
          if not l.tx_notify || not l.connected || not l.registered
          then calls
          else indicate tx (b'\n' ∷ []) ∷ send_chunks (length s) (max_chunk l.mtu_payload) s calls;
    }

-- A text cut to the payload of the link.
abbrev pub clamped : ℕ → Bytes → Bytes
clamped payload s = if ltb payload (length s) then take payload s else s

-- `errsrc_notify_if_changed`; the text is at most 63 bytes, as `errsrc_get` gives it.
errsrc_notify_if_changed : Bytes → Link → Link
unfolding set_value_if
errsrc_notify_if_changed err l =
    let used = take 63 err in
    let calls = set_value_if (l.registered && l.has_table) errsrc used l.calls in
    if equal (take 64 err) (take 64 l.s_last_errsrc_sent)
    then record l { calls = calls }
    else record l {
      calls =
          if l.es_notify && l.connected && l.registered
          then indicate errsrc (clamped l.mtu_payload used) ∷ calls
          else calls;
      s_last_errsrc_sent = used;
    }

unfoldable pub gatt_server_notify_errsrc : Bytes → Link → Link
unfolding errsrc_notify_if_changed
gatt_server_notify_errsrc err l =
    errsrc_notify_if_changed (if is_nil err then codes "NONE" else err) l

unfoldable pub gatt_alert_notify : Bytes → Link → Link
unfolding set_value_if
gatt_alert_notify line l =
    let calls = set_value_if (l.registered && l.has_table) alert line l.calls in
    record l {
      calls =
          if l.alert_notify && l.connected && l.registered
          then indicate alert (clamped l.mtu_payload line) ∷ calls
          else calls;
    }

-- `ESP_GATTS_MTU_EVT`
unfoldable pub on_mtu : ℕ → Link → Link
on_mtu mtu l =
    let p = if ltb 23 mtu then mtu - 3 else 20 in
    let p1 = if ltb p 1 then 1 else p in record l { mtu_payload = if ltb 180 p1 then 180 else p1 }

-- `ESP_GATTS_CONNECT_EVT`
unfoldable pub on_connect : Link → Link
on_connect l = record l {
  connected = true;
  tx_notify = false;
  es_notify = false;
  alert_notify = false;
}

-- `ESP_GATTS_DISCONNECT_EVT`
unfoldable pub on_disconnect : Link → Link
on_disconnect l = record l {
  connected = false;
  tx_notify = false;
  es_notify = false;
  alert_notify = false;
}

-- Writes of the client configuration of the three characteristics; `err` and `line` are the current
-- error source and the text of the latest alert.
unfoldable pub on_tx_ccc : Bool → Link → Link
on_tx_ccc on l = record l { tx_notify = on }

unfoldable pub on_errsrc_ccc : Bool → Bytes → Link → Link
on_errsrc_ccc on err l =
    let l' = record l { es_notify = on } in if on then gatt_server_notify_errsrc err l' else l'

unfoldable pub on_alert_ccc : Bool → Bytes → Link → Link
on_alert_ccc on line l =
    let l' = record l { alert_notify = on } in if on then gatt_alert_notify line l' else l'
