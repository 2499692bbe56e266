-- ===== src/Lib.antt =====
-- ESP32-Remot-Control: firmware of an ESP32 that is controlled over TCP and, when that fails, over
-- BLE. It takes images over both, checks them and boots them, rolls back an image that does not
-- reach the network, and falls back to a BLE "lifeboat".
--
-- The parts and how they interact.
--   * Wi-Fi events (components/net/wifi) set the error source (components/errsrc), tell the
--     coordinator (components/syscoord) whether the link is up, report errors to the monitor
--     (components/monitor), and schedule the next attempt.
--   * The monitor rolls back on the first failure of an unconfirmed image, and asks the coordinator for
--     recovery on the second. It raises alerts (components/alerts) and keeps a post-rollback flag in
--     NVS (components/bootflag).
--   * The coordinator keeps the mode of the device, and starts and hides the lifeboat
--     (components/ble/fallback).
--   * TCP and BLE clients send command lines (components/net/tcp/tcp_client.c,
--     components/ble/gatt/ble_cmd.c) to one dispatcher (components/cmd). A correct token over TCP is
--     the proof of control that confirms the image and puts the device into normal mode. BLE clients
--     may also write Wi-Fi credentials (components/ble/gatt/gatt_wifi_cred.c). Commands that drive the
--     sensor or the LED go through a bus to a router, which answers the connection later.
--   * Images come over TCP (components/ota/ota_handler.c) or as BLE frames
--     (components/ble/gatt/ble_ota.c), both through a session (components/ota/ota_session.c) that counts
--     and checks them, and a writer (components/ota/ota_writer.c) on the flash.
--   * The GATT server (components/ble/gatt/gatt_server.c, gatt_attrs.c) receives every event of the BLE
--     link, and hands a write to the command client, the credentials, or the upload.
--   * app_main (main/main.c) starts all of it in order.
--
-- The files. A function of the source keeps its name; its state is a record with the names of the
-- statics, given and returned. Statics that several components share are in one record (Device).
--   * Esp, Mode, Scan, Print, Prelude: error codes, partitions and the flash as a log of calls; the modes;
--     the parts of sscanf and printf; lists, bytes and Boolean tests.
--   * Ota.Writer, Ota.Session, Ota.Socket, Ota.Handler: the TCP upload. Ota.Ble: the BLE upload.
--   * Errsrc, Alerts, Bootflag, Fallback, Monitor (with Monitor.Policy), Syscoord, Wifi (with
--     Wifi.Credentials and Wifi.Start): the components of these names. System: all their events as a step
--     relation. System.Policy: the policy of README.md as a machine of its own,
--     which reads the same events and which the device refines.
--     Boot: app_main of main/main.c.
--   * Framing: how both transports cut bytes into lines. Tcp: the listener and the tasks of its clients
--     (components/net/tcp). Command: the handlers (Command.Handlers), the token (Command.Auth), the bus
--     (Command.Bus), the formatted texts (Command.Texts), the table and the dispatcher
--     (Command.Dispatch), the router with the LED (Command.Router). Dht: the sensor; Dht.Wire: the polling of its pin.
--   * Gatt.Attributes: the attribute table and its handles (gatt_attrs.c). Gatt.Commands: the command
--     client (ble_cmd.c). Gatt.Credentials: the written credentials (gatt_wifi_cred.c). Gatt.Notify: what is
--     sent to a BLE client (gatt_notify.c). Gatt.Server: the events (gatt_server.c), by the state
--     (Server.State), the values that are read (Server.Values), the writes (Server.Writes), and the
--     handler (Server.Events).
--   * The other modules prove: Ota.Handler.Sound and Complete, Ota.Ble.Upload, System.Reachable and so
--     on; Examples and Fixtures hold tests and instances.
--
-- How it is modelled. Numbers are natural; a field of w bits is reduced modulo 2^w where the source may
-- wrap. A C string is the list of its bytes. What ESP-IDF answers (flash, partitions, NVS, random
-- numbers, sockets, the Wi-Fi driver) is a parameter, restricted only by what its documentation says
-- (Esp.Flash.IsDocumented, System.Settled.MarksValid). Whether FreeRTOS can make a queue or a task,
-- and whether a checked call of wifi_start succeeds, are parameters too; a queue that was made is the list of
-- its items, which xQueueSend extends at its end while it is shorter than its depth. Delays are in ticks
-- of 10 ms (CONFIG_FREERTOS_HZ is 100). A function of the source runs to its end before another one; tasks
-- interleave at whole functions, and the tasks of TCP clients at the buffers that they receive. A restart
-- of the device ends a run.
--
-- Fuel. The loop over one buffer of the TCP client takes as fuel the length of the buffer, and every
-- round takes at least one byte. The payload loop of the TCP upload takes as fuel its size in bytes, and
-- every round that goes on takes at least one byte. The chunks of a status take its length, and every
-- chunk has at least one byte. The polling of the sensor's pin takes its polls as fuel, and is proved to
-- end within a number of them that the speed of the clock gives.
--
-- Not modelled, and why: the upload that the command `ota` runs is Ota.Handler's, and kept as a call by
-- the command; the `send` of tcp_write is glue, and its result is unused by the callers; log
-- lines have no effect here, except log_sanitized_line; components/ble/priv/ota_bridge.c and
-- components/syscoord/sys_sink.c hold weak symbols without a body, and main.c at the root is commented
-- out. The Python client (app/) is another program.
mod Prelude
mod Scan
mod Print
pub mod Esp
pub mod Mode
mod Examples
pub mod Errsrc
pub mod Alerts
pub mod Bootflag
pub mod Fallback
pub mod Framing
pub mod Monitor
pub mod Dht
pub mod Device
pub mod Syscoord
pub mod Wifi
pub mod System
pub mod Command
pub mod Boot
pub mod Tcp
pub mod Gatt
pub mod Ota
