-- ===== src/Command.antt =====
-- components/cmd: the command lines, with the parts of the device that they reach. A connection is
-- its context; what a command writes or starts is kept in `out`, newest first.
pub mod Bus
pub mod Auth
pub mod Texts
pub mod Handlers
pub mod Dispatch
pub mod Gate
pub mod Renewal
pub mod Router
pub mod Actuation
pub mod Streaming
pub mod Confirming
pub mod Fits
pub mod Fixtures
mod Examples
use esp32_remot_control.Prelude.{
  ℕ, Bool, true, false, Option, none, some, List, [], ◌∷◌, Bytes, codes, take,
}
use esp32_remot_control.Esp.{EspErr, Partition, ImageState}
use esp32_remot_control.Errsrc.{ErrCode}
use esp32_remot_control.Mode.{Mode}
use esp32_remot_control.Device.{Device, Platform}
use esp32_remot_control.Wifi.Credentials.{Station, NvsAnswer}
use esp32_remot_control.Command.Bus.{Message}
use esp32_remot_control.Command.Auth.{Token}

-- `cmd_xport_t`, but for the context that no transport has filled in.
pub data Transport : Type 0 where
  tcp ble : Transport

-- `cmd_ctx_t`: `link` tells the connections apart (the socket, or the BLE link).
pub record Context : Type 0 where
  pub authed : Bool
  pub xport : Transport
  pub link : ℕ

-- What a command does besides changing the state: a reply, or an upload that it runs.
pub data Out : Type 0 where
  reply : Bytes → Out
  upload : ℕ → Out

pub record Board : Type 0 where
  pub device : Device
  pub token : Token
  pub station : Station
  pub bus : Option (List Message)
  pub out : List Out

-- What the libraries answer: besides the platform, what NVS answers, a random number, the version
-- that the running image describes (empty where there is none), that of the build, where it has one,
-- and the labels of partitions.
pub record Environment : Type 0 where
  pub platform : Platform
  pub auth_readable : Bool
  pub auth_saved : EspErr
  pub wifi_saved : NvsAnswer
  pub random : ℕ
  pub described : Bytes
  pub project_ver : Option Bytes
  pub label : Partition → Bytes

-- `cmd_reply`
abbrev pub say : Bytes → Board → Board
say s b = record b { out = reply s ∷ b.out }

-- `cmd_replyf`, of a formatted text: 319 bytes of it at most.
abbrev pub cmd_replyf : Bytes → Board → Board
cmd_replyf s b = say (take 319 s) b
