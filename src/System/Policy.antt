-- ===== src/System/Policy.antt =====
-- The policy of the README as a machine of its own: a mode, whether a TCP client has proved control, and
-- the requests for recovery that wait.
use esp32_remot_control.Prelude.{
  ℕ, ◌+◌, ◌≡◌, Bool, true, false, not, ◌&&◌, Option, none, some, List, [], ◌∷◌, ltb, pred,
  if◌then◌else◌,
}
use esp32_remot_control.Mode.{Mode, wait_control, normal, recovery, is_normal}
use esp32_remot_control.Device.{Device}
use esp32_remot_control.Syscoord.{is_tcp}
use esp32_remot_control.Wifi.{WifiEvent, sta_start, sta_disconnected, sta_stop}
use esp32_remot_control.System.{Event, wifi, ip_lost, auth_ok, no_control, coordinator, control_ok}

pub record Policy : Type 0 where
  pub mode : Mode
  pub authed : Bool
  pub requests : Option ℕ

abbrev pub view : Device → Policy
view d = record { mode = d.mode; authed = d.tcp_authed; requests = d.recoveries }

-- A lost link takes the proof of control back, and the device out of normal mode.
abbrev pub lost : Policy → Policy
lost q = record q { mode = if is_normal q.mode then wait_control else q.mode; authed = false }

abbrev pub proven : Policy → Policy
proven q = record q { mode = normal; authed = true }

-- At most four requests wait; without a queue none does.
abbrev pub one_more : Option ℕ → Option ℕ
one_more none = none
one_more (some n) = if ltb n 4 then some (n + 1) else some n

abbrev pub ask : Policy → Policy
ask q = record q { requests = one_more q.requests }

abbrev pub ask_if : Bool → Policy → Policy
ask_if true q = ask q
ask_if false q = q

-- The oldest request, if one waits.
abbrev pub answered : Option ℕ → Policy → Policy
answered none q = q
answered (some n) q = if ltb 0 n then record q { mode = recovery; requests = some (pred n) } else q

abbrev pub is_loss : WifiEvent → Bool
is_loss (sta_disconnected r) = true
is_loss sta_stop = true
is_loss _ = false

-- Does an event report a failure of Wi-Fi?
abbrev pub is_failure : WifiEvent → Bool
is_failure (sta_disconnected r) = true
is_failure (sta_start has_ssid) = not has_ssid
is_failure _ = false

-- What an event does: a lost link takes the proof back; behind a failure of Wi-Fi the monitor asks for
-- recovery or not (`asks`); a TCP client that has proved control leads to normal mode; a request that
-- waits leads to recovery; nothing else changes anything.
abbrev pub policy : Event → Bool → Policy → Policy
policy (wifi r e) asks q = ask_if (asks && is_failure e) (if is_loss e then lost q else q)
policy ip_lost asks q = ask_if asks (lost q)
policy auth_ok asks q = proven q
policy (control_ok source) asks q = if is_tcp source && q.authed then proven q else q
policy no_control asks q = ask q
policy coordinator asks q = answered q.requests q
policy _ asks q = q

-- The runs of the policy over given events, the latest first.
pub data PolicyRuns (q : Policy) : List Event → Policy → Type 0 where
  stays : PolicyRuns q [] q
  moves :
      {es : List Event} {q1 q2 : Policy} (e : Event) (asks : Bool)
      → PolicyRuns q es q1
      → q2 ≡ policy e asks q1
      → PolicyRuns q (e ∷ es) q2
