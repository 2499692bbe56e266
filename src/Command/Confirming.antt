-- ===== src/Command/Confirming.antt =====
-- The token over TCP keeps the image.
use esp32_remot_control.Prelude.{◌≡◌, ◌≢◌, refl, ap, ◌∙◌, true, codes, ◌++◌, Bytes, equal, take}
use esp32_remot_control.Device.{Device, restarts}
use esp32_remot_control.System.{Event, handle, Runs}
use esp32_remot_control.System.Settled.{IsConfirmed, MarksValid, unconfirmed_at}
use esp32_remot_control.System.Confirmed.{Runs-IsConfirmed, confirmed_runs_on, proof-IsConfirmed}
use esp32_remot_control.Command.{tcp, Context, Board, Environment}
use esp32_remot_control.Command.Auth.{trim_trailing, auth_token_load}
use esp32_remot_control.Command.Handlers.{cmd_auth, control_proven}
use esp32_remot_control.Command.Dispatch.{cmd_dispatch_line}
use esp32_remot_control.Command.Renewal.{IsWord, auth_line, printable-take, trim_printable}

auth-proves :
    (env : Environment) (t : Bytes) (ctx : Context) (b : Board)
    → trim_trailing (take 65 t) ≡ take 65 t
    → ctx.xport ≡ tcp
    → equal (take 65 t) (auth_token_load env.auth_readable b.token).s_auth_token ≡ true
    → (cmd_auth env t ctx b).1.device ≡ control_proven env b.device
unfolding cmd_auth
auth-proves env t ctx b w x h = rw (w, h, x) refl

-- Where ESP-IDF marks images valid as it says, a client that gives the token (a word) over TCP keeps the
-- running image from the monitor: whatever events of Wi-Fi, of the coordinator and of the fallback then
-- happen (a restart at the end of an upload is none of them), none of them restarts the device.
pub token_keeps_image :
    (env : Environment) (t : Bytes) (ctx : Context) (b : Board) (e : Event) (d d' : Device)
    → MarksValid env.platform
    → IsWord t
    → ctx.xport ≡ tcp
    → equal (take 65 t) (auth_token_load env.auth_readable b.token).s_auth_token ≡ true
    → Runs env.platform (cmd_dispatch_line env (codes "auth " ++ t) ctx b).1.device d
    → handle env.platform e d ≢ restarts d'
unfolding control_proven
token_keeps_image env t ctx b e d d' m w x h r =
    let p = env.platform in
    let start = (cmd_dispatch_line env (codes "auth " ++ t) ctx b).1.device in
    let trimmed = trim_printable (take 65 t) (printable-take 65 t w.all_printable) in
    let proved : start ≡ control_proven env b.device =
      ap (λ (r : Context × Board). r.1.device) (auth_line env t ctx b w)
      ∙ auth-proves env t ctx b trimmed x h in
    let confirmed : IsConfirmed p start.confirms =
      ap (λ (v : Device). unconfirmed_at p v.confirms p.running_partition) proved
      ∙ proof-IsConfirmed p b.device m in
    confirmed_runs_on p e d d' (Runs-IsConfirmed p start d r confirmed)
