-- ===== src/Tcp/Log.antt =====
-- What the log hides of a line, and what it does not.
use esp32_remot_control.Prelude.{◌≡◌, refl, ◌∷◌, ◌++◌, Bytes, codes, arith}
use esp32_remot_control.Command.{Context, Board, Environment}
use esp32_remot_control.Command.Auth.{trim_trailing}
use esp32_remot_control.Command.Dispatch.{cmd_dispatch_line, lskip}
use esp32_remot_control.Tcp.{log_sanitized_line}

spaced : (line : Bytes) → lskip (trim_trailing (b' ' ∷ line)) ≡ lskip (trim_trailing line)
spaced line = ground arith

-- A line with a space in front is dispatched like the line itself, but nothing of it is hidden from
-- the log; nor is the token that `settoken` sets.
spaced_line_logged :
    (env : Environment) (line : Bytes) (ctx : Context) (b : Board)
    → (cmd_dispatch_line env (b' ' ∷ line) ctx b ≡ cmd_dispatch_line env line ctx b)
      × (log_sanitized_line (b' ' ∷ line) ≡ codes "Received: '" ++ ((b' ' ∷ line) ++ codes "'"))
      × (log_sanitized_line (codes "settoken " ++ line)
          ≡ codes "Received: '" ++ ((codes "settoken " ++ line) ++ codes "'"))
unfolding cmd_dispatch_line log_sanitized_line
spaced_line_logged env line ctx b = (rw (spaced line) refl, refl, refl)
