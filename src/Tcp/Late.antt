-- ===== src/Tcp/Late.antt =====
-- A client that leaves before the router has answered it. The context of an ended task keeps its contents
-- here, although its memory has been freed.
use esp32_remot_control.Prelude.{ℕ, Bool, true, []}
use esp32_remot_control.Command.{tcp}
use esp32_remot_control.Tcp.{TcpClient}

-- A client that has begun and not begun a line.
abbrev pub waiting : ℕ → Bool → TcpClient
waiting fd authed = record {
  fd = fd;
  begun = true;
  line = [];
  ctx = record { authed = authed; xport = tcp; link = fd };
}
