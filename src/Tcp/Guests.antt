-- ===== src/Tcp/Guests.antt =====
-- What TCP clients can do without the token, however their tasks interleave.
use mathlib.Core.Path.{subst}
use esp32_remot_control.Prelude.{
  ◌≡◌, refl, sym, Bool, true, false, Option, none, some, List, Bytes, length,
}
use esp32_remot_control.Framing.{dispatch_line, client_buffer}
use esp32_remot_control.Framing.Transports.{client_buffer-ble_cmd_on_rx}
use esp32_remot_control.Command.{Context, Board, Environment}
use esp32_remot_control.Gatt.Credentials.{dispatch_on}
use esp32_remot_control.Gatt.Server.Lines.{
  Untouched, Untouched-refl, Untouched-trans, ble_cmd_on_rx-Guest, dispatch_line-Guest,
}
use esp32_remot_control.Tcp.{
  TcpClient, Net, TcpEvent, accepts, begins, ends, receives, take_client, tcp_step,
  tcp_client_spawn, begin_client, serve, end_client, tcp_on_client_connected,
  tcp_on_client_disconnected,
}

-- What the task of a client has behind a buffer, and behind its last line.
abbrev pub behind_buffer : Environment → Bytes → TcpClient → Board → Context × Board
behind_buffer env buf c b =
    (client_buffer (dispatch_on env) (length buf) buf (c.line, (c.ctx, b))).1

abbrev pub behind_end : Environment → TcpClient → Board → Context × Board
behind_end env c b = dispatch_line (dispatch_on env) c.line (c.ctx, b)

abbrev authed_by :
    (TcpClient → Board → Context × Board) → Option (TcpClient × List TcpClient) → Board → Bool
authed_by f none b = false
authed_by f (some (c, rest)) b = (f c b).0.authed

-- Whether the client whose event it is is authenticated behind it.
abbrev pub authenticates : Environment → TcpEvent → Net → Bool
authenticates env (accepts fd) n = false
authenticates env (begins fd) n = false
authenticates env (receives fd buf) n =
    authed_by (behind_buffer env buf) (take_client fd true n.clients) n.board
authenticates env (ends fd) n = authed_by (behind_end env) (take_client fd true n.clients) n.board

-- Events of the TCP side, none of which leaves its client authenticated.
pub data TcpVisit (env : Environment) (n : Net) : Net → Type 0 where
  here : TcpVisit env n n
  next :
      {n1 : Net} (e : TcpEvent)
      → TcpVisit env n n1
      → authenticates env e n1 ≡ false
      → TcpVisit env n (tcp_step env e n1)

begin-board :
    (o : Option (TcpClient × List TcpClient)) (n : Net) → (begin_client o n).board ≡ n.board
unfolding begin_client tcp_on_client_connected
begin-board none n = refl
begin-board (some (c, rest)) n = refl

serve-Untouched :
    (env : Environment) (buf : Bytes) (o : Option (TcpClient × List TcpClient)) (n : Net)
    → authed_by (behind_buffer env buf) o n.board ≡ false
    → Untouched n.board (serve env buf o n).board
unfolding serve
serve-Untouched env buf none n h = Untouched-refl n.board
serve-Untouched env buf (some (c, rest)) n h =
    let same = client_buffer-ble_cmd_on_rx (dispatch_on env) buf (c.line, (c.ctx, n.board)) in
    subst (λ (r : Bytes × (Context × Board)). r.1.0.authed ≡ false → Untouched n.board r.1.1)
      (sym same) (λ g. (ble_cmd_on_rx-Guest env buf c.line c.ctx n.board g).untouched) h

end-Untouched :
    (env : Environment) (o : Option (TcpClient × List TcpClient)) (n : Net)
    → authed_by (behind_end env) o n.board ≡ false
    → Untouched n.board (end_client env o n).board
unfolding end_client tcp_on_client_disconnected
end-Untouched env none n h = Untouched-refl n.board
end-Untouched env (some (c, rest)) n h = (dispatch_line-Guest env c.line c.ctx n.board h).untouched

tcp_step-Untouched :
    (env : Environment) (e : TcpEvent) (n : Net)
    → authenticates env e n ≡ false
    → Untouched n.board (tcp_step env e n).board
unfolding tcp_step tcp_client_spawn
tcp_step-Untouched env (accepts fd) n h = Untouched-refl n.board
tcp_step-Untouched env (begins fd) n h =
    rw (begin-board (take_client fd false n.clients) n) (Untouched-refl n.board)
tcp_step-Untouched env (receives fd buf) n h = serve-Untouched env buf _ n h
tcp_step-Untouched env (ends fd) n h = end-Untouched env _ n h

-- However the tasks of any number of TCP clients interleave, with whatever bytes in whatever buffers,
-- as long as none is authenticated behind an event of its own, the stored token and the Wi-Fi
-- configuration stay as they were, no upload is run, nothing is ordered, and the device keeps its mode,
-- its post-rollback flag, its boot partition, its Wi-Fi state and its monitor.
pub tcp_guests_spare :
    (env : Environment) (n n' : Net) → TcpVisit env n n' → Untouched n.board n'.board
tcp_guests_spare env n n' here = Untouched-refl n.board
tcp_guests_spare env n n' (next {n1 = n1} e v h) =
    Untouched-trans (tcp_guests_spare env n n1 v) (tcp_step-Untouched env e n1 h)
