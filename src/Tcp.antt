-- ===== src/Tcp.antt =====
-- components/net/tcp: the listener, and its clients side by side. Each has a task of its own (`client_task`);
-- the tasks interleave at the buffers that they receive. The open clients are kept in no order.
pub mod Count
pub mod Late
pub mod Guests
pub mod Log
mod Examples
use esp32_remot_control.Prelude.{
  ℕ, ◌+◌, Bool, true, false, not, ◌&&◌, ◌||◌, Option, none, some, List, [], ◌∷◌, ◌++◌, Bytes, codes,
  take, equal_nocase, pred, length, ◌==◌, if◌then◌else◌,
}
use esp32_remot_control.Framing.{dispatch_line, client_buffer}
use esp32_remot_control.Command.{tcp, Context, Board, Environment}
use esp32_remot_control.Gatt.Credentials.{dispatch_on}

-- The variables of a `client_task`; it has begun once it has counted itself.
pub record TcpClient : Type 0 where
  pub fd : ℕ
  pub begun : Bool
  pub line : Bytes
  pub ctx : Context

-- `closed` names the contexts whose `write` is NULL. A context is named by its descriptor; that of a new
-- task replaces that of an ended one here.
pub record Net : Type 0 where
  pub s_client_count : ℕ
  pub clients : List TcpClient
  pub board : Board
  pub closed : List ℕ

-- `tcp_on_client_connected`, and `tcp_on_client_disconnected`, which keeps the count from falling below
-- 0; the coordinator ignores what they tell it.
unfoldable pub tcp_on_client_connected : Net → Net
tcp_on_client_connected n = record n { s_client_count = n.s_client_count + 1 }

unfoldable pub tcp_on_client_disconnected : Net → Net
tcp_on_client_disconnected n = record n {
  s_client_count = if n.s_client_count == 0 then 0 else pred n.s_client_count;
}

-- `tcp_client_spawn`: the task, with the context that it starts with.
unfoldable pub tcp_client_spawn : ℕ → Net → Net
tcp_client_spawn fd n = record n {
  clients =
      record {
        fd = fd;
        begun = false;
        line = [];
        ctx = record { authed = false; xport = tcp; link = fd };
      }
      ∷ n.clients;
}

-- How `server_task` ends before it listens, or what it has accepted so far.
pub data Listener : Type 0 where
  no_socket not_bound not_listening : Listener
  listening : Net → Listener

-- Its loop, over what `accept` gives: a descriptor, or an error, behind which it waits.
unfoldable pub accept_all : List (Option ℕ) → Net → Net
unfolding tcp_client_spawn
accept_all [] n = n
accept_all (none ∷ cs) n = accept_all cs n
accept_all (some c ∷ cs) n = accept_all cs (tcp_client_spawn c n)

-- Whether the socket can be made, bound and listened on; one that cannot is closed.
unfoldable pub server_task : Bool → Bool → Bool → List (Option ℕ) → Net → Listener
unfolding accept_all
server_task made bound heard accepted n =
    if not made
    then no_socket
    else if not bound
    then not_bound
    else if not heard
    then not_listening
    else listening (accept_all accepted n)

abbrev pub keep_client :
    TcpClient → Option (TcpClient × List TcpClient) → Option (TcpClient × List TcpClient)
keep_client c none = none
keep_client c (some (d, rest)) = some (d, c ∷ rest)

abbrev pub is_client : ℕ → Bool → TcpClient → Bool
is_client fd begun c = c.fd == fd && (if begun then c.begun else not c.begun)

-- The client of a descriptor, and the others.
unfoldable pub take_client : ℕ → Bool → List TcpClient → Option (TcpClient × List TcpClient)
take_client fd begun [] = none
take_client fd begun (c ∷ cs) =
    let later = keep_client c (take_client fd begun cs) in
    if is_client fd begun c then some (c, cs) else later

-- A connection is accepted; its task begins; it receives a buffer; `recv` fails or the peer has closed.
pub data TcpEvent : Type 0 where
  accepts begins ends : ℕ → TcpEvent
  receives : ℕ → Bytes → TcpEvent

-- The descriptors but for one.
abbrev pub without : ℕ → List ℕ → List ℕ
without fd [] = []
without fd (x ∷ xs) = let rest = without fd xs in if x == fd then rest else x ∷ rest

abbrev pub among : ℕ → List ℕ → Bool
among fd [] = false
among fd (x ∷ xs) = x == fd || among fd xs

-- Has a context its `write`?
unfoldable pub writes : Net → ℕ → Bool
writes n fd = not (among fd n.closed)

-- The task begins, with a context that has its `write`.
unfoldable pub begin_client : Option (TcpClient × List TcpClient) → Net → Net
unfolding tcp_on_client_connected
begin_client none n = n
begin_client (some (c, rest)) n =
    tcp_on_client_connected
      (record n { clients = record c { begun = true } ∷ rest; closed = without c.fd n.closed })

-- The loop over a buffer.
unfoldable pub serve : Environment → Bytes → Option (TcpClient × List TcpClient) → Net → Net
serve env buf none n = n
serve env buf (some (c, rest)) n =
    let (line, (ctx, b)) =
      client_buffer (dispatch_on env) (length buf) buf (c.line, (c.ctx, n.board)) in
    record n { clients = record c { line = line; ctx = ctx } ∷ rest; board = b }

-- The end of the task: what is left of a line is dispatched, `write` is cleared, and the connection
-- closed.
unfoldable pub end_client : Environment → Option (TcpClient × List TcpClient) → Net → Net
unfolding tcp_on_client_disconnected
end_client env none n = n
end_client env (some (c, rest)) n =
    let (ctx, b) = dispatch_line (dispatch_on env) c.line (c.ctx, n.board) in
    tcp_on_client_disconnected (record n { clients = rest; board = b; closed = c.fd ∷ n.closed })

unfoldable pub tcp_step : Environment → TcpEvent → Net → Net
unfolding tcp_client_spawn begin_client serve end_client
tcp_step env (accepts fd) n = tcp_client_spawn fd n
tcp_step env (begins fd) n = begin_client (take_client fd false n.clients) n
tcp_step env (receives fd buf) n = serve env buf (take_client fd true n.clients) n
tcp_step env (ends fd) n = end_client env (take_client fd true n.clients) n

-- `strncasecmp(line, prefix, n) == 0`, for a prefix of n bytes
abbrev has_prefix_nocase : Bytes → Bytes → Bool
has_prefix_nocase prefix line = equal_nocase prefix (take (length prefix) line)

-- What `log_sanitized_line` logs of a line.
unfoldable pub log_sanitized_line : Bytes → Bytes
log_sanitized_line line =
    if has_prefix_nocase (codes "AUTH ") line
    then codes "Received: 'AUTH ****'"
    else if has_prefix_nocase (codes "SETWIFI ") line
    then codes "Received: 'SETWIFI **** ****'"
    else codes "Received: '" ++ (line ++ codes "'")
