-- ===== src/Command/Gate.antt =====
-- What a client can do before it has authenticated.
use esp32_remot_control.Prelude.{
  ℕ, ◌≡◌, refl, ap, Bool, true, false, not, ◌&&◌, ◌||◌, Option, none, some, List, [], ◌∷◌, ◌++◌,
  Bytes, c_str, equal, if◌then◌else◌, take, Bool-cases, Option-cases, inl, inr, arith, equal_nocase,
}
use esp32_remot_control.Mode.{normal}
use esp32_remot_control.Device.{Device}
use esp32_remot_control.Syscoord.{syscoord_control_path_ok, syscoord_mark_tcp_authed, set_mode}
use esp32_remot_control.Command.{tcp, Context, Board, Environment, Out, reply, upload}
use esp32_remot_control.Command.Bus.{
  BusCommand, Message, bus_dht_query, bus_dht_state, cmd_bus_is_ready, cmd_bus_send_msg,
}
use esp32_remot_control.Command.Auth.{is_nil, trim_trailing, auth_token_load}
use esp32_remot_control.Command.Handlers.{
  control_proven, cmd_ping, cmd_auth, cmd_post, cmd_version, cmd_errsrc, post,
}
use esp32_remot_control.Command.Dispatch.{
  Handler, ping, auth, settoken, diag, led_on, led_off, version, ota, setwifi, errsrc, dht,
  dhtstream, dhtstate, Entry, cmds, find_entry, run_handler, run_entry, dispatch_trimmed,
  cmd_dispatch_line, lskip, split_name,
}

-- The uploads that have been run.
abbrev pub uploads : List Out → List ℕ
uploads [] = []
uploads (reply r ∷ l) = uploads l
uploads (upload n ∷ l) = n ∷ uploads l

-- Does a message only ask?
abbrev pub is_query : BusCommand → Bool
is_query bus_dht_query = true
is_query bus_dht_state = true
is_query _ = false

-- The messages of a queue that do more than ask.
abbrev pub orders : List Message → List Message
orders [] = []
orders (m ∷ q) = let rest = orders q in if is_query m.command then rest else m ∷ rest

abbrev pub bus_orders : Option (List Message) → List Message
bus_orders none = []
bus_orders (some q) = orders q

-- Nothing has been stored, configured, uploaded or ordered.
pub record Harmless (b b' : Board) : Type 0 where
  pub token_kept : b'.token.stored ≡ b.token.stored
  pub station_kept : b'.station ≡ b.station
  pub no_upload : uploads b'.out ≡ uploads b.out
  pub no_order : bus_orders b'.bus ≡ bus_orders b.bus

-- The arguments of a line.
abbrev pub arguments : Bytes → Bytes
arguments line = c_str (lskip (split_name (lskip (trim_trailing line))).1)

-- What an unauthenticated client gets from a line.
pub record Gated (env : Environment) (args : Bytes) (b : Board) (r : Context × Board) : Type 0 where
  pub harmless : Harmless b r.1
  pub denied : r.0.authed ≡ false → r.1.device ≡ b.device
  pub proven :
      r.0.authed ≡ true
      → equal
          (trim_trailing (take 65 args))
          (auth_token_load env.auth_readable b.token).s_auth_token
        ≡ true

orders-append :
    (q : List Message) (m : Message) → is_query m.command ≡ true → orders (q ++ m ∷ []) ≡ orders q
orders-append [] m h = rw h refl
orders-append (n ∷ q) m h = ap (λ l. if is_query n.command then l else n ∷ l) (orders-append q m h)

-- The handlers that anybody may call.
abbrev is_open : Handler → Bool
is_open ping = true
is_open auth = true
is_open version = true
is_open errsrc = true
is_open dht = true
is_open dhtstate = true
is_open _ = false

abbrev guarded : List Entry → Bool
guarded [] = true
guarded (e ∷ es) = (e.needs_auth || is_open e.fn) && guarded es

find_entry-guarded :
    (name : Bytes) (es : List Entry) (e : Entry)
    → guarded es ≡ true
    → find_entry name es ≡ some e
    → (e.needs_auth || is_open e.fn) ≡ true
find_entry-guarded name [] e g h = absurd cc
find_entry-guarded name (f ∷ es) e g h = elim (Bool-cases (equal_nocase name f.name)) [
  | inl y ↦ let same : f ≡ e = ground arith in rw⁻¹ same (ground arith)
  | inr n ↦ find_entry-guarded name es e (ground arith) (ground arith)
]

-- A query leaves the device, and gives no rights.
post-Gated :
    (env : Environment) (args : Bytes) (c : BusCommand) (ctx : Context) (b : Board)
    → ctx.authed ≡ false
    → is_query c ≡ true
    → Gated env args b (ctx, cmd_post c ctx b)
unfolding cmd_post post cmd_bus_send_msg cmd_bus_is_ready
post-Gated env args c ctx b a q =
    let message : Message = record { command = c; ctx = some ctx.link; arg = 0 } in
    record {
      harmless = record {
        token_kept = ground arith;
        station_kept = ground arith;
        no_upload = ground arith;
        no_order = elim (Option-cases b.bus) [
          | inl n ↦ ground arith
          | inr (l, e) ↦ ground (arith, orders-append l message q)
        ];
      };
      denied = λ _. ground arith;
      proven = λ y. ground arith;
    }

auth-Gated :
    (env : Environment) (args : Bytes) (ctx : Context) (b : Board)
    → ctx.authed ≡ false
    → Gated env args b (cmd_auth env args ctx b)
unfolding cmd_auth auth_token_load
auth-Gated env args ctx b a = record {
  harmless = record {
    token_kept = ground arith;
    station_kept = ground arith;
    no_upload = ground arith;
    no_order = ground arith;
  };
  denied = ground arith;
  proven = ground arith;
}

-- A handler that only replies.
reply-Gated :
    (env : Environment) (args : Bytes) (ctx : Context) (b : Board) (out : List Out)
    → ctx.authed ≡ false
    → uploads out ≡ uploads b.out
    → Gated env args b (ctx, record b { out = out })
reply-Gated env args ctx b out a u = record {
  harmless = record { token_kept = refl; station_kept = refl; no_upload = u; no_order = refl };
  denied = λ _. refl;
  proven = λ y. ground arith;
}

run_handler-Gated :
    (env : Environment) (h : Handler) (args : Bytes) (ctx : Context) (b : Board)
    → ctx.authed ≡ false
    → is_open h ≡ true
    → Gated env args b (run_handler env h args ctx b)
unfolding run_handler cmd_ping cmd_version cmd_errsrc
run_handler-Gated env ping args ctx b a o = reply-Gated env args ctx b _ a refl
run_handler-Gated env auth args ctx b a o = auth-Gated env args ctx b a
run_handler-Gated env version args ctx b a o = reply-Gated env args ctx b _ a refl
run_handler-Gated env errsrc args ctx b a o = reply-Gated env args ctx b _ a refl
run_handler-Gated env dht args ctx b a o = post-Gated env args bus_dht_query ctx b a refl
run_handler-Gated env dhtstate args ctx b a o = post-Gated env args bus_dht_state ctx b a refl
run_handler-Gated env settoken args ctx b a o = absurd cc
run_handler-Gated env diag args ctx b a o = absurd cc
run_handler-Gated env led_on args ctx b a o = absurd cc
run_handler-Gated env led_off args ctx b a o = absurd cc
run_handler-Gated env ota args ctx b a o = absurd cc
run_handler-Gated env setwifi args ctx b a o = absurd cc
run_handler-Gated env dhtstream args ctx b a o = absurd cc

run_entry-Gated :
    (env : Environment) (o : Option Entry) (args : Bytes) (ctx : Context) (b : Board)
    → ctx.authed ≡ false
    → ((e : Entry) → o ≡ some e → (e.needs_auth || is_open e.fn) ≡ true)
    → Gated env args b (run_entry env o args ctx b)
unfolding run_entry
run_entry-Gated env none args ctx b a h = reply-Gated env args ctx b _ a refl
run_entry-Gated env (some e) args ctx b a h = elim (Bool-cases (e.needs_auth && not ctx.authed)) [
  | inl y ↦ rw y (reply-Gated env args ctx b _ a refl)
  | inr n ↦ let guard = h e refl in rw n (run_handler-Gated env e.fn args ctx b a (ground arith))
]

-- Before a client has authenticated, no line stores a token, configures Wi-Fi, runs an upload or
-- posts a message that does more than ask; the device stays as it is unless the arguments of the
-- line, trimmed, are the token, and only then is the client authenticated.
pub cmd_dispatch_line-Gated :
    (env : Environment) (line : Bytes) (ctx : Context) (b : Board)
    → ctx.authed ≡ false
    → Gated env (arguments line) b (cmd_dispatch_line env line ctx b)
unfolding cmd_dispatch_line dispatch_trimmed
cmd_dispatch_line-Gated env line ctx b a = elim (Bool-cases (is_nil (lskip (trim_trailing line)))) [
  | inl y ↦ rw y (reply-Gated env (arguments line) ctx b b.out a refl)
  | inr n ↦
      let name = (split_name (lskip (trim_trailing line))).0 in
      rw n (
        run_entry-Gated env (find_entry name cmds) (arguments line) ctx b a
          (λ e. find_entry-guarded name cmds e refl))
]

control_proven_lem :
    (env : Environment) (d : Device)
    → ((control_proven env d).mode ≡ normal) × ((control_proven env d).tcp_authed ≡ true)
unfolding control_proven syscoord_control_path_ok syscoord_mark_tcp_authed set_mode
control_proven_lem env d = (ground arith, ground arith)

-- The token, given over TCP, proves the control path: behind it the client is authenticated and
-- the device is in normal mode with an authenticated TCP client.
cmd_auth_proves :
    (env : Environment) (args : Bytes) (ctx : Context) (b : Board)
    → ctx.xport ≡ tcp
    → equal (trim_trailing (take 65 args)) (auth_token_load env.auth_readable b.token).s_auth_token
      ≡ true
    → let (ctx', b') = cmd_auth env args ctx b in
      (ctx'.authed ≡ true) × (b'.device.mode ≡ normal) × (b'.device.tcp_authed ≡ true)
unfolding cmd_auth
cmd_auth_proves env args ctx b t h =
    let (mode, client) = control_proven_lem env b.device in
    (ground arith, ground (arith, mode), ground (arith, client))
