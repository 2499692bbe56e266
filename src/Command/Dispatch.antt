-- ===== src/Command/Dispatch.antt =====
-- command.c and cmd_table.c: from a line to its handler.
use esp32_remot_control.Prelude.{
  Bool, true, false, not, ◌&&◌, Option, none, some, List, [], ◌∷◌, Bytes, codes, c_str,
  equal_nocase, leb, ltb, if◌then◌else◌,
}
use esp32_remot_control.Command.{Context, Board, Environment, say}
use esp32_remot_control.Command.Bus.{bus_led_on, bus_led_off, bus_dht_query, bus_dht_state}
use esp32_remot_control.Command.Auth.{is_nil, trim_trailing}
use esp32_remot_control.Command.Handlers.{
  cmd_ping, cmd_auth, cmd_settoken, cmd_diag, cmd_post, cmd_version, cmd_ota, cmd_setwifi,
  cmd_errsrc, cmd_dhtstream,
}

-- The handlers of the table, by name.
pub data Handler : Type 0 where
  ping auth settoken diag led_on led_off version ota setwifi errsrc : Handler
  dht dhtstream dhtstate : Handler

-- `cmd_entry_t`
pub record Entry : Type 0 where
  pub name : Bytes
  pub needs_auth : Bool
  pub fn : Handler

abbrev pub cmds : List Entry
cmds =
    record { name = codes "ping"; needs_auth = false; fn = ping }
    ∷ record { name = codes "auth"; needs_auth = false; fn = auth }
    ∷ record { name = codes "settoken"; needs_auth = true; fn = settoken }
    ∷ record { name = codes "diag"; needs_auth = true; fn = diag }
    ∷ record { name = codes "led_on"; needs_auth = true; fn = led_on }
    ∷ record { name = codes "led_off"; needs_auth = true; fn = led_off }
    ∷ record { name = codes "version"; needs_auth = false; fn = version }
    ∷ record { name = codes "ota"; needs_auth = true; fn = ota }
    ∷ record { name = codes "setwifi"; needs_auth = true; fn = setwifi }
    ∷ record { name = codes "errsrc"; needs_auth = false; fn = errsrc }
    ∷ record { name = codes "dht?"; needs_auth = false; fn = dht }
    ∷ record { name = codes "dhtstream"; needs_auth = true; fn = dhtstream }
    ∷ record { name = codes "dhtstate"; needs_auth = false; fn = dhtstate }
    ∷ []

unfoldable pub run_handler : Environment → Handler → Bytes → Context → Board → Context × Board
run_handler env ping args ctx b = (ctx, cmd_ping b)
run_handler env auth args ctx b = cmd_auth env args ctx b
run_handler env settoken args ctx b = (ctx, cmd_settoken env args ctx b)
run_handler env diag args ctx b = (ctx, cmd_diag env b)
run_handler env led_on args ctx b = (ctx, cmd_post bus_led_on ctx b)
run_handler env led_off args ctx b = (ctx, cmd_post bus_led_off ctx b)
run_handler env version args ctx b = (ctx, cmd_version env b)
run_handler env ota args ctx b = (ctx, cmd_ota args ctx b)
run_handler env setwifi args ctx b = (ctx, cmd_setwifi env args b)
run_handler env errsrc args ctx b = (ctx, cmd_errsrc b)
run_handler env dht args ctx b = (ctx, cmd_post bus_dht_query ctx b)
run_handler env dhtstream args ctx b = (ctx, cmd_dhtstream args ctx b)
run_handler env dhtstate args ctx b = (ctx, cmd_post bus_dht_state ctx b)

-- `lskip_n`
abbrev pub lskip : Bytes → Bytes
lskip [] = []
lskip (c ∷ s) = let rest = lskip s in if leb c 32 then rest else c ∷ s

-- The command's name, and what follows it.
abbrev pub split_name : Bytes → Bytes × Bytes
split_name [] = ([], [])
split_name (c ∷ s) =
    let (name, rest) = split_name s in if ltb 32 c then (c ∷ name, rest) else ([], c ∷ s)

-- The entry for a name: one of its length that agrees but for case.
abbrev pub find_entry : Bytes → List Entry → Option Entry
find_entry name [] = none
find_entry name (e ∷ es) =
    let rest = find_entry name es in if equal_nocase name e.name then some e else rest

unfoldable pub run_entry : Environment → Option Entry → Bytes → Context → Board → Context × Board
unfolding run_handler
run_entry env none args ctx b = (ctx, say (codes "WHAT\n") b)
run_entry env (some e) args ctx b =
    if e.needs_auth && not ctx.authed
    then (ctx, say (codes "DENIED\n") b)
    else run_handler env e.fn args ctx b

-- A line that is not empty once it is trimmed.
unfoldable pub dispatch_trimmed : Environment → Bytes → Context → Board → Context × Board
unfolding run_entry
dispatch_trimmed env line ctx b =
    let (name, rest) = split_name line in
    run_entry env (find_entry name cmds) (c_str (lskip rest)) ctx b

unfoldable pub cmd_dispatch_line : Environment → Bytes → Context → Board → Context × Board
unfolding dispatch_trimmed
cmd_dispatch_line env line ctx b =
    let trimmed = lskip (trim_trailing line) in
    if is_nil trimmed then (ctx, b) else dispatch_trimmed env trimmed ctx b
