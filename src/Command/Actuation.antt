-- ===== src/Command/Actuation.antt =====
-- From a command line through the bus to the peripherals.
use esp32_remot_control.Prelude.{
  ℕ, ◌≡◌, refl, ap, ◌∙◌, Bool, true, false, some, [], ◌∷◌, codes, if◌then◌else◌, arith,
}
use esp32_remot_control.Command.{Context, Board, Environment}
use esp32_remot_control.Command.Bus.{
  BusCommand, cmd_bus_send_msg, cmd_bus_is_ready, cmd_bus_receive_msg, bus_led_on, bus_led_off,
}
use esp32_remot_control.Command.Handlers.{cmd_post, post}
use esp32_remot_control.Command.Dispatch.{
  run_handler, run_entry, dispatch_trimmed, cmd_dispatch_line,
}
use esp32_remot_control.Command.Renewal.{when_authed}
use esp32_remot_control.Command.Router.{
  Peripherals, cmd_router_task, routed, route, led_on, led_off,
}

pub cmd_post-empty :
    (c : BusCommand) (ctx : Context) (b : Board)
    → b.bus ≡ some []
    → (cmd_post c ctx b).bus ≡ some (record { command = c; ctx = some ctx.link; arg = 0 } ∷ [])
unfolding cmd_post post cmd_bus_send_msg cmd_bus_is_ready
cmd_post-empty c ctx b e = ground arith

-- The line of an authenticated and open client that switches the LED, with the bus empty, and one round of the
-- router set the LED, answer that client, and leave the bus empty.
led_switches :
    (env : Environment) (writes : ℕ → Bool) (on : Bool) (tick_ms now : ℕ) (ctx : Context)
    (b : Board) (p : Peripherals)
    → ctx.authed ≡ true
    → writes ctx.link ≡ true
    → b.bus ≡ some []
    → let b' = (cmd_dispatch_line env (if on then codes "led_on" else codes "led_off") ctx b).1 in
      cmd_router_task writes tick_ms now (b'.bus, p) ≡ (
        some [],
        record p {
          led_level = if on then 1 else 0;
          answers = (ctx.link, if on then codes "LED_ON\n" else codes "LED_OFF\n") ∷ p.answers;
        },
      )
unfolding cmd_dispatch_line dispatch_trimmed run_entry run_handler cmd_bus_receive_msg
    cmd_router_task routed route led_on led_off
led_switches env writes true tick_ms now ctx b p a w e =
    let posted = ap (λ (r : Context × Board). r.1.bus) (when_authed ctx.authed _ _ a) in
    ap (λ q. cmd_router_task writes tick_ms now (q, p)) (posted ∙ cmd_post-empty bus_led_on ctx b e)
    ∙ rw w refl
led_switches env writes false tick_ms now ctx b p a w e =
    let posted = ap (λ (r : Context × Board). r.1.bus) (when_authed ctx.authed _ _ a) in
    ap (λ q. cmd_router_task writes tick_ms now (q, p))
      (posted ∙ cmd_post-empty bus_led_off ctx b e)
    ∙ rw w refl
