-- ===== src/Command/Streaming.antt =====
-- The sensor's stream, set and asked for over command lines.
use esp32_remot_control.Prelude.{
  ℕ, zero, suc, ◌+◌, ◌/◌, ◌%◌, ◌≤◌, ◌<◌, ◌≡◌, refl, ap, sym, ◌∙◌, Bool, true, false, Option, none,
  some, [], ◌∷◌, ◌++◌, Bytes, codes, drop, take, take-all, length, length-append, append-nil,
  u32_mod, arith,
}
use esp32_remot_control.Print.{print_u, digits_before}
use esp32_remot_control.Print.Read.{scan_u-print_u, print_u-IsWord}
use esp32_remot_control.Scan.{scan_u}
use esp32_remot_control.Dht.{Dht, dht_read_latest, dht_set_stream, dht_get_stream_state}
use esp32_remot_control.Gatt.Words.{scan_s-word}
use esp32_remot_control.Command.{Context, Board, Environment}
use esp32_remot_control.Command.Texts.{print_flag}
use esp32_remot_control.Command.Bus.{
  BusCommand, bus_dht_stream_on, bus_dht_state, cmd_bus_receive_msg, cmd_bus_send_msg,
  cmd_bus_is_ready,
}
use esp32_remot_control.Command.Handlers.{
  cmd_dhtstream, post, with_interval, scan_stream, stream_option,
}
use esp32_remot_control.Command.Dispatch.{
  run_handler, run_entry, dispatch_trimmed, cmd_dispatch_line,
}
use esp32_remot_control.Command.Renewal.{IsWord, when_authed, trim-append, c_str-printable}
use esp32_remot_control.Command.Actuation.{cmd_post-empty}
use esp32_remot_control.Command.Router.{Peripherals, cmd_router_task, routed, route, state_answer}

stream_line :
    (env : Environment) (t : Bytes) (ctx : Context) (b : Board)
    → IsWord t
    → ctx.authed ≡ true
    → cmd_dispatch_line env (codes "dhtstream on " ++ t) ctx b
      ≡ (ctx, cmd_dhtstream (codes "on " ++ t) ctx b)
unfolding cmd_dispatch_line dispatch_trimmed run_entry run_handler
stream_line env t ctx b w a =
    rw (trim-append (codes "dhtstream on ") t w, c_str-printable t w.all_printable)
      (when_authed ctx.authed _ _ a)

scan_u-space : (n : ℕ) → n < u32_mod → scan_u (b' ' ∷ print_u n) ≡ some (n, [])
unfolding scan_u
scan_u-space n l = ap scan_u (sym (append-nil (print_u n))) ∙ scan_u-print_u n [] l refl

scan_stream-on :
    (n : ℕ) → n < u32_mod → scan_stream (codes "on " ++ print_u n) ≡ some (codes "on", n)
scan_stream-on n l =
    let on_word : IsWord (codes "on") = record { nonempty = refl; all_printable = refl } in
    let r = scan_s-word 15 (codes "on") (b' ' ∷ print_u n) on_word (omega arith) refl in
    ap with_interval r
    ∙ ap (λ (o : Option (ℕ × Bytes)). some (codes "on", elim o [ none ↦ 0 | some (m, _) ↦ m ]))
        (scan_u-space n l)

post-empty :
    (c : BusCommand) (n : ℕ) (ctx : Context) (b : Board)
    → b.bus ≡ some []
    → (post c n ctx b).bus ≡ some (record { command = c; ctx = some ctx.link; arg = n } ∷ [])
unfolding post cmd_bus_send_msg
post-empty c n ctx b e = ground arith

dhtstream_posts :
    (n : ℕ) (ctx : Context) (b : Board)
    → n < u32_mod
    → ctx.authed ≡ true
    → b.bus ≡ some []
    → (cmd_dhtstream (codes "on " ++ print_u n) ctx b).bus
      ≡ some (record { command = bus_dht_stream_on; ctx = some ctx.link; arg = n } ∷ [])
unfolding cmd_dhtstream stream_option cmd_bus_is_ready
dhtstream_posts n ctx b l a e =
    let args = codes "on " ++ print_u n in
    let ready : cmd_bus_is_ready b.bus ≡ true = rw e refl in
    let opened : cmd_dhtstream args ctx b ≡ stream_option (scan_stream args) ctx b =
      when_authed ctx.authed _ _ a ∙ when_authed (cmd_bus_is_ready b.bus) _ _ ready in
    ap (λ (v : Board). v.bus) (opened ∙ ap (λ o. stream_option o ctx b) (scan_stream-on n l))
    ∙ post-empty bus_dht_stream_on n ctx b e

length-digits_before : (fuel n : ℕ) (s : Bytes) → length (digits_before fuel n s) ≤ fuel + length s
unfolding digits_before
length-digits_before zero n s = omega arith
length-digits_before (suc fuel) n s =
    let rest = length-digits_before fuel (n / 10) ((48 + n % 10) ∷ s) in ground arith

pub length-print_u : (n : ℕ) → length (print_u n) ≤ 10
unfolding print_u
length-print_u n = length-digits_before 10 n []

-- What follows the interval in the answer to `dhtstate`.
abbrev behind : Bool → ℕ → Bytes
behind valid age =
    codes " valid=" ++ (print_flag valid ++ (codes " age=" ++ (print_u age ++ codes " ms\n")))

length-behind : (valid : Bool) (age : ℕ) → length (behind valid age) ≤ 27
length-behind true age =
    omega (arith, length-append (print_u age) (codes " ms\n"), length-print_u age)
length-behind false age =
    omega (arith, length-append (print_u age) (codes " ms\n"), length-print_u age)

-- The answer is not cut.
state_answer-whole :
    (on : Bool) (n : ℕ) (valid : Bool) (age : ℕ)
    → let text =
        codes "DHTSTATE stream="
        ++ (print_flag on ++ (codes " interval=" ++ (print_u n ++ behind valid age))) in
      take 95 text ≡ text
state_answer-whole true n valid age = take-all 95 _ (
    omega (
      arith,
      length-append (print_u n) (behind valid age),
      length-print_u n,
      length-behind valid age,
    ))
state_answer-whole false n valid age = take-all 95 _ (
    omega (
      arith,
      length-append (print_u n) (behind valid age),
      length-print_u n,
      length-behind valid age,
    ))

-- What `%u` reads behind "interval=" in an answer to `dhtstate`.
abbrev pub interval_read : Bytes → Option ℕ
interval_read text = elim (scan_u (drop 27 text)) [ none ↦ none | some (n, _) ↦ some n ]

interval_read-print_u :
    (n : ℕ) (valid : Bool) (age : ℕ)
    → n < u32_mod
    → elim (scan_u (print_u n ++ behind valid age)) [ none ↦ none | some (n, _) ↦ some n ] ≡ some n
interval_read-print_u n valid age l = rw (scan_u-print_u n (behind valid age) l refl) refl

-- A line of a client, and then a round of the router.
abbrev pub line_then_router :
    Environment → (ℕ → Bool) → ℕ → ℕ → Bytes → Context → Board × Peripherals → Board × Peripherals
line_then_router env writes tick_ms now line ctx (b, p) =
    let b' = (cmd_dispatch_line env line ctx b).1 in
    let (q, p') = cmd_router_task writes tick_ms now (b'.bus, p) in (record b' { bus = q }, p')

stream_set :
    (env : Environment) (writes : ℕ → Bool) (n tick_ms now : ℕ) (ctx : Context) (b : Board)
    (p : Peripherals)
    → n < u32_mod
    → ctx.authed ≡ true
    → writes ctx.link ≡ true
    → b.bus ≡ some []
    → let r =
        line_then_router env writes tick_ms now (codes "dhtstream on " ++ print_u n) ctx (b, p) in
      (r.0.bus ≡ some [])
      × (r.1 ≡ record p {
        dht = dht_set_stream true n p.dht;
        answers = (ctx.link, codes "DHTSTREAM ON\n") ∷ p.answers;
      })
unfolding cmd_router_task routed route cmd_bus_receive_msg
stream_set env writes n tick_ms now ctx b p l a w e =
    let posted =
      ap (λ (r : Context × Board). r.1.bus) (stream_line env (print_u n) ctx b (print_u-IsWord n) a)
      ∙ dhtstream_posts n ctx b l a e in
    (
      ap (λ q. (cmd_router_task writes tick_ms now (q, p)).0) posted,
      ap (λ q. (cmd_router_task writes tick_ms now (q, p)).1) posted ∙ rw w refl,
    )

state_asked :
    (env : Environment) (writes : ℕ → Bool) (tick_ms now : ℕ) (ctx : Context) (b : Board)
    (p : Peripherals)
    → writes ctx.link ≡ true
    → b.bus ≡ some []
    → let r = line_then_router env writes tick_ms now (codes "dhtstate") ctx (b, p) in
      (r.0.bus ≡ some [])
      × (r.1 ≡ record p {
        answers =
            (
              ctx.link,
              state_answer (dht_get_stream_state p.dht) (dht_read_latest tick_ms now p.dht),
            )
            ∷ p.answers;
      })
unfolding cmd_dispatch_line dispatch_trimmed run_entry run_handler cmd_router_task routed route
    cmd_bus_receive_msg
state_asked env writes tick_ms now ctx b p w e =
    let posted = cmd_post-empty bus_dht_state ctx b e in
    (
      ap (λ q. (cmd_router_task writes tick_ms now (q, p)).0) posted,
      ap (λ q. (cmd_router_task writes tick_ms now (q, p)).1) posted ∙ rw w refl,
    )

stream_kept : (n : ℕ) (d : Dht) → 1 ≤ n → dht_get_stream_state (dht_set_stream true n d) ≡ (true, n)
unfolding dht_get_stream_state dht_set_stream
stream_kept n d s = ground arith

-- An authenticated client whose connection is open and that finds the bus empty sets a stream of n ms
-- (n of 32 bits, not 0) with a line, and asks for its state with another one once the router has taken
-- the first. The answer to it is for that client, and `%u` reads n in it behind "interval="; the
-- stream is on, with that period, and the bus empty.
pub stream_reported :
    (env : Environment) (writes : ℕ → Bool) (n tick_ms now later : ℕ) (ctx : Context) (b : Board)
    (p : Peripherals)
    → 1 ≤ n
    → n < u32_mod
    → ctx.authed ≡ true
    → writes ctx.link ≡ true
    → b.bus ≡ some []
    → let on =
        line_then_router env writes tick_ms now (codes "dhtstream on " ++ print_u n) ctx (b, p) in
      let asked = line_then_router env writes tick_ms later (codes "dhtstate") ctx on in
      let latest = dht_read_latest tick_ms later p.dht in
      let text = state_answer (true, n) latest in
      (asked.0.bus ≡ some [])
      × (dht_get_stream_state asked.1.dht ≡ (true, n))
      × (asked.1.answers ≡ (ctx.link, text) ∷ (ctx.link, codes "DHTSTREAM ON\n") ∷ p.answers)
      × (interval_read text ≡ some n)
unfolding dht_set_stream dht_get_stream_state dht_read_latest
stream_reported env writes n tick_ms now later ctx b p s l a w e =
    let on =
      line_then_router env writes tick_ms now (codes "dhtstream on " ++ print_u n) ctx (b, p) in
    let (free, set) = stream_set env writes n tick_ms now ctx b p l a w e in
    let (free2, asked) = state_asked env writes tick_ms later ctx on.0 on.1 w free in
    let kept = stream_kept n p.dht s in
    let (sample, age) = dht_read_latest tick_ms later p.dht in
    (
      free2,
      ap (λ (q : Peripherals). dht_get_stream_state q.dht) (asked ∙ ap with_answer set) ∙ kept,
      ap (λ (q : Peripherals). q.answers) (asked ∙ ap with_answer set)
          ∙ ap
              (λ g.
                (ctx.link, state_answer g (sample, age))
                ∷ (ctx.link, codes "DHTSTREAM ON\n")
                ∷ p.answers)
              kept,
      ap interval_read (state_answer-whole true n sample.valid age)
          ∙ interval_read-print_u n sample.valid age l,
    )
  where
    with_answer : Peripherals → Peripherals
    with_answer q = record q {
      answers =
          (
            ctx.link,
            state_answer (dht_get_stream_state q.dht) (dht_read_latest tick_ms later q.dht),
          )
          ∷ q.answers;
    }
