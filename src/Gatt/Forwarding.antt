-- ===== src/Gatt/Forwarding.antt =====
-- How written credentials are forwarded as a command line.
use esp32_remot_control.Prelude.{
  ◌+◌, ◌≤◌, ◌<◌, ◌≡◌, refl, ap, sym, ◌∙◌, true, false, some, [], ◌∷◌, ◌++◌, Bytes, codes, c_str,
  length, lt→ltb, length-append, take, take-all, ltb, if◌then◌else◌, arith,
}
use esp32_remot_control.Scan.{scan_ss}
use esp32_remot_control.Framing.{ble_cmd_on_rx, dispatch_line}
use esp32_remot_control.Framing.Lines.{clean}
use esp32_remot_control.Framing.Transports.{ble_cmd_on_rx_dispatches}
use esp32_remot_control.Wifi.Credentials.{written, wifi_set_credentials}
use esp32_remot_control.Command.{Context, Board, Environment}
use esp32_remot_control.Command.Auth.{is_nil, trim_trailing}
use esp32_remot_control.Command.Handlers.{cmd_setwifi, set_wifi}
use esp32_remot_control.Command.Dispatch.{
  run_handler, run_entry, dispatch_trimmed, cmd_dispatch_line, lskip,
}
use esp32_remot_control.Command.Renewal.{IsWord, trim_printable, is_nil-append, when_authed}
use esp32_remot_control.Gatt.Credentials.{
  lines_form, choose_form, parse_cred, command_line, dispatch_on, forward, gatt_on_wifi_cred_write,
}
use esp32_remot_control.Gatt.Words.{
  breaks, scan_ss-words, one_line, one_line-append, one_line-word, segments-line, without_cr-line,
  c_str-line, split_at_nl-line,
}

-- A line of `setwifi` with arguments `y`, trimmed, of an authenticated client.
pub setwifi_line :
    (env : Environment) (l y : Bytes) (ctx : Context) (b : Board)
    → trim_trailing l ≡ codes "setwifi " ++ y
    → lskip y ≡ y
    → c_str y ≡ y
    → ctx.authed ≡ true
    → cmd_dispatch_line env l ctx b ≡ (ctx, cmd_setwifi env y b)
unfolding cmd_dispatch_line dispatch_trimmed run_entry run_handler
setwifi_line env l y ctx b t k c a = rw (t, k, c) (when_authed ctx.authed _ _ a)

-- A line that is handed over with its newline is dispatched at once.
pub rx_line :
    (env : Environment) (l : Bytes) (st : Context × Board)
    → one_line l ≡ true
    → length l ≤ 127
    → is_nil l ≡ false
    → ble_cmd_on_rx (dispatch_on env) (l ++ b'\n' ∷ []) ([], st) ≡ ([], dispatch_on env l st)
rx_line env l st o h n =
    let segs = segments-line l o in
    let whole : clean l ≡ l = rw (without_cr-line l o) (take-all 127 l h) in
    (ble_cmd_on_rx_dispatches (dispatch_on env) (l ++ b'\n' ∷ []) st).0
    ∙ rw segs (ap (λ (s : Context × Board). ([], s)) (rw whole (nonempty_line l n)))
  where
    nonempty_line :
        (l : Bytes) → is_nil l ≡ false → dispatch_line (dispatch_on env) l st ≡ dispatch_on env l st
    nonempty_line [] n = absurd cc
    nonempty_line (c ∷ l) n = refl

pub setwifi_scans :
    (env : Environment) (args : Bytes) (b : Board)
    → is_nil args ≡ false
    → cmd_setwifi env args b ≡ set_wifi env (scan_ss 32 64 args) b
unfolding cmd_setwifi
setwifi_scans env [] b n = absurd cc
setwifi_scans env (c ∷ args) b n = refl

pub set_wifi_saves :
    (env : Environment) (v w : Bytes) (b : Board)
    → env.wifi_saved ≡ written
    → (set_wifi env (some (v, w)) b).station.saved ≡ some (v, w)
unfolding set_wifi wifi_set_credentials
set_wifi_saves env v w b s = ground arith

-- Two words go through as they are.
pub setwifi_words :
    (env : Environment) (v w r : Bytes) (b : Board)
    → IsWord v
    → IsWord w
    → length v ≤ 32
    → length w ≤ 64
    → breaks r ≡ true
    → env.wifi_saved ≡ written
    → (cmd_setwifi env (v ++ (b' ' ∷ (w ++ r))) b).station.saved ≡ some (v, w)
setwifi_words env v w r b i j h k br s =
    ap (λ (b' : Board). b'.station.saved)
      (setwifi_scans env (v ++ (b' ' ∷ (w ++ r))) b (is_nil-append v (b' ' ∷ (w ++ r)) refl))
    ∙ ap (λ o. (set_wifi env o b).station.saved) (scan_ss-words 32 64 v w r i j h k br)
    ∙ set_wifi_saves env v w b s

-- The line that the credentials become.
abbrev pub the_line : Bytes → Bytes → Bytes
the_line ssid pwd = codes "setwifi " ++ (ssid ++ (b' ' ∷ pwd))

pub with_newline :
    (l : Bytes)
    → length l < 119
    → (if ltb (length (take 119 l)) 119 then take 119 l ++ b'\n' ∷ [] else take 119 l)
      ≡ l ++ b'\n' ∷ []
with_newline l h = rw (take-all 119 l (omega arith), lt→ltb (length l) 119 h) refl

pub command_line_lem :
    (ssid pwd : Bytes)
    → length ssid ≤ 32
    → length pwd ≤ 64
    → (command_line ssid pwd ≡ the_line ssid pwd ++ b'\n' ∷ []) × (length (the_line ssid pwd) ≤ 127)
unfolding command_line
command_line_lem ssid pwd h k =
    let line = the_line ssid pwd in
    let len : length line ≡ length ssid + length pwd + 9 =
      omega (arith, length-append ssid (b' ' ∷ pwd)) in
    (with_newline line (omega (arith, len)), omega (arith, len))

-- What is forwarded, from a BLE client that is authenticated and has not begun a line: the command
-- with the arguments `y` that are left when the line is trimmed.
pub forward_lem :
    (env : Environment) (ssid pwd y : Bytes) (ctx : Context) (b : Board)
    → length ssid ≤ 32
    → length pwd ≤ 64
    → one_line (the_line ssid pwd) ≡ true
    → trim_trailing (the_line ssid pwd) ≡ codes "setwifi " ++ y
    → lskip y ≡ y
    → c_str y ≡ y
    → ctx.authed ≡ true
    → forward env (some (ssid, pwd)) ([], (ctx, b)) ≡ ([], (ctx, cmd_setwifi env y b))
unfolding forward dispatch_on
forward_lem env ssid pwd y ctx b h k o t l c a =
    let (e, short) = command_line_lem ssid pwd h k in
    ap (λ l. ble_cmd_on_rx (dispatch_on env) l ([], (ctx, b))) e
    ∙ rx_line env (the_line ssid pwd) (ctx, b) o short refl
    ∙ ap (λ (s : Context × Board). ([], s)) (setwifi_line env (the_line ssid pwd) y ctx b t l c a)

-- Trimming behind a text.
pub trim-append_to :
    (a t u : Bytes) → trim_trailing t ≡ u → is_nil u ≡ false → trim_trailing (a ++ t) ≡ a ++ u
trim-append_to [] t u e n = e
trim-append_to (c ∷ a) t u e n =
    let nonempty : is_nil (a ++ u) ≡ false = is_nil-append a u n in
    rw (trim-append_to a t u e n, nonempty) refl

pub trim-append_trimmed :
    (a t : Bytes) → trim_trailing t ≡ t → is_nil t ≡ false → trim_trailing (a ++ t) ≡ a ++ t
trim-append_trimmed a t e n = trim-append_to a t t e n

pub c_str-append : (a r : Bytes) → one_line a ≡ true → c_str (a ++ r) ≡ a ++ c_str r
c_str-append [] r h = refl
c_str-append (c ∷ a) r h = ground (arith, c_str-append a r)

-- A write that is read whole.
pub write_text :
    (env : Environment) (d : Bytes) (st : Bytes × (Context × Board))
    → is_nil d ≡ false
    → length d ≤ 199
    → c_str d ≡ d
    → gatt_on_wifi_cred_write env d st ≡ forward env (parse_cred d) st
unfolding gatt_on_wifi_cred_write
write_text env [] st n h e = absurd cc
write_text env (c ∷ d) st n h e =
    ap (λ t. forward env (parse_cred (c_str t)) st) (take-all 199 (c ∷ d) h)
    ∙ ap (λ t. forward env (parse_cred t) st) e

-- The form with a newline, of trimmed texts that fit.
pub write_lines :
    (env : Environment) (x q : Bytes) (st : Bytes × (Context × Board))
    → is_nil x ≡ false
    → trim_trailing x ≡ x
    → trim_trailing q ≡ q
    → one_line x ≡ true
    → one_line q ≡ true
    → length x ≤ 32
    → length q ≤ 64
    → gatt_on_wifi_cred_write env (x ++ (b'\n' ∷ q)) st ≡ forward env (some (x, q)) st
unfolding parse_cred choose_form lines_form
write_lines env x q st n tx tq ox oq h k =
    let d = x ++ (b'\n' ∷ q) in
    let whole : c_str d ≡ d =
      c_str-append x (b'\n' ∷ q) ox ∙ ap (λ r. x ++ (b'\n' ∷ r)) (c_str-line q oq) in
    let short : length d ≤ 199 = omega (arith, length-append x (b'\n' ∷ q)) in
    write_text env d st (is_nil-append x (b'\n' ∷ q) refl) short whole
    ∙ ap (λ r. forward env (choose_form d r) st) (split_at_nl-line x q ox)
    ∙ ap (λ o. forward env o st) (rw (tx, take-all 32 x h, tq, take-all 64 q k, n) refl)

pub word-trimmed : (w : Bytes) → IsWord w → trim_trailing w ≡ w
word-trimmed w i = trim_printable w i.all_printable

-- An SSID and a password that are words become the command with both.
pub write_words :
    (env : Environment) (x q y : Bytes) (ctx : Context) (b : Board)
    → IsWord q
    → is_nil x ≡ false
    → trim_trailing x ≡ x
    → one_line x ≡ true
    → length x ≤ 32
    → length q ≤ 64
    → y ≡ x ++ (b' ' ∷ q)
    → lskip y ≡ y
    → ctx.authed ≡ true
    → gatt_on_wifi_cred_write env (x ++ (b'\n' ∷ q)) ([], (ctx, b))
      ≡ ([], (ctx, cmd_setwifi env (x ++ (b' ' ∷ q)) b))
write_words env x q y ctx b i n tx ox h k e l a =
    let oq = one_line-word q i.all_printable in
    let tq = word-trimmed q i in
    let args = x ++ (b' ' ∷ q) in
    let o : one_line args ≡ true = one_line-append x (b' ' ∷ q) ox oq in
    let tail = trim-append_trimmed (b' ' ∷ []) q tq i.nonempty in
    let ta = trim-append_trimmed x (b' ' ∷ q) tail refl in
    write_lines env x q ([], (ctx, b)) n tx tq ox oq h k
    ∙ forward_lem env x q args ctx b h k (one_line-append (codes "setwifi ") args refl o)
        (trim-append_trimmed (codes "setwifi ") args ta (is_nil-append x (b' ' ∷ q) refl))
        (ap lskip (sym e) ∙ l ∙ e) (c_str-line args o) a
