-- ===== src/Gatt/Provisioning.antt =====
-- Credentials written over BLE and what is saved of them.
use esp32_remot_control.Prelude.{
  ◌+◌, ◌≤◌, ◌≡◌, refl, ap, sym, ◌∙◌, true, false, some, [], ◌∷◌, ◌++◌, append_assoc, append-nil,
  Bytes, codes, length, length-append, if◌then◌else◌, leb, ◌&&◌, arith,
}
use esp32_remot_control.Wifi.Credentials.{written}
use esp32_remot_control.Command.{Context, Board, Environment, reply}
use esp32_remot_control.Command.Auth.{is_nil, trim_trailing}
use esp32_remot_control.Command.Handlers.{cmd_setwifi, set_wifi}
use esp32_remot_control.Command.Dispatch.{lskip}
use esp32_remot_control.Command.Renewal.{IsWord, printable, is_nil-append}
use esp32_remot_control.Gatt.Credentials.{gatt_on_wifi_cred_write}
use esp32_remot_control.Gatt.Words.{
  scan_ss-word, one_line-append, one_line-word, c_str-line, lskip-word,
}
use esp32_remot_control.Gatt.Forwarding.{
  setwifi_scans, setwifi_words, forward_lem, trim-append_to, trim-append_trimmed, write_lines,
  word-trimmed, write_words,
}

-- An SSID and a password that are words (printable, without a space) of at most 32 and 64 bytes,
-- written by an authenticated BLE client that has not begun a command line, are saved as they were
-- sent, if NVS takes them.
pub words_saved :
    (env : Environment) (ssid pwd : Bytes) (ctx : Context) (b : Board)
    → IsWord ssid
    → IsWord pwd
    → length ssid ≤ 32
    → length pwd ≤ 64
    → ctx.authed ≡ true
    → env.wifi_saved ≡ written
    → (gatt_on_wifi_cred_write env (ssid ++ (b'\n' ∷ pwd)) ([], (ctx, b))).1.1.station.saved
      ≡ some (ssid, pwd)
words_saved env ssid pwd ctx b i j h k a s =
    ap (λ (r : Bytes × (Context × Board)). r.1.1.station.saved)
      (write_words env ssid pwd (ssid ++ (b' ' ∷ pwd)) ctx b j i.nonempty (word-trimmed ssid i)
        (one_line-word ssid i.all_printable) h k refl (lskip-word ssid (b' ' ∷ pwd) i) a)
    ∙ ap (λ t. (cmd_setwifi env (ssid ++ (b' ' ∷ t)) b).station.saved) (sym (append-nil pwd))
    ∙ setwifi_words env ssid pwd [] b i j h k refl s

-- If an authenticated BLE client that has not begun a command line writes an SSID of two words
-- with a space between them, of at most 32 bytes, and a word as password, the first word is saved
-- as SSID and the second one as password, if NVS takes them.
spaced_ssid_broken :
    (env : Environment) (v w pwd : Bytes) (ctx : Context) (b : Board)
    → IsWord v
    → IsWord w
    → IsWord pwd
    → length v + 1 + length w ≤ 32
    → length pwd ≤ 64
    → ctx.authed ≡ true
    → env.wifi_saved ≡ written
    → (gatt_on_wifi_cred_write env
        ((v ++ (b' ' ∷ w)) ++ (b'\n' ∷ pwd))
        ([], (ctx, b))).1.1.station.saved
      ≡ some (v, w)
spaced_ssid_broken env v w pwd ctx b i j q h k a s =
    let ssid = v ++ (b' ' ∷ w) in
    let tail = trim-append_trimmed (b' ' ∷ []) w (word-trimmed w j) j.nonempty in
    let args : v ++ (b' ' ∷ (w ++ (b' ' ∷ pwd))) ≡ ssid ++ (b' ' ∷ pwd) =
      sym (append_assoc v (b' ' ∷ w) (b' ' ∷ pwd)) in
    let len = length-append v (b' ' ∷ w) in
    ap (λ (r : Bytes × (Context × Board)). r.1.1.station.saved)
      (write_words env ssid pwd (v ++ (b' ' ∷ (w ++ (b' ' ∷ pwd)))) ctx b q
        (is_nil-append v (b' ' ∷ w) refl) (trim-append_trimmed v (b' ' ∷ w) tail refl)
        (one_line-append v (b' ' ∷ w) (one_line-word v i.all_printable)
          (one_line-word w j.all_printable))
        (omega (arith, len)) k args (lskip-word v (b' ' ∷ (w ++ (b' ' ∷ pwd))) i) a)
    ∙ ap (λ t. (cmd_setwifi env t b).station.saved) (sym args)
    ∙ setwifi_words env v w (b' ' ∷ pwd) b i j (omega arith) (omega (arith, len)) refl s

trim_space : (w : Bytes) → printable w ≡ true → trim_trailing (w ++ b' ' ∷ []) ≡ w
trim_space [] p = refl
trim_space (c ∷ w) p =
    let rest = trim_space w (ground arith) in
    let kept : leb c 32 ≡ false = ground arith in rw (rest, kept) (kept_head w)
  where
    kept_head : (w : Bytes) → (if is_nil w && false then [] else c ∷ w) ≡ c ∷ w
    kept_head [] = refl
    kept_head (d ∷ u) = refl

-- An SSID that is a word with an empty password, written by an authenticated BLE client that has
-- not begun a command line, is answered with BADFMT, and the credentials stay as they were.
open_network_refused :
    (env : Environment) (ssid : Bytes) (ctx : Context) (b : Board)
    → IsWord ssid
    → length ssid ≤ 32
    → ctx.authed ≡ true
    → let b' = (gatt_on_wifi_cred_write env (ssid ++ (b'\n' ∷ [])) ([], (ctx, b))).1.1 in
      (b'.out ≡ reply (codes "BADFMT\n") ∷ b.out) × (b'.station ≡ b.station)
unfolding set_wifi
open_network_refused env ssid ctx b i h a =
    let tx = word-trimmed ssid i in
    let ox = one_line-word ssid i.all_printable in
    let space = trim_space ssid i.all_printable in
    let line =
      one_line-append (codes "setwifi ") (ssid ++ b' ' ∷ []) refl
        (one_line-append ssid (b' ' ∷ []) ox refl) in
    let word = ap lskip (sym (append-nil ssid)) ∙ lskip-word ssid [] i ∙ append-nil ssid in
    let sent =
      write_lines env ssid [] ([], (ctx, b)) i.nonempty tx refl ox refl h (omega arith)
      ∙ forward_lem env ssid [] ssid ctx b h (omega arith) line
          (trim-append_to (codes "setwifi ") (ssid ++ b' ' ∷ []) ssid space i.nonempty) word
          (c_str-line ssid ox) a
      ∙ ap (λ (v : Board). ([], (ctx, v))) (setwifi_scans env ssid b i.nonempty)
      ∙ ap (λ o. ([], (ctx, set_wifi env o b))) (scan_ss-word 32 63 ssid i h) in
    (
      ap (λ (r : Bytes × (Context × Board)). r.1.1.out) sent,
      ap (λ (r : Bytes × (Context × Board)). r.1.1.station) sent,
    )
