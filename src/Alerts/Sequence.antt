-- ===== src/Alerts/Sequence.antt =====
-- The sequence numbers of the alerts.
use esp32_remot_control.Prelude.{
  ℕ, ◌+◌, ◌%◌, ◌<◌, ◌≡◌, ◌∙◌, ap, refl, true, Option, List, [], ◌∷◌, ◌++◌, Bytes, length, take,
  arith,
}
use esp32_remot_control.Alerts.{AlertCode, Alert, Alerts, or_empty, alert_latest, alert_raise}

-- A run of alerts.
unfoldable pub raise_all : List (AlertCode × Option Bytes) → Alerts → Alerts
raise_all [] a = a
raise_all (r ∷ rest) a = raise_all rest (alert_raise r.0 r.1 a)

alert_raise_seq :
    (code : AlertCode) (detail : Option Bytes) (a : Alerts)
    → (alert_raise code detail a).s_seq ≡ (a.s_seq + 1) % 65536
unfolding alert_raise
alert_raise_seq code detail a = refl

-- After a run of alerts the sequence number has grown by its length, modulo 65536.
pub raise_all_seq :
    (rs : List (AlertCode × Option Bytes)) (a : Alerts)
    → a.s_seq < 65536
    → (raise_all rs a).s_seq ≡ (a.s_seq + length rs) % 65536
unfolding raise_all
raise_all_seq [] a h = omega arith
raise_all_seq (r ∷ rest) a h =
    let e = alert_raise_seq r.0 r.1 a in
    omega (arith, e, raise_all_seq rest (alert_raise r.0 r.1 a) (omega (arith, e)))

-- A run of 65536 alerts gives the same sequence number again, so a reader that compares sequence
-- numbers misses it.
pub raise_all_wraps :
    (rs : List (AlertCode × Option Bytes)) (a : Alerts)
    → a.s_seq < 65536
    → length rs ≡ 65536
    → (raise_all rs a).s_seq ≡ a.s_seq
raise_all_wraps rs a h e = omega (arith, raise_all_seq rs a h)

-- The records of a run of alerts behind the sequence number `n`.
abbrev pub numbered : ℕ → List (AlertCode × Option Bytes) → List Alert
numbered n [] = []
numbered n ((code, detail) ∷ rest) =
    let seq = (n + 1) % 65536 in
    record { seq = seq; code = code; detail = take 79 (or_empty detail) } ∷ numbered seq rest

-- What has been heard after a list of records, newest first.
abbrev pub heard : List Alert → List Alert → List Alert
heard [] before = before
heard (a ∷ rest) before = heard rest (a ∷ before)

-- A subscriber is told of every alert of a run, once and in the order in which they were raised,
-- with consecutive sequence numbers (modulo 65536) and details cut to 79 bytes; the record that
-- `alert_latest` reads is the last of them.
pub notified-raise_all :
    (rs : List (AlertCode × Option Bytes)) (r : AlertCode × Option Bytes) (a : Alerts)
    → a.subscribed ≡ true
    → let told = numbered a.s_seq (rs ++ r ∷ []) in
      let b = raise_all (rs ++ r ∷ []) a in
      (b.notified ≡ heard told a.notified) × (take 1 b.notified ≡ alert_latest b ∷ [])
unfolding raise_all alert_raise alert_latest
notified-raise_all [] (code, detail) a h = ground arith
notified-raise_all ((code, detail) ∷ rs) r a h =
    let told : (alert_raise code detail a).notified
        ≡ record { seq = (a.s_seq + 1) % 65536; code = code; detail = take 79 (or_empty detail) }
          ∷ a.notified =
      ground arith in
    let rest = notified-raise_all rs r (alert_raise code detail a) h in
    (rest.0 ∙ ap (heard (numbered ((a.s_seq + 1) % 65536) (rs ++ r ∷ []))) told, rest.1)
