-- ===== src/Gatt/Notify/Subscribers.antt =====
-- What one client leaves to the next.
use esp32_remot_control.Prelude.{
  ℕ, suc, ◌≤◌, ◌≡◌, refl, Bool, true, false, List, [], ◌∷◌, Bytes, equal, equal_iff, Bool-cases,
  inl, inr, ◌&&◌, length, take, take-all, arith,
}
use esp32_remot_control.Gatt.Notify.{
  errsrc, GattCall, set_value, indicate, Link, errsrc_notify_if_changed, set_value_if,
  gatt_server_notify_errsrc, on_mtu, on_connect, on_disconnect, on_errsrc_ccc,
}

-- After an MTU exchange the payload is between 1 and 180, and a disconnect and a new connection keep
-- it, for whatever client.
on_mtu_kept :
    (mtu : ℕ) (l : Link)
    → let p = (on_mtu mtu l).mtu_payload in
      ((on_connect (on_disconnect (on_mtu mtu l))).mtu_payload ≡ p) × (1 ≤ p) × (p ≤ 180)
unfolding on_mtu on_connect on_disconnect
on_mtu_kept mtu l = (refl, ground arith, ground arith)

-- The indications of the error source.
abbrev pub errsrc_indications : List GattCall → ℕ
errsrc_indications [] = 0
errsrc_indications (set_value c s ∷ calls) = errsrc_indications calls
errsrc_indications (indicate errsrc s ∷ calls) = suc (errsrc_indications calls)
errsrc_indications (indicate _ s ∷ calls) = errsrc_indications calls

equal_refl : (a : Bytes) → equal a a ≡ true
equal_refl a = (equal_iff a a).1 refl

sent_lem :
    (err : Bytes) (l : Link)
    → length err ≤ 63
    → equal (take 64 err) (take 64 (errsrc_notify_if_changed err l).s_last_errsrc_sent) ≡ true
unfolding errsrc_notify_if_changed
sent_lem err l h = elim (Bool-cases (equal (take 64 err) (take 64 l.s_last_errsrc_sent))) [
  | inl y ↦ rw y y
  | inr n ↦ rw n (rw (take-all 63 err h) (equal_refl (take 64 err)))
]

set_value_if-indications :
    (able : Bool) (s : Bytes) (calls : List GattCall)
    → errsrc_indications (set_value_if able errsrc s calls) ≡ errsrc_indications calls
unfolding set_value_if
set_value_if-indications true s calls = refl
set_value_if-indications false s calls = refl

unchanged_lem :
    (err : Bytes) (l : Link)
    → equal (take 64 err) (take 64 l.s_last_errsrc_sent) ≡ true
    → errsrc_indications (errsrc_notify_if_changed err l).calls ≡ errsrc_indications l.calls
unfolding errsrc_notify_if_changed
unchanged_lem err l h =
    rw h (set_value_if-indications (l.registered && l.has_table) (take 63 err) l.calls)

-- A nonempty error source of at most 63 bytes that one client has subscribed to is not sent to the
-- next one when it subscribes.
pub second_subscriber_misses :
    (c : ℕ) (err : Bytes) (l : Link)
    → length (c ∷ err) ≤ 63
    → let l1 = on_errsrc_ccc true (c ∷ err) (on_connect l) in
      let l2 = on_errsrc_ccc true (c ∷ err) (on_connect (on_disconnect l1)) in
      errsrc_indications l2.calls ≡ errsrc_indications l1.calls
unfolding on_errsrc_ccc gatt_server_notify_errsrc on_connect on_disconnect errsrc_notify_if_changed
second_subscriber_misses c err l h =
    let l1 = on_errsrc_ccc true (c ∷ err) (on_connect l) in
    let l1' = record (on_connect (on_disconnect l1)) { es_notify = true } in
    unchanged_lem (c ∷ err) l1' (sent_lem (c ∷ err) (record (on_connect l) { es_notify = true }) h)
