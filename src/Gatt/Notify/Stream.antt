-- ===== src/Gatt/Notify/Stream.antt =====
-- A status arrives whole, in pieces that fit the link.
use esp32_remot_control.Prelude.{
  ℕ, zero, suc, ◌≤◌, ◌≡◌, refl, ap, sym, ◌∙◌, Bool, true, false, not, ◌&&◌, ◌||◌, List, [], ◌∷◌,
  ◌++◌, append_assoc, append-nil, Bytes, length, length-drop, length-take, take, drop,
  take-append-drop, ltb, if◌then◌else◌, arith,
}
use esp32_remot_control.Gatt.Notify.{
  Char, tx, GattCall, set_value, indicate, Link, set_value_if, send_chunks, max_chunk,
  gatt_server_send_status,
}

abbrev pub is_tx : Char → Bool
is_tx tx = true
is_tx _ = false

-- What a client has received on TX.
abbrev pub received : List GattCall → Bytes
received [] = []
received (set_value c s ∷ calls) = received calls
received (indicate c s ∷ calls) =
    let before = received calls in if is_tx c then before ++ s else before

-- No indication is longer than n.
abbrev pub within : ℕ → List GattCall → Bool
within n [] = true
within n (set_value c s ∷ calls) = within n calls
within n (indicate c s ∷ calls) = not (ltb n (length s)) && within n calls

send_chunks_lem :
    (fuel max : ℕ) (s : Bytes) (calls : List GattCall)
    → length s ≤ fuel
    → 1 ≤ max
    → received (send_chunks fuel max s calls) ≡ received calls ++ s
unfolding send_chunks
send_chunks_lem zero max [] calls h m = sym (append-nil (received calls))
send_chunks_lem zero max (c ∷ s) calls h m = absurd (omega arith)
send_chunks_lem (suc fuel) max [] calls h m = sym (append-nil (received calls))
send_chunks_lem (suc fuel) max (c ∷ s) calls h m =
    let chunk = if ltb max (length (c ∷ s)) then max else length (c ∷ s) in
    let positive : 1 ≤ chunk = ground arith in
    let shorter : length (drop chunk (c ∷ s)) ≤ fuel = omega (arith, length-drop chunk (c ∷ s)) in
    send_chunks_lem fuel max (drop chunk (c ∷ s)) (indicate tx (take chunk (c ∷ s)) ∷ calls) shorter
      m
    ∙ append_assoc (received calls) (take chunk (c ∷ s)) (drop chunk (c ∷ s))
    ∙ ap (λ t. received calls ++ t) (take-append-drop chunk (c ∷ s))

send_chunks-within :
    (fuel max : ℕ) (s : Bytes) (calls : List GattCall)
    → within max calls ≡ true
    → within max (send_chunks fuel max s calls) ≡ true
unfolding send_chunks
send_chunks-within zero max s calls w = w
send_chunks-within (suc fuel) max [] calls w = w
send_chunks-within (suc fuel) max (c ∷ s) calls w =
    let chunk = if ltb max (length (c ∷ s)) then max else length (c ∷ s) in
    let small : length (take chunk (c ∷ s)) ≤ max = ground (arith, length-take chunk (c ∷ s)) in
    send_chunks-within fuel max (drop chunk (c ∷ s)) (indicate tx (take chunk (c ∷ s)) ∷ calls)
      (ground arith)

set_value_if_lem :
    (n : ℕ) (able : Bool) (c : Char) (s : Bytes) (calls : List GattCall)
    → (received (set_value_if able c s calls) ≡ received calls)
      × (within n (set_value_if able c s calls) ≡ within n calls)
unfolding set_value_if
set_value_if_lem n true c s calls = (refl, refl)
set_value_if_lem n false c s calls = (refl, refl)

when_asked :
    (asked connected registered : Bool) (x y : List GattCall)
    → asked ≡ true
    → connected ≡ true
    → registered ≡ true
    → (if not asked || not connected || not registered then x else y) ≡ y
when_asked true true true x y a c r = refl
when_asked false _ _ x y a c r = absurd cc
when_asked true false _ x y a c r = absurd cc
when_asked true true false x y a c r = absurd cc

-- What a client that has asked for TX receives with a status is the status with a newline, whatever
-- its length; the indications are at most as long as the payload of the link (if that is at least 1)
-- and as 180 bytes.
pub gatt_server_send_status_lem :
    (s : Bytes) (l : Link)
    → l.registered ≡ true
    → l.connected ≡ true
    → l.tx_notify ≡ true
    → 1 ≤ l.mtu_payload
    → let l' = gatt_server_send_status s l in
      (received l'.calls ≡ received l.calls ++ (s ++ b'\n' ∷ []))
      × (within (max_chunk l.mtu_payload) l.calls ≡ true
          → within (max_chunk l.mtu_payload) l'.calls ≡ true)
unfolding gatt_server_send_status
gatt_server_send_status_lem s l r c t m =
    let max = max_chunk l.mtu_payload in
    let calls = set_value_if (l.registered && l.has_table) tx s l.calls in
    let (same, kept) = set_value_if_lem max (l.registered && l.has_table) tx s l.calls in
    let positive : 1 ≤ max = ground arith in
    let one : ltb max 1 ≡ false = ground arith in
    let chunks = send_chunks_lem (length s) max s calls (omega arith) positive in
    let sent : (gatt_server_send_status s l).calls
        ≡ indicate tx (b'\n' ∷ []) ∷ send_chunks (length s) max s calls =
      when_asked l.tx_notify l.connected l.registered _ _ t c r in
    (
      ap received sent
          ∙ ap (λ t. t ++ b'\n' ∷ []) (chunks ∙ ap (λ t. t ++ s) same)
          ∙ append_assoc (received l.calls) s (b'\n' ∷ []),
      λ w. ap (within max) sent ∙ rw one (send_chunks-within (length s) max s calls (kept ∙ w)),
    )
