-- ===== src/Framing/Transports.antt =====
-- Both transports dispatch the same lines, however the bytes arrive.
use esp32_remot_control.Prelude.{
  ℕ, zero, suc, ◌≤◌, ◌<◌, ◌≡◌, refl, ap, sym, ◌∙◌, false, Option, none, some, List, [], ◌∷◌, ◌++◌,
  ◌==◌, if◌then◌else◌, Bytes, length, Bool-cases, inl, inr, arith,
}
use esp32_remot_control.Framing.{
  store_byte, split_at_nl, copy_chunk, dispatch_line, rx_byte, ble_cmd_on_rx, ble_drop,
  client_buffer, client_loop, client_task,
}
use esp32_remot_control.Framing.Lines.{cons_byte, segments, clean, copy_chunk_lem}

-- Everything that a connection receives.
abbrev pub concat : List Bytes → Bytes
concat [] = []
concat (b ∷ bs) = b ++ concat bs

module _ {S : Type 0} (dispatch : Bytes → S → S) where
  -- Dispatching lines one after another; empty lines are nothing.
  abbrev pub dispatch_all : List Bytes → S → S
  dispatch_all [] s = s
  dispatch_all (seg ∷ segs) s = dispatch_all segs (dispatch_line dispatch (clean seg) s)

  -- Segments behind a line that has begun.
  abbrev run : List Bytes → Bytes → Bytes → S → Bytes × S
  run [] last line s = (copy_chunk line last, s)
  run (seg ∷ segs) last line s = run segs last [] (dispatch_line dispatch (copy_chunk line seg) s)

  run-cons_byte :
      (c : ℕ) (segs : List Bytes) (last line : Bytes) (s : S)
      → let (segs', last') = cons_byte c (segs, last) in
        let (line', s') = rx_byte dispatch c (line, s) in
        run segs' last' line s ≡ run segs last line' s'
  unfolding rx_byte copy_chunk
  run-cons_byte c [] last line s = ground arith
  run-cons_byte c (seg ∷ segs) last line s = ground arith

  ble_cmd_on_rx_lem :
      (p line : Bytes) (s : S)
      → ble_cmd_on_rx dispatch p (line, s) ≡ run (segments p).0 (segments p).1 line s
  unfolding ble_cmd_on_rx copy_chunk
  ble_cmd_on_rx_lem [] line s = refl
  ble_cmd_on_rx_lem (c ∷ p) line s =
      let (line', s') = rx_byte dispatch c (line, s) in
      ble_cmd_on_rx_lem p line' s' ∙ sym (run-cons_byte c (segments p).0 (segments p).1 line s)

  -- The first step of the TCP loop: up to the newline, if there is one.
  abbrev after_split : Bytes × Option Bytes → Bytes → S → Bytes × S
  unfolding copy_chunk ble_cmd_on_rx
  after_split (chunk, none) line s = (copy_chunk line chunk, s)
  after_split (chunk, some after) line s =
      ble_cmd_on_rx dispatch after ([], dispatch_line dispatch (copy_chunk line chunk) s)

  after_split-step :
      (c : ℕ) (chunk : Bytes) (nl : Option Bytes) (line line' : Bytes) (s : S)
      → line' ≡ (if c == b'\r' then line else store_byte c line)
      → after_split (chunk, nl) line' s ≡ after_split (c ∷ chunk, nl) line s
  unfolding after_split copy_chunk
  after_split-step c chunk none line line' s e = rw e refl
  after_split-step c chunk (some after) line line' s e = rw e refl

  split_lem :
      (p line : Bytes) (s : S)
      → ble_cmd_on_rx dispatch p (line, s) ≡ after_split (split_at_nl p) line s
  unfolding ble_cmd_on_rx rx_byte copy_chunk after_split
  split_lem [] line s = refl
  split_lem (c ∷ p) line s = elim (Bool-cases (c == b'\n')) [
    | inl y ↦ let other : (c == b'\r') ≡ false = ground arith in rw (y, other) refl
    | inr n ↦ rw n (elim (Bool-cases (c == b'\r')) [
      | inl r ↦ rw r (
          split_lem p line s
          ∙ after_split-step c (split_at_nl p).0 (split_at_nl p).1 line line s (rw r refl))
      | inr m ↦ rw m (
          split_lem p (store_byte c line) s
          ∙ after_split-step c (split_at_nl p).0 (split_at_nl p).1 line (store_byte c line) s
              (rw m refl))
    ])
  ]

  split-length : (p after : Bytes) → (split_at_nl p).1 ≡ some after → length after < length p
  split-length [] after h = absurd cc
  split-length (c ∷ p) after h = ground (arith, split-length p after)

  client_step :
      (fuel : ℕ) (r : Bytes × Option Bytes) (line : Bytes) (s : S)
      → ((after : Bytes) (s' : S)
          → r.1 ≡ some after
          → client_buffer dispatch fuel after ([], s') ≡ ble_cmd_on_rx dispatch after ([], s'))
      → elim r.1 [
        | none ↦ (copy_chunk line r.0, s)
        | some after ↦
            client_buffer dispatch fuel after ([], dispatch_line dispatch (copy_chunk line r.0) s)
      ]
        ≡ after_split r line s
  unfolding after_split
  client_step fuel (chunk, none) line s h = refl
  client_step fuel (chunk, some after) line s h = h after _ refl

  client_buffer_lem :
      (fuel : ℕ) (p line : Bytes) (s : S)
      → length p ≤ fuel
      → client_buffer dispatch fuel p (line, s) ≡ ble_cmd_on_rx dispatch p (line, s)
  unfolding client_buffer ble_cmd_on_rx
  client_buffer_lem zero [] line s h = refl
  client_buffer_lem zero (c ∷ p) line s h = absurd (omega arith)
  client_buffer_lem (suc fuel) [] line s h = refl
  client_buffer_lem (suc fuel) (c ∷ p) line s h =
      client_step fuel (split_at_nl (c ∷ p)) line s (λ after s' e.
        client_buffer_lem fuel after [] s' (omega (arith, split-length (c ∷ p) after e)))
      ∙ sym (split_lem (c ∷ p) line s)

  -- The TCP loop does with a buffer what the BLE handler does with the same bytes in one write.
  pub client_buffer-ble_cmd_on_rx :
      (p : Bytes) (st : Bytes × S)
      → client_buffer dispatch (length p) p st ≡ ble_cmd_on_rx dispatch p st
  client_buffer-ble_cmd_on_rx p (line, s) = client_buffer_lem (length p) p line s (omega arith)

  -- Bytes may arrive in pieces.
  pub ble_cmd_on_rx-append :
      (a b : Bytes) (st : Bytes × S)
      → ble_cmd_on_rx dispatch (a ++ b) st ≡ ble_cmd_on_rx dispatch b (ble_cmd_on_rx dispatch a st)
  unfolding ble_cmd_on_rx
  ble_cmd_on_rx-append [] b st = refl
  ble_cmd_on_rx-append (c ∷ a) b st = ble_cmd_on_rx-append a b (rx_byte dispatch c st)

  client_loop_lem :
      (bufs : List Bytes) (st : Bytes × S)
      → client_loop dispatch bufs st ≡ ble_cmd_on_rx dispatch (concat bufs) st
  unfolding client_loop ble_cmd_on_rx
  client_loop_lem [] st = refl
  client_loop_lem (buf ∷ bufs) st =
      client_loop_lem bufs (client_buffer dispatch (length buf) buf st)
      ∙ ap (ble_cmd_on_rx dispatch (concat bufs)) (client_buffer-ble_cmd_on_rx buf st)
      ∙ sym (ble_cmd_on_rx-append buf (concat bufs) st)

  run_lem :
      (segs : List Bytes) (last : Bytes) (s : S)
      → run segs last [] s ≡ (clean last, dispatch_all segs s)
  run_lem [] last s = ap (λ (l : Bytes). (l, s)) (copy_chunk_lem [] last (omega arith))
  run_lem (seg ∷ segs) last s =
      run_lem segs last (dispatch_line dispatch (copy_chunk [] seg) s)
      ∙ ap (λ (l : Bytes). (clean last, dispatch_all segs (dispatch_line dispatch l s)))
          (copy_chunk_lem [] seg (omega arith))

  dispatch_all-last :
      (segs : List Bytes) (last : Bytes) (s : S)
      → dispatch_line dispatch (clean last) (dispatch_all segs s)
        ≡ dispatch_all (segs ++ last ∷ []) s
  dispatch_all-last [] last s = refl
  dispatch_all-last (seg ∷ segs) last s =
      dispatch_all-last segs last (dispatch_line dispatch (clean seg) s)

  -- From a fresh connection, a BLE client's writes dispatch the lines between the newlines of its
  -- bytes, in order, without '\r', cut to 127 bytes, the empty ones left out; what follows the last
  -- newline waits, and a disconnect drops it.
  pub ble_cmd_on_rx_dispatches :
      (p : Bytes) (s : S)
      → let (segs, last) = segments p in
        (ble_cmd_on_rx dispatch p ([], s) ≡ (clean last, dispatch_all segs s))
        × (ble_drop dispatch (ble_cmd_on_rx dispatch p ([], s)) ≡ ([], dispatch_all segs s))
  unfolding ble_drop
  ble_cmd_on_rx_dispatches p s =
      let e = ble_cmd_on_rx_lem p [] s ∙ run_lem (segments p).0 (segments p).1 s in
      (e, ap (ble_drop dispatch) e)

  -- A TCP client dispatches the lines between the newlines of everything it receives, however the
  -- bytes are cut into buffers, in order, without '\r', cut to 127 bytes, the empty ones left out;
  -- what follows the last newline is a line too when the connection ends.
  pub client_task_dispatches :
      (bufs : List Bytes) (s : S)
      → let (segs, last) = segments (concat bufs) in
        client_task dispatch bufs s ≡ dispatch_all (segs ++ last ∷ []) s
  unfolding client_task
  client_task_dispatches bufs s =
      let p = concat bufs in
      let e = client_loop_lem bufs ([], s) ∙ (ble_cmd_on_rx_dispatches p s).0 in
      ap (λ (st : Bytes × S). dispatch_line dispatch st.0 st.1) e
      ∙ dispatch_all-last (segments p).0 (segments p).1 s
