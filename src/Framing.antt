-- ===== src/Framing.antt =====
-- How the transports cut their bytes into command lines: `ble_cmd_on_rx` and `ble_cmd_on_disconnect`
-- of components/ble/gatt/ble_cmd.c, and the loop of `client_task` of components/net/tcp/tcp_client.c.
-- `dispatch` is what a line does to the rest of the device (`cmd_dispatch_line` on the context of the
-- connection).
pub mod Lines
pub mod Transports
mod Examples
use esp32_remot_control.Prelude.{
  ℕ, zero, suc, ◌+◌, Bool, true, false, not, Option, none, some, List, [], ◌∷◌, ◌++◌, ltb, ◌==◌,
  if◌then◌else◌, Bytes, length,
}

-- `sizeof(line) - 1`, on both transports.
abbrev pub line_max : ℕ
line_max = 127

abbrev pub is_empty : Bytes → Bool
is_empty [] = true
is_empty (c ∷ s) = false

-- `if (len < sizeof(line) - 1) line[len++] = c`
abbrev pub store_byte : ℕ → Bytes → Bytes
store_byte c line = if ltb (length line) line_max then line ++ c ∷ [] else line

-- The bytes before the first '\n', and those behind it, if there is one (`memchr`).
abbrev pub split_at_nl : Bytes → Bytes × Option Bytes
split_at_nl [] = ([], none)
split_at_nl (c ∷ s) =
    let (chunk, after) = split_at_nl s in if c == b'\n' then ([], some s) else (c ∷ chunk, after)

-- The inner loop of `client_task`: copy a chunk, skipping '\r'.
unfoldable pub copy_chunk : Bytes → Bytes → Bytes
copy_chunk line [] = line
copy_chunk line (c ∷ s) = copy_chunk (if c == b'\r' then line else store_byte c line) s

module _ {S : Type 0} (dispatch : Bytes → S → S) where
  -- `if (len) dispatch(line)`
  abbrev pub dispatch_line : Bytes → S → S
  dispatch_line line s = if is_empty line then s else dispatch line s

  -- One byte in `ble_cmd_on_rx`; the state is the line with the rest of the device.
  unfoldable pub rx_byte : ℕ → Bytes × S → Bytes × S
  rx_byte c (line, s) =
      if c == b'\r'
      then (line, s)
      else if not (c == b'\n')
      then (store_byte c line, s)
      else ([], dispatch_line line s)

  unfoldable pub ble_cmd_on_rx : Bytes → Bytes × S → Bytes × S
  unfolding rx_byte
  ble_cmd_on_rx [] st = st
  ble_cmd_on_rx (c ∷ rest) st = ble_cmd_on_rx rest (rx_byte c st)

  -- `ble_cmd_on_disconnect`: the line that is not finished is dropped.
  unfoldable pub ble_drop : Bytes × S → Bytes × S
  ble_drop (line, s) = ([], s)

  -- The loop over one buffer of `client_task`, with fuel for its bytes.
  unfoldable pub client_buffer : ℕ → Bytes → Bytes × S → Bytes × S
  unfolding copy_chunk
  client_buffer zero p st = st
  client_buffer (suc fuel) [] st = st
  client_buffer (suc fuel) (c ∷ p) (line, s) =
      let (chunk, nl) = split_at_nl (c ∷ p) in
      let line' = copy_chunk line chunk in
      elim nl [
        | none ↦ (line', s)
        | some after ↦ client_buffer fuel after ([], dispatch_line line' s)
      ]

  -- `client_task` on the buffers that `recv` gives until it fails or the peer has closed. What is
  -- left of a line is dispatched at the end.
  unfoldable pub client_loop : List Bytes → Bytes × S → Bytes × S
  unfolding client_buffer
  client_loop [] st = st
  client_loop (buf ∷ bufs) st = client_loop bufs (client_buffer (length buf) buf st)

  unfoldable pub client_task : List Bytes → S → S
  unfolding client_loop
  client_task bufs s = let (line, s') = client_loop bufs ([], s) in dispatch_line line s'
