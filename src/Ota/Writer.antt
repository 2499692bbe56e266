-- ===== src/Ota/Writer.antt =====
-- components/ota/ota_writer.c. The writer is never null: both callers pass the session's field.
use esp32_remot_control.Prelude.{
  ℕ, ◌||◌, Option, none, some, ◌∷◌, length, Bytes, ltb, ◌==◌, if◌then◌else◌,
}
use esp32_remot_control.Esp.{
  EspErr, invalid_arg, invalid_state, invalid_size, not_found, is_ok, Partition, begin, write, end,
  abort, set_boot, Log, FlashEnv,
}

-- `ota_writer_t`; the handle 0 means none.
pub record Writer : Type 0 where
  pub handle : ℕ
  pub dst : Option Partition

abbrev pub no_writer : Writer
no_writer = record { handle = 0; dst = none }

module _ (env : FlashEnv) where
  -- `esp_ota_begin` on the chosen partition; the handle is stored only on success.
  begin_on : Partition → ℕ → Log → EspErr × Writer × Log
  begin_on p total l =
      let e = env.begin_result l p total in
      let h = env.begin_handle l p total in
      (e, record { handle = if is_ok e then h else 0; dst = some p }, begin p total h e ∷ l)

  begin_in : Option Partition → ℕ → Log → EspErr × Writer × Log
  unfolding begin_on
  begin_in none total l = (not_found, no_writer, l)
  begin_in (some p) total l =
      if ltb p.size total
      then (invalid_size, record { handle = 0; dst = some p }, l)
      else begin_on p total l

  unfoldable pub ota_writer_begin : ℕ → Log → EspErr × Writer × Log
  unfolding begin_in
  ota_writer_begin total l = begin_in (env.next_partition l) total l

  unfoldable pub ota_writer_write : Writer → Bytes → Log → EspErr × Log
  ota_writer_write wr d l =
      if wr.handle == 0 || length d == 0
      then (invalid_arg, l)
      else (env.write_result l wr.handle d, write wr.handle d (env.write_result l wr.handle d) ∷ l)

  -- `esp_ota_set_boot_partition` after a successful `esp_ota_end`.
  end_on : ℕ → Partition → Log → EspErr × Log
  end_on h p l =
      let e = env.end_result l h in
      let l' = end h e ∷ l in
      let e' = env.set_boot_result l' p in if is_ok e then (e', set_boot p e' ∷ l') else (e, l')

  end_in : ℕ → Option Partition → Log → EspErr × Log
  unfolding end_on
  end_in h none l = (invalid_state, l)
  end_in h (some p) l = if h == 0 then (invalid_state, l) else end_on h p l

  unfoldable pub ota_writer_end : Writer → Log → EspErr × Log
  unfolding end_in
  ota_writer_end wr l = end_in wr.handle wr.dst l

unfoldable pub ota_writer_abort : Writer → Log → Writer × Log
ota_writer_abort wr l = (no_writer, if wr.handle == 0 then l else abort wr.handle ∷ l)
