-- ===== src/Stream/Table.antt =====
-- `WolfStreamInto` of internal/astrobwt/wolftable.go: the same loop driven by the micro-op table,
-- without template markers, into a buffer of the caller's.
use dirtybird_go_gpu_miner.Prelude.{
  ℕ, zero, suc, ◌%◌, List, Outcome, returned, out_of_fuel, ◌>>=◌, ltb, leb, ◌==◌, ◌||◌,
  if◌then◌else◌, bit_xor, length,
}
use dirtybird_go_gpu_miner.Word.{add64}
use dirtybird_go_gpu_miner.Primitives.{Primitives}
use dirtybird_go_gpu_miner.Wolf.Table.{wolf_apply_byte}
use dirtybird_go_gpu_miner.Stream.Mix.{
  Mix, Window, window, update_byte, reverse_swap, deviate, gap, threshold_hashes, prologue,
  scramble, fold_last, data_len, max_length,
}
use dirtybird_go_gpu_miner.Stream.Round.{over, rekey, copy_out, finished}

pub record TableStream : Type 0 where
  pub mix : Mix
  pub tries : ℕ
  pub out : List ℕ

-- What is returned: `io.ErrShortBuffer`, or the buffer and the length.
pub data Written : Type 0 where
  short_buffer : Written
  written : List ℕ → ℕ → Written

module _ (prim : Primitives) where
  -- The body of the byte loop, with its two special cases.
  unfoldable pub table_body : ℕ → Window → ℕ → Mix → Mix
  table_body op w i m0 =
      let m1 = update_byte (wolf_apply_byte op) w.pos2 i m0 in
      let m2 = if op == 0 then reverse_swap w.pos1 w.pos2 m1 else m1 in
      if op == 253 then deviate (λ prev t. prim.xxhash t) w.pos2 m2 else m2

  -- One round.
  unfoldable pub table_round : TableStream → Outcome TableStream
  table_round s = do
    let tries = add64 s.tries 1
    let switcher = bit_xor (bit_xor s.mix.prev_lhash s.mix.lhash) tries
    let w = window switcher
    let op = switcher % 256
    m0 ← (if op == 254 || op == 255 then rekey s.mix else returned s.mix)
    let m1 = threshold_hashes prim tries w (over w (table_body op w) m0)
    let m2 = if leb (gap w m1) 0x40 then scramble m1 else m1
    let m3 = fold_last w m2
    out ← copy_out s.out tries m3.step_3
    returned (record { mix = m3; tries = tries; out = out })

  unfoldable pub table_loop : ℕ → TableStream → Outcome TableStream
  table_loop zero s = out_of_fuel
  table_loop (suc fuel) s = do
    s' ← table_round s
    let rest = table_loop fuel s'
    if finished s'.tries s'.mix then returned s' else rest

  unfoldable pub wolf_stream_into : ℕ → List ℕ → List ℕ → Outcome Written
  wolf_stream_into fuel input out =
      if ltb (length out) max_length then returned short_buffer else (do
        m ← prologue prim input
        s ← table_loop fuel (record { mix = m; tries = 0; out = out })
        returned (written s.out (data_len s.tries s.mix)))
