-- ===== src/Stream/Round.antt =====
-- The wolf loop of `astroBWTv3Stream` (internal/astrobwt/pow.go): the 256-case switch, the RC4
-- scramble with the template markers, the copy into the scratch buffer and the end test.
use dirtybird_go_gpu_miner.Prelude.{
  ℕ, zero, suc, ◌+◌, ◌-◌, ◌*◌, ◌%◌, ◌^◌, List, Bool, Outcome, returned, panicked, out_of_fuel,
  or_panic, ◌>>=◌, ltb, leb, ◌==◌, ◌&&◌, ◌||◌, if◌then◌else◌, bit_or, bit_xor, byte_at, set, length,
  copy_at, for_range,
}
use dirtybird_go_gpu_miner.Word.{add64, u32, u16}
use dirtybird_go_gpu_miner.Rc4.{new_cipher}
use dirtybird_go_gpu_miner.Primitives.{Primitives}
use dirtybird_go_gpu_miner.Wolf.Switch.{case_byte}
use dirtybird_go_gpu_miner.Stream.Mix.{
  Mix, Window, window, update_byte, reverse_swap, deviate, gap, threshold_hashes, prologue,
  scramble, fold_last, data_len,
}

-- The variables of the loop besides the scratch buffer: the mix, the counter and the template
-- bookkeeping.
pub record Core : Type 0 where
  pub mix : Mix
  pub tries : ℕ  -- uint64
  pub markers : List ℕ  -- [280]uint16
  pub template_idx : ℕ  -- int
  pub chunk_count : ℕ  -- uint32
  pub first_chunk : ℕ  -- uint32

pub record Stream : Type 0 where
  pub core : Core
  pub text : List ℕ  -- scratch.data

-- The part of `ScratchData` that the stream uses.
pub record Scratch : Type 0 where
  pub text : List ℕ  -- data, MAX_LENGTH + 64 bytes
  pub markers : List ℕ  -- [280]uint16
  pub n_templates : ℕ  -- uint32

-- `for i := pos1; i < pos2; i++`
abbrev pub over {ℓ} : {S : Type ℓ} → Window → (ℕ → S → S) → S → S
over w body = for_range body (w.pos2 - w.pos1) w.pos1

-- `rc4s = NewCipher(step_3[:])`
unfoldable pub rekey : Mix → Outcome Mix
rekey m = do c ← or_panic (new_cipher m.step_3); returned (record m { rc4s = c })

module _ (prim : Primitives) where
  -- The switch. The cases differ in their byte statements; three have more: case 0 exchanges the
  -- ends of the window in each round, case 253 rehashes in each round, 254 and 255 rekey first.
  unfoldable pub switch_case : ℕ → Window → Mix → Outcome Mix
  switch_case op w m =
      if op == 0
      then returned
          (over w (λ i m. reverse_swap w.pos1 w.pos2 (update_byte (case_byte op) w.pos2 i m)) m)
      else if op == 253
      then returned (
          over w
            (λ i m.
              deviate (λ prev t. prim.xxhash t) w.pos2 (update_byte (case_byte op) w.pos2 i m))
            m)
      else if op == 254 || op == 255
      then (do m' ← rekey m; returned (over w (update_byte (case_byte op) w.pos2) m'))
      else returned (over w (update_byte (case_byte op) w.pos2) m)

-- `scratch.markers[templateIdx] = uint16(firstChunk<<7 | chunkCount)`, a panic out of range.
unfoldable pub put_marker : Core → Outcome (List ℕ)
unfolding u32 u16
put_marker c =
    if ltb c.template_idx (length c.markers)
    then returned
        (set c.markers c.template_idx (u16 (bit_or (u32 (c.first_chunk * 2 ^ 7)) c.chunk_count)))
    else panicked

-- After a scramble a new template begins: `if tries > 1 { templateIdx++ }`,
-- `firstChunk = uint32(tries) - 1`, `chunkCount = 1`.
unfoldable pub next_template : List ℕ → Core → Core
unfolding u32
next_template markers c = record {
  mix = scramble c.mix;
  tries = c.tries;
  markers = markers;
  template_idx = if ltb 1 c.tries then c.template_idx + 1 else c.template_idx;
  chunk_count = 1;
  first_chunk = u32 (u32 c.tries + 2 ^ 32 - 1);
}

-- `chunkCount++`
unfoldable pub count_chunk : Core → Core
unfolding u32
count_chunk c = record c { chunk_count = u32 (c.chunk_count + 1) }

-- The test that sends about a quarter of the rounds through RC4. The marker is written from the
-- bookkeeping alone, so that it comes first here and second in the code does not show.
unfoldable pub scramble_or_count : Window → Core → Outcome Core
scramble_or_count w c =
    if leb (gap w c.mix) 0x40
    then (do markers ← put_marker c; returned (next_template markers c))
    else returned (count_chunk c)

-- `copy(data[(tries-1)*256:], step_3[:])`, a panic where the slice starts behind the end.
unfoldable pub copy_out : List ℕ → ℕ → List ℕ → Outcome (List ℕ)
copy_out text tries step_3 =
    let off = (tries - 1) * 256 in
    if ltb (length text) off then panicked else returned (copy_at text off step_3)

module _ (prim : Primitives) where
  -- One round, up to the copy.
  unfoldable pub round_core : Core → Outcome Core
  unfolding add64
  round_core c = do
    let tries = add64 c.tries 1
    let switcher = bit_xor (bit_xor c.mix.prev_lhash c.mix.lhash) tries
    let w = window switcher
    m ← switch_case prim (switcher % 256) w c.mix
    c' ← scramble_or_count w (record c { tries = tries; mix = threshold_hashes prim tries w m })
    returned (record c' { mix = fold_last w c'.mix })

  unfoldable pub stream_round : Stream → Outcome Stream
  stream_round s = do
    c ← round_core s.core
    text ← copy_out s.text c.tries c.mix.step_3
    returned (record { core = c; text = text })

-- The state before the first round.
unfoldable pub start : Scratch → Mix → Stream
start scratch m = record {
  core = record {
    mix = m;
    tries = 0;
    markers = scratch.markers;
    template_idx = 0;
    chunk_count = 1;
    first_chunk = 0;
  };
  text = scratch.text;
}

-- `tries > 260+16 || (step_3[255] >= 0xf0 && tries > 260)`
unfoldable pub finished : ℕ → Mix → Bool
finished tries m = ltb (260 + 16) tries || (leb 0xf0 (byte_at m.step_3 255) && ltb 260 tries)

module _ (prim : Primitives) where
  -- The loop, with at most `fuel` rounds.
  unfoldable pub stream_loop : ℕ → Stream → Outcome Stream
  stream_loop zero s = out_of_fuel
  stream_loop (suc fuel) s = do
    s' ← stream_round prim s
    let rest = stream_loop fuel s'
    if finished s'.core.tries s'.core.mix then returned s' else rest

  -- `astroBWTv3Stream` up to the suffix array: the scratch buffer left behind and `data_len`. The
  -- last marker is written and counted after the loop.
  unfoldable pub astro_stream : ℕ → List ℕ → Scratch → Outcome (Scratch × ℕ)
  unfolding u32
  astro_stream fuel input scratch = do
    m ← prologue prim input
    s ← stream_loop fuel (start scratch m)
    markers ← put_marker s.core
    returned (
      record { text = s.text; markers = markers; n_templates = u32 (s.core.template_idx + 1) },
      data_len s.core.tries s.core.mix,
    )
