-- ===== src/Stream/Total.antt =====
-- The wolf loop of internal/astrobwt/pow.go never panics and ends: the bookkeeping stays in the
-- bounds of its arrays, and 277 rounds are always enough.
use dirtybird_go_gpu_miner.Prelude.{
  ℕ, zero, suc, ◌+◌, ◌-◌, ◌*◌, ◌%◌, ◌^◌, ◌≤◌, ◌<◌, ◌≡◌, refl, ◌∙◌, arith, List, true, false,
  Outcome, returned, ◌>>=◌, ltb, leb, if◌then◌else◌, length, byte_at, set, byte_at-lt, length-set,
  length-copy_at, copy_at, copy_at-IsBytes, IsBytes, subst, sym, Bool-cases, inl, inr, bit_or,
  bit_xor,
}
use dirtybird_go_gpu_miner.Prelude.Bits.{bit_and-le, bit_or-lt}
use dirtybird_go_gpu_miner.Word.{add64, u32, u16}
use dirtybird_go_gpu_miner.Primitives.{Primitives, Documented}
use dirtybird_go_gpu_miner.Stream.Mix.{
  Mix, Window, window, gap, threshold_hashes, scramble, fold_last, data_len, max_length,
}
use dirtybird_go_gpu_miner.Stream.Round.{
  Core, Stream, Scratch, switch_case, put_marker, next_template, count_chunk, scramble_or_count,
  copy_out, round_core, stream_round, finished, stream_loop, start, astro_stream,
}
use dirtybird_go_gpu_miner.Stream.Keeps.{
  IsMix, threshold_hashes-IsMix, switch_case-IsMix, scramble-IsMix, fold_last-IsMix, prologue-IsMix,
}

-- The bookkeeping when `n` rounds are done.
pub record IsCore (n : ℕ) (c : Core) : Type 0 where
  pub mixed : IsMix c.mix
  pub marker_room : length c.markers ≡ 280
  pub idx_behind : c.template_idx ≤ n - 1
  pub first_behind : c.first_chunk ≤ n - 1
  pub count_behind : c.chunk_count ≤ n + 1
  pub count_positive : 1 ≤ c.chunk_count

-- A marker is always written inside the array.
pub put_marker_returns :
    (n : ℕ) (c : Core)
    → IsCore n c
    → n ≤ 277
    → (markers : List ℕ) × (put_marker c ≡ returned markers) × (length markers ≡ 280)
unfolding put_marker
put_marker_returns n c h few =
    let room : ltb c.template_idx (length c.markers) ≡ true =
      ground (arith, h.idx_behind, h.marker_room) in
    let entry = u16 (bit_or (u32 (c.first_chunk * 2 ^ 7)) c.chunk_count) in
    (
      set c.markers c.template_idx entry,
      rw room,
      length-set c.markers c.template_idx entry ∙ h.marker_room,
    )

-- What a round does to the mix alone, without the bookkeeping.
abbrev pub scrambled : Window → Mix → Mix
scrambled w m = if leb (gap w m) 0x40 then scramble m else m

abbrev pub mix_round : Primitives → ℕ → Mix → Outcome Mix
mix_round prim tries m = do
  let switcher = bit_xor (bit_xor m.prev_lhash m.lhash) tries
  let w = window switcher
  m1 ← switch_case prim (switcher % 256) w m
  returned (fold_last w (scrambled w (threshold_hashes prim tries w m1)))

-- Round `n + 1` moves the bookkeeping on, on both branches.
module _ (n : ℕ) (c : Core) (h : IsCore n c) (now : c.tries ≡ n + 1) (few : n < 277) where
  next_template-IsCore :
      (markers : List ℕ) → length markers ≡ 280 → IsCore (n + 1) (next_template markers c)
  unfolding next_template u32
  next_template-IsCore markers room = record {
    mixed = scramble-IsMix c.mix h.mixed;
    marker_room = room;
    idx_behind = ground (arith, h.idx_behind);
    first_behind = omega arith;
    count_behind = omega arith;
    count_positive = omega arith;
  }

  count_chunk-IsCore : IsCore (n + 1) (count_chunk c)
  unfolding count_chunk u32
  count_chunk-IsCore = record {
    mixed = h.mixed;
    marker_room = h.marker_room;
    idx_behind = omega (arith, h.idx_behind);
    first_behind = omega (arith, h.first_behind);
    count_behind = omega (arith, h.count_behind);
    count_positive = omega (arith, h.count_behind);
  }

  scramble_or_count_returns :
      (w : Window)
      → (c' : Core) × (scramble_or_count w c ≡ returned c')
        × IsCore (n + 1) c'
        × (c'.tries ≡ n + 1)
        × (c'.mix ≡ scrambled w c.mix)
  unfolding scramble_or_count next_template count_chunk
  scramble_or_count_returns w = elim (Bool-cases (leb (gap w c.mix) 0x40)) [
    | inl e ↦
        let k = put_marker_returns n c h (omega arith) in
        (next_template k.0 c, rw (e, k.1), next_template-IsCore k.0 k.2, now, rw e)
    | inr e ↦ (count_chunk c, rw e, count_chunk-IsCore, now, rw e)
  ]

module _ (prim : Primitives) (doc : Documented prim) where
  round_core_returns :
      (n : ℕ) (c : Core)
      → IsCore n c
      → c.tries ≡ n
      → n < 277
      → (c' : Core) × (round_core prim c ≡ returned c')
        × IsCore (n + 1) c'
        × (c'.tries ≡ n + 1)
        × (mix_round prim (add64 c.tries 1) c.mix ≡ returned c'.mix)
  unfolding round_core add64
  round_core_returns n c h now few =
      let tries = (c.tries + 1) % 2 ^ 64 in
      let switcher = bit_xor (bit_xor c.mix.prev_lhash c.mix.lhash) tries in
      let w = window switcher in
      let sw = switch_case-IsMix prim doc (switcher % 256) w c.mix (omega arith) h.mixed in
      let mid : Core = record c { tries = tries; mix = threshold_hashes prim tries w sw.0 } in
      let mid_core : IsCore n mid = record {
        mixed = threshold_hashes-IsMix prim doc tries w sw.0 sw.2;
        marker_room = h.marker_room;
        idx_behind = h.idx_behind;
        first_behind = h.first_behind;
        count_behind = h.count_behind;
        count_positive = h.count_positive;
      } in
      let k = scramble_or_count_returns n mid mid_core (omega arith) few w in
      let c' = k.0 in
      (
        record c' { mix = fold_last w c'.mix },
        rw (sw.1, k.1),
        record {
          mixed = fold_last-IsMix w c'.mix k.2.mixed;
          marker_room = k.2.marker_room;
          idx_behind = k.2.idx_behind;
          first_behind = k.2.first_behind;
          count_behind = k.2.count_behind;
          count_positive = k.2.count_positive;
        },
        k.3,
        rw (sw.1, k.4),
      )

-- The state of the loop when `n` rounds are done.
pub record IsStream (n : ℕ) (s : Stream) : Type 0 where
  pub core_ok : IsCore n s.core
  pub counted : s.core.tries ≡ n
  pub room : max_length ≤ length s.text

module _ (prim : Primitives) (doc : Documented prim) where
  -- A round returns, and copies `step_3` behind the chunks of the rounds before.
  pub stream_round_returns :
      (n : ℕ) (s : Stream)
      → IsStream n s
      → n < 277
      → (s' : Stream) × (stream_round prim s ≡ returned s')
        × IsStream (n + 1) s'
        × (mix_round prim (add64 s.core.tries 1) s.core.mix ≡ returned s'.core.mix)
        × (s'.text ≡ copy_at s.text (n * 256) s'.core.mix.step_3)
  unfolding stream_round copy_out
  stream_round_returns n s h few =
      let k = round_core_returns prim doc n s.core h.core_ok h.counted few in
      let off : (k.0.tries - 1) * 256 ≡ n * 256 = omega (arith, k.3) in
      let text = copy_at s.text (n * 256) k.0.mix.step_3 in
      let inside : ltb (length s.text) (n * 256) ≡ false = ground (arith, h.room) in
      (
        record { core = k.0; text = text },
        rw (k.1, off, inside),
        record { core_ok = k.2; counted = k.3; room = rw length-copy_at h.room },
        k.4,
        refl,
      )

  -- With fuel for the rounds up to 277 the loop returns after at least 261 and at most 277.
  pub stream_loop_returns :
      (fuel n : ℕ) (s : Stream)
      → IsStream n s
      → n < 277
      → 277 ≤ n + fuel
      → (s' : Stream) × (stream_loop prim fuel s ≡ returned s')
        × IsStream s'.core.tries s'
        × (261 ≤ s'.core.tries)
        × (s'.core.tries ≤ 277)
        × (length s'.text ≡ length s.text)
        × (IsBytes s.text → IsBytes s'.text)
  unfolding stream_loop finished
  stream_loop_returns zero n s h few enough = absurd (omega arith)
  stream_loop_returns (suc fuel) n s h few enough =
      let k = stream_round_returns n s h few in
      let s' = k.0 in
      let kept : length s'.text ≡ length s.text = rw (k.4, length-copy_at) in
      let bytes : IsBytes s.text → IsBytes s'.text = λ b.
        subst IsBytes (sym k.4)
          (copy_at-IsBytes s.text (n * 256) s'.core.mix.step_3 b k.2.core_ok.mixed.bytes) in
      elim (Bool-cases (finished s'.core.tries s'.core.mix)) [
        | inl e ↦ (
          s',
          rw (k.1, e),
          rw (k.2.counted) (k.2),
          ground (arith, e),
          omega (arith, k.2.counted),
          kept,
          bytes,
        )
        | inr e ↦
            let later : n + 1 < 277 = ground (arith, e, k.2.counted) in
            let r = stream_loop_returns fuel (n + 1) s' k.2 later (omega arith) in
            (r.0, rw (k.1, e) r.1, r.2, r.3, r.4, r.5 ∙ kept, (λ b. r.6 (bytes b)))
      ]

-- From a final number of tries the length is between 257 * 256 and 277 * 256 - 1.
pub data_len_bounds :
    (tries : ℕ) (m : Mix)
    → IsMix m
    → 261 ≤ tries
    → tries ≤ 277
    → (257 * 256 ≤ data_len tries m) × (data_len tries m < tries * 256)
unfolding data_len u32
data_len_bounds tries m h lo hi =
    let b253 = byte_at-lt m.step_3 253 h.bytes in
    let b254 = byte_at-lt m.step_3 254 h.bytes in
    let tail = bit_or (byte_at m.step_3 253 * 2 ^ 8) (byte_at m.step_3 254) in
    let wide : tail < 2 ^ 16 = bit_or-lt 16 _ _ (omega arith) (omega arith) in
    let masked = bit_and-le 16 tail 0x3ff wide in (omega (arith, masked), omega (arith, masked))

pub record IsScratch (s : Scratch) : Type 0 where
  pub text_size : length s.text ≡ max_length + 64
  pub markers_size : length s.markers ≡ 280

pub start-IsStream :
    (scratch : Scratch) (m : Mix) → IsScratch scratch → IsMix m → IsStream 0 (start scratch m)
unfolding start
start-IsStream scratch m h hm = record {
  core_ok = record {
    mixed = hm;
    marker_room = h.markers_size;
    idx_behind = omega arith;
    first_behind = omega arith;
    count_behind = omega arith;
    count_positive = omega arith;
  };
  counted = refl;
  room = omega (arith, h.text_size);
}

-- The run, with what it keeps of the buffer.
pub astro_stream_run :
    (prim : Primitives)
    → Documented prim
    → (input : List ℕ) (scratch : Scratch) → IsScratch scratch
    → (out : Scratch) × (len : ℕ) × (astro_stream prim 277 input scratch ≡ returned (out, len))
      × IsScratch out
      × (257 * 256 ≤ len)
      × (len < max_length)
      × (1 ≤ out.n_templates)
      × (out.n_templates ≤ 277)
      × (IsBytes scratch.text → IsBytes out.text)
unfolding astro_stream u32 start
astro_stream_run prim doc input scratch h =
    let p = prologue-IsMix prim doc input in
    let r =
      stream_loop_returns prim doc 277 0 (start scratch p.0) (start-IsStream scratch p.0 h p.2)
        (omega arith) (omega arith) in
    let c = r.0.core in
    let k = put_marker_returns c.tries c r.2.core_ok r.4 in
    let len = data_len_bounds c.tries c.mix r.2.core_ok.mixed r.3 r.4 in
    let idx = r.2.core_ok.idx_behind in
    (
      record { text = r.0.text; markers = k.0; n_templates = (c.template_idx + 1) % 2 ^ 32 },
      data_len c.tries c.mix,
      rw (p.1, r.1, k.1),
      record { text_size = r.5 ∙ h.text_size; markers_size = k.2 },
      len.0,
      omega (arith, len.1),
      omega (arith, idx),
      omega (arith, idx),
      r.6,
    )

-- For every input and every scratch of the declared sizes, `astroBWTv3Stream` returns within 277
-- rounds of the wolf loop (no array is indexed or sliced out of range and no key is refused), the
-- scratch keeps its sizes, `data_len` is at least 257 * 256 and below MAX_LENGTH, and it records 1
-- to 277 templates.
pub astro_stream_returns :
    (prim : Primitives)
    → Documented prim
    → (input : List ℕ) (scratch : Scratch) → IsScratch scratch
    → (out : Scratch) × (len : ℕ) × (astro_stream prim 277 input scratch ≡ returned (out, len))
      × IsScratch out
      × (257 * 256 ≤ len)
      × (len < max_length)
      × (1 ≤ out.n_templates)
      × (out.n_templates ≤ 277)
astro_stream_returns prim doc input scratch h =
    let r = astro_stream_run prim doc input scratch h in (r.0, r.1, r.2, r.3, r.4, r.5, r.6, r.7)
