-- ===== src/Stream/Agree.antt =====
-- The table-driven stream writes what the consensus stream writes, whatever the buffers held.
use mathlib.Core.Path.{fun_ext}
use dirtybird_go_gpu_miner.Prelude.{
  ℕ, zero, suc, ◌+◌, ◌-◌, ◌*◌, ◌%◌, ◌^◌, ◌≤◌, ◌<◌, ◌≡◌, refl, ◌≢◌, sym, ap, ◌∙◌, arith, List, true,
  false, Outcome, returned, ◌>>=◌, ltb, ◌==◌, ◌||◌, if◌then◌else◌, length, byte_at, set, take,
  copy_at, length-copy_at, take-copy_at, take-take, Bool-cases, inl, inr, bit_xor, bind_assoc, ◌++◌,
}
use dirtybird_go_gpu_miner.Word.{add64, u32}
use dirtybird_go_gpu_miner.Primitives.{Primitives, Documented}
use dirtybird_go_gpu_miner.Wolf.Switch.{case_byte}
use dirtybird_go_gpu_miner.Wolf.Table.{wolf_apply_byte}
use dirtybird_go_gpu_miner.Wolf.Agree.{case_byte-eq-wolf_apply_byte}
use dirtybird_go_gpu_miner.Stream.Mix.{
  Mix, Window, window, update_byte, reverse_swap, deviate, data_len, max_length,
}
use dirtybird_go_gpu_miner.Stream.Round.{
  Stream, Scratch, over, rekey, switch_case, copy_out, finished, stream_loop, start, astro_stream,
}
use dirtybird_go_gpu_miner.Stream.Table.{
  TableStream, table_body, table_round, table_loop, written, wolf_stream_into,
}
use dirtybird_go_gpu_miner.Stream.Keeps.{prologue-IsMix}
use dirtybird_go_gpu_miner.Stream.Total.{
  IsStream, IsScratch, mix_round, stream_round_returns, start-IsStream, put_marker_returns,
  data_len_bounds,
}

update_byte_agree :
    (op pos2 i : ℕ) (m : Mix)
    → op < 256
    → update_byte (wolf_apply_byte op) pos2 i m ≡ update_byte (case_byte op) pos2 i m
unfolding update_byte
update_byte_agree op pos2 i m h =
    ap (λ v. record m { step_3 = set m.step_3 i v })
      (sym (case_byte-eq-wolf_apply_byte op h (byte_at m.step_3 i) (byte_at m.step_3 pos2)))

is_case : (op c : ℕ) → op ≡ c → (op == c) ≡ true
is_case op c e = ground arith

not_case : (op c : ℕ) → op ≢ c → (op == c) ≡ false
not_case op c n = ground arith

rekeys_not : (op : ℕ) → op ≤ 253 → (op == 254 || op == 255) ≡ false
rekeys_not op h = ground arith

module _ (prim : Primitives) where
  -- The rekeying that the table version does before its byte loop.
  abbrev table_switch : ℕ → Window → Mix → Outcome Mix
  table_switch op w m = do
    m0 ← (if op == 254 || op == 255 then rekey m else returned m)
    returned (over w (table_body prim op w) m0)

  -- The body of the byte loop in the four kinds of cases.
  module _ (op : ℕ) (w : Window) (h : op < 256) where
    body_swap :
        op ≡ 0
        → table_body prim op w
          ≡ (λ i m. reverse_swap w.pos1 w.pos2 (update_byte (case_byte op) w.pos2 i m))
    unfolding table_body
    body_swap e = fun_ext λ i. fun_ext λ m.
        rw (is_case op 0 e, not_case op 253 (omega arith))
          (ap (reverse_swap w.pos1 w.pos2) (update_byte_agree op w.pos2 i m h))

    body_rehash :
        op ≡ 253
        → table_body prim op w ≡ (λ i m.
          deviate (λ prev t. prim.xxhash t) w.pos2 (update_byte (case_byte op) w.pos2 i m))
    unfolding table_body
    body_rehash e = fun_ext λ i. fun_ext λ m.
        rw (is_case op 253 e, not_case op 0 (omega arith))
          (ap (deviate (λ prev t. prim.xxhash t) w.pos2) (update_byte_agree op w.pos2 i m h))

    body_plain : op ≢ 0 → op ≢ 253 → table_body prim op w ≡ update_byte (case_byte op) w.pos2
    unfolding table_body
    body_plain n n' = fun_ext λ i.
        fun_ext λ m. rw (not_case op 0 n, not_case op 253 n') (update_byte_agree op w.pos2 i m h)

  table_switch_agree :
      (op : ℕ) (w : Window) (m : Mix) → op < 256 → table_switch op w m ≡ switch_case prim op w m
  unfolding switch_case
  table_switch_agree op w m h = elim (Bool-cases (op == 0)) [
    | inl e ↦ rw (body_swap op w h (ground arith), e, rekeys_not op (ground arith))
    | inr e ↦ elim (Bool-cases (op == 253)) [
      | inl e' ↦ rw (body_rehash op w h (ground arith), e, e', rekeys_not op (ground arith))
      | inr e' ↦ elim (Bool-cases (op == 254 || op == 255)) [
        | inl e'' ↦ rw (body_plain op w h (ground arith) (ground arith), e, e', e'')
        | inr e'' ↦ rw (body_plain op w h (ground arith) (ground arith), e, e', e'')
      ]
    ]
  ]

-- The table version's state beside a state of the consensus loop.
abbrev twin : Stream → List ℕ → TableStream
twin s out = record { mix = s.core.mix; tries = s.core.tries; out = out }

-- The buffers agree on what `n` rounds have written.
abbrev SamePrefix : ℕ → List ℕ → List ℕ → Type 0
SamePrefix n text out = (max_length ≤ length out) × (take (n * 256) text ≡ take (n * 256) out)

module _ (prim : Primitives) (doc : Documented prim) where
  copied :
      (n : ℕ) (a b chunk : List ℕ)
      → n < 277
      → length chunk ≡ 256
      → max_length ≤ length a
      → SamePrefix n a b
      → SamePrefix (n + 1) (copy_at a (n * 256) chunk) (copy_at b (n * 256) chunk)
  copied n a b chunk few size room (room', e) =
      let end : (n + 1) * 256 ≡ n * 256 + length chunk = omega arith in
      let fits : (n + 1) * 256 ≤ max_length = omega arith in
      (
        rw length-copy_at room',
        take-copy_at _ a (n * 256) chunk end (omega arith)
            ∙ ap (λ p. p ++ chunk) e
            ∙ sym (take-copy_at _ b (n * 256) chunk end (omega arith)),
      )

  -- A round of the table version is the same change of the mix, and the copy.
  table_round_mix :
      (t : TableStream)
      → table_round prim t ≡ (do
        m ← mix_round prim (add64 t.tries 1) t.mix
        out ← copy_out t.out (add64 t.tries 1) m.step_3
        returned (record { mix = m; tries = add64 t.tries 1; out = out }))
  unfolding table_round
  table_round_mix t =
      let tries = add64 t.tries 1 in
      let switcher = bit_xor (bit_xor t.mix.prev_lhash t.mix.lhash) tries in
      let op = switcher % 256 in
      rw (← table_switch_agree prim op (window switcher) t.mix (omega arith)) (simp bind_assoc)

  round_agree :
      (n : ℕ) (s s' : Stream) (out : List ℕ)
      → n < 277
      → s.core.tries ≡ n
      → s'.core.tries ≡ n + 1
      → max_length ≤ length out
      → mix_round prim (add64 s.core.tries 1) s.core.mix ≡ returned s'.core.mix
      → table_round prim (twin s out)
        ≡ returned (twin s' (copy_at out (n * 256) s'.core.mix.step_3))
  unfolding copy_out
  round_agree n s s' out few now next room e =
      let count : add64 s.core.tries 1 ≡ s'.core.tries = unfold add64 in omega arith in
      let off : (s'.core.tries - 1) * 256 ≡ n * 256 = omega arith in
      let inside : ltb (length out) (n * 256) ≡ false = ground arith in
      table_round_mix (twin s out) ∙ rw (e, count, off, inside)

  loop_agree :
      (fuel n : ℕ) (s : Stream) (out : List ℕ)
      → IsStream n s
      → n < 277
      → 277 ≤ n + fuel
      → SamePrefix n s.text out
      → (s' : Stream) × (out' : List ℕ) × (stream_loop prim fuel s ≡ returned s')
        × (table_loop prim fuel (twin s out) ≡ returned (twin s' out'))
        × IsStream s'.core.tries s'
        × (261 ≤ s'.core.tries)
        × (s'.core.tries ≤ 277)
        × SamePrefix s'.core.tries s'.text out'
  unfolding stream_loop table_loop finished
  loop_agree zero n s out h few enough same = absurd (omega arith)
  loop_agree (suc fuel) n s out h few enough same =
      let k = stream_round_returns prim doc n s h few in
      let s' = k.0 in
      let now = k.2.counted in
      let chunk = s'.core.mix.step_3 in
      let out' = copy_at out (n * 256) chunk in
      let t = round_agree n s s' out few h.counted now same.0 k.3 in
      let same' : SamePrefix (n + 1) s'.text out' =
        rw k.4 (copied n s.text out chunk few k.2.core_ok.mixed.size h.room same) in
      elim (Bool-cases (finished s'.core.tries s'.core.mix)) [
        | inl e ↦ (
          s',
          out',
          rw (k.1, e),
          rw (t, e),
          rw now k.2,
          ground (arith, e),
          omega (arith, now),
          rw now same',
        )
        | inr e ↦
            let later : n + 1 < 277 = ground (arith, e, now) in
            let r = loop_agree fuel (n + 1) s' out' k.2 later (omega arith) same' in
            (r.0, r.1, rw (k.1, e) r.2, rw (t, e) r.3, r.4, r.5, r.6, r.7)
      ]

  -- For every input, every scratch of the declared sizes and every buffer of at least MAX_LENGTH
  -- bytes, the table-driven `WolfStreamInto` and the consensus `astroBWTv3Stream` both return, with
  -- the same data length and the same bytes up to it, whatever both buffers held before.
  pub wolf_stream_into_agrees :
      (input : List ℕ) (scratch : Scratch) (out : List ℕ)
      → IsScratch scratch
      → max_length ≤ length out
      → (scratch' : Scratch) × (out' : List ℕ) × (len : ℕ) × (astro_stream prim 277 input scratch
          ≡ returned (scratch', len))
        × (wolf_stream_into prim 277 input out ≡ returned (written out' len))
        × (take len scratch'.text ≡ take len out')
  unfolding astro_stream wolf_stream_into u32 start
  wolf_stream_into_agrees input scratch out h room =
      let p = prologue-IsMix prim doc input in
      let s0 = start scratch p.0 in
      let long : ltb (length out) max_length ≡ false = ground arith in
      let r =
        loop_agree 277 0 s0 out (start-IsStream scratch p.0 h p.2) (omega arith) (omega arith)
          (room, refl) in
      let c = r.0.core in
      let k = put_marker_returns c.tries c r.4.core_ok r.6 in
      let len = data_len c.tries c.mix in
      let short : len ≤ c.tries * 256 =
        omega (arith, data_len_bounds c.tries c.mix r.4.core_ok.mixed r.5 r.6) in
      (
        record { text = r.0.text; markers = k.0; n_templates = (c.template_idx + 1) % 2 ^ 32 },
        r.1,
        len,
        rw (p.1, r.2, k.1),
        rw (long, p.1, r.3),
        sym (take-take len (c.tries * 256) r.0.text short)
            ∙ ap (take len) r.7.1
            ∙ take-take len (c.tries * 256) r.1 short,
      )
