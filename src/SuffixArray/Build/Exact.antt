-- ===== src/SuffixArray/Build/Exact.antt =====
-- The descriptor suffix array is exact: it is never declined within the buffers' sizes, and it is the
-- one suffix array of the text, whatever the markers say.
use dirtybird_go_gpu_miner.Prelude.{
  ℕ, zero, suc, ◌+◌, ◌-◌, ◌*◌, ◌/◌, ◌%◌, ◌^◌, ◌≤◌, ◌<◌, ◌≡◌, ◌≢◌, inl, inr, refl, sym, ap, ap₂, ◌∙◌,
  subst, arith, List, [], ◌∷◌, length, length-set, length-take, take, drop, set, get_or-set,
  byte_at, IsBytes, set-IsBytes, true, false, ltb, ◌==◌, ◌||◌, not, Bool-cases, some, bit_and,
  returned, Each,
}
use dirtybird_go_gpu_miner.Prelude.Bits.{bit_and_low}
use dirtybird_go_gpu_miner.SuffixArray.Lex.{LexLe}
use dirtybird_go_gpu_miner.SuffixArray.View.{View}
use dirtybird_go_gpu_miner.SuffixArray.Suffixes.{IsView}
use dirtybird_go_gpu_miner.SuffixArray.Sorting.{Sorted, total}
use dirtybird_go_gpu_miner.SuffixArray.Runs.{V114Scratch, arena_index_count}
use dirtybird_go_gpu_miner.SuffixArray.Runs.Emitted.{Emitted, Emits, Emitted-cong}
use dirtybird_go_gpu_miner.SuffixArray.Emit.{emit_literal_records}
use dirtybird_go_gpu_miner.SuffixArray.Emit.Ranges.{
  sum_from, sum_from-append, sum_from-zero, sum_from-one, Emits-cases, emit_literal_records-Emitted,
}
use dirtybird_go_gpu_miner.SuffixArray.Emit.Groups.{emit_full_group_run-Emits}
use dirtybird_go_gpu_miner.SuffixArray.Merge.Write.{write_fused_runs_to_sa_lem, runs_fit}
use dirtybird_go_gpu_miner.SuffixArray.Build.{
  ScratchData, build_stage5_flags, emit_runs, zero_padding, build_sa_v114,
}

-- The suffix array of a text: its positions, each once (a weight sums to the same over both), in the
-- order of the suffixes.
pub record IsSuffixArray (text sa : List ℕ) : Type 0 where
  pub positions : (f : ℕ → ℕ) → total f sa ≡ sum_from f 0 (length text)
  pub within : Each (λ p. p < length text) sa
  pub in_order : Sorted (λ a b. LexLe (drop a text) (drop b text)) sa

module _ (v : View) (ok : IsView v) (flags : List ℕ) (full : ℕ)
    (fits : full * 256 ≤ v.logical_len) where
  emit_runs-Emits :
      (n group start : ℕ) (s : V114Scratch)
      → group + n ≡ full + 1
      → start < group
      → (n ≡ 0 → start ≡ full)
      → Emitted v (λ f. sum_from f 0 (start * 256)) s
      → Emits v (λ f. sum_from f 0 (full * 256)) (emit_runs v flags full n group start s)
  unfolding emit_runs
  emit_runs-Emits zero group start s e lt last h =
      let done = last refl in Emitted-cong v _ _ s (λ f. ap (λ m. sum_from f 0 (m * 256)) done) h
  emit_runs-Emits (suc n) group start s e lt last h =
      let short = ok.short in
      elim (Bool-cases (not (byte_at flags group == 0) || (group == full))) [
        | inl flagged ↦
            let room = sum_from-one 0 (start * 256) in
            let split : start * 256 + (group - start) * 256 ≡ group * 256 = omega arith in
            let run = Emits-cases v _ _ (
              emit_full_group_run-Emits v ok _ start group s (omega arith) (omega arith)
                (omega arith) h) in
            rw (flagged, run.1, emit_runs)
              (emit_runs-Emits n (group + 1) group run.0 (omega arith) (omega arith)
                (λ z. omega arith)
                (Emitted-cong v _ _ run.0
                  (λ f.
                    ap (λ i. sum_from f 0 (start * 256) + sum_from f i ((group - start) * 256))
                      (zero_plus (start * 256))
                    ∙ sym (sum_from-append f 0 (start * 256) ((group - start) * 256))
                    ∙ ap (sum_from f 0) split)
                  run.2))
        | inr skip ↦
            let before_last : group ≢ full = ground arith in
            rw skip (
              emit_runs-Emits n (group + 1) start s (omega arith) (omega arith)
                (λ z. absurd (before_last (omega arith))) h)
      ]
    where
      zero_plus : (m : ℕ) → m ≡ 0 + m
      zero_plus m = omega arith

-- The padding is beyond the text.
take-set : (n i x : ℕ) (xs : List ℕ) → n ≤ i → take n (set xs i x) ≡ take n xs
take-set zero i x xs h = refl
take-set (suc n) i x [] h = refl
take-set (suc n) zero x (y ∷ xs) h = absurd (omega arith)
take-set (suc n) (suc i) x (y ∷ xs) h = ap (λ zs. y ∷ zs) (take-set n i x xs (omega arith))

take-padding : (text : List ℕ) (n : ℕ) → take n (zero_padding text n) ≡ take n text
unfolding zero_padding
take-padding text n =
    let t1 = set text n 0 in
    let t2 = set t1 (n + 1) 0 in
    let t3 = set t2 (n + 2) 0 in
    take-set n (n + 3) 0 t3 (omega arith)
    ∙ take-set n (n + 2) 0 t2 (omega arith)
    ∙ take-set n (n + 1) 0 t1 (omega arith)
    ∙ take-set n n 0 text (omega arith)

pub zero_padding-IsView :
    (text : List ℕ) (n : ℕ)
    → IsBytes text
    → n + 4 ≤ length text
    → n ≤ 2 ^ 17
    → IsView (record { text = zero_padding text n; logical_len = n })
unfolding zero_padding
zero_padding-IsView text n bytes room short =
    let t1 = set text n 0 in
    let t2 = set t1 (n + 1) 0 in
    let t3 = set t2 (n + 2) 0 in
    let s1 = length-set text n 0 in
    let s2 = length-set t1 (n + 1) 0 in
    let s3 = length-set t2 (n + 2) 0 in
    let s4 = length-set t3 (n + 3) 0 in
    let b1 = set-IsBytes text n 0 bytes (omega arith) in
    let b2 = set-IsBytes t1 (n + 1) 0 b1 (omega arith) in
    let b3 = set-IsBytes t2 (n + 2) 0 b2 (omega arith) in
    record {
      bytes = set-IsBytes t3 (n + 3) 0 b3 (omega arith);
      room = omega arith;
      short = short;
      padded = λ i hi.
          let at4 = get_or-set t3 (n + 3) (n + i) 0 0 (omega arith) in
          let at3 = get_or-set t2 (n + 2) (n + i) 0 0 (omega arith) in
          let at2 = get_or-set t1 (n + 1) (n + i) 0 0 (omega arith) in
          let at1 = get_or-set text n (n + i) 0 0 (omega arith) in ground arith;
    }

flags_len-build :
    (markers : List ℕ) (n_templates n : ℕ) (flags : List ℕ)
    → 0 < n
    → n / 2 ^ 8 + 1 ≤ length flags
    → ((build_stage5_flags markers n_templates n flags).1 == 0) ≡ false
unfolding build_stage5_flags
flags_len-build markers n_templates n flags some_ room =
    let not_empty : (n == 0) ≡ false = ground arith in
    let long : ltb (length flags) (n / 2 ^ 8 + 1) ≡ false = ground arith in
    let positive : (n / 2 ^ 8 + 1 == 0) ≡ false = ground arith in rw (not_empty, long) positive

-- The view of a call.
abbrev pub padded_view : List ℕ → ℕ → View
padded_view text n = record { text = zero_padding text n; logical_len = n }

-- The emit stage collects every position of the text.
Emitted-whole :
    (text flags : List ℕ) (n : ℕ)
    → IsView (padded_view text n)
    → (v : V114Scratch) × (emit_runs
          (padded_view text n)
          flags
          (n / 2 ^ 8)
          (n / 2 ^ 8)
          1
          0
          (record { arena = []; runs = [] })
        ≡ some v)
      × Emitted
          (padded_view text n)
          (λ f. sum_from f 0 n)
          (emit_literal_records (padded_view text n) (n / 2 ^ 8 * 2 ^ 8) (bit_and n 0xff) v)
Emitted-whole text flags n ok =
    let view = padded_view text n in
    let full = n / 2 ^ 8 in
    let start : Emitted view (λ f. sum_from f 0 (0 * 256)) (record { arena = []; runs = [] }) =
      record { each = tt; sum = λ f. sym (sum_from-zero f 0); size = omega arith } in
    let groups = Emits-cases view _ _ (
      emit_runs-Emits view ok flags full (omega arith) full 1 0 (record { arena = []; runs = [] })
        (omega arith) (omega arith) (λ e. sym e) start) in
    let split : n ≡ full * 2 ^ 8 + n % 256 = omega arith in
    let low : bit_and n 0xff ≡ n % 256 =
      ap (λ x. bit_and x 0xff) split ∙ bit_and_low 8 full (n % 256) (omega arith) in
    let zero_plus : full * 256 ≡ 0 + full * 256 = omega arith in
    let tail =
      emit_literal_records-Emitted view ok (bit_and n 0xff) (full * 2 ^ 8)
        (λ f. sum_from f 0 (full * 256)) groups.0 (omega (arith, low)) groups.2 in
    (
      groups.0,
      groups.1,
      Emitted-cong view _ _ _
          (λ f.
            ap₂ (λ i m. sum_from f 0 (full * 256) + sum_from f i m) zero_plus low
            ∙ sym (sum_from-append f 0 (full * 256) (n % 256))
            ∙ ap (sum_from f 0) (sym split))
          tail,
    )

-- On a little-endian host `buildSAv114` does not decline and does not panic, and builds the suffix
-- array of the first `n` bytes, whatever the markers and the buffers held: for `n` from 1 to 2 ^ 17,
-- at least one template, data of bytes that is 4 longer than `n`, and buffers for the flags of the
-- groups and for `n` records.
pub build_sa_v114_lem :
    (s : ScratchData) (n : ℕ)
    → IsBytes s.text
    → 0 < n
    → n ≤ 2 ^ 17
    → n + 4 ≤ length s.text
    → n / 2 ^ 8 + 1 ≤ length s.flags
    → n ≤ length s.radix_tmp
    → 0 < s.n_templates
    → (sa : List ℕ) × (build_sa_v114 true s n ≡ returned (some sa))
      × IsSuffixArray (take n s.text) sa
unfolding build_sa_v114
build_sa_v114_lem s n bytes some_ short room flags_room radix_room templates =
    let view = padded_view s.text n in
    let ok = zero_padding-IsView s.text n bytes room short in
    let flagged = build_stage5_flags s.markers s.n_templates n s.flags in
    let emitted = Emitted-whole s.text flagged.0 n ok in
    let collected = emit_literal_records view (n / 2 ^ 8 * 2 ^ 8) (bit_and n 0xff) emitted.0 in
    let few = runs_fit view collected _ ok emitted.2 in
    let count = sum_from-one 0 n in
    let out =
      write_fused_runs_to_sa_lem view s.radix_tmp collected (λ f. sum_from f 0 n) n ok emitted.2
        count (omega arith) (omega arith) in
    let no_decline : (not true || ((n == 0) || (ltb arena_index_count n || (s.n_templates == 0))))
        ≡ false =
      guards n s.n_templates some_ short templates in
    let flags_built = flags_len-build s.markers s.n_templates n s.flags some_ flags_room in
    let size : length (take n s.text) ≡ n = omega (arith, length-take n s.text) in
    (
      out.0,
      rw (no_decline, flags_built, emitted.1, build_sa_v114) out.1,
      record {
        positions = λ f. out.4 f ∙ ap (sum_from f 0) (sym size);
        within = subst (λ m. Each (λ p. p < m) out.0) (sym size) out.3;
        in_order =
            subst (λ xs. Sorted (λ a b. LexLe (drop a xs) (drop b xs)) out.0)
              (take-padding s.text n) out.2;
      },
    )
  where
    guards :
        (n templates : ℕ)
        → 0 < n
        → n ≤ 2 ^ 17
        → 0 < templates
        → (not true || ((n == 0) || (ltb arena_index_count n || (templates == 0)))) ≡ false
    guards n templates a b c = ground arith
