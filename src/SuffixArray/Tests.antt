-- ===== src/SuffixArray/Tests.antt =====
-- The theorems on the descriptor suffix array at small inputs.
use dirtybird_go_gpu_miner.Prelude.{
  ℕ, zero, suc, ◌+◌, ◌-◌, ◌*◌, ◌≤◌, ◌<◌, ◌≡◌, refl, arith, List, [], ◌∷◌, length, length-replicate,
  take, replicate, IsBytes, true, false, ltb, ltb→lt, some, returned, Each,
}
use dirtybird_go_gpu_miner.SuffixArray.Lex.{bytes_compare}
use dirtybird_go_gpu_miner.SuffixArray.View.{
  View, suffix, compare_suffixes_after_key, key_at, radix_order_key,
}
use dirtybird_go_gpu_miner.SuffixArray.Keys.{radix_at, radix_order_key-key_at}
use dirtybird_go_gpu_miner.SuffixArray.Suffixes.{IsView}
use dirtybird_go_gpu_miner.SuffixArray.Compare.{compare_suffixes_after_key_lem}
use dirtybird_go_gpu_miner.SuffixArray.Order.{SuffixLe}
use dirtybird_go_gpu_miner.SuffixArray.Sorting.{Sorted, Agrees, total}
use dirtybird_go_gpu_miner.SuffixArray.Heap.{heap_sort}
use dirtybird_go_gpu_miner.SuffixArray.Heap.Order.{heap_sort-Sorted}
use dirtybird_go_gpu_miner.SuffixArray.Runs.{Run, V114Scratch}
use dirtybird_go_gpu_miner.SuffixArray.Runs.Emitted.{Emitted, Emits}
use dirtybird_go_gpu_miner.SuffixArray.Emit.{emit_full_group_run, emit_literal_records}
use dirtybird_go_gpu_miner.SuffixArray.Emit.Ranges.{
  sum_from, sum_from-zero, sum_from-one, emit_literal_records-Emitted,
}
use dirtybird_go_gpu_miner.SuffixArray.Emit.Groups.{emit_full_group_run-Emits}
use dirtybird_go_gpu_miner.SuffixArray.Merge.{radix_sort_runs, write_fused_runs_to_sa}
use dirtybird_go_gpu_miner.SuffixArray.Merge.Radix.{KeyLe, radix_sort_runs-Sorted}
use dirtybird_go_gpu_miner.SuffixArray.Merge.Write.{write_fused_runs_to_sa_lem, runs_fit}
use dirtybird_go_gpu_miner.SuffixArray.Build.{ScratchData, build_sa_v114, zero_padding}
use dirtybird_go_gpu_miner.SuffixArray.Build.Exact.{
  IsSuffixArray, build_sa_v114_lem, padded_view, zero_padding-IsView,
}

replicate-IsBytes : (n b : ℕ) → b < 256 → IsBytes (replicate n b)
replicate-IsBytes zero b h = tt
replicate-IsBytes (suc n) b h = (h, replicate-IsBytes n b h)

-- "abcabdabc" and room for the padding.
abbrev letters : List ℕ
letters = 97 ∷ 98 ∷ 99 ∷ 97 ∷ 98 ∷ 100 ∷ 97 ∷ 98 ∷ 99 ∷ 1 ∷ 2 ∷ 3 ∷ 4 ∷ []

letters-IsBytes : IsBytes letters
letters-IsBytes = (
  omega arith,
  (
    omega arith,
    (
      omega arith,
      (
        omega arith,
        (
          omega arith,
          (
            omega arith,
            (
              omega arith,
              (
                omega arith,
                (omega arith, (omega arith, (omega arith, (omega arith, (omega arith, tt))))),
              ),
            ),
          ),
        ),
      ),
    ),
  ),
)

abbrev sample : View
sample = padded_view letters 9

sample-IsView : IsView sample
sample-IsView = zero_padding-IsView letters 9 letters-IsBytes (omega arith) (omega arith)

abbrev empty_scratch : V114Scratch
empty_scratch = record { arena = []; runs = [] }

radix_order_key-key_at_example : radix_order_key (key_at letters 3) ≡ radix_at letters 3
radix_order_key-key_at_example = radix_order_key-key_at letters 3 letters-IsBytes

compare_suffixes_after_key_lem_example :
    compare_suffixes_after_key sample 0 6 ≡ bytes_compare (suffix sample 0) (suffix sample 6)
unfolding zero_padding
compare_suffixes_after_key_lem_example =
    compare_suffixes_after_key_lem sample 0 6 sample-IsView (omega arith) (omega arith) same_key
  where
    same_key : radix_at sample.text 0 ≡ radix_at sample.text 6
    same_key = refl

heap_sort-Sorted_example :
    Sorted (λ x y. x ≤ y) (heap_sort ltb (4 ∷ 1 ∷ 3 ∷ 2 ∷ []))
    × Each (λ x. 0 ≤ x) (heap_sort ltb (4 ∷ 1 ∷ 3 ∷ 2 ∷ []))
    × ((f : ℕ → ℕ) → total f (heap_sort ltb (4 ∷ 1 ∷ 3 ∷ 2 ∷ [])) ≡ total f (4 ∷ 1 ∷ 3 ∷ 2 ∷ []))
heap_sort-Sorted_example =
    heap_sort-Sorted ltb (λ x y. x ≤ y) (λ x. 0 ≤ x) (λ x y z p q. omega arith) decides
      (4 ∷ 1 ∷ 3 ∷ 2 ∷ []) (omega arith, (omega arith, (omega arith, (omega arith, tt))))
  where
    decides : (x y : ℕ) → 0 ≤ x → 0 ≤ y → Agrees ltb (λ a b. a ≤ b) x y
    decides x y p q = ((λ e. omega (arith, ltb→lt x y e)), (λ e. not_less x y e))
      where
        not_less : (x y : ℕ) → ltb x y ≡ false → y ≤ x
        not_less x y e = ground arith

abbrev three_runs : List Run
three_runs =
    record { key = 0x20001; packed = 5 }
    ∷ record { key = 0x10002; packed = 6 }
    ∷ record { key = 0x20000; packed = 7 }
    ∷ []

radix_sort_runs-Sorted_example :
    Sorted KeyLe (radix_sort_runs (replicate 3 (record { key = 9; packed = 9 })) three_runs)
    × ((f : Run → ℕ)
        → total f (radix_sort_runs (replicate 3 (record { key = 9; packed = 9 })) three_runs)
          ≡ total f three_runs)
radix_sort_runs-Sorted_example =
    radix_sort_runs-Sorted (replicate 3 (record { key = 9; packed = 9 })) three_runs (omega arith)
      (omega arith) (omega arith, (omega arith, (omega arith, tt)))

-- Four groups of one byte.
abbrev groups : View
groups = padded_view (replicate 1028 7) 1024

groups-IsView : IsView groups
groups-IsView =
    zero_padding-IsView (replicate 1028 7) 1024 (replicate-IsBytes 1028 7 (omega arith))
      (omega (arith, length-replicate {A = ℕ} 1028 7)) (omega arith)

nothing-Emitted : (v : View) → Emitted v (λ f. sum_from f 0 0) empty_scratch
nothing-Emitted v = record { each = tt; sum = λ f. zero_sum f; size = omega arith }
  where
    zero_sum : (f : ℕ → ℕ) → 0 ≡ sum_from f 0 0
    zero_sum f = omega (arith, sum_from-zero f 0)

emit_full_group_run-Emits_example :
    Emits groups
      (λ f. sum_from f 0 0 + sum_from f (1 * 256) ((4 - 1) * 256))
      (emit_full_group_run groups 1 4 empty_scratch)
emit_full_group_run-Emits_example =
    emit_full_group_run-Emits groups groups-IsView (λ f. sum_from f 0 0) 1 4 empty_scratch
      (omega arith) (omega arith) (omega (arith, sum_from-zero (λ p. 1) 0)) (nothing-Emitted groups)

abbrev collected : V114Scratch
collected = emit_literal_records sample 0 9 empty_scratch

collected-Emitted : Emitted sample (λ f. sum_from f 0 0 + sum_from f 0 9) collected
collected-Emitted =
    emit_literal_records-Emitted sample sample-IsView 9 0 (λ f. sum_from f 0 0) empty_scratch
      (omega arith) (nothing-Emitted sample)

collected_count : sum_from (λ p. 1) 0 0 + sum_from (λ p. 1) 0 9 ≡ 9
collected_count = omega (arith, sum_from-one 0 0, sum_from-one 0 9)

collected_fits : length collected.runs ≤ 9
collected_fits =
    omega (arith, runs_fit sample collected _ sample-IsView collected-Emitted, collected_count)

write_fused_runs_to_sa_lem_example :
    (sa : List ℕ) × (write_fused_runs_to_sa sample
        (replicate 9 (record { key = 0; packed = 0 }))
        collected
        9
      ≡ returned (some sa))
    × Sorted (SuffixLe sample) sa
    × Each (λ p. p < 9) sa
    × ((f : ℕ → ℕ) → total f sa ≡ sum_from f 0 0 + sum_from f 0 9)
write_fused_runs_to_sa_lem_example =
    write_fused_runs_to_sa_lem sample (replicate 9 (record { key = 0; packed = 0 })) collected
      (λ f. sum_from f 0 0 + sum_from f 0 9) 9 sample-IsView collected-Emitted collected_count
      collected_fits (omega (arith, collected_fits))

abbrev letters_scratch : ScratchData
letters_scratch = record {
  text = letters;
  markers = replicate 280 0;
  n_templates = 1;
  flags = replicate 280 1;
  radix_tmp = replicate 9 (record { key = 0; packed = 0 });
}

build_sa_v114_lem_example :
    (sa : List ℕ) × (build_sa_v114 true letters_scratch 9 ≡ returned (some sa))
    × IsSuffixArray (take 9 letters) sa
build_sa_v114_lem_example =
    build_sa_v114_lem letters_scratch 9 letters-IsBytes (omega arith) (omega arith) (omega arith)
      (omega (arith, length-replicate {A = ℕ} 280 1)) (omega arith) (omega arith)

-- A run of the model: the suffix array of "abcabdabc".
build_letters :
    build_sa_v114 true letters_scratch 9 ≡ returned (some (6 ∷ 0 ∷ 3 ∷ 7 ∷ 1 ∷ 4 ∷ 8 ∷ 2 ∷ 5 ∷ []))
unfolding build_sa_v114
build_letters = refl
