-- ===== src/SuffixArray/Merge.antt =====
-- Stage 5: the records sorted by key, and the positions of each key merged into the suffix array
-- (internal/astrobwt/sa_v114_merge.go). The part of `sa` that is written is the list of positions so
-- far; `returned none` is the `false` of the function, `panicked` a write beyond `sa`.
pub mod Counting
pub mod Pass
pub mod Radix
pub mod Slices
pub mod Pairs
pub mod Groups
pub mod Strict
pub mod Write
use dirtybird_go_gpu_miner.Prelude.{
  ℕ, zero, suc, ◌+◌, ◌-◌, ◌*◌, ◌/◌, ◌^◌, List, [], ◌∷◌, ◌++◌, map, length, take, drop, replicate,
  set, get_or, byte_at, Bool, true, false, ltb, leb, ◌==◌, ◌&&◌, ◌||◌, not, if◌then◌else◌, Option,
  none, some, bit_and, Outcome, returned, panicked, ◌>>=◌,
}
use dirtybird_go_gpu_miner.Word.{u32}
use dirtybird_go_gpu_miner.SuffixArray.View.{View, suffix_less_after_key}
use dirtybird_go_gpu_miner.SuffixArray.Sorting.{insertion_sort, merge}
use dirtybird_go_gpu_miner.SuffixArray.Runs.{
  Run, V114Scratch, begin, count, is_literal, run_positions,
}
use dirtybird_go_gpu_miner.SuffixArray.Emit.{key_groups}

-- `(key >> shift) & 0xff`
unfoldable pub digit : ℕ → Run → ℕ
digit shift r = bit_and (r.key / 2 ^ shift) 0xff

-- `counts[digit]++` for every record.
unfoldable pub count_digits : ℕ → List Run → List ℕ → List ℕ
unfolding digit u32
count_digits shift [] counts = counts
count_digits shift (r ∷ rs) counts =
    let d = digit shift r in count_digits shift rs (set counts d (u32 (byte_at counts d + 1)))

-- `c := counts[i]; counts[i] = sum; sum += c` for every digit.
unfoldable pub prefix_sums : ℕ → List ℕ → List ℕ
unfolding u32
prefix_sums sum [] = []
prefix_sums sum (c ∷ counts) = sum ∷ prefix_sums (u32 (sum + c)) counts

-- `dst[counts[digit]] = r; counts[digit]++` for every record.
unfoldable pub scatter : ℕ → List Run → List ℕ → List Run → List Run
unfolding digit u32
scatter shift [] counts dst = dst
scatter shift (r ∷ rs) counts dst =
    let d = digit shift r in
    let at = byte_at counts d in scatter shift rs (set counts d (u32 (at + 1))) (set dst at r)

-- `radixSortRunsByStoredKey`: the counts are all taken from the records as they came, and the
-- passes go between `runs` and `radix_tmp`, whose old entries are overwritten.
unfoldable pub radix_sort_runs : List Run → List Run → List Run
unfolding count_digits prefix_sums scatter
radix_sort_runs radix_tmp runs =
    let n = length runs in
    let tmp = take n radix_tmp in
    let counts0 = count_digits 0 runs (replicate 256 0) in
    let counts1 = count_digits 8 runs (replicate 256 0) in
    let counts2 = count_digits 16 runs (replicate 256 0) in
    let tmp1 = scatter 0 runs (prefix_sums 0 counts0) tmp in
    let runs1 = scatter 8 tmp1 (prefix_sums 0 counts1) runs in
    let tmp2 = scatter 16 runs1 (prefix_sums 0 counts2) tmp1 in if leb n 1 then runs else tmp2

-- The loop of `tryWriteLiteralGroup` over `runs[i].isLiteral()`, with the positions.
unfoldable pub literal_group : List Run → Option (List ℕ)
unfolding is_literal begin
literal_group [] = some []
literal_group (r ∷ rs) =
    let rest : Option (List ℕ) = elim (literal_group rs) [
      | none ↦ none
      | some ps ↦ some (begin r ∷ ps)
    ] in
    if not (is_literal r) then none else rest

-- `tryWriteLiteralGroup`: the positions it writes, when it handles the group.
unfoldable pub try_write_literal_group : View → List Run → Option (List ℕ)
unfolding literal_group insertion_sort suffix_less_after_key
try_write_literal_group view runs =
    let sorted : Option (List ℕ) = elim (literal_group runs) [
      | none ↦ none
      | some ps ↦ some (insertion_sort (suffix_less_after_key view) ps)
    ] in
    if (length runs == 0) || ltb 32 (length runs) then none else sorted

-- `tryWriteTwoRuns`
unfoldable pub try_write_two_runs : View → List ℕ → List Run → Option (List ℕ)
unfolding run_positions merge suffix_less_after_key
try_write_two_runs view arena (left ∷ right ∷ []) =
    some (merge (suffix_less_after_key view) (run_positions arena left) (run_positions arena right))
try_write_two_runs view arena runs = none

-- One round of `mergeEqualKeyRuns`, on the stretches of `groupPos` that `runLens` cuts.
unfoldable pub merge_pairs : View → List (List ℕ) → List (List ℕ)
unfolding merge suffix_less_after_key
merge_pairs view [] = []
merge_pairs view (xs ∷ []) = xs ∷ []
merge_pairs view (xs ∷ ys ∷ rest) = merge (suffix_less_after_key view) xs ys ∷ merge_pairs view rest

-- `mergeEqualKeyRuns`: rounds until one stretch is left; the number of stretches is enough of them.
unfoldable pub merge_equal_key_runs : ℕ → View → List (List ℕ) → List (List ℕ)
unfolding merge_pairs
merge_equal_key_runs zero view lists = lists
merge_equal_key_runs (suc rounds) view lists =
    let rest = merge_equal_key_runs rounds view (merge_pairs view lists) in
    if leb (length lists) 1 then lists else rest

-- `v.groupPos` as one slice.
unfoldable pub group_pos : List (List ℕ) → List ℕ
group_pos [] = []
group_pos (xs ∷ rest) = xs ++ group_pos rest

-- A write that the code checks first, and one that it does not.
unfoldable pub write_checked : ℕ → List ℕ → List ℕ → Outcome (Option (List ℕ))
write_checked size sa ps =
    if ltb size (length sa + length ps) then returned none else returned (some (sa ++ ps))

unfoldable pub write_unchecked : ℕ → List ℕ → List ℕ → Outcome (Option (List ℕ))
write_unchecked size sa ps =
    if ltb size (length sa + length ps) then panicked else returned (some (sa ++ ps))

-- The body of the loop of `writeFusedRunsToSA`, for the records of one key.
unfoldable pub write_group : View → List ℕ → ℕ → List Run → List ℕ → Outcome (Option (List ℕ))
unfolding begin count is_literal run_positions try_write_literal_group try_write_two_runs
    merge_equal_key_runs group_pos write_checked write_unchecked
write_group view arena size [] sa = returned (some sa)
write_group view arena size (r ∷ []) sa =
    if is_literal r
    then write_checked size sa (r.packed ∷ [])
    else write_checked size sa (take (count r) (drop (begin r) arena))
write_group view arena size (r ∷ r' ∷ rs) sa =
    let group = r ∷ r' ∷ rs in
    let lists = map (run_positions arena) group in
    let merged =
      write_checked size sa (group_pos (merge_equal_key_runs (length lists) view lists)) in
    elim (try_write_literal_group view group) [
      | some ps ↦ write_unchecked size sa ps
      | none ↦ elim (try_write_two_runs view arena group) [
        | some ps ↦ write_unchecked size sa ps
        | none ↦ merged
      ]
    ]

-- The loop of `writeFusedRunsToSA` over the groups of one key.
unfoldable pub write_groups :
    View → List ℕ → ℕ → List (List Run) → List ℕ → Outcome (Option (List ℕ))
unfolding write_group
write_groups view arena size [] sa = returned (some sa)
write_groups view arena size (g ∷ gs) sa = write_group view arena size g sa >>= λ o. elim o [
  | none ↦ returned none
  | some sa' ↦ write_groups view arena size gs sa'
]

-- `writeFusedRunsToSA`: the whole of `sa`, of `size` entries, or `none` where it reports `false`.
unfoldable pub write_fused_runs_to_sa :
    View → List Run → V114Scratch → ℕ → Outcome (Option (List ℕ))
unfolding radix_sort_runs key_groups write_groups
write_fused_runs_to_sa view radix_tmp v size =
    write_groups view v.arena size (key_groups (λ r. r.key) (radix_sort_runs radix_tmp v.runs)) []
    >>= λ o. elim o [
      | none ↦ returned none
      | some sa ↦ if length sa == size then returned (some sa) else returned none
    ]
