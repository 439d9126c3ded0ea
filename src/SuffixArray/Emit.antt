-- ===== src/SuffixArray/Emit.antt =====
-- Stage 4: the records of a template's groups (internal/astrobwt/sa_v114_emit.go). `none` is the
-- decline the functions report as `false`. The slices `order` and `keys` are one list of entries.
pub mod Ranges
pub mod Two
pub mod Left
pub mod Columns
pub mod Groups
use dirtybird_go_gpu_miner.Prelude.{
  ℕ, zero, suc, ◌+◌, ◌-◌, ◌*◌, ◌/◌, ◌^◌, List, [], ◌∷◌, ◌++◌, map, length, Bool, true, false, ltb,
  leb, ◌==◌, ◌||◌, if◌then◌else◌, Option, none, some, byte_at, bit_and, bit_or,
}
use dirtybird_go_gpu_miner.Word.{sub32, u32}
use dirtybird_go_gpu_miner.SuffixArray.View.{
  View, compare_suffixes, is_less, key_at, radix_order_key,
}
use dirtybird_go_gpu_miner.SuffixArray.Sorting.{insertion_sort}
use dirtybird_go_gpu_miner.SuffixArray.Heap.{heap_sort}
use dirtybird_go_gpu_miner.SuffixArray.Runs.{
  Run, V114Scratch, append_run, arena_index_count, stage4_max_group_run, stage4_short_run_max,
}

-- `compareSuffixes(v, a, b) < 0`
unfoldable pub suffix_before : View → ℕ → ℕ → Bool
unfolding compare_suffixes
suffix_before v a b = is_less (compare_suffixes v a b)

-- The two branches of the sort of column 255: `sortSuffixOrderSmall` and `heapSortSuffixOrder`.
unfoldable pub sort_suffix_order : View → List ℕ → List ℕ
unfolding insertion_sort heap_sort suffix_before
sort_suffix_order v order =
    if leb (length order) stage4_short_run_max
    then insertion_sort (suffix_before v) order
    else heap_sort (suffix_before v) order

-- `appendOrderGroup`
unfoldable pub append_order_group : V114Scratch → ℕ → List ℕ → Option V114Scratch
unfolding u32 sub32 radix_order_key
append_order_group v k [] = none
append_order_group v k (pos ∷ []) =
    some (append_run v (record { key = radix_order_key k; packed = pos }))
append_order_group v k (pos ∷ pos' ∷ order) =
    let start = length v.arena in
    let n = length (pos ∷ pos' ∷ order) in
    if ltb arena_index_count start || ltb (sub32 arena_index_count start) n
    then none
    else some (
        append_run (record { arena = v.arena ++ (pos ∷ pos' ∷ order); runs = v.runs })
          (record { key = radix_order_key k; packed = u32 (u32 (n * 2 ^ 17) + start) }))

-- `emitLiteralRecords`, `count` records from `pos` on.
unfoldable pub emit_literal_records : View → ℕ → ℕ → V114Scratch → V114Scratch
unfolding key_at radix_order_key
emit_literal_records view pos zero v = v
emit_literal_records view pos (suc count) v =
    emit_literal_records view (pos + 1) count
      (append_run v (record { key = radix_order_key (key_at view.text pos); packed = pos }))

-- One column of `emitFullGroupRunTwo`: the two positions share a record or have one each.
unfoldable pub emit_column_two : View → ℕ → ℕ → V114Scratch → Option V114Scratch
unfolding key_at radix_order_key append_order_group
emit_column_two view a b v =
    let key0 = key_at view.text a in
    let key1 = key_at view.text b in
    if key0 == key1
    then append_order_group v key0 (a ∷ b ∷ [])
    else some (
        append_run (append_run v (record { key = radix_order_key key0; packed = a }))
          (record { key = radix_order_key key1; packed = b }))

-- The columns of `emitFullGroupRunTwo` from `rel` down to 0, where `columns` is `rel + 1`.
unfoldable pub emit_columns_two : View → ℕ → ℕ → ℕ → V114Scratch → Option V114Scratch
unfolding emit_column_two sub32
emit_columns_two view zero a b v = some v
emit_columns_two view (suc zero) a b v = emit_column_two view a b v
emit_columns_two view (suc (suc columns)) a b v =
    let a' = sub32 a 1 in
    let b' = sub32 b 1 in
    let swapped = emit_columns_two view (suc columns) b' a' in
    let kept = emit_columns_two view (suc columns) a' b' in
    elim (emit_column_two view a b v) [
      | none ↦ none
      | some v' ↦ if ltb (byte_at view.text b') (byte_at view.text a') then swapped v' else kept v'
    ]

-- `emitFullGroupRunTwo`
unfoldable pub emit_full_group_run_two : View → ℕ → V114Scratch → Option V114Scratch
unfolding emit_columns_two suffix_before u32
emit_full_group_run_two view start_group v =
    let base = u32 (start_group * 2 ^ 8) in
    let a = base + 255 in
    let b = base + 511 in
    if suffix_before view b a
    then emit_columns_two view 256 b a v
    else emit_columns_two view 256 a b v

-- A position and its key, `order[i]` and `keys[i]`.
pub record Keyed : Type 0 where
  pub pos : ℕ
  pub pos_key : ℕ

-- The maximal stretches of one key.
module _ {ℓ} {A : Type ℓ} (key_of : A → ℕ) where
  unfoldable pub join_group : A → List (List A) → List (List A)
  join_group x [] = (x ∷ []) ∷ []
  join_group x ([] ∷ gs) = (x ∷ []) ∷ gs
  join_group x ((y ∷ g) ∷ gs) =
      if key_of y == key_of x then (x ∷ y ∷ g) ∷ gs else (x ∷ []) ∷ (y ∷ g) ∷ gs

  unfoldable pub key_groups : List A → List (List A)
  unfolding join_group
  key_groups [] = []
  key_groups (x ∷ xs) = join_group x (key_groups xs)

-- A stretch becomes one record; for one position the code appends the record in place.
unfoldable pub emit_group : V114Scratch → List Keyed → Option V114Scratch
unfolding append_order_group radix_order_key
emit_group v [] = none
emit_group v (e ∷ []) =
    some (append_run v (record { key = radix_order_key e.pos_key; packed = e.pos }))
emit_group v (e ∷ e' ∷ es) = append_order_group v e.pos_key (map (λ x. x.pos) (e ∷ e' ∷ es))

unfoldable pub emit_groups : V114Scratch → List (List Keyed) → Option V114Scratch
unfolding emit_group
emit_groups v [] = some v
emit_groups v (g ∷ gs) = elim (emit_group v g) [ none ↦ none | some v' ↦ emit_groups v' gs ]

-- One position to the left, and its key from the byte there and the key before.
unfoldable pub step_left : View → Keyed → Keyed
unfolding sub32 u32
step_left view e =
    let p = sub32 e.pos 1 in
    record {
      pos = p;
      pos_key = bit_or (byte_at view.text p) (bit_and (u32 (e.pos_key * 2 ^ 8)) 0xffff00);
    }

-- `keys[j-1]&0xff > b`
unfoldable pub first_byte_before : View → Keyed → Keyed → Bool
first_byte_before view x last = ltb (byte_at view.text x.pos) (bit_and last.pos_key 0xff)

-- The columns of `emitFullGroupRunGeneric` from `rel` down to 0, where `columns` is `rel + 1`.
unfoldable pub emit_columns : View → ℕ → List Keyed → V114Scratch → Option V114Scratch
unfolding key_groups emit_groups step_left first_byte_before insertion_sort
emit_columns view zero es v = some v
emit_columns view (suc zero) es v = emit_groups v (key_groups (λ x. x.pos_key) es)
emit_columns view (suc (suc columns)) es v =
    let next =
      emit_columns view (suc columns)
        (insertion_sort (first_byte_before view) (map (step_left view) es)) in
    elim (emit_groups v (key_groups (λ x. x.pos_key) es)) [ none ↦ none | some v' ↦ next v' ]

-- `order[chunk] = base + chunk<<8 + 255`
unfoldable pub column_255 : ℕ → ℕ → List ℕ
column_255 base zero = []
column_255 base (suc count) = (base + 255) ∷ column_255 (base + 2 ^ 8) count

-- `emitFullGroupRunGeneric`
unfoldable pub emit_full_group_run_generic : View → ℕ → ℕ → V114Scratch → Option V114Scratch
unfolding emit_columns sort_suffix_order column_255 key_at u32
emit_full_group_run_generic view start_group group_count v =
    emit_columns view 256
      (map (λ p. record { pos = p; pos_key = key_at view.text p })
        (sort_suffix_order view (column_255 (u32 (start_group * 2 ^ 8)) group_count)))
      v

-- `emitFullGroupRun`
unfoldable pub emit_full_group_run : View → ℕ → ℕ → V114Scratch → Option V114Scratch
unfolding emit_literal_records emit_full_group_run_two emit_full_group_run_generic sub32 u32
emit_full_group_run view start_group end_group v =
    let group_count = sub32 end_group start_group in
    if group_count == 0
    then some v
    else if ltb stage4_max_group_run group_count
    then none
    else if group_count == 1
    then some (emit_literal_records view (u32 (start_group * 2 ^ 8)) 256 v)
    else if group_count == 2
    then emit_full_group_run_two view start_group v
    else emit_full_group_run_generic view start_group group_count v
