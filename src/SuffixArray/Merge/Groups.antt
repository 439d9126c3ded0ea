-- ===== src/SuffixArray/Merge/Groups.antt =====
-- The records of one key, written in order: one run, a group of literals, two runs, or any number.
use dirtybird_go_gpu_miner.Prelude.{
  ℕ, ◌+◌, ◌≤◌, ◌≡◌, ◌⊎◌, inl, inr, refl, sym, ◌∙◌, subst, arith, List, [], ◌∷◌, ◌++◌, map, length,
  take, drop, Bool, ltb, ◌==◌, ◌||◌, if◌then◌else◌, Bool-cases, Option, none, some, Outcome,
  returned, Each,
}
use dirtybird_go_gpu_miner.SuffixArray.View.{View, suffix_less_after_key}
use dirtybird_go_gpu_miner.SuffixArray.Suffixes.{IsView}
use dirtybird_go_gpu_miner.SuffixArray.Sorting.{total, insertion_sort, merge}
use dirtybird_go_gpu_miner.SuffixArray.Sorted.{insertion_sort-total, merge-total}
use dirtybird_go_gpu_miner.SuffixArray.Runs.{Run, is_literal, begin, count, run_positions}
use dirtybird_go_gpu_miner.SuffixArray.Runs.Emitted.{HasKey, IsRun, total-one}
use dirtybird_go_gpu_miner.SuffixArray.Stable.{IsGroup}
use dirtybird_go_gpu_miner.SuffixArray.Merge.{
  try_write_literal_group, try_write_two_runs, merge_equal_key_runs, group_pos, write_checked,
  write_unchecked, write_group,
}
use dirtybird_go_gpu_miner.SuffixArray.Merge.Slices.{
  packed_positions, slice_positions, literal_group-cases, total-group_pos, write_fits,
}
use dirtybird_go_gpu_miner.SuffixArray.Merge.Pairs.{
  InOrder, merge-InOrder, insertion_sort-InOrder, merge_equal_key_runs_lem, group_InOrder,
  group_keyed,
}

module _ (v : View) (ok : IsView v) (k : ℕ) where
  -- What a group of records adds to `sa`.
  pub record Written (arena : List ℕ) (size : ℕ) (sa : List ℕ) (g : List Run)
      (o : Outcome (Option (List ℕ))) : Type 0 where
    pub positions : List ℕ
    pub result : o ≡ returned (some (sa ++ positions))
    pub in_order : InOrder v ok k positions
    pub measure : (f : ℕ → ℕ) → total f positions ≡ total (λ r. total f (run_positions arena r)) g

  module _ (arena : List ℕ) (size : ℕ) (sa : List ℕ) where
    Fits : List Run → Type 0
    Fits g = length sa + total (λ r. total (λ p. 1) (run_positions arena r)) g ≤ size

    fits :
        (g : List Run) (ps : List ℕ)
        → Fits g
        → ((f : ℕ → ℕ) → total f ps ≡ total (λ r. total f (run_positions arena r)) g)
        → length sa + length ps ≤ size
    unfolding Fits
    fits g ps h sum = omega (arith, h, sum (λ p. 1), total-one ps)

    checked :
        (g : List Run) (ps : List ℕ)
        → Fits g
        → InOrder v ok k ps
        → ((f : ℕ → ℕ) → total f ps ≡ total (λ r. total f (run_positions arena r)) g)
        → Written arena size sa g (write_checked size sa ps)
    checked g ps h order sum = record {
      positions = ps;
      result = (write_fits size sa ps (fits g ps h sum)).0;
      in_order = order;
      measure = sum;
    }

    unchecked :
        (g : List Run) (ps : List ℕ)
        → Fits g
        → InOrder v ok k ps
        → ((f : ℕ → ℕ) → total f ps ≡ total (λ r. total f (run_positions arena r)) g)
        → Written arena size sa g (write_unchecked size sa ps)
    unchecked g ps h order sum = record {
      positions = ps;
      result = (write_fits size sa ps (fits g ps h sum)).1;
      in_order = order;
      measure = sum;
    }

    write_single :
        (r : Run)
        → IsRun v arena r
        → r.key ≡ k
        → Fits (r ∷ [])
        → Written arena size sa (r ∷ []) (write_group v arena size (r ∷ []) sa)
    unfolding write_group
    write_single r h key room =
        let order : InOrder v ok k (run_positions arena r) =
          (subst (λ q. Each (HasKey v q) (run_positions arena r)) key h.keyed, h.sorted) in
        let sum : (f : ℕ → ℕ)
            → total f (run_positions arena r) ≡ total f (run_positions arena r) + 0 =
          λ f. omega arith in
        let all_written = checked (r ∷ []) (run_positions arena r) room order sum in
        let either : Bool → Type 0 = λ b. Written arena size sa (r ∷ []) (
          if b
          then write_checked size sa (r.packed ∷ [])
          else write_checked size sa (take (count r) (drop (begin r) arena))) in
        let same_write = Written arena size sa (r ∷ []) in
        elim (Bool-cases (is_literal r)) [
          | inl e ↦ subst either (sym e) (
              subst (λ ps. same_write (write_checked size sa ps)) (packed_positions arena r e)
                all_written)
          | inr e ↦ subst either (sym e) (
              subst (λ ps. same_write (write_checked size sa ps))
                (sym (slice_positions arena r e (h.inside e))) all_written)
        ]

    -- Two records and more: every branch writes the same positions, in order.
    write_merged :
        (r r' : Run) (rs : List Run)
        → Each (InOrder v ok k) (map (run_positions arena) (r ∷ r' ∷ rs))
        → Fits (r ∷ r' ∷ rs)
        → Written arena size sa (r ∷ r' ∷ rs) (
            write_checked size sa (
              group_pos (
                merge_equal_key_runs
                  (length (map (run_positions arena) (r ∷ r' ∷ rs)))
                  v
                  (map (run_positions arena) (r ∷ r' ∷ rs)))))
    write_merged r r' rs h room =
        let g = r ∷ r' ∷ rs in
        let lists = map (run_positions arena) g in
        let merged = merge_equal_key_runs_lem v ok k (length lists) lists (omega arith) h in
        checked g _ room merged.0 (λ f. merged.1 f ∙ total-group_pos f arena g)

    write_two :
        (r r' : Run) (rs : List Run)
        → Each (InOrder v ok k) (map (run_positions arena) (r ∷ r' ∷ rs))
        → Fits (r ∷ r' ∷ rs)
        → (try_write_literal_group v (r ∷ r' ∷ rs) ≡ none)
        → Written arena size sa (r ∷ r' ∷ rs) (write_group v arena size (r ∷ r' ∷ rs) sa)
    unfolding write_group try_write_two_runs
    write_two r r' [] h room none_ =
        rw (none_, write_group)
          (unchecked (r ∷ r' ∷ [])
            (merge (suffix_less_after_key v) (run_positions arena r) (run_positions arena r')) room
            (merge-InOrder v ok k (run_positions arena r) (run_positions arena r') h.0 h.1.0)
            (λ f. omega (
              arith,
              merge-total (suffix_less_after_key v) f (run_positions arena r)
                  (run_positions arena r'),
            )))
    write_two r r' (r'' ∷ rs) h room none_ =
        rw (none_, write_group) (write_merged r r' (r'' ∷ rs) h room)

    write_literals :
        (r r' : Run) (rs : List Run)
        → Each (InOrder v ok k) (map (run_positions arena) (r ∷ r' ∷ rs))
        → Fits (r ∷ r' ∷ rs)
        → (try_write_literal_group v (r ∷ r' ∷ rs) ≡ none)
          ⊎ (try_write_literal_group v (r ∷ r' ∷ rs)
              ≡ some (
                  insertion_sort
                    (suffix_less_after_key v)
                    (group_pos (map (run_positions arena) (r ∷ r' ∷ rs)))))
        → Written arena size sa (r ∷ r' ∷ rs) (write_group v arena size (r ∷ r' ∷ rs) sa)
    unfolding write_group
    write_literals r r' rs h room (inl none_) = write_two r r' rs h room none_
    write_literals r r' rs h room (inr some_) =
        let g = r ∷ r' ∷ rs in
        let ps = group_pos (map (run_positions arena) g) in
        rw (some_, write_group)
          (unchecked g (insertion_sort (suffix_less_after_key v) ps) room
            (insertion_sort-InOrder v ok k ps (group_keyed v ok k (map (run_positions arena) g) h))
            (λ f. insertion_sort-total (suffix_less_after_key v) f ps ∙ total-group_pos f arena g))

    literals-cases :
        (r r' : Run) (rs : List Run)
        → (try_write_literal_group v (r ∷ r' ∷ rs) ≡ none)
          ⊎ (try_write_literal_group v (r ∷ r' ∷ rs)
              ≡ some (
                  insertion_sort
                    (suffix_less_after_key v)
                    (group_pos (map (run_positions arena) (r ∷ r' ∷ rs)))))
    unfolding try_write_literal_group
    literals-cases r r' rs =
        let g = r ∷ r' ∷ rs in
        elim (Bool-cases ((length g == 0) || ltb 32 (length g))) [
          | inl e ↦ inl (rw e refl)
          | inr e ↦ elim (literal_group-cases arena g) [
            | inl none_ ↦ inl (rw (none_, e) refl)
            | inr some_ ↦ inr (rw (some_, e) refl)
          ]
        ]

    pub write_group-Written :
        (g : List Run)
        → IsGroup (λ r. r.key) g
        → Each (IsRun v arena) g
        → Each (λ r. r.key ≡ k) g
        → length sa + total (λ r. total (λ p. 1) (run_positions arena r)) g ≤ size
        → Written arena size sa g (write_group v arena size g sa)
    unfolding Fits
    write_group-Written [] group h keys room = absurd group
    write_group-Written (r ∷ []) group h keys room = write_single r h.0 keys.0 room
    write_group-Written (r ∷ r' ∷ rs) group h keys room =
        write_literals r r' rs (group_InOrder v ok k arena (r ∷ r' ∷ rs) h keys) room
          (literals-cases r r' rs)
