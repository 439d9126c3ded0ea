-- ===== src/SuffixArray/Merge/Pairs.antt =====
-- Sorting and merging the positions of one key.
use dirtybird_go_gpu_miner.Prelude.{
  ℕ, zero, suc, ◌+◌, ◌≤◌, ◌<◌, ◌≡◌, inl, inr, refl, sym, ◌∙◌, subst, arith, List, [], ◌∷◌, ◌++◌,
  append-nil, map, length, false, leb, leb→le, Bool-cases, Each, Each-append,
}
use dirtybird_go_gpu_miner.SuffixArray.View.{View, suffix_less_after_key}
use dirtybird_go_gpu_miner.SuffixArray.Suffixes.{IsView}
use dirtybird_go_gpu_miner.SuffixArray.Order.{
  SuffixLe, SuffixLe-trans, suffix_less_after_key-Agrees,
}
use dirtybird_go_gpu_miner.SuffixArray.Sorting.{
  Sorted, Agrees, total, total-append, insertion_sort, merge,
}
use dirtybird_go_gpu_miner.SuffixArray.Sorted.{
  insertion_sort-Each, insertion_sort-Sorted, merge-total, merge-Each, merge-Sorted,
}
use dirtybird_go_gpu_miner.SuffixArray.Runs.{Run, run_positions}
use dirtybird_go_gpu_miner.SuffixArray.Runs.Emitted.{HasKey, IsRun}
use dirtybird_go_gpu_miner.SuffixArray.Merge.{merge_pairs, merge_equal_key_runs, group_pos}

module _ (v : View) (ok : IsView v) (k : ℕ) where
  agree :
      (a b : ℕ) → HasKey v k a → HasKey v k b → Agrees (suffix_less_after_key v) (SuffixLe v) a b
  agree a b ha hb = suffix_less_after_key-Agrees v a b ok ha.0 hb.0 (ha.1 ∙ sym hb.1)

  -- Positions of the key, in order.
  abbrev pub InOrder : List ℕ → Type 0
  InOrder ps = Each (HasKey v k) ps × Sorted (SuffixLe v) ps

  pub merge-InOrder :
      (xs ys : List ℕ) → InOrder xs → InOrder ys → InOrder (merge (suffix_less_after_key v) xs ys)
  merge-InOrder xs ys h h' = (
    merge-Each (suffix_less_after_key v) (HasKey v k) xs ys h.0 h'.0,
    merge-Sorted (suffix_less_after_key v) (SuffixLe v) (HasKey v k) (SuffixLe-trans v) agree xs ys
        h.0 h'.0 h.1 h'.1,
  )

  pub insertion_sort-InOrder :
      (ps : List ℕ) → Each (HasKey v k) ps → InOrder (insertion_sort (suffix_less_after_key v) ps)
  insertion_sort-InOrder ps h = (
    insertion_sort-Each (suffix_less_after_key v) (HasKey v k) ps h,
    insertion_sort-Sorted (suffix_less_after_key v) (SuffixLe v) (HasKey v k) (SuffixLe-trans v)
        agree ps h,
  )

  merge_pairs_lem :
      (lists : List (List ℕ))
      → Each InOrder lists
      → Each InOrder (merge_pairs v lists)
        × ((f : ℕ → ℕ) → total f (group_pos (merge_pairs v lists)) ≡ total f (group_pos lists))
        × (length (merge_pairs v lists) ≤ length lists)
        × (1 < length lists → length (merge_pairs v lists) < length lists)
  unfolding merge_pairs group_pos
  merge_pairs_lem [] h = (tt, (λ f. refl), omega arith, (λ q. absurd (omega arith)))
  merge_pairs_lem (xs ∷ []) h = (h, (λ f. refl), omega arith, (λ q. absurd (omega arith)))
  merge_pairs_lem (xs ∷ ys ∷ rest) h =
      let ih = merge_pairs_lem rest h.1.1 in
      let merged = merge (suffix_less_after_key v) xs ys in
      (
        (merge-InOrder xs ys h.0 h.1.0, ih.0),
        (λ f. omega (
          arith,
          total-append f merged (group_pos (merge_pairs v rest)),
          total-append f xs (ys ++ group_pos rest),
          total-append f ys (group_pos rest),
          merge-total (suffix_less_after_key v) f xs ys,
          ih.1 f,
        )),
        omega (arith, ih.2),
        (λ q. omega (arith, ih.2)),
      )

  single_stretch :
      (lists : List (List ℕ)) → length lists ≤ 1 → Each InOrder lists → InOrder (group_pos lists)
  unfolding group_pos
  single_stretch [] q h = (tt, tt)
  single_stretch (xs ∷ []) q h = subst InOrder (sym (append-nil xs)) h.0
  single_stretch (xs ∷ ys ∷ rest) q h = absurd (omega arith)

  -- Each round leaves fewer stretches, so as many rounds as stretches leave one.
  pub merge_equal_key_runs_lem :
      (rounds : ℕ) (lists : List (List ℕ))
      → length lists ≤ rounds + 1
      → Each InOrder lists
      → InOrder (group_pos (merge_equal_key_runs rounds v lists))
        × ((f : ℕ → ℕ)
            → total f (group_pos (merge_equal_key_runs rounds v lists)) ≡ total f (group_pos lists))
  unfolding merge_equal_key_runs
  merge_equal_key_runs_lem zero lists enough h = (single_stretch lists (omega arith) h, (λ f. refl))
  merge_equal_key_runs_lem (suc rounds) lists enough h = elim (Bool-cases (leb (length lists) 1)) [
    | inl e ↦ rw e (single_stretch lists (leb→le (length lists) 1 e) h, (λ f. refl))
    | inr e ↦
        let more : 1 < length lists = not_leb (length lists) e in
        let round = merge_pairs_lem lists h in
        let fewer = round.3 more in
        let rest = merge_equal_key_runs_lem rounds (merge_pairs v lists) (omega arith) round.0 in
        rw e (rest.0, (λ f. rest.1 f ∙ round.1 f))
  ]
    where
      not_leb : (n : ℕ) → leb n 1 ≡ false → 1 < n
      not_leb n e = ground arith

  -- The positions of a group's records.
  pub group_InOrder :
      (arena : List ℕ) (rs : List Run)
      → Each (IsRun v arena) rs
      → Each (λ r. r.key ≡ k) rs
      → Each InOrder (map (run_positions arena) rs)
  group_InOrder arena [] h keys = tt
  group_InOrder arena (r ∷ rs) h keys = (
    (subst (λ q. Each (HasKey v q) (run_positions arena r)) keys.0 h.0.keyed, h.0.sorted),
    group_InOrder arena rs h.1 keys.1,
  )

  pub group_keyed :
      (lists : List (List ℕ)) → Each InOrder lists → Each (HasKey v k) (group_pos lists)
  unfolding group_pos
  group_keyed [] h = tt
  group_keyed (xs ∷ rest) h =
      Each-append (HasKey v k) xs (group_pos rest) h.0.0 (group_keyed rest h.1)
