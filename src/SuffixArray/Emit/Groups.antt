-- ===== src/SuffixArray/Emit/Groups.antt =====
-- A template's run of groups: whatever its length, it never declines up to the limit of 512 groups.
use dirtybird_go_gpu_miner.Prelude.{
  ℕ, zero, suc, ◌+◌, ◌-◌, ◌*◌, ◌%◌, ◌^◌, ◌≤◌, ◌<◌, ◌≡◌, inl, inr, refl, sym, ap, ◌∙◌, arith, List,
  [], ◌∷◌, map, length, false, ltb, leb, ◌==◌, Bool-cases, Each,
}
use dirtybird_go_gpu_miner.Word.{sub32, u32}
use dirtybird_go_gpu_miner.SuffixArray.View.{View, key_at}
use dirtybird_go_gpu_miner.SuffixArray.Suffixes.{IsView}
use dirtybird_go_gpu_miner.SuffixArray.Order.{SuffixLe, SuffixLe-trans, suffix_before-Agrees}
use dirtybird_go_gpu_miner.SuffixArray.Sorting.{Sorted, total}
use dirtybird_go_gpu_miner.SuffixArray.Sorted.{
  insertion_sort-total, insertion_sort-Each, insertion_sort-Sorted,
}
use dirtybird_go_gpu_miner.SuffixArray.Heap.Order.{heap_sort-Sorted}
use dirtybird_go_gpu_miner.SuffixArray.Stable.{Each-image, Sorted-map, total-map}
use dirtybird_go_gpu_miner.SuffixArray.Runs.{
  V114Scratch, stage4_short_run_max, stage4_max_group_run,
}
use dirtybird_go_gpu_miner.SuffixArray.Runs.Emitted.{Emitted, Emits, Emitted-cong}
use dirtybird_go_gpu_miner.SuffixArray.Emit.{
  Keyed, column_255, sort_suffix_order, suffix_before, emit_full_group_run_generic,
  emit_full_group_run,
}
use dirtybird_go_gpu_miner.SuffixArray.Emit.Ranges.{
  sum_from, sum_from-zero, sum_from-append, emit_literal_records-Emitted,
}
use dirtybird_go_gpu_miner.SuffixArray.Emit.Two.{Emits-cong, emit_full_group_run_two-Emits}
use dirtybird_go_gpu_miner.SuffixArray.Emit.Left.{EntryLe, IsEntry, IsColumn}
use dirtybird_go_gpu_miner.SuffixArray.Emit.Columns.{emit_columns-Emits}

-- The first positions of the groups.
abbrev group_bases : ℕ → ℕ → List ℕ
group_bases base zero = []
group_bases base (suc n) = base ∷ group_bases (base + 2 ^ 8) n

group_bases-total : (base n : ℕ) → total (λ b. 1) (group_bases base n) ≡ n
group_bases-total base zero = refl
group_bases-total base (suc n) = omega (arith, group_bases-total (base + 2 ^ 8) n)

column_255-total :
    (f : ℕ → ℕ) (base n : ℕ)
    → total f (column_255 base n) ≡ total (λ b. f (b + 255)) (group_bases base n)
unfolding column_255
column_255-total f base zero = refl
column_255-total f base (suc n) = ap (λ t. f (base + 255) + t) (column_255-total f (base + 2 ^ 8) n)

group_bases-sum :
    (f : ℕ → ℕ) (base n : ℕ)
    → total (λ b. sum_from f b 256) (group_bases base n) ≡ sum_from f base (n * 256)
group_bases-sum f base zero = sym (sum_from-zero f base)
group_bases-sum f base (suc n) =
    let e : suc n * 256 ≡ 256 + n * 256 = omega arith in
    ap (λ t. sum_from f base 256 + t) (group_bases-sum f (base + 2 ^ 8) n)
    ∙ sym (sum_from-append f base 256 (n * 256))
    ∙ ap (sum_from f base) (sym e)

module _ (v : View) (ok : IsView v) where
  -- The last positions of the groups.
  abbrev IsLast : ℕ → Type 0
  IsLast p = (255 ≤ p) × (p < v.logical_len)

  column_255-Each : (base n : ℕ) → base + n * 256 ≤ v.logical_len → Each IsLast (column_255 base n)
  unfolding column_255
  column_255-Each base zero h = tt
  column_255-Each base (suc n) h =
      ((omega arith, omega arith), column_255-Each (base + 2 ^ 8) n (omega arith))

  -- Whichever sort the length selects, the suffixes come in order.
  pub sort_suffix_order-Sorted :
      (order : List ℕ)
      → Each IsLast order
      → Sorted (SuffixLe v) (sort_suffix_order v order)
        × Each IsLast (sort_suffix_order v order)
        × ((f : ℕ → ℕ) → total f (sort_suffix_order v order) ≡ total f order)
  unfolding sort_suffix_order
  sort_suffix_order-Sorted order h = elim (Bool-cases (leb (length order) stage4_short_run_max)) [
    | inl e ↦ rw e (
      insertion_sort-Sorted (suffix_before v) (SuffixLe v) IsLast (SuffixLe-trans v)
          (λ x y p q. suffix_before-Agrees v x y) order h,
      insertion_sort-Each (suffix_before v) IsLast order h,
      (λ f. insertion_sort-total (suffix_before v) f order),
    )
    | inr e ↦ rw e (
        heap_sort-Sorted (suffix_before v) (SuffixLe v) IsLast (SuffixLe-trans v)
          (λ x y p q. suffix_before-Agrees v x y) order h)
  ]

  emit_full_group_run_generic-Emits :
      (w : (ℕ → ℕ) → ℕ) (start n : ℕ) (s : V114Scratch)
      → (start + n) * 256 ≤ v.logical_len
      → n ≤ 512
      → w (λ p. 1) + n * 256 ≤ 2 ^ 17
      → Emitted v w s
      → Emits v
          (λ f. w f + sum_from f (start * 256) (n * 256))
          (emit_full_group_run_generic v start n s)
  unfolding emit_full_group_run_generic u32
  emit_full_group_run_generic-Emits w start n s h few room e =
      let short = ok.short in
      let plain : start * 2 ^ 8 % 2 ^ 32 ≡ start * 256 = omega arith in
      let base = start * 256 in
      let order = column_255 base n in
      let sorted = sort_suffix_order-Sorted order (column_255-Each base n (omega arith)) in
      let keyed : ℕ → Keyed = λ p. record { pos = p; pos_key = key_at v.text p } in
      let es = map keyed (sort_suffix_order v order) in
      let column : IsColumn v ok (group_bases base n) 255 es = record {
        entries =
            Each-image IsLast (IsEntry v 255) keyed
              (λ p q. record { high = q.0; low = q.1; own = refl }) (sort_suffix_order v order)
              sorted.1;
        sorted =
            Sorted-map IsLast (SuffixLe v) (EntryLe v) keyed (λ x y p q r. r)
              (sort_suffix_order v order) sorted.1 sorted.0;
        sum = λ f.
            total-map (λ q. f q.pos) keyed (sort_suffix_order v order)
            ∙ sorted.2 f
            ∙ column_255-total f base n;
      } in
      let counts = group_bases-total base n in
      rw plain (
        Emits-cong v _ _ _ (λ f. ap (λ t. w f + t) (group_bases-sum f base n))
          (emit_columns-Emits v ok (group_bases base n) 255 w es s column (omega (arith, counts))
            (omega (arith, counts)) e))

  -- `emitFullGroupRun` does not decline the groups from `start` to `end` of the text, and adds to what
  -- the scratch has collected every position of these groups, each once, in records that hold
  -- positions of one key in the order of their suffixes; the text is bytes with three zeros behind its
  -- end, and the positions are at most 2 ^ 17 in all.
  pub emit_full_group_run-Emits :
      (w : (ℕ → ℕ) → ℕ) (start end : ℕ) (s : V114Scratch)
      → start ≤ end
      → end * 256 ≤ v.logical_len
      → w (λ p. 1) + (end - start) * 256 ≤ 2 ^ 17
      → Emitted v w s
      → Emits v
          (λ f. w f + sum_from f (start * 256) ((end - start) * 256))
          (emit_full_group_run v start end s)
  unfolding emit_full_group_run sub32 u32
  emit_full_group_run-Emits w start end s le h room e =
      let short = ok.short in
      let n = end - start in
      let plain : (end + 2 ^ 32 - start) % 2 ^ 32 ≡ n = omega arith in
      let base : start * 2 ^ 8 % 2 ^ 32 ≡ start * 256 = omega arith in
      let within : ltb stage4_max_group_run n ≡ false = ground arith in
      rw plain (elim (Bool-cases (n == 0)) [
        | inl none_ ↦
            let zero_ : n ≡ 0 = ground arith in
            rw none_ (
              Emitted-cong v _ _ _
                (λ f. omega (
                  arith,
                  sum_from-zero f (start * 256),
                  ap (λ m. sum_from f (start * 256) (m * 256)) zero_,
                ))
                e)
        | inr some_ ↦
            rw (some_, within)
              (elim (Bool-cases (n == 1)) [
                | inl one ↦
                    let one_ : n ≡ 1 = ground arith in
                    rw (one, base)
                      (Emitted-cong v _ _ _
                        (λ f. ap (λ m. w f + sum_from f (start * 256) (m * 256)) (sym one_))
                        (emit_literal_records-Emitted v ok 256 (start * 256) w s (omega arith) e))
                | inr many ↦ rw many (elim (Bool-cases (n == 2)) [
                  | inl two ↦
                      let two_ : n ≡ 2 = ground arith in
                      rw two (
                        Emits-cong v _ _ _
                          (λ f. ap (λ m. w f + sum_from f (start * 256) (m * 256)) (sym two_))
                          (emit_full_group_run_two-Emits v ok w start s (omega arith) (omega arith)
                            e))
                  | inr more ↦ rw more (
                      emit_full_group_run_generic-Emits w start n s (omega arith) (omega arith) room
                        e)
                ])
              ])
      ])
