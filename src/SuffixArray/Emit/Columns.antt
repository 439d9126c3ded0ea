-- ===== src/SuffixArray/Emit/Columns.antt =====
-- The run of three groups and more never declines, and collects every position of its groups.
use dirtybird_go_gpu_miner.Prelude.{
  ℕ, zero, suc, ◌+◌, ◌*◌, ◌^◌, ◌≤◌, ◌<◌, ◌≡◌, refl, sym, ap, ◌∙◌, subst, arith, List, [], ◌∷◌, ◌++◌,
  map, length, Each,
}
use dirtybird_go_gpu_miner.SuffixArray.View.{View, radix_order_key}
use dirtybird_go_gpu_miner.SuffixArray.Suffixes.{IsView}
use dirtybird_go_gpu_miner.SuffixArray.Order.{SuffixLe}
use dirtybird_go_gpu_miner.SuffixArray.Sorting.{Sorted, total, total-append, insertion_sort}
use dirtybird_go_gpu_miner.SuffixArray.Stable.{
  Sorted-map, total-map, total-add, flatten, Each-split, IsGroup, flatten-key_groups,
  key_groups-IsGroup,
}
use dirtybird_go_gpu_miner.SuffixArray.Runs.{V114Scratch}
use dirtybird_go_gpu_miner.SuffixArray.Runs.Emitted.{
  Emitted, Emits, Emitted-cong, HasKey, append_order_group-Emits, total-one,
}
use dirtybird_go_gpu_miner.SuffixArray.Emit.{
  Keyed, key_groups, emit_group, emit_groups, emit_columns, step_left, first_byte_before,
  append_order_group,
}
use dirtybird_go_gpu_miner.SuffixArray.Emit.Ranges.{
  sum_from, total-single, Emits-cases, key_at-HasKey,
}
use dirtybird_go_gpu_miner.SuffixArray.Emit.Two.{Emits-cong}
use dirtybird_go_gpu_miner.SuffixArray.Emit.Left.{EntryLe, IsEntry, IsColumn, IsColumn-left}

Sorted-front {ℓ κ} :
    {A : Type ℓ} (R : A → A → Type κ) (xs ys : List A)
    → Sorted R (xs ++ ys)
    → Sorted R xs × Sorted R ys
Sorted-front R [] ys h = (tt, h)
Sorted-front R (x ∷ xs) ys h =
    let rest = Sorted-front R xs ys h.1 in (((Each-split (R x) xs ys h.0).0, rest.0), rest.1)

module _ (v : View) (ok : IsView v) where
  -- A group's entries have the key its record gets.
  group_keys :
      (rel k : ℕ) (es : List Keyed)
      → Each (IsEntry v rel) es
      → Each (λ e. e.pos_key ≡ k) es
      → Each (HasKey v (radix_order_key k)) (map (λ e. e.pos) es)
  group_keys rel k [] h h' = tt
  group_keys rel k (e ∷ es) h h' = (
    subst (λ q. HasKey v (radix_order_key q) e.pos) (sym h.0.own ∙ h'.0)
        (key_at-HasKey v ok e.pos h.0.low),
    group_keys rel k es h.1 h'.1,
  )

  emit_group-Emits :
      (rel : ℕ) (w : (ℕ → ℕ) → ℕ) (s : V114Scratch) (g : List Keyed)
      → IsGroup (λ e. e.pos_key) g
      → Each (IsEntry v rel) g
      → Sorted (EntryLe v) g
      → w (λ p. 1) + total (λ e. 1) g ≤ 2 ^ 17
      → total (λ e. 1) g < 2 ^ 15
      → Emitted v w s
      → Emits v (λ f. w f + total (λ e. f e.pos) g) (emit_group s g)
  unfolding emit_group append_order_group
  emit_group-Emits rel w s [] group h sorted room small ok' = absurd group
  emit_group-Emits rel w s (e ∷ g) group h sorted room small ok' =
      let order = map (λ x. x.pos) (e ∷ g) in
      let size : length order ≡ total (λ x. 1) (e ∷ g) =
        sym (total-one order) ∙ total-map (λ p. 1) (λ x. x.pos) (e ∷ g) in
      let appended : Emits v (λ f. w f + total (λ x. f x.pos) (e ∷ g))
          (append_order_group s e.pos_key order) =
        Emits-cong v _ _ _ (λ f. ap (λ t. w f + t) (total-map f (λ x. x.pos) (e ∷ g)))
          (append_order_group-Emits v ok.short w s e.pos_key order (omega arith) (omega arith)
            (omega arith) (group_keys rel e.pos_key (e ∷ g) h (refl, group))
            (Sorted-map (IsEntry v rel) (EntryLe v) (SuffixLe v) (λ x. x.pos) (λ x y p q r. r)
              (e ∷ g) h sorted)
            ok') in
      subst (Emits v (λ f. w f + total (λ x. f x.pos) (e ∷ g))) (sym (same_record e g)) appended
    where
      same_record :
          (e : Keyed) (g : List Keyed)
          → emit_group s (e ∷ g) ≡ append_order_group s e.pos_key (map (λ x. x.pos) (e ∷ g))
      same_record e [] = refl
      same_record e (e' ∷ g) = refl

  emit_groups-Emits :
      (rel : ℕ) (gs : List (List Keyed)) (w : (ℕ → ℕ) → ℕ) (s : V114Scratch)
      → Each (IsGroup (λ e. e.pos_key)) gs
      → Each (IsEntry v rel) (flatten gs)
      → Sorted (EntryLe v) (flatten gs)
      → w (λ p. 1) + total (λ e. 1) (flatten gs) ≤ 2 ^ 17
      → total (λ e. 1) (flatten gs) < 2 ^ 15
      → Emitted v w s
      → Emits v (λ f. w f + total (λ e. f e.pos) (flatten gs)) (emit_groups s gs)
  unfolding emit_groups
  emit_groups-Emits rel [] w s groups h sorted room small e =
      Emitted-cong v _ _ _ (λ f. omega arith) e
  emit_groups-Emits rel (g ∷ gs) w s groups h sorted room small e =
      let entries = Each-split (IsEntry v rel) g (flatten gs) h in
      let orders = Sorted-front (EntryLe v) g (flatten gs) sorted in
      let counts = total-append (λ x. 1) g (flatten gs) in
      let first = Emits-cases v _ _ (
        emit_group-Emits rel w s g groups.0 entries.0 orders.0 (omega (arith, counts))
          (omega (arith, counts)) e) in
      let rest =
        emit_groups-Emits rel gs (λ f. w f + total (λ x. f x.pos) g) first.0 groups.1 entries.1
          orders.1 (omega (arith, counts)) (omega (arith, counts)) first.2 in
      rw (first.1, emit_groups)
        (Emits-cong v _ _ _ (λ f. omega (arith, total-append (λ x. f x.pos) g (flatten gs))) rest)

  -- One column.
  emit_column-Emits :
      (bs : List ℕ) (rel : ℕ) (w : (ℕ → ℕ) → ℕ) (es : List Keyed) (s : V114Scratch)
      → IsColumn v ok bs rel es
      → w (λ p. 1) + total (λ b. 1) bs ≤ 2 ^ 17
      → total (λ b. 1) bs < 2 ^ 15
      → Emitted v w s
      → Emits v
          (λ f. w f + total (λ b. f (b + rel)) bs)
          (emit_groups s (key_groups (λ x. x.pos_key) es))
  emit_column-Emits bs rel w es s column room small e =
      let gs = key_groups (λ x. x.pos_key) es in
      let same = sym (flatten-key_groups (λ x. x.pos_key) es) in
      let counts : total (λ x. 1) (flatten gs) ≡ total (λ b. 1) bs =
        ap (total (λ x. 1)) (sym same) ∙ column.sum (λ p. 1) in
      Emits-cong v _ _ _
        (λ f.
          ap (λ xs. w f + total (λ x. f x.pos) xs) (sym same) ∙ ap (λ t. w f + t) (column.sum f))
        (emit_groups-Emits rel gs w s (key_groups-IsGroup (λ x. x.pos_key) es)
          (subst (Each (IsEntry v rel)) same column.entries)
          (subst (Sorted (EntryLe v)) same column.sorted) (omega arith) (omega arith) e)

  pub emit_columns-Emits :
      (bs : List ℕ) (rel : ℕ) (w : (ℕ → ℕ) → ℕ) (es : List Keyed) (s : V114Scratch)
      → IsColumn v ok bs rel es
      → w (λ p. 1) + total (λ b. 1) bs * (rel + 1) ≤ 2 ^ 17
      → total (λ b. 1) bs < 2 ^ 15
      → Emitted v w s
      → Emits v (λ f. w f + total (λ b. sum_from f b (suc rel)) bs) (emit_columns v (suc rel) es s)
  unfolding emit_columns sum_from
  emit_columns-Emits bs zero w es s column room small e =
      Emits-cong v _ _ _ (λ f. ap (λ t. w f + t) (total-single f bs))
        (emit_column-Emits bs 0 w es s column (omega arith) small e)
  emit_columns-Emits bs (suc rel) w es s column room small e =
      let n = total (λ b. 1) bs in
      let here : w (λ p. 1) + n ≤ 2 ^ 17 = grind arith in
      let later : w (λ p. 1) + n + n * (rel + 1) ≤ 2 ^ 17 = grind arith in
      let first = Emits-cases v _ _ (emit_column-Emits bs (suc rel) w es s column here small e) in
      let rest =
        emit_columns-Emits bs rel (λ f. w f + total (λ b. f (b + suc rel)) bs)
          (insertion_sort (first_byte_before v) (map (step_left v) es)) first.0
          (IsColumn-left v ok bs rel es column) later small first.2 in
      rw (first.1, emit_columns)
        (Emits-cong v _ _ _
          (λ f. omega (arith, total-add (λ b. sum_from f b (suc rel)) (λ b. f (b + suc rel)) bs))
          rest)
