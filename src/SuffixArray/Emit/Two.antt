-- ===== src/SuffixArray/Emit/Two.antt =====
-- The run of two groups never declines, and collects every position of both.
use dirtybird_go_gpu_miner.Prelude.{
  ℕ, zero, suc, ◌+◌, ◌-◌, ◌*◌, ◌%◌, ◌^◌, ◌≤◌, ◌<◌, ◌≡◌, ◌⊎◌, inl, inr, sym, subst, arith, [], ◌∷◌,
  false, ltb, ◌==◌, Bool-cases, Option, none, some, byte_at,
}
use dirtybird_go_gpu_miner.Word.{sub32, u32}
use dirtybird_go_gpu_miner.SuffixArray.View.{View, key_at, radix_order_key}
use dirtybird_go_gpu_miner.SuffixArray.Suffixes.{IsView}
use dirtybird_go_gpu_miner.SuffixArray.Order.{SuffixLe, suffix_before-Agrees}
use dirtybird_go_gpu_miner.SuffixArray.Runs.{V114Scratch}
use dirtybird_go_gpu_miner.SuffixArray.Runs.Emitted.{
  Emitted, Emits, Emitted-cong, Emitted-literal, HasKey, append_order_group-Emits,
}
use dirtybird_go_gpu_miner.SuffixArray.Emit.{
  emit_column_two, emit_columns_two, emit_full_group_run_two, suffix_before,
}
use dirtybird_go_gpu_miner.SuffixArray.Emit.Ranges.{
  sum_from, sum_from-append, sum_from-left, sum_from-single, Emits-cases, key_at-HasKey,
  SuffixLe-first, SuffixLe-left,
}

pub Emits-cong :
    (v : View) (w w' : (ℕ → ℕ) → ℕ) (o : Option V114Scratch)
    → ((f : ℕ → ℕ) → w f ≡ w' f)
    → Emits v w o
    → Emits v w' o
Emits-cong v w w' none e h = h
Emits-cong v w w' (some s) e h = Emitted-cong v w w' s e h

module _ (v : View) (ok : IsView v) where
  emit_column_two-Emits :
      (w : (ℕ → ℕ) → ℕ) (a b : ℕ) (s : V114Scratch)
      → a < v.logical_len
      → b < v.logical_len
      → SuffixLe v a b
      → w (λ p. 1) + 2 ≤ 2 ^ 17
      → Emitted v w s
      → Emits v (λ f. w f + (f a + f b)) (emit_column_two v a b s)
  unfolding emit_column_two
  emit_column_two-Emits w a b s ha hb le room e =
      elim (Bool-cases (key_at v.text a == key_at v.text b)) [
        | inl same ↦
            let keys : key_at v.text a ≡ key_at v.text b = ground arith in
            rw same (
              Emits-cong v _ _ _ (λ f. omega arith)
                (append_order_group-Emits v ok.short w s (key_at v.text a) (a ∷ b ∷ [])
                  (omega arith) (omega arith) room
                  (
                    key_at-HasKey v ok a ha,
                    (
                      subst (λ k. HasKey v (radix_order_key k) b) (sym keys)
                          (key_at-HasKey v ok b hb),
                      tt,
                    ),
                  )
                  ((le, tt), (tt, tt)) e))
        | inr other ↦ rw other (
            Emitted-cong v _ _ _ (λ f. omega arith)
              (Emitted-literal v ok.short _ _ _ b (key_at-HasKey v ok b hb)
                (Emitted-literal v ok.short w s _ a (key_at-HasKey v ok a ha) e)))
      ]

  emit_columns_two-Emits :
      (rel : ℕ) (w : (ℕ → ℕ) → ℕ) (a b : ℕ) (s : V114Scratch)
      → rel ≤ a
      → rel ≤ b
      → a < v.logical_len
      → b < v.logical_len
      → SuffixLe v a b
      → w (λ p. 1) + 2 * (rel + 1) ≤ 2 ^ 17
      → Emitted v w s
      → Emits v
          (λ f. w f + (sum_from f (a - rel) (suc rel) + sum_from f (b - rel) (suc rel)))
          (emit_columns_two v (suc rel) a b s)
  unfolding emit_columns_two sub32
  emit_columns_two-Emits zero w a b s la lb ha hb le room e =
      Emits-cong v _ _ _ (λ f. omega (arith, sum_from-single f a, sum_from-single f b))
        (emit_column_two-Emits w a b s ha hb le (omega arith) e)
  emit_columns_two-Emits (suc rel) w a b s la lb ha hb le room e =
      let column = Emits-cases v _ _ (emit_column_two-Emits w a b s ha hb le (omega arith) e) in
      let short = ok.short in
      let left : (a + 2 ^ 32 - 1) % 2 ^ 32 ≡ a - 1 = omega arith in
      let left' : (b + 2 ^ 32 - 1) % 2 ^ 32 ≡ b - 1 = omega arith in
      elim (Bool-cases (ltb (byte_at v.text (b - 1)) (byte_at v.text (a - 1)))) [
        | inl before ↦
            let rest =
              emit_columns_two-Emits rel _ (b - 1) (a - 1) column.0 (omega arith) (omega arith)
                (omega arith) (omega arith)
                (SuffixLe-first v ok (b - 1) (a - 1) (omega arith) (omega arith) (ground arith))
                (omega arith) column.2 in
            rw (column.1, emit_columns_two, left, left', before)
              (Emits-cong v _ _ _
                (λ f. omega (arith, sum_from-left f a rel la, sum_from-left f b rel lb)) rest)
        | inr after ↦
            let kept : SuffixLe v (a - 1) (b - 1) =
              elim (order_cases (byte_at v.text (a - 1)) (byte_at v.text (b - 1)) after) [
                | inl lt ↦ SuffixLe-first v ok (a - 1) (b - 1) (omega arith) (omega arith) lt
                | inr eq ↦
                    SuffixLe-left v ok a b (omega arith) (omega arith) (omega arith) (omega arith)
                      eq le
              ] in
            let rest =
              emit_columns_two-Emits rel _ (a - 1) (b - 1) column.0 (omega arith) (omega arith)
                (omega arith) (omega arith) kept (omega arith) column.2 in
            rw (column.1, emit_columns_two, left, left', after)
              (Emits-cong v _ _ _
                (λ f. omega (arith, sum_from-left f a rel la, sum_from-left f b rel lb)) rest)
      ]
    where
      order_cases : (x y : ℕ) → ltb y x ≡ false → (x < y) ⊎ (x ≡ y)
      order_cases x y h = ground arith

  pub emit_full_group_run_two-Emits :
      (w : (ℕ → ℕ) → ℕ) (start : ℕ) (s : V114Scratch)
      → (start + 2) * 256 ≤ v.logical_len
      → w (λ p. 1) + 512 ≤ 2 ^ 17
      → Emitted v w s
      → Emits v (λ f. w f + sum_from f (start * 256) 512) (emit_full_group_run_two v start s)
  unfolding emit_full_group_run_two u32
  emit_full_group_run_two-Emits w start s h room e =
      let short = ok.short in
      let plain : start * 2 ^ 8 % 2 ^ 32 ≡ start * 256 = omega arith in
      let a = start * 256 + 255 in
      let b = start * 256 + 511 in
      let low : a - 255 ≡ start * 256 = omega arith in
      let high : b - 255 ≡ start * 256 + 256 = omega arith in
      elim (Bool-cases (suffix_before v b a)) [
        | inl before ↦
            rw (plain, before)
              (Emits-cong v _ _ _
                (λ f. rw (low, high) (omega (arith, sum_from-append f (start * 256) 256 256)))
                (emit_columns_two-Emits 255 w b a s (omega arith) (omega arith) (omega arith)
                  (omega arith) ((suffix_before-Agrees v b a).0 before) (omega arith) e))
        | inr after ↦
            rw (plain, after)
              (Emits-cong v _ _ _
                (λ f. rw (low, high) (omega (arith, sum_from-append f (start * 256) 256 256)))
                (emit_columns_two-Emits 255 w a b s (omega arith) (omega arith) (omega arith)
                  (omega arith) ((suffix_before-Agrees v b a).1 after) (omega arith) e))
      ]
