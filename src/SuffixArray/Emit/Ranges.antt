-- ===== src/SuffixArray/Emit/Ranges.antt =====
-- Sums over ranges of positions, the literal records, and one step to the left.
use dirtybird_go_gpu_miner.Prelude.{
  ℕ, zero, suc, ◌+◌, ◌-◌, ◌≤◌, ◌<◌, ◌≡◌, refl, sym, ap, ap₂, ◌∙◌, subst, arith, List, [], ◌∷◌,
  Option, none, some, byte_at,
}
use dirtybird_go_gpu_miner.SuffixArray.View.{View, key_at, radix_order_key}
use dirtybird_go_gpu_miner.SuffixArray.Keys.{radix_order_key-key_at}
use dirtybird_go_gpu_miner.SuffixArray.Suffixes.{IsView, suffix_le_first, suffix_le_next}
use dirtybird_go_gpu_miner.SuffixArray.Sorting.{total}
use dirtybird_go_gpu_miner.SuffixArray.Order.{SuffixLe}
use dirtybird_go_gpu_miner.SuffixArray.Runs.{V114Scratch}
use dirtybird_go_gpu_miner.SuffixArray.Runs.Emitted.{
  Emitted, Emits, Emitted-cong, Emitted-literal, HasKey,
}
use dirtybird_go_gpu_miner.SuffixArray.Emit.{emit_literal_records}

-- `f start + … + f (start + n - 1)`
unfoldable pub sum_from : (ℕ → ℕ) → ℕ → ℕ → ℕ
sum_from f start zero = 0
sum_from f start (suc n) = sum_from f start n + f (start + n)

pub sum_from-zero : (f : ℕ → ℕ) (start : ℕ) → sum_from f start 0 ≡ 0
unfolding sum_from
sum_from-zero f start = refl

pub sum_from-front :
    (f : ℕ → ℕ) (start n : ℕ) → sum_from f start (suc n) ≡ f start + sum_from f (start + 1) n
unfolding sum_from
sum_from-front f start zero = let e : start + 0 ≡ start = omega arith in rw e (omega arith)
sum_from-front f start (suc n) =
    let e : start + suc n ≡ start + 1 + n = omega arith in
    ap (λ t. t + f (start + suc n)) (sum_from-front f start n)
    ∙ ap (λ i. f start + sum_from f (start + 1) n + f i) e
    ∙ omega arith

pub sum_from-append :
    (f : ℕ → ℕ) (start m n : ℕ)
    → sum_from f start (m + n) ≡ sum_from f start m + sum_from f (start + m) n
unfolding sum_from
sum_from-append f start m zero = let e : m + 0 ≡ m = omega arith in rw e (omega arith)
sum_from-append f start m (suc n) =
    let e : m + suc n ≡ suc (m + n) = omega arith in
    let e' : start + (m + n) ≡ start + m + n = omega arith in
    ap (sum_from f start) e ∙ ap₂ ◌+◌ (sum_from-append f start m n) (ap f e') ∙ omega arith

pub sum_from-one : (start n : ℕ) → sum_from (λ p. 1) start n ≡ n
unfolding sum_from
sum_from-one start zero = refl
sum_from-one start (suc n) = omega (arith, sum_from-one start n)

-- A column more, with its first position one step to the left.
pub sum_from-left :
    (f : ℕ → ℕ) (a rel : ℕ)
    → suc rel ≤ a
    → sum_from f (a - 1 - rel) (suc rel) + f a ≡ sum_from f (a - suc rel) (suc (suc rel))
unfolding sum_from
sum_from-left f a rel h =
    let start : a - 1 - rel ≡ a - suc rel = omega arith in
    let last : a - suc rel + suc rel ≡ a = omega arith in
    ap (λ i. sum_from f i rel + f (i + rel) + f a) start
    ∙ ap (λ i. sum_from f (a - suc rel) rel + f (a - suc rel + rel) + f i) (sym last)

pub total-single :
    (f : ℕ → ℕ) (bs : List ℕ) → total (λ b. f (b + 0)) bs ≡ total (λ b. sum_from f b 1) bs
unfolding sum_from
total-single f [] = refl
total-single f (b ∷ bs) = omega (arith, total-single f bs)

pub sum_from-single : (f : ℕ → ℕ) (a : ℕ) → sum_from f (a - 0) 1 ≡ f a
unfolding sum_from
sum_from-single f a = let e : a - 0 + 0 ≡ a = omega arith in rw e (omega arith)

pub Emits-cases :
    (v : View) (w : (ℕ → ℕ) → ℕ) (o : Option V114Scratch)
    → Emits v w o
    → (s : V114Scratch) × (o ≡ some s) × Emitted v w s
Emits-cases v w none h = absurd h
Emits-cases v w (some s) h = (s, refl, h)

module _ (v : View) (ok : IsView v) where
  pub key_at-HasKey : (p : ℕ) → p < v.logical_len → HasKey v (radix_order_key (key_at v.text p)) p
  key_at-HasKey p h = (h, sym (radix_order_key-key_at v.text p ok.bytes))

  pub emit_literal_records-Emitted :
      (n pos : ℕ) (w : (ℕ → ℕ) → ℕ) (s : V114Scratch)
      → pos + n ≤ v.logical_len
      → Emitted v w s
      → Emitted v (λ f. w f + sum_from f pos n) (emit_literal_records v pos n s)
  unfolding emit_literal_records sum_from
  emit_literal_records-Emitted zero pos w s h e = Emitted-cong v w _ s (λ f. omega arith) e
  emit_literal_records-Emitted (suc n) pos w s h e =
      let first = Emitted-literal v ok.short w s _ pos (key_at-HasKey pos (omega arith)) e in
      Emitted-cong v _ _ _ (λ f. omega (arith, sum_from-front f pos n))
        (emit_literal_records-Emitted n (pos + 1) (λ f. w f + f pos) _ (omega arith) first)

  -- The step to the left: the first bytes decide, else the suffixes behind them do.
  pub SuffixLe-first :
      (a b : ℕ)
      → a < v.logical_len
      → b < v.logical_len
      → byte_at v.text a < byte_at v.text b
      → SuffixLe v a b
  SuffixLe-first a b = suffix_le_first v ok a b

  pub SuffixLe-left :
      (a b : ℕ)
      → 1 ≤ a
      → 1 ≤ b
      → a ≤ v.logical_len
      → b ≤ v.logical_len
      → byte_at v.text (a - 1) ≡ byte_at v.text (b - 1)
      → SuffixLe v a b
      → SuffixLe v (a - 1) (b - 1)
  SuffixLe-left a b ha hb la lb e h =
      let back : a - 1 + 1 ≡ a = omega arith in
      let back' : b - 1 + 1 ≡ b = omega arith in
      suffix_le_next v ok (a - 1) (b - 1) (omega arith) (omega arith) e
        (subst (λ i. SuffixLe v i (b - 1 + 1)) (sym back) (subst (SuffixLe v a) (sym back') h))
