-- ===== src/SuffixArray/Unique.antt =====
-- A text has one suffix array.
use dirtybird_go_gpu_miner.Prelude.{
  ℕ, ◌+◌, ◌<◌, ◌≡◌, ◌⊎◌, inl, inr, refl, sym, ap, ap₂, ◌∙◌, subst, arith, List, [], ◌∷◌, length,
  drop, length-drop, true, ◌==◌, if◌then◌else◌, Bool-cases, Each,
}
use dirtybird_go_gpu_miner.SuffixArray.Lex.{LexLe, LexLe-antisym}
use dirtybird_go_gpu_miner.SuffixArray.Sorting.{Sorted, total}
use dirtybird_go_gpu_miner.SuffixArray.Build.Exact.{IsSuffixArray}

-- The weight of one position.
abbrev one_at : ℕ → ℕ → ℕ
one_at p q = if q == p then 1 else 0

module _ (Q : ℕ → Type 0) where
  occurs : (p : ℕ) (ps : List ℕ) → Each Q ps → 0 < total (one_at p) ps → Q p
  occurs p [] h some_ = absurd (omega arith)
  occurs p (q ∷ ps) h some_ = elim (Bool-cases (q == p)) [
    | inl e ↦ let same : q ≡ p = ground arith in subst Q same h.0
    | inr e ↦
        let later : 0 < 0 + total (one_at p) ps = rw e at some_ in
        occurs p ps h.1 (omega (arith, later))
  ]

module _ (R : ℕ → ℕ → Type 0) (P : ℕ → Type 0)
    (antisym : (p q : ℕ) → P p → P q → R p q → R q p → p ≡ q) where
  head_first :
      (p q : ℕ) (ps qs : List ℕ)
      → Each (R q) qs
      → total (one_at p) (p ∷ ps) ≡ total (one_at p) (q ∷ qs)
      → (q ≡ p) ⊎ R q p
  head_first p q ps qs low e = elim (Bool-cases (q == p)) [
    | inl same ↦ inl (ground arith)
    | inr other ↦
        let self : (p == p) ≡ true = ground arith in
        let counts : 1 + total (one_at p) ps ≡ 0 + total (one_at p) qs = rw (self, other) at e in
        inr (occurs (R q) p qs low (omega arith))
  ]

  -- Two sorted lists of the same positions are the same.
  unique :
      (ps qs : List ℕ)
      → Each P ps
      → Each P qs
      → Sorted R ps
      → Sorted R qs
      → ((f : ℕ → ℕ) → total f ps ≡ total f qs)
      → ps ≡ qs
  unique [] [] hp hq sp sq e = refl
  unique [] (q ∷ qs) hp hq sp sq e = absurd (omega (arith, e (λ p. 1)))
  unique (p ∷ ps) [] hp hq sp sq e = absurd (omega (arith, e (λ p. 1)))
  unique (p ∷ ps) (q ∷ qs) hp hq sp sq e =
      let head : p ≡ q = elim (head_first p q ps qs sq.0 (e (one_at p))) [
        | inl same ↦ sym same
        | inr qp ↦ elim (head_first q p qs ps sp.0 (sym (e (one_at q)))) [
          | inl same ↦ same
          | inr pq ↦ antisym p q hp.0 hq.0 pq qp
        ]
      ] in
      ap₂ ◌∷◌ head (unique ps qs hp.1 hq.1 sp.1 sq.1 (λ f. omega (arith, e f, ap f head)))

-- Any two suffix arrays of a text are equal.
pub IsSuffixArray-unique :
    (text sa sa' : List ℕ) → IsSuffixArray text sa → IsSuffixArray text sa' → sa ≡ sa'
IsSuffixArray-unique text sa sa' h h' =
    unique (λ p q. LexLe (drop p text) (drop q text)) (λ p. p < length text)
      (λ p q hp hq pq qp.
        let same = LexLe-antisym (drop p text) (drop q text) pq qp in
        omega (arith, ap length same, length-drop p text, length-drop q text))
      sa sa' h.within h'.within h.in_order h'.in_order (λ f. h.positions f ∙ sym (h'.positions f))
