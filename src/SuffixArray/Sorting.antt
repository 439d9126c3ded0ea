-- ===== src/SuffixArray/Sorting.antt =====
-- The insertions and merges of internal/astrobwt/sa_v114_emit.go and sa_v114_merge.go, on lists. A
-- sorted prefix of an array that is entered from its end is a list with the last entry first.
use dirtybird_go_gpu_miner.Prelude.{
  ℕ, ◌+◌, ◌≡◌, refl, arith, List, [], ◌∷◌, ◌++◌, Bool, true, false, if◌then◌else◌, Each, Each-map,
  Each-append, Bool-cases, inl, inr,
}

module _ {ℓ} {A : Type ℓ} (before : A → A → Bool) where
  -- `for j > 0 && before(x, order[j-1]) { order[j] = order[j-1]; j-- }; order[j] = x`
  unfoldable pub insert_back : A → List A → List A
  insert_back x [] = x ∷ []
  insert_back x (last ∷ rest) =
      let shifted = insert_back x rest in if before x last then last ∷ shifted else x ∷ last ∷ rest

  -- `for i := 1; i < len(order); i++`, from the sorted prefix on.
  unfoldable pub insert_all : List A → List A → List A
  unfolding insert_back
  insert_all sorted [] = sorted
  insert_all sorted (x ∷ xs) = insert_all (insert_back x sorted) xs

-- From last-first to first-last.
unfoldable pub rev_onto {ℓ} : {A : Type ℓ} → List A → List A → List A
rev_onto [] acc = acc
rev_onto (x ∷ xs) acc = rev_onto xs (x ∷ acc)

unfoldable pub insertion_sort {ℓ} : {A : Type ℓ} → (A → A → Bool) → List A → List A
unfolding insert_all rev_onto
insertion_sort before xs = rev_onto (insert_all before [] xs) []

module _ {ℓ} {A : Type ℓ} (before : A → A → Bool) where
  -- The entry `x` of the left run against the right run; `rest` merges what follows on the left.
  unfoldable pub merge_one : A → (List A → List A) → List A → List A
  merge_one x rest [] = x ∷ rest []
  merge_one x rest (y ∷ ys) =
      let later = merge_one x rest ys in if before x y then x ∷ rest (y ∷ ys) else y ∷ later

  -- Two sorted runs; on a tie the right one goes first.
  unfoldable pub merge : List A → List A → List A
  unfolding merge_one
  merge [] ys = ys
  merge (x ∷ xs) ys = merge_one x (merge xs) ys

-- Every entry stands in the relation to all later ones.
abbrev pub Sorted {ℓ κ} : {A : Type ℓ} → (A → A → Type κ) → List A → Type κ
Sorted R [] = Unit
Sorted R (x ∷ xs) = Each (R x) xs × Sorted R xs

abbrev pub SortedBack {ℓ κ} : {A : Type ℓ} → (A → A → Type κ) → List A → Type κ
SortedBack R [] = Unit
SortedBack R (x ∷ xs) = Each (λ y. R y x) xs × SortedBack R xs

-- The test decides the relation.
abbrev pub Agrees {ℓ κ} : {A : Type ℓ} → (A → A → Bool) → (A → A → Type κ) → A → A → Type κ
Agrees before R x y = (before x y ≡ true → R x y) × (before x y ≡ false → R y x)

-- The sum of a measure over a list.
abbrev pub total {ℓ} : {A : Type ℓ} → (A → ℕ) → List A → ℕ
total f [] = 0
total f (x ∷ xs) = f x + total f xs

pub total-append {ℓ} :
    {A : Type ℓ} (f : A → ℕ) (xs ys : List A) → total f (xs ++ ys) ≡ total f xs + total f ys
total-append f [] ys = omega arith
total-append f (x ∷ xs) ys = omega (arith, total-append f xs ys)

module _ {ℓ} {A : Type ℓ} (before : A → A → Bool) where
  pub insert_back-total :
      (f : A → ℕ) (x : A) (xs : List A) → total f (insert_back before x xs) ≡ f x + total f xs
  unfolding insert_back
  insert_back-total f x [] = refl
  insert_back-total f x (y ∷ ys) = elim (Bool-cases (before x y)) [
    | inl e ↦ rw e (omega (arith, insert_back-total f x ys))
    | inr e ↦ rw e refl
  ]

module _ {ℓ κ} {A : Type ℓ} (before : A → A → Bool) where
  pub insert_back-Each :
      (P : A → Type κ) (x : A) (xs : List A) → P x → Each P xs → Each P (insert_back before x xs)
  unfolding insert_back
  insert_back-Each P x [] p h = (p, tt)
  insert_back-Each P x (y ∷ ys) p h = elim (Bool-cases (before x y)) [
    | inl e ↦ rw e (h.0, insert_back-Each P x ys p h.1)
    | inr e ↦ rw e (p, h)
  ]

  pub insert_back-SortedBack :
      (R : A → A → Type κ)
      → ((x y z : A) → R x y → R y z → R x z)
      → (x : A) (xs : List A) → Each (Agrees before R x) xs
      → SortedBack R xs
      → SortedBack R (insert_back before x xs)
  unfolding insert_back
  insert_back-SortedBack R trans x [] agree h = (tt, tt)
  insert_back-SortedBack R trans x (y ∷ ys) agree h = elim (Bool-cases (before x y)) [
    | inl e ↦ rw e (
      insert_back-Each (λ z. R z y) x ys (agree.0.0 e) h.0,
      insert_back-SortedBack R trans x ys agree.1 h.1,
    )
    | inr e ↦
        let below = agree.0.1 e in
        rw e ((below, Each-map _ _ (λ z r. trans z y x r below) ys h.0), h)
  ]

pub rev_onto-total {ℓ} :
    {A : Type ℓ} (f : A → ℕ) (xs acc : List A)
    → total f (rev_onto xs acc) ≡ total f xs + total f acc
unfolding rev_onto
rev_onto-total f [] acc = omega arith
rev_onto-total f (x ∷ xs) acc = omega (arith, rev_onto-total f xs (x ∷ acc))

pub rev_onto-Each {ℓ κ} :
    {A : Type ℓ} (P : A → Type κ) (xs acc : List A)
    → Each P xs
    → Each P acc
    → Each P (rev_onto xs acc)
unfolding rev_onto
rev_onto-Each P [] acc h h' = h'
rev_onto-Each P (x ∷ xs) acc h h' = rev_onto-Each P xs (x ∷ acc) h.1 (h.0, h')

-- Every entry of the first list stands in the relation to every one of the second.
abbrev pub Across {ℓ κ} : {A : Type ℓ} → (A → A → Type κ) → List A → List A → Type κ
Across R xs ys = Each (λ x. Each (R x) ys) xs

pub Across-cons {ℓ κ} :
    {A : Type ℓ} (R : A → A → Type κ) (x : A) (ys acc : List A)
    → Each (λ y. R y x) ys
    → Across R ys acc
    → Across R ys (x ∷ acc)
Across-cons R x [] acc a b = tt
Across-cons R x (y ∷ ys) acc a b = ((a.0, b.0), Across-cons R x ys acc a.1 b.1)

pub rev_onto-Sorted {ℓ κ} :
    {A : Type ℓ} (R : A → A → Type κ) (xs acc : List A)
    → SortedBack R xs
    → Sorted R acc
    → Across R xs acc
    → Sorted R (rev_onto xs acc)
unfolding rev_onto
rev_onto-Sorted R [] acc h h' c = h'
rev_onto-Sorted R (x ∷ xs) acc h h' c =
    rev_onto-Sorted R xs (x ∷ acc) h.1 (c.0, h') (Across-cons R x xs acc h.0 c.1)

pub Across-nil {ℓ κ} : {A : Type ℓ} (R : A → A → Type κ) (xs : List A) → Across R xs []
Across-nil R [] = tt
Across-nil R (x ∷ xs) = (tt, Across-nil R xs)

pub Sorted-append {ℓ κ} :
    {A : Type ℓ} (R : A → A → Type κ) (xs ys : List A)
    → Sorted R xs
    → Sorted R ys
    → Across R xs ys
    → Sorted R (xs ++ ys)
Sorted-append R [] ys h h' c = h'
Sorted-append R (x ∷ xs) ys h h' c =
    (Each-append (R x) xs ys h.0 c.0, Sorted-append R xs ys h.1 h' c.1)
