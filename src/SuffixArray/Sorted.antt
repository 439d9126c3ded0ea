-- ===== src/SuffixArray/Sorted.antt =====
-- The insertion sort and the merge sort, where the test decides the order on the entries at hand.
use dirtybird_go_gpu_miner.Prelude.{
  ℕ, ◌+◌, ◌≡◌, arith, List, [], ◌∷◌, Bool, Each, Each-map, Bool-cases, inl, inr,
}
use dirtybird_go_gpu_miner.SuffixArray.Sorting.{
  insert_back, insert_all, insertion_sort, merge_one, merge, Sorted, SortedBack, Agrees, Across-nil,
  total, insert_back-total, insert_back-Each, insert_back-SortedBack, rev_onto-total, rev_onto-Each,
  rev_onto-Sorted,
}

module _ {ℓ} {A : Type ℓ} (before : A → A → Bool) where
  insert_all-total :
      (f : A → ℕ) (s xs : List A) → total f (insert_all before s xs) ≡ total f s + total f xs
  unfolding insert_all
  insert_all-total f s [] = omega arith
  insert_all-total f s (x ∷ xs) =
      omega (arith, insert_all-total f (insert_back before x s) xs, insert_back-total before f x s)

  pub insertion_sort-total :
      (f : A → ℕ) (xs : List A) → total f (insertion_sort before xs) ≡ total f xs
  unfolding insertion_sort
  insertion_sort-total f xs =
      omega (arith, rev_onto-total f (insert_all before [] xs) [], insert_all-total f [] xs)

module _ {ℓ κ} {A : Type ℓ} (before : A → A → Bool) where
  insert_all-Each :
      (P : A → Type κ) (s xs : List A) → Each P s → Each P xs → Each P (insert_all before s xs)
  unfolding insert_all
  insert_all-Each P s [] h h' = h
  insert_all-Each P s (x ∷ xs) h h' =
      insert_all-Each P (insert_back before x s) xs (insert_back-Each before P x s h'.0 h) h'.1

  pub insertion_sort-Each :
      (P : A → Type κ) (xs : List A) → Each P xs → Each P (insertion_sort before xs)
  unfolding insertion_sort
  insertion_sort-Each P xs h =
      rev_onto-Each P (insert_all before [] xs) [] (insert_all-Each P [] xs tt h) tt

module _ {ℓ κ μ} {A : Type ℓ} (before : A → A → Bool) (R : A → A → Type κ) (P : A → Type μ)
    (trans : (x y z : A) → R x y → R y z → R x z)
    (agree : (x y : A) → P x → P y → Agrees before R x y) where
  insert_all-SortedBack :
      (s xs : List A)
      → Each P s
      → Each P xs
      → SortedBack R s
      → SortedBack R (insert_all before s xs)
  unfolding insert_all
  insert_all-SortedBack s [] hs hx h = h
  insert_all-SortedBack s (x ∷ xs) hs hx h =
      insert_all-SortedBack (insert_back before x s) xs (insert_back-Each before P x s hx.0 hs) hx.1
        (insert_back-SortedBack before R trans x s
          (Each-map P (Agrees before R x) (λ y p. agree x y hx.0 p) s hs) h)

  pub insertion_sort-Sorted : (xs : List A) → Each P xs → Sorted R (insertion_sort before xs)
  unfolding insertion_sort
  insertion_sort-Sorted xs h =
      rev_onto-Sorted R (insert_all before [] xs) [] (insert_all-SortedBack [] xs tt h tt) tt
        (Across-nil R (insert_all before [] xs))

module _ {ℓ} {A : Type ℓ} (before : A → A → Bool) where
  merge_one-total :
      (f : A → ℕ) (x : A) (xs ys : List A)
      → ((zs : List A) → total f (merge before xs zs) ≡ total f xs + total f zs)
      → total f (merge_one before x (merge before xs) ys) ≡ f x + total f xs + total f ys
  unfolding merge_one
  merge_one-total f x xs [] ih = omega (arith, ih [])
  merge_one-total f x xs (y ∷ ys) ih = elim (Bool-cases (before x y)) [
    | inl e ↦ rw e (omega (arith, ih (y ∷ ys)))
    | inr e ↦ rw e (omega (arith, merge_one-total f x xs ys ih))
  ]

  pub merge-total :
      (f : A → ℕ) (xs ys : List A) → total f (merge before xs ys) ≡ total f xs + total f ys
  unfolding merge
  merge-total f [] ys = omega arith
  merge-total f (x ∷ xs) ys = merge_one-total f x xs ys (merge-total f xs)

module _ {ℓ κ} {A : Type ℓ} (before : A → A → Bool) where
  merge_one-Each :
      (Q : A → Type κ) (x : A) (xs ys : List A)
      → ((zs : List A) → Each Q zs → Each Q (merge before xs zs))
      → Q x
      → Each Q ys
      → Each Q (merge_one before x (merge before xs) ys)
  unfolding merge_one
  merge_one-Each Q x xs [] ih p h = (p, ih [] tt)
  merge_one-Each Q x xs (y ∷ ys) ih p h = elim (Bool-cases (before x y)) [
    | inl e ↦ rw e (p, ih (y ∷ ys) h)
    | inr e ↦ rw e (h.0, merge_one-Each Q x xs ys ih p h.1)
  ]

  pub merge-Each :
      (Q : A → Type κ) (xs ys : List A) → Each Q xs → Each Q ys → Each Q (merge before xs ys)
  unfolding merge
  merge-Each Q [] ys h h' = h'
  merge-Each Q (x ∷ xs) ys h h' = merge_one-Each Q x xs ys (λ zs. merge-Each Q xs zs h.1) h.0 h'

module _ {ℓ κ μ} {A : Type ℓ} (before : A → A → Bool) (R : A → A → Type κ) (P : A → Type μ)
    (trans : (x y z : A) → R x y → R y z → R x z)
    (agree : (x y : A) → P x → P y → Agrees before R x y) where
  merge_one-Sorted :
      (x : A) (xs ys : List A)
      → ((zs : List A) → Each P zs → Sorted R zs → Sorted R (merge before xs zs))
      → P x
      → Each P ys
      → Each (R x) xs
      → Sorted R ys
      → Sorted R (merge_one before x (merge before xs) ys)
  unfolding merge_one
  merge_one-Sorted x xs [] ih p hp low h = (merge-Each before (R x) xs [] low tt, ih [] tt tt)
  merge_one-Sorted x xs (y ∷ ys) ih p hp low h = elim (Bool-cases (before x y)) [
    | inl e ↦
        let xy = (agree x y p hp.0).0 e in
        rw e (
          merge-Each before (R x) xs (y ∷ ys) low (xy, Each-map _ _ (λ z. trans x y z xy) ys h.0),
          ih (y ∷ ys) hp h,
        )
    | inr e ↦
        let yx = (agree x y p hp.0).1 e in
        rw e (
          merge_one-Each before (R y) x xs ys
              (λ zs hz.
                merge-Each before (R y) xs zs (Each-map _ _ (λ z. trans y x z yx) xs low) hz)
              yx h.0,
          merge_one-Sorted x xs ys ih p hp.1 low h.1,
        )
  ]

  -- Merging two sorted runs gives a sorted one.
  pub merge-Sorted :
      (xs ys : List A)
      → Each P xs
      → Each P ys
      → Sorted R xs
      → Sorted R ys
      → Sorted R (merge before xs ys)
  unfolding merge
  merge-Sorted [] ys hp hp' h h' = h'
  merge-Sorted (x ∷ xs) ys hp hp' h h' =
      merge_one-Sorted x xs ys (λ zs hz sz. merge-Sorted xs zs hp.1 hz h.1 sz) hp.0 hp' h.0 h'
