-- ===== src/SuffixArray/Stable.antt =====
-- The insertion sort is stable: on a list in order by a second relation, the test has to decide the
-- order only between an entry and an earlier one. Lemmas on sorted lists, sums and groups.
use dirtybird_go_gpu_miner.Prelude.{
  ℕ, ◌+◌, ◌≡◌, refl, ap, ap₂, ◌∙◌, arith, List, [], ◌∷◌, ◌++◌, map, Bool, ◌==◌, Each, Each-map,
  Bool-cases, inl, inr,
}
use dirtybird_go_gpu_miner.SuffixArray.Sorting.{
  insert_back, insert_all, insertion_sort, Sorted, SortedBack, Agrees, Across-nil, total,
  insert_back-Each, insert_back-SortedBack, rev_onto-Sorted,
}
use dirtybird_go_gpu_miner.SuffixArray.Emit.{join_group, key_groups}

module _ {ℓ κ μ} {A : Type ℓ} (before : A → A → Bool) (R Q : A → A → Type κ) (P : A → Type μ)
    (trans : (x y z : A) → R x y → R y z → R x z)
    (agree : (x y : A) → P x → P y → Q y x → Agrees before R x y) where
  earlier :
      (x : A) (s xs : List A)
      → Each (λ z. Each (λ y. Q y z) s) xs
      → Each (Q x) xs
      → Each (λ z. Each (λ y. Q y z) (insert_back before x s)) xs
  earlier x s [] h h' = tt
  earlier x s (z ∷ xs) h h' =
      (insert_back-Each before (λ y. Q y z) x s h'.0 h.0, earlier x s xs h.1 h'.1)

  agrees : (x : A) (s : List A) → P x → Each P s → Each (λ y. Q y x) s → Each (Agrees before R x) s
  agrees x [] p h q = tt
  agrees x (y ∷ s) p h q = (agree x y p h.0 q.0, agrees x s p h.1 q.1)

  insert_all-Stable :
      (s xs : List A)
      → Each P s
      → Each P xs
      → Each (λ z. Each (λ y. Q y z) s) xs
      → Sorted Q xs
      → SortedBack R s
      → SortedBack R (insert_all before s xs)
  unfolding insert_all
  insert_all-Stable s [] hs hx q sq h = h
  insert_all-Stable s (x ∷ xs) hs hx q sq h =
      insert_all-Stable (insert_back before x s) xs (insert_back-Each before P x s hx.0 hs) hx.1
        (earlier x s xs q.1 sq.0) sq.1
        (insert_back-SortedBack before R trans x s (agrees x s hx.0 hs q.0) h)

  none_earlier : (xs : List A) → Each (λ z. Each (λ y. Q y z) []) xs
  none_earlier [] = tt
  none_earlier (x ∷ xs) = (tt, none_earlier xs)

  pub insertion_sort-Stable :
      (xs : List A) → Each P xs → Sorted Q xs → Sorted R (insertion_sort before xs)
  unfolding insertion_sort
  insertion_sort-Stable xs h sq =
      rev_onto-Sorted R (insert_all before [] xs) []
        (insert_all-Stable [] xs tt h (none_earlier xs) sq tt) tt
        (Across-nil R (insert_all before [] xs))

pub Each-image {ℓ κ μ ν} :
    {A : Type ℓ} {B : Type κ} (P : A → Type μ) (Q : B → Type ν) (g : A → B)
    → ((x : A) → P x → Q (g x))
    → (xs : List A) → Each P xs
    → Each Q (map g xs)
Each-image P Q g f [] h = tt
Each-image P Q g f (x ∷ xs) h = (f x h.0, Each-image P Q g f xs h.1)

Each-image_from {ℓ κ μ ν} :
    {A : Type ℓ} {B : Type κ} (P : A → Type μ) (R Q : A → Type ν) (S : B → Type ν) (g : A → B)
    → ((x : A) → P x → R x → S (g x))
    → (xs : List A) → Each P xs
    → Each R xs
    → Each S (map g xs)
Each-image_from P R Q S g f [] h h' = tt
Each-image_from P R Q S g f (x ∷ xs) h h' = (f x h.0 h'.0, Each-image_from P R Q S g f xs h.1 h'.1)

pub Sorted-map {ℓ κ μ ν} :
    {A : Type ℓ} {B : Type κ} (P : A → Type μ) (R : A → A → Type ν) (Q : B → B → Type ν) (g : A → B)
    → ((x y : A) → P x → P y → R x y → Q (g x) (g y))
    → (xs : List A) → Each P xs
    → Sorted R xs
    → Sorted Q (map g xs)
Sorted-map P R Q g f [] h s = tt
Sorted-map P R Q g f (x ∷ xs) h s = (
  Each-image_from P (R x) (R x) (Q (g x)) g (λ y p r. f x y h.0 p r) xs h.1 s.0,
  Sorted-map P R Q g f xs h.1 s.1,
)

pub total-map {ℓ κ} :
    {A : Type ℓ} {B : Type κ} (f : B → ℕ) (g : A → B) (xs : List A)
    → total f (map g xs) ≡ total (λ x. f (g x)) xs
total-map f g [] = refl
total-map f g (x ∷ xs) = ap (λ t. f (g x) + t) (total-map f g xs)

pub total-add {ℓ} :
    {A : Type ℓ} (f g : A → ℕ) (xs : List A) → total (λ x. f x + g x) xs ≡ total f xs + total g xs
total-add f g [] = refl
total-add f g (x ∷ xs) = omega (arith, total-add f g xs)

pub total-cong {ℓ κ} :
    {A : Type ℓ} (P : A → Type κ) (f g : A → ℕ)
    → ((x : A) → P x → f x ≡ g x)
    → (xs : List A) → Each P xs
    → total f xs ≡ total g xs
total-cong P f g e [] h = refl
total-cong P f g e (x ∷ xs) h = ap₂ ◌+◌ (e x h.0) (total-cong P f g e xs h.1)

abbrev pub flatten {ℓ} : {A : Type ℓ} → List (List A) → List A
flatten [] = []
flatten (xs ∷ xss) = xs ++ flatten xss

module _ {ℓ} {A : Type ℓ} (key_of : A → ℕ) where
  -- One entry at least, and one key.
  abbrev pub IsGroup : List A → Type 0
  IsGroup [] = ⊥
  IsGroup (x ∷ xs) = Each (λ y. key_of y ≡ key_of x) xs

  flatten-join_group :
      (x : A) (gs : List (List A)) → flatten (join_group key_of x gs) ≡ x ∷ flatten gs
  unfolding join_group
  flatten-join_group x [] = refl
  flatten-join_group x ([] ∷ gs) = refl
  flatten-join_group x ((y ∷ g) ∷ gs) = elim (Bool-cases (key_of y == key_of x)) [
    | inl e ↦ rw e refl
    | inr e ↦ rw e refl
  ]

  pub flatten-key_groups : (xs : List A) → flatten (key_groups key_of xs) ≡ xs
  unfolding key_groups
  flatten-key_groups [] = refl
  flatten-key_groups (x ∷ xs) =
      flatten-join_group x (key_groups key_of xs) ∙ ap (λ ys. x ∷ ys) (flatten-key_groups xs)

  join_group-IsGroup :
      (x : A) (gs : List (List A)) → Each IsGroup gs → Each IsGroup (join_group key_of x gs)
  unfolding join_group
  join_group-IsGroup x [] h = (tt, tt)
  join_group-IsGroup x ([] ∷ gs) h = absurd h.0
  join_group-IsGroup x ((y ∷ g) ∷ gs) h = elim (Bool-cases (key_of y == key_of x)) [
    | inl e ↦
        let same : key_of y ≡ key_of x = ground arith in
        rw e ((same, Each-map _ _ (λ z q. q ∙ same) g h.0), h.1)
    | inr e ↦ rw e (tt, h)
  ]

  pub key_groups-IsGroup : (xs : List A) → Each IsGroup (key_groups key_of xs)
  unfolding key_groups
  key_groups-IsGroup [] = tt
  key_groups-IsGroup (x ∷ xs) = join_group-IsGroup x (key_groups key_of xs) (key_groups-IsGroup xs)

pub Each-split {ℓ κ} :
    {A : Type ℓ} (P : A → Type κ) (xs ys : List A) → Each P (xs ++ ys) → Each P xs × Each P ys
Each-split P [] ys h = (tt, h)
Each-split P (x ∷ xs) ys h = let rest = Each-split P xs ys h.1 in ((h.0, rest.0), rest.1)
