-- ===== src/Prelude/Predicates.antt =====
-- A predicate at every element of a list.
use Prim.Native.Nat.{ℕ, zero, suc}
use mathlib.Core.Path.{◌≡◌, subst}
use mathlib.Core.List.{List, [], ◌∷◌, ◌++◌}
use mathlib.Core.Option.{some}
use dirtybird_go_gpu_miner.Prelude.Tests.{some-injective}
use dirtybird_go_gpu_miner.Prelude.Lists.{get_elem?}

abbrev pub Each {ℓ κ} : {A : Type ℓ} → (A → Type κ) → List A → Type κ
Each P [] = Unit
Each P (x ∷ xs) = P x × Each P xs

pub Each-append {ℓ κ} :
    {A : Type ℓ} (P : A → Type κ) (xs ys : List A) → Each P xs → Each P ys → Each P (xs ++ ys)
Each-append P [] ys h h' = h'
Each-append P (x ∷ xs) ys h h' = (h.0, Each-append P xs ys h.1 h')

pub Each-at {ℓ κ} :
    {A : Type ℓ} (P : A → Type κ) (xs : List A) (i : ℕ) (x : A)
    → Each P xs
    → get_elem? xs i ≡ some x
    → P x
Each-at P [] i x h e = absurd cc
Each-at P (y ∷ xs) zero x h e = subst P (some-injective e) h.0
Each-at P (y ∷ xs) (suc i) x h e = Each-at P xs i x h.1 e

pub Each-map {ℓ κ μ} :
    {A : Type ℓ} (P : A → Type κ) (Q : A → Type μ)
    → ((x : A) → P x → Q x)
    → (xs : List A) → Each P xs
    → Each Q xs
Each-map P Q f [] h = tt
Each-map P Q f (x ∷ xs) h = (f x h.0, Each-map P Q f xs h.1)
