-- ===== src/Prelude/Slices.antt =====
-- Go slices as lists: reading with a default, `copy` at an offset, and the predicate of bytes.
use Prim.Native.Nat.{ℕ, zero, suc, ◌+◌, ◌≤◌, ◌<◌}
use mathlib.Core.Path.{◌≡◌, refl, ap, ap₂}
use mathlib.Core.Bool.{Bool, true, false, ◌&&◌}
use mathlib.Core.Logic.{inl, inr}
use mathlib.Core.List.{List, [], ◌∷◌, ◌++◌}
use native.Mathlib.Omega.{arith}
use dirtybird_go_gpu_miner.Prelude.Tests.{◌==◌, if◌then◌else◌, Bool-cases}
use dirtybird_go_gpu_miner.Prelude.Lists.{length, get_or, set, take}

-- `a[i]` of a byte array; the bounds are kept by the callers.
abbrev pub byte_at : List ℕ → ℕ → ℕ
byte_at xs i = get_or xs i 0

module _ {ℓ} {A : Type ℓ} where
  -- `copy(dst[off:], src)`: what does not fit is dropped.
  unfoldable pub copy_at : List A → ℕ → List A → List A
  copy_at [] off src = []
  copy_at (d ∷ dst) (suc off) src = d ∷ copy_at dst off src
  copy_at (d ∷ dst) zero [] = d ∷ dst
  copy_at (d ∷ dst) zero (s ∷ src) = s ∷ copy_at dst zero src

  pub length-copy_at :
      (dst : List A) (off : ℕ) (src : List A) → length (copy_at dst off src) ≡ length dst
  unfolding copy_at
  length-copy_at [] off src = refl
  length-copy_at (d ∷ dst) (suc off) src = ap suc (length-copy_at dst off src)
  length-copy_at (d ∷ dst) zero [] = refl
  length-copy_at (d ∷ dst) zero (s ∷ src) = ap suc (length-copy_at dst zero src)

  -- Where the source fits, the written prefix grows by exactly the source.
  pub take-copy_at :
      (n : ℕ) (dst : List A) (off : ℕ) (src : List A)
      → n ≡ off + length src
      → n ≤ length dst
      → take n (copy_at dst off src) ≡ take off dst ++ src
  unfolding copy_at
  take-copy_at zero dst zero [] e h = refl
  take-copy_at zero dst zero (s ∷ src) e h = absurd (omega arith)
  take-copy_at zero dst (suc off) src e h = absurd (omega arith)
  take-copy_at (suc n) [] off src e h = absurd (omega arith)
  take-copy_at (suc n) (d ∷ dst) (suc off) src e h =
      ap (◌∷◌ d) (take-copy_at n dst off src (omega arith) (omega arith))
  take-copy_at (suc n) (d ∷ dst) zero [] e h = absurd (omega arith)
  take-copy_at (suc n) (d ∷ dst) zero (s ∷ src) e h =
      ap (◌∷◌ s) (take-copy_at n dst zero src (omega arith) (omega arith))

  pub get_or-set :
      (xs : List A) (i j : ℕ) (v d : A)
      → i < length xs
      → get_or (set xs i v) j d ≡ (if i == j then v else get_or xs j d)
  get_or-set [] i j v d h = absurd (omega arith)
  get_or-set (x ∷ xs) zero zero v d h = refl
  get_or-set (x ∷ xs) zero (suc j) v d h = ground arith
  get_or-set (x ∷ xs) (suc i) zero v d h = ground arith
  get_or-set (x ∷ xs) (suc i) (suc j) v d h = ground (arith, get_or-set xs i j v d)

-- Every element is a byte.
abbrev pub IsBytes : List ℕ → Type 0
IsBytes [] = Unit
IsBytes (x ∷ xs) = (x < 256) × IsBytes xs

pub byte_at-lt : (xs : List ℕ) (i : ℕ) → IsBytes xs → byte_at xs i < 256
byte_at-lt [] i h = omega arith
byte_at-lt (x ∷ xs) zero h = h.0
byte_at-lt (x ∷ xs) (suc i) h = byte_at-lt xs i h.1

pub set-IsBytes : (xs : List ℕ) (i v : ℕ) → IsBytes xs → v < 256 → IsBytes (set xs i v)
set-IsBytes [] i v h hv = tt
set-IsBytes (x ∷ xs) zero v h hv = (hv, h.1)
set-IsBytes (x ∷ xs) (suc i) v h hv = (h.0, set-IsBytes xs i v h.1 hv)

-- `==` of byte arrays and of strings.
unfoldable pub same_bytes : List ℕ → List ℕ → Bool
same_bytes [] [] = true
same_bytes [] (y ∷ ys) = false
same_bytes (x ∷ xs) [] = false
same_bytes (x ∷ xs) (y ∷ ys) = (x == y) && same_bytes xs ys

pub same_bytes_refl : (xs : List ℕ) → same_bytes xs xs ≡ true
unfolding same_bytes
same_bytes_refl [] = refl
same_bytes_refl (x ∷ xs) = let e : (x == x) ≡ true = ground arith in rw (e, same_bytes_refl xs) refl

pub same_bytes_eq : (xs ys : List ℕ) → same_bytes xs ys ≡ true → xs ≡ ys
unfolding same_bytes
same_bytes_eq [] [] h = refl
same_bytes_eq [] (y ∷ ys) h = absurd cc
same_bytes_eq (x ∷ xs) [] h = absurd cc
same_bytes_eq (x ∷ xs) (y ∷ ys) h = elim (Bool-cases (x == y)) [
  | inl e ↦
      let head : x ≡ y = ground arith in
      let tail : same_bytes xs ys ≡ true = ground arith in ap₂ ◌∷◌ head (same_bytes_eq xs ys tail)
  | inr e ↦ absurd cc
]

pub copy_at-IsBytes :
    (dst : List ℕ) (off : ℕ) (src : List ℕ)
    → IsBytes dst
    → IsBytes src
    → IsBytes (copy_at dst off src)
unfolding copy_at
copy_at-IsBytes [] off src h h' = tt
copy_at-IsBytes (d ∷ dst) (suc off) src h h' = (h.0, copy_at-IsBytes dst off src h.1 h')
copy_at-IsBytes (d ∷ dst) zero [] h h' = h
copy_at-IsBytes (d ∷ dst) zero (s ∷ src) h h' = (h'.0, copy_at-IsBytes dst zero src h.1 h'.1)
