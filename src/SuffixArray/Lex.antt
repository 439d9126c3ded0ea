-- ===== src/SuffixArray/Lex.antt =====
-- The lexicographic order of byte strings: `bytes.Compare`, and the order as a relation.
use Prim.Native.Nat.{compare, Ordering}
use dirtybird_go_gpu_miner.Prelude.{
  ℕ, ◌+◌, ◌*◌, ◌^◌, ◌<◌, ◌≡◌, ◌⊎◌, inl, inr, refl, sym, ap, ap₂, ◌∙◌, arith, List, [], ◌∷◌, ◌++◌,
  length, IsBytes, subst,
}
use native.Mathlib.Nat.{pow-suc}

-- `bytes.Compare`: -1, 0 and 1 are `lt`, `eq` and `gt`.
unfoldable pub bytes_compare : List ℕ → List ℕ → Ordering
bytes_compare [] [] = Ordering.eq
bytes_compare [] (y ∷ ys) = Ordering.lt
bytes_compare (x ∷ xs) [] = Ordering.gt
bytes_compare (x ∷ xs) (y ∷ ys) =
    let rest = bytes_compare xs ys in
    elim (compare x y) [
      | Ordering.lt ↦ Ordering.lt
      | Ordering.gt ↦ Ordering.gt
      | Ordering.eq ↦ rest
    ]

-- A string comes before those it is a prefix of, else the first difference decides.
abbrev pub LexLe : List ℕ → List ℕ → Type 0
LexLe [] ys = Unit
LexLe (x ∷ xs) [] = ⊥
LexLe (x ∷ xs) (y ∷ ys) = (x < y) ⊎ ((x ≡ y) × LexLe xs ys)

pub LexLe-refl : (xs : List ℕ) → LexLe xs xs
LexLe-refl [] = tt
LexLe-refl (x ∷ xs) = inr (refl, LexLe-refl xs)

pub LexLe-trans : (xs ys zs : List ℕ) → LexLe xs ys → LexLe ys zs → LexLe xs zs
LexLe-trans [] ys zs p q = tt
LexLe-trans (x ∷ xs) [] zs p q = absurd (omega arith)
LexLe-trans (x ∷ xs) (y ∷ ys) [] p q = absurd (omega arith)
LexLe-trans (x ∷ xs) (y ∷ ys) (z ∷ zs) (inl p) (inl q) = inl (omega arith)
LexLe-trans (x ∷ xs) (y ∷ ys) (z ∷ zs) (inl p) (inr q) = inl (omega (arith, q.0))
LexLe-trans (x ∷ xs) (y ∷ ys) (z ∷ zs) (inr p) (inl q) = inl (omega (arith, p.0))
LexLe-trans (x ∷ xs) (y ∷ ys) (z ∷ zs) (inr p) (inr q) =
    inr (p.0 ∙ q.0, LexLe-trans xs ys zs p.1 q.1)

pub LexLe-antisym : (xs ys : List ℕ) → LexLe xs ys → LexLe ys xs → xs ≡ ys
LexLe-antisym [] [] p q = refl
LexLe-antisym [] (y ∷ ys) p q = absurd (omega arith)
LexLe-antisym (x ∷ xs) [] p q = absurd (omega arith)
LexLe-antisym (x ∷ xs) (y ∷ ys) (inl p) (inl q) = absurd (omega arith)
LexLe-antisym (x ∷ xs) (y ∷ ys) (inl p) (inr q) = absurd (omega (arith, q.0))
LexLe-antisym (x ∷ xs) (y ∷ ys) (inr p) (inl q) = absurd (omega (arith, p.0))
LexLe-antisym (x ∷ xs) (y ∷ ys) (inr p) (inr q) = ap₂ ◌∷◌ p.0 (LexLe-antisym xs ys p.1 q.1)

pub compare-cases :
    (x y : ℕ)
    → ((compare x y ≡ Ordering.lt) × (x < y))
      ⊎ (((compare x y ≡ Ordering.eq) × (x ≡ y)) ⊎ ((compare x y ≡ Ordering.gt) × (y < x)))
compare-cases x y = ground arith

-- What each of the three results says.
abbrev pub Decides : Ordering → List ℕ → List ℕ → Type 0
Decides Ordering.lt xs ys = LexLe xs ys
Decides Ordering.eq xs ys = xs ≡ ys
Decides Ordering.gt xs ys = LexLe ys xs

Decides-cons :
    (x y : ℕ) (xs ys : List ℕ) (c : Ordering)
    → x ≡ y
    → Decides c xs ys
    → Decides c (x ∷ xs) (y ∷ ys)
Decides-cons x y xs ys Ordering.lt e h = inr (e, h)
Decides-cons x y xs ys Ordering.eq e h = ap₂ ◌∷◌ e h
Decides-cons x y xs ys Ordering.gt e h = inr (sym e, h)

pub bytes_compare-Decides : (xs ys : List ℕ) → Decides (bytes_compare xs ys) xs ys
unfolding bytes_compare
bytes_compare-Decides [] [] = refl
bytes_compare-Decides [] (y ∷ ys) = tt
bytes_compare-Decides (x ∷ xs) [] = tt
bytes_compare-Decides (x ∷ xs) (y ∷ ys) = elim (compare-cases x y) [
  | inl h ↦ rw (h.0, Decides, bytes_compare) (inl h.1)
  | inr (inl h) ↦
      rw (h.0, bytes_compare) (Decides-cons x y xs ys _ h.1 (bytes_compare-Decides xs ys))
  | inr (inr h) ↦ rw (h.0, Decides, bytes_compare) (inl h.1)
]

-- `if c := bytes.Compare(…); c != 0 { return c }`: the first of two comparisons that differs decides.
abbrev pub or_else : Ordering → Ordering → Ordering
or_else Ordering.lt c = Ordering.lt
or_else Ordering.eq c = c
or_else Ordering.gt c = Ordering.gt

pub bytes_compare-append :
    (xs ys xs' ys' : List ℕ)
    → length xs ≡ length ys
    → bytes_compare (xs ++ xs') (ys ++ ys') ≡ or_else (bytes_compare xs ys) (bytes_compare xs' ys')
unfolding bytes_compare
bytes_compare-append [] [] xs' ys' e = refl
bytes_compare-append [] (y ∷ ys) xs' ys' e = absurd (omega arith)
bytes_compare-append (x ∷ xs) [] xs' ys' e = absurd (omega arith)
bytes_compare-append (x ∷ xs) (y ∷ ys) xs' ys' e = elim (compare-cases x y) [
  | inl h ↦ rw (h.0, bytes_compare) refl
  | inr (inl h) ↦ rw (h.0, bytes_compare) (bytes_compare-append xs ys xs' ys' (omega arith))
  | inr (inr h) ↦ rw (h.0, bytes_compare) refl
]

pub bytes_compare_refl : (xs : List ℕ) → bytes_compare xs xs ≡ Ordering.eq
unfolding bytes_compare
bytes_compare_refl [] = refl
bytes_compare_refl (x ∷ xs) =
    let same : compare x x ≡ Ordering.eq = ground arith in
    rw (same, bytes_compare) (bytes_compare_refl xs)

-- The number of a string of bytes, the highest first.
unfoldable pub number : List ℕ → ℕ
number [] = 0
number (x ∷ xs) = x * 256 ^ length xs + number xs

number-lt : (xs : List ℕ) → IsBytes xs → number xs < 256 ^ length xs
unfolding number
number-lt [] h = omega arith
number-lt (x ∷ xs) h = grind (arith, number-lt xs h.1, pow-suc 256 (length xs))

lt-compare : {x y : ℕ} → x < y → compare x y ≡ Ordering.lt
lt-compare h = ground arith

gt-compare : {x y : ℕ} → y < x → compare x y ≡ Ordering.gt
gt-compare h = ground arith

compare-add : (c x y : ℕ) → compare (c + x) (c + y) ≡ compare x y
compare-add c x y = ground arith

-- Strings of the same length compare as their numbers.
pub compare-number :
    (xs ys : List ℕ)
    → length xs ≡ length ys
    → IsBytes xs
    → IsBytes ys
    → compare (number xs) (number ys) ≡ bytes_compare xs ys
unfolding number bytes_compare
compare-number [] [] e h h' = refl
compare-number [] (y ∷ ys) e h h' = absurd (omega arith)
compare-number (x ∷ xs) [] e h h' = absurd (omega arith)
compare-number (x ∷ xs) (y ∷ ys) e h h' =
    let size : length xs ≡ length ys = omega arith in
    let b = 256 ^ length ys in
    let low : number xs < b = subst (λ n. number xs < 256 ^ n) size (number-lt xs h.1) in
    let low' = number-lt ys h'.1 in
    elim (compare-cases x y) [
      | inl c ↦ rw (size, c.0, bytes_compare) (lt-compare (grind (arith, c.1, low)))
      | inr (inl c) ↦
          rw (size, c.0, bytes_compare)
            (ap (λ z. compare (z * b + number xs) (y * b + number ys)) c.1
              ∙ compare-add (y * b) (number xs) (number ys)
              ∙ compare-number xs ys size h.1 h'.1)
      | inr (inr c) ↦ rw (size, c.0, bytes_compare) (gt-compare (grind (arith, c.1, low')))
    ]
