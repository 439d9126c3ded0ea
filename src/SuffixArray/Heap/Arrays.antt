-- ===== src/SuffixArray/Heap/Arrays.antt =====
-- The entries of an array after an exchange.
use dirtybird_go_gpu_miner.Prelude.{
  ℕ, zero, suc, ◌+◌, ◌<◌, ◌≡◌, ◌≢◌, ap, ◌∙◌, arith, List, [], ◌∷◌, ◌==◌, if◌then◌else◌, length,
  byte_at, set, get_or-set, length-set,
}
use dirtybird_go_gpu_miner.Rc4.Arrays.{swap}
use dirtybird_go_gpu_miner.SuffixArray.Sorting.{total}

pub byte_at-swap :
    (a : List ℕ) (i j k : ℕ)
    → i < length a
    → j < length a
    → byte_at (swap a i j) k
      ≡ (if j == k then byte_at a i else if i == k then byte_at a j else byte_at a k)
unfolding swap
byte_at-swap a i j k hi hj =
    let inner = get_or-set a i k (byte_at a j) 0 hi in
    get_or-set (set a i (byte_at a j)) j k (byte_at a i) 0
      (omega (arith, length-set a i (byte_at a j)))
    ∙ ap (λ x. if j == k then byte_at a i else x) inner

total-set :
    (f : ℕ → ℕ) (a : List ℕ) (i v : ℕ)
    → i < length a
    → total f (set a i v) + f (byte_at a i) ≡ total f a + f v
total-set f [] i v h = absurd (omega arith)
total-set f (x ∷ a) zero v h = omega arith
total-set f (x ∷ a) (suc i) v h = omega (arith, total-set f a i v (omega arith))

pub total-swap :
    (f : ℕ → ℕ) (a : List ℕ) (i j : ℕ)
    → i < length a
    → j < length a
    → i < j
    → total f (swap a i j) ≡ total f a
unfolding swap
total-swap f a i j hi hj h =
    let inner = set a i (byte_at a j) in
    let same : byte_at inner j ≡ byte_at a j =
      ground (arith, get_or-set a i j (byte_at a j) 0 hi) in
    omega (
      arith,
      total-set f a i (byte_at a j) hi,
      total-set f inner j (byte_at a i) (omega (arith, length-set a i (byte_at a j))),
      ap f same,
    )

pub swap_at_first :
    (a : List ℕ) (i j : ℕ)
    → i < length a
    → j < length a
    → i < j
    → byte_at (swap a i j) i ≡ byte_at a j
swap_at_first a i j hi hj h = ground (arith, byte_at-swap a i j i hi hj)

pub swap_at_second :
    (a : List ℕ) (i j : ℕ) → i < length a → j < length a → byte_at (swap a i j) j ≡ byte_at a i
swap_at_second a i j hi hj = ground (arith, byte_at-swap a i j j hi hj)

pub swap_at_other :
    (a : List ℕ) (i j k : ℕ)
    → i < length a
    → j < length a
    → k ≢ i
    → k ≢ j
    → byte_at (swap a i j) k ≡ byte_at a k
swap_at_other a i j k hi hj ni nj = ground (arith, byte_at-swap a i j k hi hj)
