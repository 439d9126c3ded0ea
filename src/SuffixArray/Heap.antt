-- ===== src/SuffixArray/Heap.antt =====
-- `heapSortSuffixOrder` and `siftDownSuffix` of internal/astrobwt/sa_v114_emit.go, on an array of
-- positions with the suffix comparison as a test.
pub mod Arrays
pub mod Sift
pub mod Order
use dirtybird_go_gpu_miner.Prelude.{
  ℕ, zero, suc, ◌+◌, ◌-◌, ◌*◌, ◌/◌, ◌≤◌, ◌<◌, ◌≡◌, ◌≢◌, ◌⊎◌, inl, inr, refl, sym, ap, ◌∙◌, subst,
  arith, List, [], ◌∷◌, Bool, true, false, ◌&&◌, not, ltb, leb, ◌==◌, if◌then◌else◌, length,
  byte_at, set, get_or-set, length-set, Bool-cases,
}
use dirtybird_go_gpu_miner.Rc4.Arrays.{swap, length-swap}
use dirtybird_go_gpu_miner.SuffixArray.Sorting.{Agrees, total}

module _ (less : ℕ → ℕ → Bool) where
  -- The greater child of `root` below `n`; there is a left one.
  unfoldable pub greater_child : List ℕ → ℕ → ℕ → ℕ
  greater_child a root n =
      let child = 2 * root + 1 in
      if ltb (child + 1) n && less (byte_at a child) (byte_at a (child + 1))
      then child + 1
      else child

  -- `siftDownSuffix`, for at most `fuel` rounds; the root goes down in each, so `n` are enough.
  unfoldable pub sift_down : ℕ → List ℕ → ℕ → ℕ → List ℕ
  unfolding greater_child
  sift_down zero a root n = a
  sift_down (suc fuel) a root n =
      let child = greater_child a root n in
      let rest = sift_down fuel (swap a root child) child n in
      if leb n (2 * root + 1)
      then a
      else if not (less (byte_at a root) (byte_at a child))
      then a
      else rest

  -- `for i := n/2 - 1; i >= 0; i--`, `count` rounds down to 0.
  unfoldable pub heapify : ℕ → List ℕ → ℕ → List ℕ
  unfolding sift_down
  heapify zero a n = a
  heapify (suc i) a n = heapify i (sift_down n a i n) n

  -- `for i := n - 1; i > 0; i--`
  unfoldable pub extract : ℕ → List ℕ → List ℕ
  unfolding sift_down
  extract zero a = a
  extract (suc i) a = extract i (sift_down (suc i) (swap a 0 (suc i)) 0 (suc i))

  -- `heapSortSuffixOrder`
  unfoldable pub heap_sort : List ℕ → List ℕ
  unfolding heapify extract
  heap_sort a = extract (length a - 1) (heapify (length a / 2) a (length a))
