-- ===== src/SuffixArray/Heap/Order.antt =====
-- `heapSortSuffixOrder` sorts.
use dirtybird_go_gpu_miner.Prelude.{
  ℕ, zero, suc, ◌-◌, ◌/◌, ◌≤◌, ◌<◌, ◌≡◌, ◌≢◌, ◌⊎◌, inl, inr, refl, sym, ap, ◌∙◌, subst, arith, List,
  [], ◌∷◌, Bool, length, byte_at, Each,
}
use dirtybird_go_gpu_miner.Rc4.Arrays.{swap, length-swap}
use dirtybird_go_gpu_miner.SuffixArray.Sorting.{Agrees, Sorted, total}
use dirtybird_go_gpu_miner.SuffixArray.Heap.{sift_down, heapify, extract, heap_sort}
use dirtybird_go_gpu_miner.SuffixArray.Heap.Arrays.{
  swap_at_first, swap_at_second, swap_at_other, total-swap,
}
use dirtybird_go_gpu_miner.SuffixArray.Heap.Sift.{
  parent, IsHeapFrom, Below, Sifted, eq-cases, swap-Below, sift_down-Sifted, R-refl,
}

-- Sorted by index is sorted, and a property at every index is one of every entry.
Each-from : (P : ℕ → Type 0) (a : List ℕ) → ((k : ℕ) → k < length a → P (byte_at a k)) → Each P a
Each-from P [] h = tt
Each-from P (x ∷ a) h = (h 0 (omega arith), Each-from P a (λ k hk. h (suc k) (omega arith)))

Each-byte_at : (P : ℕ → Type 0) (a : List ℕ) (k : ℕ) → Each P a → k < length a → P (byte_at a k)
Each-byte_at P [] k h hk = absurd (omega arith)
Each-byte_at P (x ∷ a) zero h hk = h.0
Each-byte_at P (x ∷ a) (suc k) h hk = Each-byte_at P a k h.1 (omega arith)

Sorted-from :
    (R : ℕ → ℕ → Type 0) (a : List ℕ)
    → ((j k : ℕ) → j < k → k < length a → R (byte_at a j) (byte_at a k))
    → Sorted R a
Sorted-from R [] h = tt
Sorted-from R (x ∷ a) h = (
  Each-from (R x) a (λ k hk. h 0 (suc k) (omega arith) (omega arith)),
  Sorted-from R a (λ j k hjk hk. h (suc j) (suc k) (omega arith) (omega arith)),
)

lt-cases : (x y : ℕ) → (x < y) ⊎ (y ≤ x)
lt-cases x y = ground arith

module _ (less : ℕ → ℕ → Bool) (R : ℕ → ℕ → Type 0) (P : ℕ → Type 0)
    (trans : (x y z : ℕ) → R x y → R y z → R x z)
    (agree : (x y : ℕ) → P x → P y → Agrees less R x y) where
  -- What `heapify` and `extract` keep of the array, besides the order.
  record Shuffled (a b : List ℕ) : Type 1 where
    size : length b ≡ length a
    sum : (f : ℕ → ℕ) → total f b ≡ total f a
    entries : Below R P (length b) b

  heapify_lem :
      (i : ℕ) (a : List ℕ)
      → Below R P (length a) a
      → IsHeapFrom R i (length a) a
      → (let b = heapify less i a (length a) in Shuffled a b × IsHeapFrom R 0 (length b) b)
  unfolding heapify
  heapify_lem zero a hp h = (record { size = refl; sum = λ f. refl; entries = hp }, h)
  heapify_lem (suc i) a hp h =
      let n = length a in
      let s =
        sift_down-Sifted less R P trans agree n i a i n (omega arith) (omega arith) hp (record {
          edges = λ c pos below hlo other. h c pos below (omega arith);
          bridged = λ c pos below p positive hlo. absurd (omega arith);
        }) in
      let b = sift_down less n a i n in
      let same = s.size in
      let hp' : Below R P (length b) b = subst (λ m. Below R P m b) (sym same) (s.inside P hp) in
      let heap' : IsHeapFrom R i (length b) b = subst (λ m. IsHeapFrom R i m b) (sym same) s.heap in
      let ih = heapify_lem i b hp' heap' in
      let result =
        subst
          (λ m.
            (Shuffled b (heapify less i b m))
            × (IsHeapFrom R 0 (length (heapify less i b m)) (heapify less i b m)))
          same ih in
      (
        record {
          size = result.0.size ∙ same;
          sum = λ f. result.0.sum f ∙ s.sum f;
          entries = result.0.entries;
        },
        result.1,
      )

  root_last :
      (fuel n : ℕ) (a : List ℕ) (k : ℕ)
      → Below R P n a
      → IsHeapFrom R 0 n a
      → k < n
      → k < fuel
      → R (byte_at a k) (byte_at a 0)
  root_last zero n a k hp h hk enough = absurd (omega arith)
  root_last (suc fuel) n a k hp h hk enough = elim (eq-cases k 0) [
    | inl e ↦
        subst (λ i. R (byte_at a i) (byte_at a 0)) (sym e)
          (R-refl less R P trans agree (byte_at a 0) (hp 0 (omega arith)))
    | inr ne ↦
        trans (byte_at a k) (byte_at a (parent k)) (byte_at a 0)
          (h k (omega arith) hk (omega arith))
          (root_last fuel n a (parent k) hp h (omega arith) (omega arith))
  ]

  -- From `m` on the array is final.
  record IsExtracted (m : ℕ) (a : List ℕ) : Type 0 where
    entries : Below R P (length a) a
    heap : IsHeapFrom R 0 m a
    tail : (j k : ℕ) → m ≤ j → j < k → k < length a → R (byte_at a j) (byte_at a k)
    across : (j k : ℕ) → j < m → m ≤ k → k < length a → R (byte_at a j) (byte_at a k)

  extract_step :
      (i : ℕ) (a : List ℕ)
      → suc i < length a
      → IsExtracted (suc (suc i)) a
      → (let b = sift_down less (suc i) (swap a 0 (suc i)) 0 (suc i) in
          IsExtracted (suc i) b × (length b ≡ length a) × ((f : ℕ → ℕ) → total f b ≡ total f a))
  extract_step i a hi x =
      let h0 : 0 < length a = omega arith in
      let c = swap a 0 (suc i) in
      let b = sift_down less (suc i) c 0 (suc i) in
      let c_first : byte_at c 0 ≡ byte_at a (suc i) =
        swap_at_first a 0 (suc i) h0 hi (omega arith) in
      let c_last : byte_at c (suc i) ≡ byte_at a 0 = swap_at_second a 0 (suc i) h0 hi in
      let c_other : (k : ℕ) → k ≢ 0 → k ≢ suc i → byte_at c k ≡ byte_at a k =
        λ k n0 n1. swap_at_other a 0 (suc i) k h0 hi n0 n1 in
      let c_size = length-swap a 0 (suc i) in
      let entries_c : Below R P (length a) c =
        swap-Below less R P trans agree P (length a) a 0 (suc i) (omega arith) h0 hi (omega arith)
          x.entries in
      let s : Sifted R 0 (suc i) c b =
        sift_down-Sifted less R P trans agree (suc i) 0 c 0 (suc i) (omega (arith, c_size))
          (omega arith) (λ k hk. entries_c k (omega arith))
          (record {
            edges = λ k pos below hlo other.
                subst (λ z. R z (byte_at c (parent k)))
                  (sym (c_other k (λ e. omega arith) (λ e. omega arith)))
                  (subst (R (byte_at a k)) (sym (c_other (parent k) other (λ e. omega arith)))
                    (x.heap k pos (omega arith) (omega arith)));
            bridged = λ k pos below p positive hlo. absurd (omega arith);
          }) in
      let origin : (k : ℕ)
          → k < suc i
          → (k' : ℕ) × (k' < suc (suc i)) × (byte_at c k ≡ byte_at a k') =
        λ k hk. elim (eq-cases k 0) [
          | inl e ↦ (suc i, omega arith, ap (byte_at c) e ∙ c_first)
          | inr ne ↦ (k, omega arith, c_other k ne (λ e. omega arith))
        ] in
      let final : (k : ℕ) → suc (suc i) ≤ k → byte_at b k ≡ byte_at a k =
        λ k hk. s.outside k (omega arith) ∙ c_other k (λ e. omega arith) (λ e. omega arith) in
      let pivot : byte_at b (suc i) ≡ byte_at a 0 = s.outside (suc i) (omega arith) ∙ c_last in
      let size = s.size ∙ c_size in
      let final_entry : (k : ℕ)
          → suc i ≤ k
          → k < length a
          → (j : ℕ) → j < suc (suc i)
          → R (byte_at a j) (byte_at b k) =
        λ k hk bound j hj. elim (eq-cases k (suc i)) [
          | inl e ↦ subst (R (byte_at a j)) (sym (ap (byte_at b) e ∙ pivot)) (
              root_last (suc j) (suc (suc i)) a j (λ q hq. x.entries q (omega arith)) x.heap hj
                (omega arith))
          | inr ne ↦
              subst (R (byte_at a j)) (sym (final k (omega arith)))
                (x.across j k hj (omega arith) bound)
        ] in
      (
        record {
          entries = λ k hk. elim (lt-cases k (suc i)) [
            | inl lt ↦ s.inside P (λ j hj. entries_c j (omega arith)) k lt
            | inr ge ↦ subst P (sym (s.outside k ge)) (entries_c k (omega (arith, size)))
          ];
          heap = s.heap;
          tail = λ j k hj hjk hk. elim (eq-cases j (suc i)) [
            | inl e ↦
                subst (λ z. R z (byte_at b k)) (sym (ap (byte_at b) e ∙ pivot))
                  (final_entry k (omega arith) (omega (arith, size)) 0 (omega arith))
            | inr ne ↦
                subst (λ z. R z (byte_at b k)) (sym (final j (omega arith)))
                  (subst (R (byte_at a j)) (sym (final k (omega arith)))
                    (x.tail j k (omega arith) hjk (omega (arith, size))))
          ];
          across = λ j k hj hk bound.
              s.inside (λ z. R z (byte_at b k))
                (λ q hq.
                  let o = origin q hq in
                  subst (λ z. R z (byte_at b k)) (sym o.2)
                    (final_entry k hk (omega (arith, size)) o.0 o.1))
                j hj;
        },
        size,
        (λ f. s.sum f ∙ total-swap f a 0 (suc i) h0 hi (omega arith)),
      )

  extract_lem :
      (i : ℕ) (a : List ℕ)
      → i < length a
      → IsExtracted (suc i) a
      → (let b = extract less i a in
          IsExtracted 1 b × (length b ≡ length a) × ((f : ℕ → ℕ) → total f b ≡ total f a))
  unfolding extract
  extract_lem zero a hi x = (x, refl, (λ f. refl))
  extract_lem (suc i) a hi x =
      let step = extract_step i a hi x in
      let ih =
        extract_lem i (sift_down less (suc i) (swap a 0 (suc i)) 0 (suc i)) (omega (arith, step.1))
          step.0 in
      (ih.0, ih.1 ∙ step.1, (λ f. ih.2 f ∙ step.2 f))

  -- For every array whose entries have a property `P`, and a test that decides a transitive order on
  -- such entries, `heapSortSuffixOrder` leaves the array sorted, with entries that have `P`, and with
  -- the same sum of every weight over its entries.
  pub heap_sort-Sorted :
      (a : List ℕ)
      → Each P a
      → Sorted R (heap_sort less a)
        × Each P (heap_sort less a)
        × ((f : ℕ → ℕ) → total f (heap_sort less a) ≡ total f a)
  unfolding heap_sort
  heap_sort-Sorted [] h = (tt, tt, (λ f. refl))
  heap_sort-Sorted (y ∷ ys) h =
      let a = y ∷ ys in
      let n = length a in
      let built =
        heapify_lem (n / 2) a (λ k hk. Each-byte_at P a k h hk)
          (λ c pos below high. absurd (omega arith)) in
      let b = heapify less (n / 2) a n in
      let size : length b ≡ suc (length ys) = built.0.size in
      let out = extract_lem (length ys) b (omega arith) (record {
        entries = built.0.entries;
        heap = subst (λ m. IsHeapFrom R 0 m b) size built.1;
        tail = λ j k hj hjk hk. absurd (omega arith);
        across = λ j k hj hk bound. absurd (omega arith);
      }) in
      let c = extract less (length ys) b in
      let count : suc (length ys) - 1 ≡ length ys = omega arith in
      let sorted : Sorted R c × Each P c × ((f : ℕ → ℕ) → total f c ≡ total f a) = (
        Sorted-from R c (λ j k hjk hk. elim (eq-cases j 0) [
          | inl e ↦ out.0.across j k (omega arith) (omega arith) hk
          | inr ne ↦ out.0.tail j k (omega arith) hjk hk
        ]),
        Each-from P c out.0.entries,
        (λ f. out.2 f ∙ built.0.sum f),
      ) in
      subst
        (λ m.
          Sorted R (extract less m b)
          × Each P (extract less m b)
          × ((f : ℕ → ℕ) → total f (extract less m b) ≡ total f a))
        (sym count) sorted
