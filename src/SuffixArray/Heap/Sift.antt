-- ===== src/SuffixArray/Heap/Sift.antt =====
-- What one sift keeps and restores: the heap order, with every child before its parent.
use dirtybird_go_gpu_miner.Prelude.{
  ℕ, zero, suc, ◌+◌, ◌-◌, ◌*◌, ◌/◌, ◌≤◌, ◌<◌, ◌≡◌, ◌≢◌, ◌⊎◌, inl, inr, refl, sym, ap, ◌∙◌, subst,
  arith, List, Bool, ltb, leb, length, byte_at, Bool-cases,
}
use dirtybird_go_gpu_miner.Rc4.Arrays.{swap, length-swap}
use dirtybird_go_gpu_miner.SuffixArray.Sorting.{Agrees, total}
use dirtybird_go_gpu_miner.SuffixArray.Heap.{greater_child, sift_down}
use dirtybird_go_gpu_miner.SuffixArray.Heap.Arrays.{
  swap_at_first, swap_at_second, swap_at_other, total-swap,
}

abbrev pub parent : ℕ → ℕ
parent c = (c - 1) / 2

module _ (R : ℕ → ℕ → Type 0) where
  -- Every child below `n` whose parent is at `lo` or later is in order.
  abbrev pub IsHeapFrom : ℕ → ℕ → List ℕ → Type 0
  IsHeapFrom lo n a =
      (c : ℕ) → 0 < c → c < n → lo ≤ parent c → R (byte_at a c) (byte_at a (parent c))

  -- The same but for the children of `i`, which are in order with the parent of `i`.
  pub record DownInv (lo n : ℕ) (a : List ℕ) (i : ℕ) : Type 0 where
    pub edges :
        (c : ℕ)
        → 0 < c
        → c < n
        → lo ≤ parent c
        → parent c ≢ i
        → R (byte_at a c) (byte_at a (parent c))
    pub bridged :
        (c : ℕ)
        → 0 < c
        → c < n
        → parent c ≡ i
        → 0 < i
        → lo ≤ parent i
        → R (byte_at a c) (byte_at a (parent i))

  -- A property of the entries below `n`.
  abbrev pub Below : (ℕ → Type 0) → ℕ → List ℕ → Type 0
  Below Q n a = (k : ℕ) → k < n → Q (byte_at a k)

  -- What a sift of the first `n` entries does.
  pub record Sifted (lo n : ℕ) (a b : List ℕ) : Type 1 where
    pub size : length b ≡ length a
    pub heap : IsHeapFrom lo n b
    pub inside : (Q : ℕ → Type 0) → Below Q n a → Below Q n b
    pub sum : (f : ℕ → ℕ) → total f b ≡ total f a
    pub outside : (k : ℕ) → n ≤ k → byte_at b k ≡ byte_at a k

pub child-cases :
    (c root : ℕ) → 0 < c → parent c ≡ root → (c ≡ 2 * root + 1) ⊎ (c ≡ 2 * root + 1 + 1)
child-cases c root h e = ground arith

pub eq-cases : (x y : ℕ) → (x ≡ y) ⊎ (x ≢ y)
eq-cases x y = ground arith

module _ (less : ℕ → ℕ → Bool) (R : ℕ → ℕ → Type 0) (P : ℕ → Type 0)
    (trans : (x y z : ℕ) → R x y → R y z → R x z)
    (agree : (x y : ℕ) → P x → P y → Agrees less R x y) where
  pub R-refl : (x : ℕ) → P x → R x x
  R-refl x p = elim (Bool-cases (less x x)) [
    | inl e ↦ (agree x x p p).0 e
    | inr e ↦ (agree x x p p).1 e
  ]

  greater_child_lem :
      (a : List ℕ) (root n : ℕ)
      → Below R P n a
      → 2 * root + 1 < n
      → (greater_child less a root n < n)
        × (parent (greater_child less a root n) ≡ root)
        × (root < greater_child less a root n)
        × ((c : ℕ)
            → 0 < c
            → c < n
            → parent c ≡ root
            → R (byte_at a c) (byte_at a (greater_child less a root n)))
  unfolding greater_child
  greater_child_lem a root n hp h =
      let child = 2 * root + 1 in
      let left = byte_at a child in
      let right = byte_at a (child + 1) in
      elim (Bool-cases (ltb (child + 1) n)) [
        | inr e ↦ rw e (
          h,
          omega arith,
          omega arith,
          (λ c pos below p. elim (child-cases c root pos p) [
            | inl c_left ↦ subst (λ i. R (byte_at a i) left) (sym c_left) (R-refl left (hp child h))
            | inr c_right ↦ absurd (ground arith)
          ]),
        )
        | inl e ↦
            let hr : child + 1 < n = ground arith in
            let agreed = agree left right (hp child h) (hp (child + 1) hr) in
            elim (Bool-cases (less left right)) [
              | inl e' ↦
                  rw (e, e')
                    (
                      hr,
                      omega arith,
                      omega arith,
                      (λ c pos below p. elim (child-cases c root pos p) [
                        | inl c_left ↦ subst (λ i. R (byte_at a i) right) (sym c_left) (agreed.0 e')
                        | inr c_right ↦
                            subst (λ i. R (byte_at a i) right) (sym c_right)
                              (R-refl right (hp (child + 1) hr))
                      ]),
                    )
              | inr e' ↦
                  rw (e, e')
                    (
                      h,
                      omega arith,
                      omega arith,
                      (λ c pos below p. elim (child-cases c root pos p) [
                        | inl c_left ↦
                            subst (λ i. R (byte_at a i) left) (sym c_left)
                              (R-refl left (hp child h))
                        | inr c_right ↦
                            subst (λ i. R (byte_at a i) left) (sym c_right) (agreed.1 e')
                      ]),
                    )
            ]
      ]

  R-at : {x x' y y' : ℕ} → x ≡ x' → y ≡ y' → R x' y' → R x y
  R-at {x' = x'} {y = y} e e' r = subst (λ z. R z y) (sym e) (subst (R x') (sym e') r)

  swap-DownInv :
      (lo n : ℕ) (a : List ℕ) (root child : ℕ)
      → n ≤ length a
      → DownInv R lo n a root
      → child < n
      → parent child ≡ root
      → root < child
      → ((c : ℕ) → 0 < c → c < n → parent c ≡ root → R (byte_at a c) (byte_at a child))
      → R (byte_at a root) (byte_at a child)
      → DownInv R lo n (swap a root child) child
  swap-DownInv lo n a root child size inv hc pc low greatest up =
      let hr : root < length a = omega arith in
      let hcl : child < length a = omega arith in
      let at_root = swap_at_first a root child hr hcl low in
      let at_child = swap_at_second a root child hr hcl in
      record {
        edges = λ c pos below hlo other. elim (eq-cases c child) [
          | inl e ↦
              R-at (ap (byte_at (swap a root child)) e ∙ at_child)
                (ap (λ i. byte_at (swap a root child) (parent i)) e
                  ∙ ap (byte_at (swap a root child)) pc
                  ∙ at_root)
                up
          | inr ne ↦ elim (eq-cases (parent c) root) [
            | inl e ↦
                R-at (swap_at_other a root child c hr hcl (omega arith) ne)
                  (ap (byte_at (swap a root child)) e ∙ at_root) (greatest c pos below e)
            | inr np ↦ elim (eq-cases c root) [
              | inl e ↦
                  R-at (ap (byte_at (swap a root child)) e ∙ at_root)
                    (swap_at_other a root child (parent c) hr hcl np other
                      ∙ ap (λ i. byte_at a (parent i)) e)
                    (inv.bridged child (omega arith) hc pc (omega arith)
                      (subst (λ i. lo ≤ parent i) e hlo))
              | inr nr ↦
                  R-at (swap_at_other a root child c hr hcl nr ne)
                    (swap_at_other a root child (parent c) hr hcl np other)
                    (inv.edges c pos below hlo np)
            ]
          ]
        ];
        bridged = λ c pos below p positive hlo.
            R-at (swap_at_other a root child c hr hcl (omega arith) (omega arith))
              (ap (byte_at (swap a root child)) pc ∙ at_root)
              (subst (λ i. R (byte_at a c) (byte_at a i)) p
                (inv.edges c pos below (omega arith) (λ e. omega arith)));
      }

  pub swap-Below :
      (Q : ℕ → Type 0) (n : ℕ) (a : List ℕ) (i j : ℕ)
      → n ≤ length a
      → i < n
      → j < n
      → i < j
      → Below R Q n a
      → Below R Q n (swap a i j)
  swap-Below Q n a i j size hi hj low h k hk =
      let li : i < length a = omega arith in
      let lj : j < length a = omega arith in
      elim (eq-cases k i) [
        | inl e ↦
            subst Q (sym (ap (byte_at (swap a i j)) e ∙ swap_at_first a i j li lj low)) (h j hj)
        | inr ni ↦ elim (eq-cases k j) [
          | inl e ↦
              subst Q (sym (ap (byte_at (swap a i j)) e ∙ swap_at_second a i j li lj)) (h i hi)
          | inr nj ↦ subst Q (sym (swap_at_other a i j k li lj ni nj)) (h k hk)
        ]
      ]

  unsifted : (lo n : ℕ) (a : List ℕ) → IsHeapFrom R lo n a → Sifted R lo n a a
  unsifted lo n a h = record {
    size = refl;
    heap = h;
    inside = λ Q q. q;
    sum = λ f. refl;
    outside = λ k hk. refl;
  }

  -- A sift with enough rounds turns the first `n` entries, with one of them too high, into a heap of
  -- the same entries.
  pub sift_down-Sifted :
      (fuel lo : ℕ) (a : List ℕ) (root n : ℕ)
      → n ≤ length a
      → n ≤ root + fuel
      → Below R P n a
      → DownInv R lo n a root
      → Sifted R lo n a (sift_down less fuel a root n)
  unfolding sift_down
  sift_down-Sifted zero lo a root n size enough hp inv =
      unsifted lo n a (λ c pos below hlo. inv.edges c pos below hlo (omega arith))
  sift_down-Sifted (suc fuel) lo a root n size enough hp inv =
      elim (Bool-cases (leb n (2 * root + 1))) [
        | inl e ↦
            let leaf : n ≤ 2 * root + 1 = ground arith in
            rw e (unsifted lo n a (λ c pos below hlo. inv.edges c pos below hlo (omega arith)))
        | inr e ↦
            let g = greater_child_lem a root n hp (ground arith) in
            let child = greater_child less a root n in
            let agreed =
              agree (byte_at a root) (byte_at a child) (hp root (omega (arith, g.0, g.2)))
                (hp child g.0) in
            elim (Bool-cases (less (byte_at a root) (byte_at a child))) [
              | inr e' ↦
                  rw (e, e')
                    (unsifted lo n a (λ c pos below hlo. elim (eq-cases (parent c) root) [
                      | inl p ↦
                          subst (λ i. R (byte_at a c) (byte_at a i)) (sym p)
                            (trans (byte_at a c) (byte_at a child) (byte_at a root)
                              (g.3 c pos below p) (agreed.1 e'))
                      | inr np ↦ inv.edges c pos below hlo np
                    ]))
              | inl e' ↦
                  let inv' =
                    swap-DownInv lo n a root child size inv g.0 g.1 g.2 g.3 (agreed.0 e') in
                  let hr : root < n = omega (arith, g.0, g.2) in
                  let s =
                    sift_down-Sifted fuel lo (swap a root child) child n
                      (omega (arith, length-swap a root child)) (omega (arith, g.2))
                      (swap-Below P n a root child size hr g.0 g.2 hp) inv' in
                  rw (e, e')
                    (record {
                      size = s.size ∙ length-swap a root child;
                      heap = s.heap;
                      inside = λ Q q. s.inside Q (swap-Below Q n a root child size hr g.0 g.2 q);
                      sum = λ f.
                          s.sum f
                          ∙ total-swap f a root child (omega arith) (omega (arith, g.0)) g.2;
                      outside = λ k hk.
                          s.outside k hk
                          ∙ swap_at_other a root child k (omega arith) (omega (arith, g.0))
                              (omega arith) (omega (arith, g.0));
                    })
            ]
      ]
