-- ===== src/SuffixArray/Merge/Strict.antt =====
-- A lower key is an earlier suffix, and the groups of sorted records have strictly rising keys.
use dirtybird_go_gpu_miner.Prelude.{
  ℕ, ◌+◌, ◌*◌, ◌≤◌, ◌<◌, ◌≡◌, ◌⊎◌, inl, inr, sym, ap, ◌∙◌, subst, arith, List, [], ◌∷◌, length,
  byte_at, byte_at-lt, ◌==◌, Bool-cases, Each, Each-map, Each-append,
}
use dirtybird_go_gpu_miner.SuffixArray.Lex.{LexLe}
use dirtybird_go_gpu_miner.SuffixArray.View.{View, suffix}
use dirtybird_go_gpu_miner.SuffixArray.Keys.{radix_at}
use dirtybird_go_gpu_miner.SuffixArray.Suffixes.{
  IsView, length-suffix, suffix_le_first, suffix_le_next,
}
use dirtybird_go_gpu_miner.SuffixArray.Order.{SuffixLe}
use dirtybird_go_gpu_miner.SuffixArray.Sorting.{Sorted}
use dirtybird_go_gpu_miner.SuffixArray.Runs.{Run}
use dirtybird_go_gpu_miner.SuffixArray.Stable.{
  IsGroup, flatten, flatten-key_groups, key_groups-IsGroup,
}
use dirtybird_go_gpu_miner.SuffixArray.Emit.{join_group, key_groups}
use dirtybird_go_gpu_miner.SuffixArray.Merge.Radix.{KeyLe}

module _ (v : View) (ok : IsView v) where
  -- Beyond the end the key's bytes are zeros, so a lower key is an earlier suffix there too.
  SuffixLe-end : (p q : ℕ) → p ≡ v.logical_len → SuffixLe v p q
  SuffixLe-end p q e = nil (suffix v p) (suffix v q) (omega (arith, length-suffix v ok p))
    where
      nil : (xs ys : List ℕ) → length xs ≡ 0 → LexLe xs ys
      nil [] ys h = tt
      nil (x ∷ xs) ys h = absurd (omega arith)

  at_end : (i q : ℕ) → i < 3 → q ≡ v.logical_len → byte_at v.text (q + i) ≡ 0
  at_end i q h e = ap (λ n. byte_at v.text (n + i)) e ∙ ok.padded i h

  eq-cases : (x y : ℕ) → x ≤ y → (x ≡ y) ⊎ (x < y)
  eq-cases x y h = ground arith

  first_byte_lt :
      (p q : ℕ)
      → p ≤ v.logical_len
      → q ≤ v.logical_len
      → byte_at v.text p < byte_at v.text q
      → SuffixLe v p q
  first_byte_lt p q hp hq h = elim (eq-cases p v.logical_len hp) [
    | inl e ↦ SuffixLe-end p q e
    | inr lp ↦ elim (eq-cases q v.logical_len hq) [
      | inl e ↦
          let none_ : q + 0 ≡ q = omega arith in
          absurd (omega (arith, at_end 0 q (omega arith) e, ap (byte_at v.text) none_))
      | inr lq ↦ suffix_le_first v ok p q lp lq h
    ]
  ]

  byte-cases : (x y : ℕ) → (x < y) ⊎ ((x ≡ y) ⊎ (y < x))
  byte-cases x y = ground arith

  two_bytes_lt :
      (p q : ℕ)
      → p ≤ v.logical_len
      → q ≤ v.logical_len
      → byte_at v.text p * 256 + byte_at v.text (p + 1)
        < byte_at v.text q * 256 + byte_at v.text (q + 1)
      → SuffixLe v p q
  two_bytes_lt p q hp hq h = elim (eq-cases p v.logical_len hp) [
    | inl e ↦ SuffixLe-end p q e
    | inr lp ↦ elim (eq-cases q v.logical_len hq) [
      | inl e ↦
          let none_ : q + 0 ≡ q = omega arith in
          absurd (
            omega (
              arith,
              at_end 0 q (omega arith) e,
              at_end 1 q (omega arith) e,
              ap (byte_at v.text) none_,
            ))
      | inr lq ↦
          let low = byte_at-lt v.text (p + 1) ok.bytes in
          let low' = byte_at-lt v.text (q + 1) ok.bytes in
          elim (byte-cases (byte_at v.text p) (byte_at v.text q)) [
            | inl lt ↦ suffix_le_first v ok p q lp lq lt
            | inr (inl eq) ↦
                suffix_le_next v ok p q lp lq eq
                  (first_byte_lt (p + 1) (q + 1) (omega arith) (omega arith) (omega arith))
            | inr (inr gt) ↦ absurd (omega arith)
          ]
    ]
  ]

  pub key_lt-SuffixLe :
      (p q : ℕ)
      → p < v.logical_len
      → q < v.logical_len
      → radix_at v.text p < radix_at v.text q
      → SuffixLe v p q
  key_lt-SuffixLe p q hp hq h =
      let bytes = ok.bytes in
      let p1 = byte_at-lt v.text (p + 1) bytes in
      let p2 = byte_at-lt v.text (p + 2) bytes in
      let q1 = byte_at-lt v.text (q + 1) bytes in
      let q2 = byte_at-lt v.text (q + 2) bytes in
      let p_next : p + 1 + 1 ≡ p + 2 = omega arith in
      let q_next : q + 1 + 1 ≡ q + 2 = omega arith in
      elim (byte-cases (byte_at v.text p) (byte_at v.text q)) [
        | inl lt ↦ suffix_le_first v ok p q hp hq lt
        | inr (inl eq) ↦ suffix_le_next v ok p q hp hq eq (
            two_bytes_lt (p + 1) (q + 1) (omega arith) (omega arith)
              (omega (arith, ap (byte_at v.text) p_next, ap (byte_at v.text) q_next)))
        | inr (inr gt) ↦ absurd (omega arith)
      ]

-- Every key of a group is below every key of the later groups.
abbrev pub StrictGroups : List (List Run) → Type 0
StrictGroups [] = Unit
StrictGroups (g ∷ gs) = Each (λ x. Each (λ y. x.key < y.key) (flatten gs)) g × StrictGroups gs

join_group-Strict :
    (x : Run) (gs : List (List Run))
    → Each (KeyLe x) (flatten gs)
    → Each (IsGroup (λ r. r.key)) gs
    → StrictGroups gs
    → StrictGroups (join_group (λ r. r.key) x gs)
unfolding join_group
join_group-Strict x [] low groups h = ((tt, tt), tt)
join_group-Strict x ([] ∷ gs) low groups h = absurd groups.0
join_group-Strict x ((y ∷ g) ∷ gs) low groups h = elim (Bool-cases (y.key == x.key)) [
  | inl e ↦
      let same : y.key ≡ x.key = ground arith in
      rw e (
        (
          Each-map (λ z. y.key < z.key) (λ z. x.key < z.key) (λ z q. omega arith) (flatten gs)
              h.0.0,
          h.0,
        ),
        h.1,
      )
  | inr e ↦
      let less : x.key < y.key = let le = low.0 in ground arith in
      rw e (
        (
          (
            less,
            Each-append (λ z. x.key < z.key) g (flatten gs)
                (Each-map (λ z. z.key ≡ y.key) (λ z. x.key < z.key) (λ z q. omega arith) g groups.0)
                (Each-map (λ z. y.key < z.key) (λ z. x.key < z.key) (λ z q. omega arith)
                  (flatten gs) h.0.0),
          ),
          tt,
        ),
        h,
      )
]

pub key_groups-Strict :
    (rs : List Run) → Sorted KeyLe rs → StrictGroups (key_groups (λ r. r.key) rs)
unfolding key_groups
key_groups-Strict [] h = tt
key_groups-Strict (r ∷ rs) h =
    join_group-Strict r (key_groups (λ x. x.key) rs)
      (subst (Each (KeyLe r)) (sym (flatten-key_groups (λ x. x.key) rs)) h.0)
      (key_groups-IsGroup (λ x. x.key) rs) (key_groups-Strict rs h.1)
