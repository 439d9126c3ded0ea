-- ===== src/Miner/Difficulty.antt =====
-- What the target test decides: that the hash, read as a little-endian number, times the
-- difficulty is at most 2 ^ 256.
use dirtybird_go_gpu_miner.Prelude.{
  ℕ, zero, suc, ◌+◌, ◌-◌, ◌*◌, ◌/◌, ◌%◌, ◌^◌, ◌≤◌, ◌<◌, ◌≡◌, ◌↔◌, refl, sym, ap, ◌∙◌, arith, List,
  true, false, ltb, ◌==◌, byte_at, byte_at-lt, IsBytes, Bool-cases, inl, inr,
}
use dirtybird_go_gpu_miner.Miner.Target.{fill_bytes, compute_target, meets_from, meets_target}
use native.Mathlib.Nat.{
  pow-suc, one-le-pow, mod-lt, div-add-mod, mul-add-mod_self_left, mod-eq_of_lt, le-div_iff_mul-le,
  div-lt_iff_lt-mul,
}

-- The number in the first `n` bytes, the lowest first.
unfoldable pub le_value : List ℕ → ℕ → ℕ
le_value a zero = 0
le_value a (suc n) = byte_at a n * 256 ^ n + le_value a n

-- The number in the last `n` of 32 bytes, the highest first.
unfoldable pub be_value : List ℕ → ℕ → ℕ
be_value a zero = 0
be_value a (suc n) = byte_at a (31 - n) * 256 ^ n + be_value a n

le_value-lt : (a : List ℕ) (n : ℕ) → IsBytes a → le_value a n < 256 ^ n
unfolding le_value
le_value-lt a zero h = omega arith
le_value-lt a (suc n) h = grind (arith, le_value-lt a n h, byte_at-lt a n h, pow-suc 256 n)

be_value-lt : (a : List ℕ) (n : ℕ) → IsBytes a → be_value a n < 256 ^ n
unfolding be_value
be_value-lt a zero h = omega arith
be_value-lt a (suc n) h = grind (arith, be_value-lt a n h, byte_at-lt a (31 - n) h, pow-suc 256 n)

-- The higher digit decides.
digit_lt : (p t b x y : ℕ) → p < t → x < b → p * b + x ≤ t * b + y
digit_lt p t b x y h hx = grind arith

digit_gt : (p t b x y : ℕ) → t < p → y < b → t * b + y < p * b + x
digit_gt p t b x y h hy = grind arith

meets_from_lem :
    (pow target : List ℕ)
    → IsBytes pow
    → IsBytes target
    → (n i : ℕ) → i + n ≡ 32
    → (meets_from pow target n i ≡ true) ↔ (le_value pow n ≤ be_value target n)
unfolding meets_from le_value be_value
meets_from_lem pow target hp ht zero i e = ((λ _. omega arith), (λ _. refl))
meets_from_lem pow target hp ht (suc n) i e =
    let ih = meets_from_lem pow target hp ht n (i + 1) (omega arith) in
    let lo = le_value-lt pow n hp in
    let lo' = be_value-lt target n ht in
    let pow_index : 31 - i ≡ n = omega arith in
    let target_index : 31 - n ≡ i = omega arith in
    let p = byte_at pow n in
    let t = byte_at target i in
    rw (pow_index, target_index)
      (elim (Bool-cases (ltb p t)) [
        | inl e' ↦ rw e' ((λ _. digit_lt p t (256 ^ n) _ _ (ground arith) lo), (λ _. refl))
        | inr e' ↦ rw e' (elim (Bool-cases (ltb t p)) [
          | inl e'' ↦
              let above =
                digit_gt p t (256 ^ n) (le_value pow n) (be_value target n) (ground arith) lo' in
              rw e'' ((λ f. cc), (λ le. absurd (omega arith)))
          | inr e'' ↦
              let same : p ≡ t = ground arith in
              rw (e'', same) ((λ f. omega (arith, ih.0 f)), (λ le. ih.1 (omega arith)))
        ])
      ])

-- For a hash and a target of bytes, `MeetsTarget` is true exactly when the first 32 bytes of the
-- hash, read little-endian, are at most the 32 bytes of the target, read big-endian.
pub meets_target-iff-le :
    (pow target : List ℕ)
    → IsBytes pow
    → IsBytes target
    → (meets_target pow target ≡ true) ↔ (le_value pow 32 ≤ be_value target 32)
unfolding meets_target
meets_target-iff-le pow target hp ht = meets_from_lem pow target hp ht 32 0 refl

fill_bytes-IsBytes : (n v : ℕ) → IsBytes (fill_bytes n v)
unfolding fill_bytes
fill_bytes-IsBytes zero v = tt
fill_bytes-IsBytes (suc n) v = (omega arith, fill_bytes-IsBytes n v)

-- The `n` lowest bytes stand at the end of `fill_bytes`.
fill_bytes_at :
    (width n v : ℕ) → n < width → byte_at (fill_bytes width v) (width - 1 - n) ≡ v / 256 ^ n % 256
unfolding fill_bytes
fill_bytes_at zero n v h = elim h [ ]
fill_bytes_at (suc width) n v h = elim (Bool-cases (n == width)) [
  | inl e ↦
      let i : suc width - 1 - n ≡ 0 = ground arith in let j : width ≡ n = ground arith in rw (i, j)
  | inr e ↦
      let i : suc width - 1 - n ≡ suc (width - 1 - n) = ground arith in
      rw i (fill_bytes_at width n v (ground arith))
]

-- One more byte of a remainder.
mod_digit : (v b : ℕ) → 0 < b → v % (256 * b) ≡ v / b % 256 * b + v % b
mod_digit v b pos =
    let s = v / b % 256 in
    let t = s * b + v % b in
    let small : t < 256 * b = grind (arith, mod-lt v pos) in
    let split : v ≡ 256 * b * (v / b / 256) + t =
      omega (arith, div-add-mod v b, ap (λ (x : ℕ). b * x) (div-add-mod (v / b) 256)) in
    ap (λ x. x % (256 * b)) split
    ∙ mul-add-mod_self_left (256 * b) (v / b / 256) t
    ∙ mod-eq_of_lt small

be_value-fill_bytes : (n v : ℕ) → n ≤ 32 → be_value (fill_bytes 32 v) n ≡ v % 256 ^ n
unfolding be_value
be_value-fill_bytes zero v h = omega arith
be_value-fill_bytes (suc n) v h =
    let power : 256 ^ suc n ≡ 256 * 256 ^ n = omega (arith, pow-suc 256 n) in
    let digits = ap (λ x. v % x) power ∙ mod_digit v (256 ^ n) (one-le-pow n 256 (omega arith)) in
    rw (fill_bytes_at 32 n v (omega arith), be_value-fill_bytes n v (omega arith)) (sym digits)

-- The targets as numbers.
compute_target_value : (diff : ℕ) → 1 < diff → be_value (compute_target diff) 32 ≡ 2 ^ 256 / diff
unfolding compute_target
compute_target_value diff h =
    let n0 : (diff == 0) ≡ false = ground arith in
    let n1 : (diff == 1) ≡ false = ground arith in
    let fits : 2 ^ 256 / diff < 256 ^ 32 = (div-lt_iff_lt-mul (omega arith)).1 (omega arith) in
    rw (n0, n1) (be_value-fill_bytes 32 (2 ^ 256 / diff) (omega arith) ∙ mod-eq_of_lt fits)

compute_target_one : be_value (compute_target 1) 32 ≡ 2 ^ 256 - 1
unfolding compute_target be_value
compute_target_one = refl

compute_target_zero : be_value (compute_target 0) 32 ≡ 0
unfolding compute_target be_value
compute_target_zero = refl

-- The quotient by a difficulty of at least 1 bounds the same numbers as the product.
le_quotient : (x diff : ℕ) → 0 < diff → (x ≤ 2 ^ 256 / diff) ↔ (x * diff ≤ 2 ^ 256)
le_quotient x diff h = le-div_iff_mul-le h

compute_target-IsBytes : (diff : ℕ) → IsBytes (compute_target diff)
unfolding compute_target
compute_target-IsBytes diff = elim (Bool-cases (diff == 0)) [
  | inl e ↦ rw e (omega arith)
  | inr e ↦ rw e (elim (Bool-cases (diff == 1)) [
    | inl e' ↦ rw e' (omega arith)
    | inr e' ↦ rw e' (fill_bytes-IsBytes 32 (2 ^ 256 / diff))
  ])
]

-- For a hash of bytes and a difficulty above 0, the hash meets the computed target exactly when its
-- little-endian value times the difficulty is at most 2 ^ 256.
pub meets-compute_target :
    (pow : List ℕ) (diff : ℕ)
    → IsBytes pow
    → 0 < diff
    → (meets_target pow (compute_target diff) ≡ true) ↔ (le_value pow 32 * diff ≤ 2 ^ 256)
meets-compute_target pow diff hp h =
    let base = meets_target-iff-le pow (compute_target diff) hp (compute_target-IsBytes diff) in
    elim (Bool-cases (diff == 1)) [
      | inl e ↦
          let one : diff ≡ 1 = ground arith in
          let low = le_value-lt pow 32 hp in
          let top = ap (λ d. be_value (compute_target d) 32) one ∙ compute_target_one in
          (
            (λ _. omega (arith, low, ap (λ (d : ℕ). le_value pow 32 * d) one)),
            (λ _. base.1 (omega (arith, low, top))),
          )
      | inr e ↦
          let value = compute_target_value diff (ground arith) in
          let quotient = le_quotient (le_value pow 32) diff h in
          (
            (λ m. quotient.0 (omega (arith, base.0 m, value))),
            (λ le. base.1 (omega (arith, quotient.1 le, value))),
          )
    ]

-- For difficulty 0, a hash of bytes meets the computed target exactly when its value is 0.
pub meets-compute_target_zero :
    (pow : List ℕ)
    → IsBytes pow
    → (meets_target pow (compute_target 0) ≡ true) ↔ (le_value pow 32 ≡ 0)
meets-compute_target_zero pow hp =
    let base = meets_target-iff-le pow (compute_target 0) hp (compute_target-IsBytes 0) in
    let zero_value = compute_target_zero in
    ((λ m. omega (arith, base.0 m, zero_value)), (λ e. base.1 (omega (arith, zero_value))))
