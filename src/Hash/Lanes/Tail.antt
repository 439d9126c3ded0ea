-- ===== src/Hash/Lanes/Tail.antt =====
-- The tail that `sha256FinishNI` of internal/astrobwt/sha256mb.go fills, as a list.
use dirtybird_go_gpu_miner.Prelude.{
  ℕ, zero, suc, ◌+◌, ◌-◌, ◌*◌, ◌/◌, ◌%◌, ◌^◌, ◌≤◌, ◌<◌, ◌≡◌, inl, inr, refl, sym, ap, ap₂, ◌∙◌,
  arith, List, [], ◌∷◌, ◌++◌, append_assoc, min, length, length-append, length-drop, take, drop,
  replicate, set, copy_at, leb, Bool-cases,
}
use dirtybird_go_gpu_miner.Hash.Lanes.{bit_length, tail_length, filled_tail}

copy_at-zeros :
    (n : ℕ) (xs : List ℕ)
    → length xs ≤ n
    → copy_at (replicate n 0) 0 xs ≡ xs ++ replicate (n - length xs) 0
unfolding copy_at
copy_at-zeros zero [] h = refl
copy_at-zeros zero (x ∷ xs) h = absurd (omega arith)
copy_at-zeros (suc n) [] h = let e : suc n - 0 ≡ suc n = omega arith in rw e refl
copy_at-zeros (suc n) (x ∷ xs) h =
    let e : suc n - suc (length xs) ≡ n - length xs = omega arith in
    rw e (ap (λ ys. x ∷ ys) (copy_at-zeros n xs (omega arith)))

set-zeros :
    (xs : List ℕ) (m v : ℕ)
    → set (xs ++ replicate (suc m) 0) (length xs) v ≡ xs ++ (v ∷ replicate m 0)
set-zeros [] m v = refl
set-zeros (x ∷ xs) m v = ap (λ ys. x ∷ ys) (set-zeros xs m v)

copy_at-behind :
    (xs ys : List ℕ) (j : ℕ) (src : List ℕ)
    → copy_at (xs ++ ys) (length xs + j) src ≡ xs ++ copy_at ys j src
unfolding copy_at
copy_at-behind [] ys j src = ap (λ i. copy_at ys i src) (omega arith)
copy_at-behind (x ∷ xs) ys j src =
    let e : suc (length xs) + j ≡ suc (length xs + j) = omega arith in
    rw e (ap (λ zs. x ∷ zs) (copy_at-behind xs ys j src))

take-copy_at-zeros :
    (j n : ℕ) (src : List ℕ)
    → j + length src ≤ n
    → take (j + length src) (copy_at (replicate n 0) j src) ≡ replicate j 0 ++ src
unfolding copy_at
take-copy_at-zeros zero n src h = first n src h
  where
    first :
        (n : ℕ) (src : List ℕ)
        → 0 + length src ≤ n
        → take (0 + length src) (copy_at (replicate n 0) 0 src) ≡ src
    first n [] h = refl
    first zero (x ∷ src) h = absurd (omega arith)
    first (suc n) (x ∷ src) h =
        let e : 0 + suc (length src) ≡ suc (0 + length src) = omega arith in
        rw e (ap (λ ys. x ∷ ys) (first n src (omega arith)))
take-copy_at-zeros (suc j) zero src h = absurd (omega arith)
take-copy_at-zeros (suc j) (suc n) src h =
    let e : suc j + length src ≡ suc (j + length src) = omega arith in
    rw e (ap (λ ys. 0 ∷ ys) (take-copy_at-zeros j n src (omega arith)))

take-behind : (xs ys : List ℕ) (n : ℕ) → take (length xs + n) (xs ++ ys) ≡ xs ++ take n ys
take-behind [] ys n = ap (λ i. take i ys) (omega arith)
take-behind (x ∷ xs) ys n =
    let e : suc (length xs) + n ≡ suc (length xs + n) = omega arith in
    rw e (ap (λ zs. x ∷ zs) (take-behind xs ys n))

length-bit_length : (n : ℕ) → length (bit_length n) ≡ 8
unfolding bit_length
length-bit_length n = refl

tail_size :
    (rem h b : ℕ) → rem < 64 → h ≡ rem + 1 → b ≡ 8 → tail_length rem ≡ h + ((119 - rem) % 64 + b)
unfolding tail_length
tail_size rem h b few e eight = elim (Bool-cases (leb 56 rem)) [
  | inl long ↦ let high : 56 ≤ rem = ground arith in rw long (omega arith)
  | inr short ↦ let low : rem < 56 = ground arith in rw short (omega arith)
]

-- The tail, cut at its length, is the rest of the message with the padding.
pub tail_lem :
    (p : List ℕ) (full : ℕ)
    → full ≡ length p / 2 ^ 6 * 2 ^ 6
    → take (tail_length (min (length (drop full p)) 128)) (filled_tail p full)
      ≡ drop full p ++ (0x80 ∷ (replicate ((119 - length p % 64) % 64) 0 ++ bit_length (length p)))
unfolding filled_tail
tail_lem p full e =
    let rest = drop full p in
    let size : length rest ≡ length p % 64 = omega (arith, length-drop full p) in
    let rem : min (length rest) 128 ≡ length rest = omega (arith, size) in
    let zeros = (119 - length p % 64) % 64 in
    let bits = bit_length (length p) in
    let eight = length-bit_length (length p) in
    let n = 127 - length rest in
    let room : 128 - length rest ≡ suc n = omega (arith, size) in
    let copied : copy_at (replicate 128 0) 0 rest ≡ rest ++ replicate (suc n) 0 =
      copy_at-zeros 128 rest (omega (arith, size)) ∙ ap (λ m. rest ++ replicate m 0) room in
    let marked : set (copy_at (replicate 128 0) 0 rest) (length rest) 0x80
        ≡ (rest ++ (0x80 ∷ [])) ++ replicate n 0 =
      ap (λ xs. set xs (length rest) 0x80) copied
      ∙ set-zeros rest n 0x80
      ∙ sym (append_assoc rest (0x80 ∷ []) (replicate n 0)) in
    let head = rest ++ (0x80 ∷ []) in
    let head_size = length-append rest (0x80 ∷ []) in
    let long : tail_length (length rest) ≡ length head + (zeros + length bits) =
      tail_size (length rest) (length head) (length bits) (omega (arith, size))
        (omega (arith, head_size)) eight
      ∙ ap (λ m. length head + ((119 - m) % 64 + length bits)) size in
    let place : tail_length (length rest) - 8 ≡ length head + zeros = omega (arith, long, eight) in
    ap
      (λ r.
        take (tail_length r)
          (copy_at (set (copy_at (replicate 128 0) 0 rest) r 0x80) (tail_length r - 8) bits))
      rem
    ∙ ap₂ (λ xs i. take (tail_length (length rest)) (copy_at xs i bits)) marked place
    ∙ ap₂ take long (copy_at-behind head (replicate n 0) zeros bits)
    ∙ take-behind head (copy_at (replicate n 0) zeros bits) (zeros + length bits)
    ∙ ap (λ xs. head ++ xs) (take-copy_at-zeros zeros n bits (omega (arith, size, eight)))
    ∙ append_assoc rest (0x80 ∷ []) (replicate zeros 0 ++ bits)
