-- ===== src/Hash/Lanes/Padding.antt =====
-- `sha256Sum256Pair` of internal/astrobwt/sha256mb.go beside SHA-256 as it is documented: the padding,
-- the shared blocks and the rest of each message.
use dirtybird_go_gpu_miner.Prelude.{
  ℕ, zero, suc, ◌+◌, ◌-◌, ◌*◌, ◌/◌, ◌%◌, ◌^◌, ◌≤◌, ◌<◌, ◌≡◌, inl, inr, refl, sym, ap, ap₂, ◌∙◌,
  arith, List, [], ◌∷◌, ◌++◌, append_assoc, min, length, length-take, take, drop, take-append-drop,
  replicate, true, false, ltb, not, if◌then◌else◌, Bool-cases,
}
use dirtybird_go_gpu_miner.Hash.Lanes.{
  Kernels, sha256_iv, bit_length, put_state, sha256_finish_ni, sha256_sum256_pair,
}
use dirtybird_go_gpu_miner.Hash.Lanes.Tail.{tail_lem}
use dirtybird_go_gpu_miner.Hash.Lanes.Standard.{be_digits, standard_iv, standard_padding, digest}

-- What the standard and the comments on the kernels say: the digest is the compression of the padded
-- message from the initial state, compression goes block by block, and the two lanes are independent.
-- The standard's messages have fewer than 2 ^ 64 bits.
pub record DocumentedKernels (k : Kernels) : Type 0 where
  pub sha256-padded :
      (p : List ℕ)
      → length p < 2 ^ 61
      → k.sha256 p ≡ digest (k.blocks standard_iv (p ++ standard_padding (length p)))
  pub blocks-append :
      (state xs ys : List ℕ)
      → length xs % 64 ≡ 0
      → k.blocks state (xs ++ ys) ≡ k.blocks (k.blocks state xs) ys
  pub blocks-nil : (state : List ℕ) → k.blocks state [] ≡ state
  pub blocks2-both : (s p s' p' : List ℕ) → k.blocks2 s p s' p' ≡ (k.blocks s p, k.blocks s' p')

-- The constants, the bytes of the length and those of the digest are the standard's.
iv_lem : sha256_iv ≡ standard_iv
iv_lem = refl

bit_length_lem : (n : ℕ) → n < 2 ^ 61 → bit_length n ≡ be_digits 8 (8 * n)
unfolding bit_length be_digits
bit_length_lem n few =
    let e : n * 2 ^ 3 % 2 ^ 64 ≡ 8 * n = omega arith in
    let last : 8 * n % 256 ≡ 8 * n / 1 % 256 = omega arith in
    rw e (
      ap
        (λ x.
          8 * n / 2 ^ 56 % 256
          ∷ 8 * n / 2 ^ 48 % 256
          ∷ 8 * n / 2 ^ 40 % 256
          ∷ 8 * n / 2 ^ 32 % 256
          ∷ 8 * n / 2 ^ 24 % 256
          ∷ 8 * n / 2 ^ 16 % 256
          ∷ 8 * n / 2 ^ 8 % 256
          ∷ x
          ∷ [])
        last)

put_state_lem : (state : List ℕ) → put_state state ≡ digest state
unfolding put_state digest be_digits
put_state_lem [] = refl
put_state_lem (word ∷ words) =
    let last : word % 256 ≡ word / 1 % 256 = omega arith in
    ap₂ (λ x xs. word / 2 ^ 24 % 256 ∷ word / 2 ^ 16 % 256 ∷ word / 2 ^ 8 % 256 ∷ x ∷ xs) last
      (put_state_lem words)

padding_lem :
    (n : ℕ)
    → n < 2 ^ 61
    → 0x80 ∷ (replicate ((119 - n % 64) % 64) 0 ++ bit_length n) ≡ standard_padding n
unfolding standard_padding
padding_lem n few =
    ap (λ xs. 0x80 ∷ (replicate ((119 - n % 64) % 64) 0 ++ xs)) (bit_length_lem n few)

module _ (k : Kernels) (doc : DocumentedKernels k) where
  -- From the state behind the whole blocks, `sha256FinishNI` gives the digest.
  finish_lem :
      (p : List ℕ) (full : ℕ) (state : List ℕ)
      → length p < 2 ^ 61
      → full ≡ length p / 2 ^ 6 * 2 ^ 6
      → state ≡ k.blocks sha256_iv (take full p)
      → sha256_finish_ni k state p full ≡ k.sha256 p
  unfolding sha256_finish_ni
  finish_lem p full state few e at =
      let pad = standard_padding (length p) in
      let blocks_whole : length (take full p) % 64 ≡ 0 = omega (arith, length-take full p) in
      let split : take full p ++ (drop full p ++ pad) ≡ p ++ pad =
        sym (append_assoc (take full p) (drop full p) pad)
        ∙ ap (λ xs. xs ++ pad) (take-append-drop full p) in
      let tail = tail_lem p full e ∙ ap (λ xs. drop full p ++ xs) (padding_lem (length p) few) in
      ap₂ (λ s t. put_state (k.blocks s t)) at tail
      ∙ ap put_state
          (sym (doc.blocks-append sha256_iv (take full p) (drop full p ++ pad) blocks_whole))
      ∙ ap₂ (λ iv xs. put_state (k.blocks iv xs)) iv_lem split
      ∙ put_state_lem (k.blocks standard_iv (p ++ pad))
      ∙ sym (doc.sha256-padded p few)

  take-add : (m n : ℕ) (xs : List ℕ) → take m xs ++ take n (drop m xs) ≡ take (m + n) xs
  take-add zero n xs = ap (λ i. take i xs) (omega arith)
  take-add (suc m) zero [] = let e : suc m + 0 ≡ suc m = omega arith in rw e refl
  take-add (suc m) (suc n) [] = let e : suc m + suc n ≡ suc (m + suc n) = omega arith in rw e refl
  take-add (suc m) n (x ∷ xs) =
      let e : suc m + n ≡ suc (m + n) = omega arith in rw e (ap (λ ys. x ∷ ys) (take-add m n xs))

  -- The state behind the whole blocks: the shared ones first, then the others.
  lane_state :
      (p : List ℕ) (full shared : ℕ) (st : List ℕ)
      → full ≡ length p / 2 ^ 6 * 2 ^ 6
      → shared * 2 ^ 6 ≤ full
      → st ≡ k.blocks sha256_iv (take (shared * 2 ^ 6) p)
      → (let n = full / 2 ^ 6 - shared in
          if ltb 0 n then k.blocks st (take (n * 2 ^ 6) (drop (shared * 2 ^ 6) p)) else st)
        ≡ k.blocks sha256_iv (take full p)
  lane_state p full shared st e le at =
      let n = full / 2 ^ 6 - shared in
      let whole : shared * 2 ^ 6 + n * 2 ^ 6 ≡ full = omega arith in
      let first_whole : length (take (shared * 2 ^ 6) p) % 64 ≡ 0 =
        omega (arith, length-take (shared * 2 ^ 6) p) in
      elim (Bool-cases (ltb 0 n)) [
        | inl some_ ↦ rw some_ (
            ap (λ s. k.blocks s (take (n * 2 ^ 6) (drop (shared * 2 ^ 6) p))) at
            ∙ sym (doc.blocks-append sha256_iv (take (shared * 2 ^ 6) p) _ first_whole)
            ∙ ap (k.blocks sha256_iv)
                (take-add (shared * 2 ^ 6) (n * 2 ^ 6) p ∙ ap (λ i. take i p) whole))
        | inr none_ ↦
            let same : shared * 2 ^ 6 ≡ full = no_more n (shared * 2 ^ 6) full whole none_ in
            rw none_ (at ∙ ap (λ i. k.blocks sha256_iv (take i p)) same)
      ]
    where
      no_more : (n s full : ℕ) → s + n * 2 ^ 6 ≡ full → ltb 0 n ≡ false → s ≡ full
      no_more n s full e e' = let z : n ≡ 0 = ground arith in omega arith

  lanes_lem :
      (a b : List ℕ) (shared : ℕ)
      → (let lanes : List ℕ × List ℕ =
            if ltb 0 shared
            then k.blocks2 sha256_iv (take (shared * 2 ^ 6) a) sha256_iv (take (shared * 2 ^ 6) b)
            else (sha256_iv, sha256_iv) in
          lanes ≡ (
            k.blocks sha256_iv (take (shared * 2 ^ 6) a),
            k.blocks sha256_iv (take (shared * 2 ^ 6) b),
          ))
  lanes_lem a b zero =
      ap₂ (λ x y. (x, y)) (sym (doc.blocks-nil sha256_iv)) (sym (doc.blocks-nil sha256_iv))
  lanes_lem a b (suc n) =
      let some_ : ltb 0 (suc n) ≡ true = ground arith in
      rw some_
        (doc.blocks2-both sha256_iv (take (suc n * 2 ^ 6) a) sha256_iv (take (suc n * 2 ^ 6) b))

  -- For any two messages of fewer than 2 ^ 61 bytes `sha256Sum256Pair` gives the SHA-256 of each, with
  -- the SHA-NI kernels or without them, where the kernels do what is documented: compress block by
  -- block, in two independent lanes, by the compression that SHA-256 applies, from the standard's
  -- initial state, to the message with the standard's padding.
  pub sha256_sum256_pair_lem :
      (a b : List ℕ)
      → length a < 2 ^ 61
      → length b < 2 ^ 61
      → sha256_sum256_pair k a b ≡ (k.sha256 a, k.sha256 b)
  unfolding sha256_sum256_pair
  sha256_sum256_pair_lem a b few_a few_b =
      let fa = length a / 2 ^ 6 * 2 ^ 6 in
      let fb = length b / 2 ^ 6 * 2 ^ 6 in
      let shared = min fa fb / 2 ^ 6 in
      let lanes = lanes_lem a b shared in
      elim (Bool-cases (not k.use_sha_ni)) [
        | inl off ↦ rw off refl
        | inr on ↦ rw on (
            ap₂ (λ x y. (x, y))
              (finish_lem a fa _ few_a refl
                (lane_state a fa shared _ refl (omega arith) (ap (λ r. r.0) lanes)))
              (finish_lem b fb _ few_b refl
                (lane_state b fb shared _ refl (omega arith) (ap (λ r. r.1) lanes))))
      ]
