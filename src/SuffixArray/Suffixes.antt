-- ===== src/SuffixArray/Suffixes.antt =====
-- The suffixes of a view, and what their first bytes say.
use dirtybird_go_gpu_miner.Prelude.{
  ℕ, zero, suc, ◌+◌, ◌-◌, ◌^◌, ◌≤◌, ◌<◌, ◌≡◌, inl, inr, refl, ap, ◌∙◌, arith, List, [], ◌∷◌, length,
  length-take, length-drop, take, drop, byte_at, IsBytes,
}
use dirtybird_go_gpu_miner.SuffixArray.Lex.{LexLe}
use dirtybird_go_gpu_miner.SuffixArray.View.{View, suffix}

-- The text is bytes, with three zeros at least behind its end.
pub record IsView (v : View) : Type 0 where
  pub bytes : IsBytes v.text
  pub room : v.logical_len + 3 ≤ length v.text
  pub short : v.logical_len ≤ 2 ^ 17
  pub padded : (i : ℕ) → i < 3 → byte_at v.text (v.logical_len + i) ≡ 0

pub drop-byte_at :
    (xs : List ℕ) (a : ℕ) → a < length xs → drop a xs ≡ byte_at xs a ∷ drop (a + 1) xs
drop-byte_at [] a h = absurd (omega arith)
drop-byte_at (x ∷ xs) zero h = refl
drop-byte_at (x ∷ xs) (suc a) h =
    let e : suc a + 1 ≡ suc (a + 1) = omega arith in rw e (drop-byte_at xs a (omega arith))

pub byte_at-take : (n : ℕ) (xs : List ℕ) (i : ℕ) → i < n → byte_at (take n xs) i ≡ byte_at xs i
byte_at-take zero xs i h = absurd (omega arith)
byte_at-take (suc n) [] i h = refl
byte_at-take (suc n) (x ∷ xs) zero h = refl
byte_at-take (suc n) (x ∷ xs) (suc i) h = byte_at-take n xs i (omega arith)

-- The first `c` bytes of a slice that ends later do not see its end.
pub take-drop-take :
    (c a n : ℕ) (xs : List ℕ) → a + c ≤ n → take c (drop a (take n xs)) ≡ take c (drop a xs)
take-drop-take zero a n xs h = refl
take-drop-take (suc c) a zero xs h = absurd (omega arith)
take-drop-take (suc c) zero (suc n) [] h = refl
take-drop-take (suc c) zero (suc n) (x ∷ xs) h = ap (◌∷◌ x) (take-drop-take c 0 n xs (omega arith))
take-drop-take (suc c) (suc a) (suc n) [] h = refl
take-drop-take (suc c) (suc a) (suc n) (x ∷ xs) h = take-drop-take (suc c) a n xs (omega arith)

module _ (v : View) (ok : IsView v) where
  pub length-suffix : (a : ℕ) → length (suffix v a) ≡ v.logical_len - a
  length-suffix a =
      let room = ok.room in
      omega (arith, length-drop a (take v.logical_len v.text), length-take v.logical_len v.text)

  pub suffix-cons : (a : ℕ) → a < v.logical_len → suffix v a ≡ byte_at v.text a ∷ suffix v (a + 1)
  suffix-cons a h =
      let room = ok.room in
      drop-byte_at (take v.logical_len v.text) a (omega (arith, length-take v.logical_len v.text))
      ∙ ap (λ x. x ∷ suffix v (a + 1)) (byte_at-take v.logical_len v.text a h)

  -- The first bytes decide, and where they are the same, the suffixes one later do.
  pub suffix_le_first :
      (a b : ℕ)
      → a < v.logical_len
      → b < v.logical_len
      → byte_at v.text a < byte_at v.text b
      → LexLe (suffix v a) (suffix v b)
  suffix_le_first a b ha hb h = rw (suffix-cons a ha, suffix-cons b hb) (inl h)

  pub suffix_le_next :
      (a b : ℕ)
      → a < v.logical_len
      → b < v.logical_len
      → byte_at v.text a ≡ byte_at v.text b
      → LexLe (suffix v (a + 1)) (suffix v (b + 1))
      → LexLe (suffix v a) (suffix v b)
  suffix_le_next a b ha hb e h = rw (suffix-cons a ha, suffix-cons b hb) (inr (e, h))
