-- ===== src/SuffixArray/Compare.antt =====
-- The comparison of two suffixes with the same key is `bytes.Compare` of them.
use Prim.Native.Nat.{compare, Ordering}
use dirtybird_go_gpu_miner.Prelude.{
  ℕ, zero, suc, ◌+◌, ◌-◌, ◌%◌, ◌^◌, ◌≤◌, ◌<◌, ◌≡◌, inl, inr, refl, sym, ap, ap₂, ◌∙◌, arith, List,
  [], ◌∷◌, min, ltb, leb, ◌==◌, not, if◌then◌else◌, Bool-cases, length, length-take, length-drop,
  take, drop, take-take, take-append-drop, byte_at, byte_at-lt, IsBytes,
}
use dirtybird_go_gpu_miner.Word.{sub32}
use dirtybird_go_gpu_miner.SuffixArray.Lex.{
  bytes_compare, bytes_compare-append, bytes_compare_refl, compare-number, number, or_else,
}
use dirtybird_go_gpu_miner.SuffixArray.View.{
  View, suffix, by_length, compare_common, compare_suffixes_after_key,
}
use dirtybird_go_gpu_miner.SuffixArray.Keys.{radix_at}
use dirtybird_go_gpu_miner.SuffixArray.Suffixes.{
  IsView, drop-byte_at, take-drop-take, length-suffix,
}

pub take-IsBytes : (n : ℕ) (xs : List ℕ) → IsBytes xs → IsBytes (take n xs)
take-IsBytes zero xs h = tt
take-IsBytes (suc n) [] h = tt
take-IsBytes (suc n) (x ∷ xs) h = (h.0, take-IsBytes n xs h.1)

pub drop-IsBytes : (n : ℕ) (xs : List ℕ) → IsBytes xs → IsBytes (drop n xs)
drop-IsBytes zero xs h = h
drop-IsBytes (suc n) [] h = tt
drop-IsBytes (suc n) (x ∷ xs) h = drop-IsBytes n xs h.1

-- A comparison splits at any place within both.
compare_split :
    (c : ℕ) (xs ys : List ℕ)
    → c ≤ length xs
    → c ≤ length ys
    → bytes_compare xs ys
      ≡ or_else (bytes_compare (take c xs) (take c ys)) (bytes_compare (drop c xs) (drop c ys))
compare_split c xs ys hx hy =
    ap₂ bytes_compare (sym (take-append-drop c xs)) (sym (take-append-drop c ys))
    ∙ bytes_compare-append (take c xs) (take c ys) (drop c xs) (drop c ys)
        (omega (arith, length-take c xs, length-take c ys))

-- Behind the end of one of them, the lengths decide.
compare_lengths :
    (xs ys : List ℕ)
    → min (length xs) (length ys) ≡ 0
    → bytes_compare xs ys ≡ by_length (length xs) (length ys)
unfolding bytes_compare
compare_lengths [] [] h = refl
compare_lengths [] (y ∷ ys) h = ground arith
compare_lengths (x ∷ xs) [] h = ground arith
compare_lengths (x ∷ xs) (y ∷ ys) h = absurd (omega arith)

by_length-sub : (m n c : ℕ) → c ≤ m → c ≤ n → by_length (m - c) (n - c) ≡ by_length m n
by_length-sub m n c h h' = ground arith

-- With as many bytes compared as the shorter one has, the rest is a comparison of lengths.
compare_to_end :
    (c : ℕ) (xs ys : List ℕ)
    → c ≡ min (length xs) (length ys)
    → bytes_compare xs ys
      ≡ or_else (bytes_compare (take c xs) (take c ys)) (by_length (length xs) (length ys))
compare_to_end c xs ys h =
    compare_split c xs ys (omega arith) (omega arith)
    ∙ ap (or_else (bytes_compare (take c xs) (take c ys))) (
        compare_lengths (drop c xs) (drop c ys) (omega (arith, length-drop c xs, length-drop c ys))
        ∙ ap₂ by_length (length-drop c xs) (length-drop c ys)
        ∙ by_length-sub (length xs) (length ys) c (omega arith) (omega arith))

or_else_assoc : (a b c : Ordering) → or_else (or_else a b) c ≡ or_else a (or_else b c)
or_else_assoc Ordering.lt b c = refl
or_else_assoc Ordering.eq b c = refl
or_else_assoc Ordering.gt b c = refl

number_first :
    (x y : ℕ) (rest : Ordering)
    → (if not (x == y) then (if ltb x y then Ordering.lt else Ordering.gt) else rest)
      ≡ or_else (compare x y) rest
number_first x y rest = ground arith

compare_common_lem :
    (c : ℕ) (ap bp : List ℕ) (by_len : Ordering)
    → c ≤ length ap
    → c ≤ length bp
    → IsBytes ap
    → IsBytes bp
    → compare_common c ap bp by_len ≡ or_else (bytes_compare (take c ap) (take c bp)) by_len
unfolding compare_common
compare_common_lem c xs ys by_len hx hy bx by_ = elim (Bool-cases (leb 8 c)) [
  | inr e ↦ rw e refl
  | inl e ↦
      let size : 8 ≤ c = ground arith in
      let same : bytes_compare (take c xs) (take c ys)
          ≡ or_else (bytes_compare (take 8 xs) (take 8 ys))
              (bytes_compare (drop 8 (take c xs)) (drop 8 (take c ys))) =
        compare_split 8 (take c xs) (take c ys) (omega (arith, length-take c xs))
          (omega (arith, length-take c ys))
        ∙ ap (λ z. or_else z (bytes_compare (drop 8 (take c xs)) (drop 8 (take c ys))))
            (ap₂ bytes_compare (take-take 8 c xs size) (take-take 8 c ys size)) in
      let numbers =
        compare-number (take 8 xs) (take 8 ys) (omega (arith, length-take 8 xs, length-take 8 ys))
          (take-IsBytes 8 xs bx) (take-IsBytes 8 ys by_) in
      rw e (
        number_first (number (take 8 xs)) (number (take 8 ys)) _
        ∙ ap
            (λ z.
              or_else z (or_else (bytes_compare (drop 8 (take c xs)) (drop 8 (take c ys))) by_len))
            numbers
        ∙ sym (or_else_assoc (bytes_compare (take 8 xs) (take 8 ys)) _ by_len)
        ∙ ap (λ z. or_else z by_len) (sym same))
]

take_three :
    (c x y z : ℕ) (xs ys : List ℕ) → c ≤ 3 → take c (x ∷ y ∷ z ∷ xs) ≡ take c (x ∷ y ∷ z ∷ ys)
take_three zero x y z xs ys h = refl
take_three (suc zero) x y z xs ys h = refl
take_three (suc (suc zero)) x y z xs ys h = refl
take_three (suc (suc (suc zero))) x y z xs ys h = refl
take_three (suc (suc (suc (suc c)))) x y z xs ys h = absurd (omega arith)

drop_three :
    (xs : List ℕ) (a : ℕ)
    → a + 3 ≤ length xs
    → drop a xs ≡ byte_at xs a ∷ byte_at xs (a + 1) ∷ byte_at xs (a + 2) ∷ drop (a + 3) xs
drop_three xs a h =
    let e : a + 1 + 1 ≡ a + 2 = omega arith in
    let e' : a + 2 + 1 ≡ a + 3 = omega arith in
    drop-byte_at xs a (omega arith)
    ∙ ap (λ r. byte_at xs a ∷ r)
        (drop-byte_at xs (a + 1) (omega arith)
          ∙ ap (λ i. byte_at xs (a + 1) ∷ drop i xs) e
          ∙ ap (λ r. byte_at xs (a + 1) ∷ r)
              (drop-byte_at xs (a + 2) (omega arith) ∙ ap (λ i. byte_at xs (a + 2) ∷ drop i xs) e'))

same_heads :
    (x y z : ℕ) (xs ys : List ℕ)
    → bytes_compare (x ∷ y ∷ z ∷ xs) (x ∷ y ∷ z ∷ ys) ≡ bytes_compare xs ys
same_heads x y z xs ys =
    let heads = x ∷ y ∷ z ∷ [] in
    bytes_compare-append heads heads xs ys refl
    ∙ ap (λ c. or_else c (bytes_compare xs ys)) (bytes_compare_refl heads)

-- Equal keys are equal bytes.
radix_at-bytes :
    (xs : List ℕ) (a b : ℕ)
    → IsBytes xs
    → radix_at xs a ≡ radix_at xs b
    → (byte_at xs a ≡ byte_at xs b)
      × (byte_at xs (a + 1) ≡ byte_at xs (b + 1))
      × (byte_at xs (a + 2) ≡ byte_at xs (b + 2))
radix_at-bytes xs a b h e =
    let h0 = byte_at-lt xs a h in
    let h1 = byte_at-lt xs (a + 1) h in
    let h2 = byte_at-lt xs (a + 2) h in
    let h0' = byte_at-lt xs b h in
    let h1' = byte_at-lt xs (b + 1) h in
    let h2' = byte_at-lt xs (b + 2) h in (omega arith, omega arith, omega arith)

after_heads :
    (c x y z : ℕ) (ap bp : List ℕ) (by_len : Ordering)
    → c ≤ 3 + length ap
    → c ≤ 3 + length bp
    → IsBytes ap
    → IsBytes bp
    → (if leb c 3 then by_len else compare_common (c - 3) ap bp by_len)
      ≡ or_else (bytes_compare (take c (x ∷ y ∷ z ∷ ap)) (take c (x ∷ y ∷ z ∷ bp))) by_len
after_heads c x y z xs ys by_len hx hy bx by_ = elim (Bool-cases (leb c 3)) [
  | inl e ↦
      let same = take_three c x y z xs ys (ground arith) in
      rw e (
        ap (λ o. or_else o by_len)
          (sym (
            ap (bytes_compare (take c (x ∷ y ∷ z ∷ xs))) (sym same)
            ∙ bytes_compare_refl (take c (x ∷ y ∷ z ∷ xs)))))
  | inr e ↦
      let k = c - 3 in
      let split : c ≡ suc (suc (suc k)) = ground arith in
      let takes =
        ap₂ bytes_compare (ap (λ i. take i (x ∷ y ∷ z ∷ xs)) split)
          (ap (λ i. take i (x ∷ y ∷ z ∷ ys)) split) in
      rw e (
        compare_common_lem k xs ys by_len (omega arith) (omega arith) bx by_
        ∙ ap (λ o. or_else o by_len) (sym (takes ∙ same_heads x y z (take k xs) (take k ys))))
]

-- For two positions of the text with the same three-byte key, `compareSuffixesAfterKey` gives what
-- `bytes.Compare` gives on the whole suffixes, the ends of the text included, where three zeros at
-- least follow the text and it has at most 2 ^ 17 bytes.
pub compare_suffixes_after_key_lem :
    (v : View) (a b : ℕ)
    → IsView v
    → a < v.logical_len
    → b < v.logical_len
    → radix_at v.text a ≡ radix_at v.text b
    → compare_suffixes_after_key v a b ≡ bytes_compare (suffix v a) (suffix v b)
unfolding compare_suffixes_after_key sub32
compare_suffixes_after_key_lem v a b ok ha hb key = elim (Bool-cases (a == b)) [
  | inl e ↦
      let same : b ≡ a = ground arith in
      rw e (
        sym (bytes_compare_refl (suffix v a))
        ∙ ap (λ x. bytes_compare (suffix v a) (suffix v x)) (sym same))
  | inr e ↦
      let n = v.logical_len in
      let room = ok.room in
      let short = ok.short in
      let a_len : (n + 2 ^ 32 - a) % 2 ^ 32 ≡ n - a = omega arith in
      let b_len : (n + 2 ^ 32 - b) % 2 ^ 32 ≡ n - b = omega arith in
      let c = if ltb (n - b) (n - a) then n - b else n - a in
      let c_min : c ≡ min (n - a) (n - b) = ground arith in
      let heads = radix_at-bytes v.text a b ok.bytes key in
      let left : take c (suffix v a)
          ≡ take c (
              byte_at v.text a
              ∷ byte_at v.text (a + 1)
              ∷ byte_at v.text (a + 2)
              ∷ drop (a + 3) v.text) =
        take-drop-take c a n v.text (omega arith)
        ∙ ap (take c) (drop_three v.text a (omega arith)) in
      let right : take c (suffix v b)
          ≡ take c (
              byte_at v.text a
              ∷ byte_at v.text (a + 1)
              ∷ byte_at v.text (a + 2)
              ∷ drop (b + 3) v.text) =
        take-drop-take c b n v.text (omega arith)
        ∙ ap (take c) (drop_three v.text b (omega arith))
        ∙ rw (heads.0, heads.1, heads.2) refl in
      let full : bytes_compare (suffix v a) (suffix v b)
          ≡ or_else (bytes_compare (take c (suffix v a)) (take c (suffix v b)))
              (by_length (n - a) (n - b)) =
        compare_to_end c (suffix v a) (suffix v b)
          (omega (arith, c_min, length-suffix v ok a, length-suffix v ok b))
        ∙ ap (or_else (bytes_compare (take c (suffix v a)) (take c (suffix v b))))
            (ap₂ by_length (length-suffix v ok a) (length-suffix v ok b)) in
      rw (e, a_len, b_len)
        (after_heads c (byte_at v.text a) (byte_at v.text (a + 1)) (byte_at v.text (a + 2))
            (drop (a + 3) v.text) (drop (b + 3) v.text) (by_length (n - a) (n - b))
            (omega (arith, length-drop (a + 3) v.text)) (omega (arith, length-drop (b + 3) v.text))
            (drop-IsBytes (a + 3) v.text ok.bytes) (drop-IsBytes (b + 3) v.text ok.bytes)
          ∙ ap (λ o. or_else o (by_length (n - a) (n - b))) (sym (ap₂ bytes_compare left right))
          ∙ sym full)
]
