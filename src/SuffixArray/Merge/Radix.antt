-- ===== src/SuffixArray/Merge/Radix.antt =====
-- Three passes over the digits, the lowest first, sort the records by key.
use dirtybird_go_gpu_miner.Prelude.{
  ℕ, zero, suc, ◌+◌, ◌^◌, ◌≤◌, ◌<◌, ◌≡◌, ◌⊎◌, inl, inr, refl, sym, ap, ◌∙◌, arith, List, [], ◌∷◌,
  length, length-take, take, replicate, byte_at, leb, leb→le, ◌==◌, if◌then◌else◌, Bool-cases, Each,
  Each-map, Each-append, length-replicate,
}
use dirtybird_go_gpu_miner.SuffixArray.Runs.{Run}
use dirtybird_go_gpu_miner.SuffixArray.Sorting.{Sorted, Sorted-append, total}
use dirtybird_go_gpu_miner.SuffixArray.Merge.{
  digit, count_digits, prefix_sums, scatter, radix_sort_runs,
}
use dirtybird_go_gpu_miner.SuffixArray.Merge.Counting.{with_digit, by_digit}
use dirtybird_go_gpu_miner.SuffixArray.Merge.Pass.{
  digit_value, length-count_digits, count_digits_lem, total-with_digit, total-by_digit,
  length-by_digit, pass_lem,
}

-- In order by the digit, and by `Q` where the digits are the same.
abbrev DigitLe : ℕ → (Run → Run → Type 0) → Run → Run → Type 0
DigitLe shift Q x y = (digit shift x < digit shift y) ⊎ ((digit shift x ≡ digit shift y) × Q x y)

abbrev Any : Run → Type 0
Any r = Unit

module _ (shift : ℕ) where
  with_digit-Each :
      (P : Run → Type 0) (d : ℕ) (rs : List Run)
      → Each P rs
      → Each (λ r. (digit shift r ≡ d) × P r) (with_digit shift d rs)
  with_digit-Each P d [] h = tt
  with_digit-Each P d (r ∷ rs) h = elim (Bool-cases (digit shift r == d)) [
    | inl e ↦ rw e (((ground arith), h.0), with_digit-Each P d rs h.1)
    | inr e ↦ rw e (with_digit-Each P d rs h.1)
  ]

  pub by_digit-Each :
      (P : Run → Type 0) (b n : ℕ) (rs : List Run)
      → Each P rs
      → Each (λ r. (b ≤ digit shift r) × P r) (by_digit shift b n rs)
  by_digit-Each P b zero rs h = tt
  by_digit-Each P b (suc n) rs h =
      Each-append (λ r. (b ≤ digit shift r) × P r) (with_digit shift b rs)
        (by_digit shift (b + 1) n rs)
        (Each-map (λ r. (digit shift r ≡ b) × P r) (λ r. (b ≤ digit shift r) × P r)
          (λ r q. (omega (arith, q.0), q.1)) (with_digit shift b rs) (with_digit-Each P b rs h))
        (Each-map (λ r. (b + 1 ≤ digit shift r) × P r) (λ r. (b ≤ digit shift r) × P r)
          (λ r q. (omega (arith, q.0), q.1)) (by_digit shift (b + 1) n rs)
          (by_digit-Each P (b + 1) n rs h))

  with_digit-Sorted :
      (Q : Run → Run → Type 0) (d : ℕ) (rs : List Run)
      → Sorted Q rs
      → Sorted (DigitLe shift Q) (with_digit shift d rs)
  with_digit-Sorted Q d [] h = tt
  with_digit-Sorted Q d (r ∷ rs) h = elim (Bool-cases (digit shift r == d)) [
    | inl e ↦
        let same : digit shift r ≡ d = ground arith in
        rw e (
          Each-map (λ y. (digit shift y ≡ d) × Q r y) (DigitLe shift Q r)
              (λ y q. inr (same ∙ sym q.0, q.1)) (with_digit shift d rs)
              (with_digit-Each (Q r) d rs h.0),
          with_digit-Sorted Q d rs h.1,
        )
    | inr e ↦ rw e (with_digit-Sorted Q d rs h.1)
  ]

  all : (rs : List Run) → Each Any rs
  all [] = tt
  all (r ∷ rs) = (tt, all rs)

  by_digit-Sorted :
      (Q : Run → Run → Type 0) (b n : ℕ) (rs : List Run)
      → Sorted Q rs
      → Sorted (DigitLe shift Q) (by_digit shift b n rs)
  by_digit-Sorted Q b zero rs h = tt
  by_digit-Sorted Q b (suc n) rs h =
      Sorted-append (DigitLe shift Q) (with_digit shift b rs) (by_digit shift (b + 1) n rs)
        (with_digit-Sorted Q b rs h) (by_digit-Sorted Q (b + 1) n rs h)
        (Each-map (λ r. (digit shift r ≡ b) × Any r)
          (λ r. Each (DigitLe shift Q r) (by_digit shift (b + 1) n rs))
          (λ r q.
            Each-map (λ y. (b + 1 ≤ digit shift y) × Any y) (DigitLe shift Q r)
              (λ y p. inl (omega (arith, p.0, q.0))) (by_digit shift (b + 1) n rs)
              (by_digit-Each Any (b + 1) n rs (all rs)))
          (with_digit shift b rs) (with_digit-Each Any b rs (all rs)))

-- One digit's records are as many in any arrangement.
count_with_digit :
    (shift d : ℕ) (rs : List Run)
    → length (with_digit shift d rs) ≡ total (λ r. if digit shift r == d then 1 else 0) rs
count_with_digit shift d rs =
    sym (ones (with_digit shift d rs)) ∙ total-with_digit shift (λ r. 1) d rs
  where
    ones : (rs : List Run) → total (λ r. 1) rs ≡ length rs
    ones [] = refl
    ones (r ∷ rs) = omega (arith, ones rs)

kept_count :
    (shift shift' d : ℕ) (rs : List Run)
    → length (with_digit shift d (by_digit shift' 0 256 rs)) ≡ length (with_digit shift d rs)
kept_count shift shift' d rs =
    count_with_digit shift d (by_digit shift' 0 256 rs)
    ∙ total-by_digit shift' (λ r. if digit shift r == d then 1 else 0) rs
    ∙ sym (count_with_digit shift d rs)

byte_at-zeros : (n k : ℕ) → byte_at (replicate n 0) k ≡ 0
byte_at-zeros zero k = refl
byte_at-zeros (suc n) zero = refl
byte_at-zeros (suc n) (suc k) = byte_at-zeros n k

counted :
    (shift : ℕ) (rs : List Run) (j : ℕ)
    → length rs < 2 ^ 32
    → byte_at (count_digits shift rs (replicate 256 0)) j ≡ length (with_digit shift j rs)
counted shift rs j small = omega (
  arith,
  count_digits_lem shift rs (replicate 256 0) j (length-replicate {A = ℕ} 256 0)
      (λ k. omega (arith, byte_at-zeros 256 k)),
  byte_at-zeros 256 j,
)

counted_size : (shift : ℕ) (rs : List Run) → length (count_digits shift rs (replicate 256 0)) ≡ 256
counted_size shift rs =
    length-count_digits shift rs (replicate 256 0) ∙ length-replicate {A = ℕ} 256 0

abbrev arranged : List Run → List Run
arranged rs = by_digit 16 0 256 (by_digit 8 0 256 (by_digit 0 0 256 rs))

-- The three passes are the arrangement by the three digits.
radix_passes :
    (radix_tmp runs : List Run)
    → length runs ≤ length radix_tmp
    → length runs < 2 ^ 32
    → radix_sort_runs radix_tmp runs ≡ (if leb (length runs) 1 then runs else arranged runs)
unfolding radix_sort_runs
radix_passes radix_tmp runs room small =
    let counts0 = count_digits 0 runs (replicate 256 0) in
    let counts1 = count_digits 8 runs (replicate 256 0) in
    let counts2 = count_digits 16 runs (replicate 256 0) in
    let tmp = take (length runs) radix_tmp in
    let r1 = by_digit 0 0 256 runs in
    let r2 = by_digit 8 0 256 r1 in
    let size1 = length-by_digit 0 runs in
    let size2 = length-by_digit 8 r1 in
    let pass1 =
      pass_lem 0 counts0 runs tmp (counted_size 0 runs) (λ j. counted 0 runs j small)
        (omega (arith, length-take (length runs) radix_tmp)) small in
    let pass2 =
      pass_lem 8 counts1 r1 runs (counted_size 8 runs)
        (λ j. counted 8 runs j small ∙ sym (kept_count 8 0 j runs)) (sym size1) (omega arith) in
    let pass3 =
      pass_lem 16 counts2 r2 r1 (counted_size 16 runs)
        (λ j. counted 16 runs j small ∙ sym (kept_count 16 0 j runs) ∙ sym (kept_count 16 8 j r1))
        (sym size2) (omega arith) in
    ap (λ xs. if leb (length runs) 1 then runs else xs)
      (ap (λ t. scatter 16 (scatter 8 t (prefix_sums 0 counts1) runs) (prefix_sums 0 counts2) t)
          pass1
        ∙ ap (λ t. scatter 16 t (prefix_sums 0 counts2) r1) pass2
        ∙ pass3)

Anyhow : Run → Run → Type 0
Anyhow x y = Any x

Anyhow-Sorted : (rs : List Run) → Sorted Anyhow rs
unfolding Anyhow
Anyhow-Sorted [] = tt
Anyhow-Sorted (r ∷ rs) = (each r rs, Anyhow-Sorted rs)
  where
    each : (r : Run) (rs : List Run) → Each (Anyhow r) rs
    each r [] = tt
    each r (x ∷ rs) = (tt, each r rs)

-- The order of the keys.
abbrev pub KeyLe : Run → Run → Type 0
KeyLe x y = x.key ≤ y.key

abbrev pub HasShortKey : Run → Type 0
HasShortKey r = r.key < 2 ^ 24

digits_le :
    (x y : Run)
    → HasShortKey x
    → HasShortKey y
    → DigitLe 16 (DigitLe 8 (DigitLe 0 Anyhow)) x y
    → KeyLe x y
digits_le x y hx hy (inl a) = omega (arith, digit_value 16 x, digit_value 16 y)
digits_le x y hx hy (inr (a, inl b)) =
    omega (arith, a, digit_value 16 x, digit_value 16 y, digit_value 8 x, digit_value 8 y)
digits_le x y hx hy (inr (a, inr (b, inl c))) = omega (
  arith,
  a,
  b,
  digit_value 16 x,
  digit_value 16 y,
  digit_value 8 x,
  digit_value 8 y,
  digit_value 0 x,
  digit_value 0 y,
)
digits_le x y hx hy (inr (a, inr (b, inr c))) = omega (
  arith,
  a,
  b,
  c.0,
  digit_value 16 x,
  digit_value 16 y,
  digit_value 8 x,
  digit_value 8 y,
  digit_value 0 x,
  digit_value 0 y,
)

pub Sorted-weaken :
    (P : Run → Type 0) (R Q : Run → Run → Type 0)
    → ((x y : Run) → P x → P y → R x y → Q x y)
    → (rs : List Run) → Each P rs
    → Sorted R rs
    → Sorted Q rs
Sorted-weaken P R Q f [] h s = tt
Sorted-weaken P R Q f (r ∷ rs) h s = (each r h.0 rs h.1 s.0, Sorted-weaken P R Q f rs h.1 s.1)
  where
    each : (r : Run) → P r → (rs : List Run) → Each P rs → Each (R r) rs → Each (Q r) rs
    each r p [] h s = tt
    each r p (x ∷ rs) h s = (f r x p h.0 s.0, each r p rs h.1 s.1)

module _ (radix_tmp runs : List Run) (room : length runs ≤ length radix_tmp)
    (small : length runs < 2 ^ 32) where
  pub radix_sort_runs-Each :
      (P : Run → Type 0) → Each P runs → Each P (radix_sort_runs radix_tmp runs)
  radix_sort_runs-Each P h =
      rw (radix_passes radix_tmp runs room small) (elim (Bool-cases (leb (length runs) 1)) [
        | inl e ↦ rw e h
        | inr e ↦ rw e (
            pass 16 (by_digit 8 0 256 (by_digit 0 0 256 runs))
              (pass 8 (by_digit 0 0 256 runs) (pass 0 runs h)))
      ])
    where
      pass : (shift : ℕ) (rs : List Run) → Each P rs → Each P (by_digit shift 0 256 rs)
      pass shift rs h =
          Each-map (λ r. (0 ≤ digit shift r) × P r) P (λ r q. q.1) (by_digit shift 0 256 rs)
            (by_digit-Each shift P 0 256 rs h)

  -- The three counting passes of `radixSortRunsByStoredKey` leave the records in the order of their
  -- keys, with the same sum of every weight over them, for keys below 2 ^ 24, fewer than 2 ^ 32
  -- records, and a second buffer of at least as many entries, whatever it held.
  pub radix_sort_runs-Sorted :
      Each HasShortKey runs
      → Sorted KeyLe (radix_sort_runs radix_tmp runs)
        × ((f : Run → ℕ) → total f (radix_sort_runs radix_tmp runs) ≡ total f runs)
  radix_sort_runs-Sorted h =
      let r1 = by_digit 0 0 256 runs in
      let r2 = by_digit 8 0 256 r1 in
      let passes = radix_passes radix_tmp runs room small in
      elim (Bool-cases (leb (length runs) 1)) [
        | inl e ↦ rw (passes, e) (one runs (leb→le (length runs) 1 e), (λ f. refl))
        | inr e ↦
            let kept : Each HasShortKey (arranged runs) =
              rw (passes, e) at (radix_sort_runs-Each HasShortKey h) in
            rw (passes, e)
              (
                Sorted-weaken HasShortKey (DigitLe 16 (DigitLe 8 (DigitLe 0 Anyhow))) KeyLe
                    digits_le (arranged runs) kept
                    (by_digit-Sorted 16 (DigitLe 8 (DigitLe 0 Anyhow)) 0 256 r2 (
                      by_digit-Sorted 8 (DigitLe 0 Anyhow) 0 256 r1
                        (by_digit-Sorted 0 Anyhow 0 256 runs (Anyhow-Sorted runs)))),
                (λ f. total-by_digit 16 f r2 ∙ total-by_digit 8 f r1 ∙ total-by_digit 0 f runs),
              )
      ]
    where
      one : (rs : List Run) → length rs ≤ 1 → Sorted KeyLe rs
      one [] q = tt
      one (r ∷ []) q = (tt, tt)
      one (r ∷ r' ∷ rs) q = absurd (omega arith)
