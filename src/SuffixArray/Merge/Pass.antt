-- ===== src/SuffixArray/Merge/Pass.antt =====
-- The passes of the radix sort: the counts are those of the digits, the prefix sums the starts of the
-- stretches, and a pass gives the records by digit.
use dirtybird_go_gpu_miner.Prelude.{
  ℕ, zero, suc, ◌+◌, ◌*◌, ◌/◌, ◌%◌, ◌^◌, ◌<◌, ◌≡◌, inl, inr, refl, sym, ap, ap₂, ◌∙◌, arith, List,
  [], ◌∷◌, ◌++◌, length, length-append, length-set, take, drop, take-append-drop, length-take,
  length-drop, set, get_or-set, byte_at, bit_and, ltb, leb, ◌==◌, ◌&&◌, if◌then◌else◌, Bool-cases,
}
use dirtybird_go_gpu_miner.Prelude.Bits.{bit_and_low}
use dirtybird_go_gpu_miner.Word.{u32}
use dirtybird_go_gpu_miner.SuffixArray.Runs.{Run}
use dirtybird_go_gpu_miner.SuffixArray.Sorting.{total, total-append}
use dirtybird_go_gpu_miner.SuffixArray.Stable.{total-add}
use dirtybird_go_gpu_miner.SuffixArray.Merge.{digit, count_digits, prefix_sums, scatter}
use dirtybird_go_gpu_miner.SuffixArray.Merge.Counting.{
  Stretch, layout, heads, HasRoom, with_digit, by_digit, completed, scatter_lem,
}

pub total-pointwise :
    (f g : Run → ℕ) → ((r : Run) → f r ≡ g r) → (rs : List Run) → total f rs ≡ total g rs
total-pointwise f g e [] = refl
total-pointwise f g e (r ∷ rs) = ap₂ ◌+◌ (e r) (total-pointwise f g e rs)

module _ (shift : ℕ) where
  pub digit_value : (r : Run) → digit shift r ≡ r.key / 2 ^ shift % 256
  unfolding digit
  digit_value r =
      let k = r.key / 2 ^ shift in
      let split : k ≡ k / 256 * 2 ^ 8 + k % 256 = omega arith in
      ap (λ x. bit_and x 0xff) split ∙ bit_and_low 8 (k / 256) (k % 256) (omega arith)

  pub digit-lt : (r : Run) → digit shift r < 256
  digit-lt r = omega (arith, digit_value r)

  pub total-with_digit :
      (f : Run → ℕ) (d : ℕ) (rs : List Run)
      → total f (with_digit shift d rs) ≡ total (λ r. if digit shift r == d then f r else 0) rs
  total-with_digit f d [] = refl
  total-with_digit f d (r ∷ rs) = elim (Bool-cases (digit shift r == d)) [
    | inl e ↦ rw e (ap (λ t. f r + t) (total-with_digit f d rs))
    | inr e ↦ rw e (omega (arith, total-with_digit f d rs))
  ]

  total-in_range :
      (f : Run → ℕ) (b n : ℕ) (rs : List Run)
      → total f (by_digit shift b n rs)
        ≡ total (λ r. if leb b (digit shift r) && ltb (digit shift r) (b + n) then f r else 0) rs
  total-in_range f b zero rs =
      sym (total-pointwise _ (λ r. 0) (λ r. nothing b (digit shift r) (f r)) rs ∙ zeros rs)
    where
      nothing : (b d x : ℕ) → (if leb b d && ltb d (b + 0) then x else 0) ≡ 0
      nothing b d x = ground arith

      zeros : (rs : List Run) → total (λ r. 0) rs ≡ 0
      zeros [] = refl
      zeros (r ∷ rs) = omega (arith, zeros rs)
  total-in_range f b (suc n) rs =
      total-append f (with_digit shift b rs) (by_digit shift (b + 1) n rs)
      ∙ ap₂ ◌+◌ (total-with_digit f b rs) (total-in_range f (b + 1) n rs)
      ∙ sym (total-add _ _ rs)
      ∙ total-pointwise _ _ (λ r. joined b n (digit shift r) (f r)) rs
    where
      joined :
          (b n d x : ℕ)
          → (if d == b then x else 0) + (if leb (b + 1) d && ltb d (b + 1 + n) then x else 0)
            ≡ (if leb b d && ltb d (b + suc n) then x else 0)
      joined b n d x = ground arith

  -- A pass loses nothing.
  pub total-by_digit :
      (f : Run → ℕ) (rs : List Run) → total f (by_digit shift 0 256 rs) ≡ total f rs
  total-by_digit f rs =
      total-in_range f 0 256 rs
      ∙ total-pointwise _ f (λ r. within (digit shift r) (f r) (digit-lt r)) rs
    where
      within : (d x : ℕ) → d < 256 → (if leb 0 d && ltb d (0 + 256) then x else 0) ≡ x
      within d x h = ground arith

  pub length-count_digits :
      (rs : List Run) (cs : List ℕ) → length (count_digits shift rs cs) ≡ length cs
  unfolding count_digits
  length-count_digits [] cs = refl
  length-count_digits (r ∷ rs) cs = length-count_digits rs _ ∙ length-set cs (digit shift r) _

  pub count_digits_lem :
      (rs : List Run) (cs : List ℕ) (j : ℕ)
      → length cs ≡ 256
      → ((k : ℕ) → byte_at cs k + length rs < 2 ^ 32)
      → byte_at (count_digits shift rs cs) j ≡ byte_at cs j + length (with_digit shift j rs)
  unfolding count_digits u32
  count_digits_lem [] cs j size small = omega arith
  count_digits_lem (r ∷ rs) cs j size small =
      let d = digit shift r in
      let next : (byte_at cs d + 1) % 2 ^ 32 ≡ byte_at cs d + 1 =
        let bound = small d in omega arith in
      let cs' = set cs d (byte_at cs d + 1) in
      let entry : (k : ℕ) → byte_at cs' k ≡ (if d == k then byte_at cs d + 1 else byte_at cs k) =
        λ k. get_or-set cs d k (byte_at cs d + 1) 0 (omega (arith, digit-lt r)) in
      let rest =
        count_digits_lem rs cs' j (length-set cs d (byte_at cs d + 1) ∙ size)
          (λ k. let bound = small k in let bound' = small d in let e = entry k in ground arith) in
      rw next (elim (Bool-cases (d == j)) [
        | inl e ↦
            let same : d ≡ j = ground arith in
            let here : byte_at cs' j ≡ byte_at cs j + 1 =
              entry j ∙ rw e (ap (λ i. byte_at cs i + 1) same) in
            rw e (omega (arith, rest, here))
        | inr e ↦
            let here : byte_at cs' j ≡ byte_at cs j = entry j ∙ rw e refl in
            rw e (omega (arith, rest, here))
      ])

  -- The target, cut at the counts.
  abbrev cut : List ℕ → List Run → List Stretch
  cut [] dst = []
  cut (c ∷ cs) dst = record { filled = []; free = take c dst } ∷ cut cs (drop c dst)

  abbrev sizes : List ℕ → ℕ
  sizes [] = 0
  sizes (c ∷ cs) = c + sizes cs

  layout-cut : (cs : List ℕ) (dst : List Run) → sizes cs ≡ length dst → layout (cut cs dst) ≡ dst
  layout-cut [] [] h = refl
  layout-cut [] (r ∷ dst) h = absurd (omega arith)
  layout-cut (c ∷ cs) dst h =
      ap (λ xs. take c dst ++ xs) (layout-cut cs (drop c dst) (omega (arith, length-drop c dst)))
      ∙ take-append-drop c dst

  heads-cut :
      (off : ℕ) (cs : List ℕ) (dst : List Run)
      → sizes cs ≡ length dst
      → off + sizes cs < 2 ^ 32
      → prefix_sums off cs ≡ heads off (cut cs dst)
  unfolding prefix_sums u32
  heads-cut off [] dst h small = refl
  heads-cut off (c ∷ cs) dst h small =
      let next : (off + c) % 2 ^ 32 ≡ off + 0 + length (take c dst) =
        omega (arith, length-take c dst) in
      let first : off ≡ off + 0 = omega arith in
      ap₂ (λ x y. x ∷ prefix_sums y cs) first next
      ∙ ap (λ hs. (off + 0) ∷ hs)
          (heads-cut (off + 0 + length (take c dst)) cs (drop c dst)
            (omega (arith, length-drop c dst)) (omega (arith, length-take c dst)))

  HasRoom-cut :
      (b : ℕ) (cs : List ℕ) (src dst : List Run)
      → sizes cs ≡ length dst
      → ((j : ℕ) → j < length cs → byte_at cs j ≡ length (with_digit shift (b + j) src))
      → HasRoom shift b src (cut cs dst)
  HasRoom-cut b [] src dst h counts = tt
  HasRoom-cut b (c ∷ cs) src dst h counts =
      let here : b + 0 ≡ b = omega arith in
      (
        omega (
          arith,
          length-take c dst,
          counts 0 (omega arith),
          ap (λ d. length (with_digit shift d src)) here,
        ),
        HasRoom-cut (b + 1) cs src (drop c dst) (omega (arith, length-drop c dst)) (λ j hj.
            let e : b + suc j ≡ b + 1 + j = omega arith in
            counts (suc j) (omega arith) ∙ ap (λ d. length (with_digit shift d src)) e),
      )

  completed-cut :
      (b : ℕ) (cs : List ℕ) (src dst : List Run)
      → completed shift b src (cut cs dst) ≡ by_digit shift b (length cs) src
  completed-cut b [] src dst = refl
  completed-cut b (c ∷ cs) src dst =
      ap (λ xs. with_digit shift b src ++ xs) (completed-cut (b + 1) cs src (drop c dst))

  sizes-counts :
      (b : ℕ) (cs : List ℕ) (src : List Run)
      → ((j : ℕ) → j < length cs → byte_at cs j ≡ length (with_digit shift (b + j) src))
      → sizes cs ≡ length (by_digit shift b (length cs) src)
  sizes-counts b [] src counts = refl
  sizes-counts b (c ∷ cs) src counts =
      let here : b + 0 ≡ b = omega arith in
      let rest = sizes-counts (b + 1) cs src (λ j hj.
        let e : b + suc j ≡ b + 1 + j = omega arith in
        counts (suc j) (omega arith) ∙ ap (λ d. length (with_digit shift d src)) e) in
      omega (
        arith,
        rest,
        counts 0 (omega arith),
        ap (λ d. length (with_digit shift d src)) here,
        length-append (with_digit shift b src) (by_digit shift (b + 1) (length cs) src),
      )

  length-total : (rs : List Run) → total (λ r. 1) rs ≡ length rs
  length-total [] = refl
  length-total (r ∷ rs) = omega (arith, length-total rs)

  pub length-by_digit : (rs : List Run) → length (by_digit shift 0 256 rs) ≡ length rs
  length-by_digit rs =
      sym (length-total (by_digit shift 0 256 rs)) ∙ total-by_digit (λ r. 1) rs ∙ length-total rs

  -- With the counts of the source's digits, whatever the target held, a pass is the records by digit.
  pub pass_lem :
      (cs : List ℕ) (src dst : List Run)
      → length cs ≡ 256
      → ((j : ℕ) → byte_at cs j ≡ length (with_digit shift j src))
      → length dst ≡ length src
      → length src < 2 ^ 32
      → scatter shift src (prefix_sums 0 cs) dst ≡ by_digit shift 0 256 src
  pass_lem cs src dst size counts same small =
      let counted : (j : ℕ) → j < length cs → byte_at cs j ≡ length (with_digit shift (0 + j) src) =
        λ j hj. let e : 0 + j ≡ j = omega arith in rw e (counts j) in
      let width = ap (λ n. by_digit shift 0 n src) size in
      let total_size : sizes cs ≡ length dst =
        sizes-counts 0 cs src counted ∙ ap length width ∙ length-by_digit src ∙ sym same in
      let whole = layout-cut cs dst total_size in
      ap₂ (scatter shift src) (heads-cut 0 cs dst total_size (omega arith)) (sym whole)
      ∙ scatter_lem shift src (cut cs dst) (λ r. omega (arith, digit-lt r, length-cut cs dst, size))
          (HasRoom-cut 0 cs src dst total_size counted) (omega (arith, ap length whole))
      ∙ completed-cut 0 cs src dst
      ∙ width
    where
      length-cut : (cs : List ℕ) (dst : List Run) → length (cut cs dst) ≡ length cs
      length-cut [] dst = refl
      length-cut (c ∷ cs) dst = ap suc (length-cut cs (drop c dst))
