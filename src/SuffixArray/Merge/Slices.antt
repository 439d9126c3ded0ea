-- ===== src/SuffixArray/Merge/Slices.antt =====
-- The positions of records: literals, slices of the arena, and the writes that fit.
use dirtybird_go_gpu_miner.Prelude.{
  ℕ, zero, suc, ◌+◌, ◌/◌, ◌^◌, ◌≤◌, ◌<◌, ◌≡◌, ◌⊎◌, inl, inr, refl, sym, ap, ◌∙◌, arith, List, [],
  ◌∷◌, ◌++◌, map, length, take, drop, byte_at, true, false, ltb, Bool-cases, none, some, returned,
}
use dirtybird_go_gpu_miner.SuffixArray.Suffixes.{drop-byte_at}
use dirtybird_go_gpu_miner.SuffixArray.Sorting.{total, total-append}
use dirtybird_go_gpu_miner.SuffixArray.Runs.{
  Run, encoded_count, is_literal, begin, count, fused_run_pos, positions_from, run_positions,
}
use dirtybird_go_gpu_miner.SuffixArray.Runs.Positions.{literal_positions}
use dirtybird_go_gpu_miner.SuffixArray.Merge.{
  literal_group, group_pos, write_checked, write_unchecked,
}

-- A literal record is its position, another one its slice of the arena.
literal_short : (r : Run) → is_literal r ≡ true → r.packed < 2 ^ 17
unfolding is_literal encoded_count
literal_short r e = let q : r.packed / 2 ^ 17 ≡ 0 = ground arith in omega arith

pub packed_positions :
    (arena : List ℕ) (r : Run) → is_literal r ≡ true → run_positions arena r ≡ r.packed ∷ []
packed_positions arena r e = literal_positions arena r.key r.packed (literal_short r e)

literal_count : (r : Run) → is_literal r ≡ true → count r ≡ 1
unfolding count is_literal
literal_count r e = rw e refl

begin_positions :
    (arena : List ℕ) (r : Run) → is_literal r ≡ true → run_positions arena r ≡ begin r ∷ []
unfolding run_positions fused_run_pos
begin_positions arena r e = rw (literal_count r e, e) refl

slice_from :
    (arena : List ℕ) (r : Run) (rel n : ℕ)
    → is_literal r ≡ false
    → begin r + rel + n ≤ length arena
    → positions_from arena r rel n ≡ take n (drop (begin r + rel) arena)
unfolding fused_run_pos
slice_from arena r rel zero e h = refl
slice_from arena r rel (suc n) e h =
    let next : begin r + (rel + 1) ≡ begin r + rel + 1 = omega arith in
    rw (e, drop-byte_at arena (begin r + rel) (omega arith))
      (ap (λ ps. byte_at arena (begin r + rel) ∷ ps)
        (slice_from arena r (rel + 1) n e (omega arith) ∙ ap (λ i. take n (drop i arena)) next))

pub slice_positions :
    (arena : List ℕ) (r : Run)
    → is_literal r ≡ false
    → begin r + count r ≤ length arena
    → take (count r) (drop (begin r) arena) ≡ run_positions arena r
unfolding run_positions
slice_positions arena r e h =
    let start : begin r ≡ begin r + 0 = omega arith in
    ap (λ i. take (count r) (drop i arena)) start
    ∙ sym (slice_from arena r 0 (count r) e (omega arith))

-- A group of literals only.
pub literal_group-cases :
    (arena : List ℕ) (rs : List Run)
    → (literal_group rs ≡ none)
      ⊎ (literal_group rs ≡ some (group_pos (map (run_positions arena) rs)))
unfolding literal_group group_pos
literal_group-cases arena [] = inr refl
literal_group-cases arena (r ∷ rs) = elim (Bool-cases (is_literal r)) [
  | inr e ↦ inl (rw e refl)
  | inl e ↦ elim (literal_group-cases arena rs) [
    | inl none_ ↦ inl (rw (e, none_) refl)
    | inr some_ ↦ inr (rw (e, some_, begin_positions arena r e) refl)
  ]
]

pub total-group_pos :
    (f : ℕ → ℕ) (arena : List ℕ) (rs : List Run)
    → total f (group_pos (map (run_positions arena) rs))
      ≡ total (λ r. total f (run_positions arena r)) rs
unfolding group_pos
total-group_pos f arena [] = refl
total-group_pos f arena (r ∷ rs) =
    total-append f (run_positions arena r) _
    ∙ ap (λ t. total f (run_positions arena r) + t) (total-group_pos f arena rs)

pub write_fits :
    (size : ℕ) (sa ps : List ℕ)
    → length sa + length ps ≤ size
    → (write_checked size sa ps ≡ returned (some (sa ++ ps)))
      × (write_unchecked size sa ps ≡ returned (some (sa ++ ps)))
unfolding write_checked write_unchecked
write_fits size sa ps h =
    let e : ltb size (length sa + length ps) ≡ false = ground arith in rw e (refl, refl)
