-- ===== src/SuffixArray/Runs/Positions.antt =====
-- The positions that the records of the two forms stand for, and a growing arena.
use dirtybird_go_gpu_miner.Prelude.{
  ℕ, zero, suc, ◌+◌, ◌*◌, ◌/◌, ◌%◌, ◌^◌, ◌≤◌, ◌<◌, ◌≡◌, inl, inr, refl, sym, ap, ◌∙◌, arith, List,
  [], ◌∷◌, ◌++◌, true, false, ◌==◌, if◌then◌else◌, length, byte_at, drop, bit_and, Bool-cases,
}
use dirtybird_go_gpu_miner.Prelude.Bits.{bit_and_low}
use dirtybird_go_gpu_miner.Word.{u32}
use dirtybird_go_gpu_miner.SuffixArray.Suffixes.{drop-byte_at}
use dirtybird_go_gpu_miner.SuffixArray.Runs.{
  Run, encoded_count, is_literal, begin, count, fused_run_pos, positions_from, run_positions,
}

pub literal_parts :
    (k p : ℕ)
    → p < 2 ^ 17
    → (is_literal (record { key = k; packed = p }) ≡ true)
      × (begin (record { key = k; packed = p }) ≡ p)
      × (count (record { key = k; packed = p }) ≡ 1)
unfolding is_literal begin count encoded_count
literal_parts k p h =
    let none_counted : p / 2 ^ 17 ≡ 0 = omega arith in
    let shifted : p ≡ 0 * 2 ^ 17 + p = omega arith in
    (
      rw none_counted refl,
      ap (λ x. bit_and x 0x1ffff) shifted ∙ bit_and_low 17 0 p h,
      rw none_counted refl,
    )

pub literal_positions :
    (arena : List ℕ) (k p : ℕ)
    → p < 2 ^ 17
    → run_positions arena (record { key = k; packed = p }) ≡ p ∷ []
unfolding run_positions fused_run_pos
literal_positions arena k p h =
    let parts = literal_parts k p h in rw (parts.2, parts.0, parts.1) refl

-- The record of a group: its count and the begin of its positions.
pub packed_parts :
    (k n start : ℕ)
    → 2 ≤ n
    → n < 2 ^ 15
    → start < 2 ^ 17
    → (let r : Run = record { key = k; packed = u32 (u32 (n * 2 ^ 17) + start) } in
        (is_literal r ≡ false) × (begin r ≡ start) × (count r ≡ n))
unfolding is_literal begin count encoded_count u32
packed_parts k n start low high room =
    let plain : (n * 2 ^ 17 % 2 ^ 32 + start) % 2 ^ 32 ≡ n * 2 ^ 17 + start = omega arith in
    let counted : (n * 2 ^ 17 + start) / 2 ^ 17 ≡ n = omega arith in
    let more : (n == 0) ≡ false = ground arith in
    (
      ap (λ x. x / 2 ^ 17 == 0) plain ∙ ap (λ x. x == 0) counted ∙ more,
      ap (λ x. bit_and x 0x1ffff) plain ∙ bit_and_low 17 n start room,
      ap (λ x. if x / 2 ^ 17 == 0 then 1 else x / 2 ^ 17) plain
          ∙ ap (λ x. if x == 0 then 1 else x) counted
          ∙ rw more refl,
    )

byte_at-append_left : (xs ys : List ℕ) (i : ℕ) → i < length xs → byte_at (xs ++ ys) i ≡ byte_at xs i
byte_at-append_left [] ys i h = absurd (omega arith)
byte_at-append_left (x ∷ xs) ys zero h = refl
byte_at-append_left (x ∷ xs) ys (suc i) h = byte_at-append_left xs ys i (omega arith)

byte_at-append_right : (xs ys : List ℕ) (i : ℕ) → byte_at (xs ++ ys) (length xs + i) ≡ byte_at ys i
byte_at-append_right [] ys i = ap (byte_at ys) (omega arith)
byte_at-append_right (x ∷ xs) ys i =
    let e : suc (length xs) + i ≡ suc (length xs + i) = omega arith in
    rw e (byte_at-append_right xs ys i)

module _ (arena more : List ℕ) (r : Run) where
  positions_from-append :
      (rel n : ℕ)
      → (is_literal r ≡ false → begin r + (rel + n) ≤ length arena)
      → positions_from (arena ++ more) r rel n ≡ positions_from arena r rel n
  unfolding fused_run_pos
  positions_from-append rel zero h = refl
  positions_from-append rel (suc n) h =
      let rest = positions_from-append (rel + 1) n (λ e. let b = h e in omega arith) in
      elim (Bool-cases (is_literal r)) [
        | inl e ↦ rw (e, rest) refl
        | inr e ↦
            let b = h e in
            rw (e, rest, byte_at-append_left arena more (begin r + rel) (omega arith)) refl
      ]

  -- A growing arena does not change the records there are.
  pub run_positions-append :
      (is_literal r ≡ false → begin r + count r ≤ length arena)
      → run_positions (arena ++ more) r ≡ run_positions arena r
  unfolding run_positions
  run_positions-append h = positions_from-append 0 (count r) (λ e. let b = h e in omega arith)

drop_all : (xs : List ℕ) (n : ℕ) → n ≡ length xs → drop n xs ≡ []
drop_all [] zero e = refl
drop_all [] (suc n) e = refl
drop_all (x ∷ xs) zero e = absurd (omega arith)
drop_all (x ∷ xs) (suc n) e = drop_all xs n (omega arith)

-- The positions of an appended group are the group.
positions_from-group :
    (arena order : List ℕ) (r : Run) (rel n : ℕ)
    → is_literal r ≡ false
    → begin r ≡ length arena
    → rel + n ≡ length order
    → positions_from (arena ++ order) r rel n ≡ drop rel order
unfolding fused_run_pos
positions_from-group arena order r rel zero e b h = sym (drop_all order rel (omega arith))
positions_from-group arena order r rel (suc n) e b h =
    rw
      (
        e,
        b,
        byte_at-append_right arena order rel,
        positions_from-group arena order r (rel + 1) n e b (omega arith),
      )
      (sym (drop-byte_at order rel (omega arith)))

pub group_positions :
    (arena order : List ℕ) (k : ℕ)
    → 2 ≤ length order
    → length order < 2 ^ 15
    → length arena < 2 ^ 17
    → run_positions
        (arena ++ order)
        (record { key = k; packed = u32 (u32 (length order * 2 ^ 17) + length arena) })
      ≡ order
unfolding run_positions
group_positions arena order k low high room =
    let parts = packed_parts k (length order) (length arena) low high room in
    rw parts.2 (
      positions_from-group arena order
        (record { key = k; packed = u32 (u32 (length order * 2 ^ 17) + length arena) }) 0
        (length order) parts.0 parts.1 (omega arith))
