-- ===== src/SuffixArray/Merge/Counting.antt =====
-- One pass of the counting sort is the records by digit, each digit's in their old order. The array
-- is seen as 256 stretches, each filled from its left end.
use dirtybird_go_gpu_miner.Prelude.{
  ℕ, zero, suc, ◌+◌, ◌-◌, ◌%◌, ◌^◌, ◌≤◌, ◌<◌, ◌≡◌, ◌≢◌, refl, sym, ap, ap₂, ◌∙◌, arith, List, [],
  ◌∷◌, ◌++◌, append_assoc, length, length-append, length-set, drop, length-drop, set, byte_at, true,
  false, ◌==◌, if◌then◌else◌,
}
use dirtybird_go_gpu_miner.Word.{u32}
use dirtybird_go_gpu_miner.SuffixArray.Runs.{Run}
use dirtybird_go_gpu_miner.SuffixArray.Merge.{digit, scatter}

-- The records with one digit, and those of the digits from `d` on.
abbrev pub with_digit : ℕ → ℕ → List Run → List Run
with_digit shift d [] = []
with_digit shift d (r ∷ rs) =
    let rest = with_digit shift d rs in if digit shift r == d then r ∷ rest else rest

abbrev pub by_digit : ℕ → ℕ → ℕ → List Run → List Run
by_digit shift d zero rs = []
by_digit shift d (suc n) rs = with_digit shift d rs ++ by_digit shift (d + 1) n rs

-- A stretch of the target: what is filled and what is free.
pub record Stretch : Type 0 where
  pub filled : List Run
  pub free : List Run

abbrev pub layout : List Stretch → List Run
layout [] = []
layout (s ∷ ss) = s.filled ++ (s.free ++ layout ss)

-- The next free places, from `off` on.
abbrev pub heads : ℕ → List Stretch → List ℕ
heads off [] = []
heads off (s ∷ ss) = (off + length s.filled) ∷ heads (off + length s.filled + length s.free) ss

abbrev fill : Run → Stretch → Stretch
fill r s = record { filled = s.filled ++ (r ∷ []); free = drop 1 s.free }

abbrev place : ℕ → Run → List Stretch → List Stretch
place d r [] = []
place zero r (s ∷ ss) = fill r s ∷ ss
place (suc d) r (s ∷ ss) = s ∷ place d r ss

-- A stretch has room for what is to come.
abbrev pub HasRoom : ℕ → ℕ → List Run → List Stretch → Type 0
HasRoom shift d rs [] = Unit
HasRoom shift d rs (s ∷ ss) =
    (length s.free ≡ length (with_digit shift d rs)) × HasRoom shift (d + 1) rs ss

set-append_right :
    (xs ys : List Run) (i : ℕ) (r : Run) → set (xs ++ ys) (length xs + i) r ≡ xs ++ set ys i r
set-append_right [] ys i r = ap (λ k. set ys k r) (omega arith)
set-append_right (x ∷ xs) ys i r =
    let e : suc (length xs) + i ≡ suc (length xs + i) = omega arith in
    rw e (ap (λ zs. x ∷ zs) (set-append_right xs ys i r))

heads-ge : (off d : ℕ) (ss : List Stretch) → d < length ss → off ≤ byte_at (heads off ss) d
heads-ge off d [] h = absurd (omega arith)
heads-ge off zero (s ∷ ss) h = omega arith
heads-ge off (suc d) (s ∷ ss) h =
    omega (arith, heads-ge (off + length s.filled + length s.free) d ss (omega arith))

module _ (shift : ℕ) where
  other_digit :
      (r : Run) (rs : List Run) (d : ℕ)
      → digit shift r ≢ d
      → with_digit shift d (r ∷ rs) ≡ with_digit shift d rs
  other_digit r rs d h = let e : (digit shift r == d) ≡ false = ground arith in rw e refl

  same_digit :
      (r : Run) (rs : List Run) (d : ℕ)
      → digit shift r ≡ d
      → with_digit shift d (r ∷ rs) ≡ r ∷ with_digit shift d rs
  same_digit r rs d h = let e : (digit shift r == d) ≡ true = ground arith in rw e refl

  room_later :
      (b : ℕ) (r : Run) (rs : List Run) (ss : List Stretch)
      → digit shift r < b
      → HasRoom shift b (r ∷ rs) ss
      → HasRoom shift b rs ss
  room_later b r rs [] h room = tt
  room_later b r rs (s ∷ ss) h room = (
    room.0 ∙ ap length (other_digit r rs b (λ e. omega arith)),
    room_later (b + 1) r rs ss (omega arith) room.1,
  )

  module _ (r : Run) (rs : List Run) where
    room-place :
        (d b : ℕ) (ss : List Stretch)
        → digit shift r ≡ b + d
        → HasRoom shift b (r ∷ rs) ss
        → HasRoom shift b rs (place d r ss)
    room-place d b [] e room = tt
    room-place zero b (s ∷ ss) e room = (
      omega (arith, length-drop 1 s.free, room.0, ap length (same_digit r rs b (omega arith))),
      room_later (b + 1) r rs ss (omega arith) room.1,
    )
    room-place (suc d) b (s ∷ ss) e room = (
      room.0 ∙ ap length (other_digit r rs b (λ q. omega arith)),
      room-place d (b + 1) ss (omega arith) room.1,
    )

    heads-place :
        (d b off : ℕ) (ss : List Stretch)
        → digit shift r ≡ b + d
        → d < length ss
        → HasRoom shift b (r ∷ rs) ss
        → set (heads off ss) d (byte_at (heads off ss) d + 1) ≡ heads off (place d r ss)
    heads-place d b off [] e h room = absurd (omega arith)
    heads-place zero b off (s ∷ ss) e h room =
        let free : 0 < length s.free =
          omega (arith, room.0, ap length (same_digit r rs b (omega arith))) in
        let filled = length-append s.filled (r ∷ []) in
        let here : off + length s.filled + 1 ≡ off + length (s.filled ++ (r ∷ [])) =
          omega (arith, filled) in
        let after : off + length s.filled + length s.free
            ≡ off + length (s.filled ++ (r ∷ [])) + length (drop 1 s.free) =
          omega (arith, filled, length-drop 1 s.free) in
        ap₂ (λ x y. x ∷ heads y ss) here after
    heads-place (suc d) b off (s ∷ ss) e h room =
        ap (λ hs. (off + length s.filled) ∷ hs)
          (heads-place d (b + 1) (off + length s.filled + length s.free) ss (omega arith)
            (omega arith) room.1)

    layout-place :
        (d b off : ℕ) (ss : List Stretch)
        → digit shift r ≡ b + d
        → d < length ss
        → HasRoom shift b (r ∷ rs) ss
        → (set (layout ss) (byte_at (heads off ss) d - off) r ≡ layout (place d r ss))
          × (byte_at (heads off ss) d < off + length (layout ss))
    layout-place d b off [] e h room = absurd (omega arith)
    layout-place zero b off (s ∷ ss) e h room =
        let free : 0 < length s.free =
          omega (arith, room.0, ap length (same_digit r rs b (omega arith))) in
        let at : off + length s.filled - off ≡ length s.filled + 0 = omega arith in
        (
          ap (λ i. set (layout (s ∷ ss)) i r) at
              ∙ set-append_right s.filled (s.free ++ layout ss) 0 r
              ∙ ap (λ xs. s.filled ++ xs) (first s.free (layout ss) free)
              ∙ sym (append_assoc s.filled (r ∷ []) (drop 1 s.free ++ layout ss)),
          omega (
            arith,
            length-append s.filled (s.free ++ layout ss),
            length-append s.free (layout ss),
          ),
        )
      where
        first : (xs ys : List Run) → 0 < length xs → set (xs ++ ys) 0 r ≡ r ∷ (drop 1 xs ++ ys)
        first [] ys q = absurd (omega arith)
        first (x ∷ xs) ys q = refl
    layout-place (suc d) b off (s ∷ ss) e h room =
        let off' = off + length s.filled + length s.free in
        let at = byte_at (heads off' ss) d in
        let ge = heads-ge off' d ss (omega arith) in
        let split : at - off ≡ length s.filled + (length s.free + (at - off')) = omega arith in
        let rest = layout-place d (b + 1) off' ss (omega arith) (omega arith) room.1 in
        (
          ap (λ i. set (layout (s ∷ ss)) i r) split
              ∙ set-append_right s.filled (s.free ++ layout ss) (length s.free + (at - off')) r
              ∙ ap (λ xs. s.filled ++ xs)
                  (set-append_right s.free (layout ss) (at - off') r
                    ∙ ap (λ xs. s.free ++ xs) rest.0),
          omega (
            arith,
            rest.1,
            length-append s.filled (s.free ++ layout ss),
            length-append s.free (layout ss),
          ),
        )

  -- What the stretches hold at the end.
  abbrev pub completed : ℕ → List Run → List Stretch → List Run
  completed b rs [] = []
  completed b rs (s ∷ ss) = s.filled ++ (with_digit shift b rs ++ completed (b + 1) rs ss)

  completed_later :
      (b : ℕ) (r : Run) (rs : List Run) (ss : List Stretch)
      → digit shift r < b
      → completed b (r ∷ rs) ss ≡ completed b rs ss
  completed_later b r rs [] h = refl
  completed_later b r rs (s ∷ ss) h =
      ap₂ (λ x y. s.filled ++ (x ++ y)) (other_digit r rs b (λ e. omega arith))
        (completed_later (b + 1) r rs ss (omega arith))

  completed-place :
      (d b : ℕ) (r : Run) (rs : List Run) (ss : List Stretch)
      → digit shift r ≡ b + d
      → completed b (r ∷ rs) ss ≡ completed b rs (place d r ss)
  completed-place d b r rs [] e = refl
  completed-place zero b r rs (s ∷ ss) e =
      ap₂ (λ x y. s.filled ++ (x ++ y)) (same_digit r rs b (omega arith))
        (completed_later (b + 1) r rs ss (omega arith))
      ∙ sym (append_assoc s.filled (r ∷ []) (with_digit shift b rs ++ completed (b + 1) rs ss))
  completed-place (suc d) b r rs (s ∷ ss) e =
      ap₂ (λ x y. s.filled ++ (x ++ y)) (other_digit r rs b (λ q. omega arith))
        (completed-place d (b + 1) r rs ss (omega arith))

  completed_all :
      (b : ℕ) (ss : List Stretch) → HasRoom shift b [] ss → layout ss ≡ completed b [] ss
  completed_all b [] room = refl
  completed_all b (s ∷ ss) room =
      ap₂ (λ x y. s.filled ++ (x ++ y)) (empty s.free room.0) (completed_all (b + 1) ss room.1)
    where
      empty : (xs : List Run) → length xs ≡ 0 → xs ≡ []
      empty [] e = refl
      empty (x ∷ xs) e = absurd (omega arith)

  length-place : (d : ℕ) (r : Run) (ss : List Stretch) → length (place d r ss) ≡ length ss
  length-place d r [] = refl
  length-place zero r (s ∷ ss) = refl
  length-place (suc d) r (s ∷ ss) = ap suc (length-place d r ss)

  pub scatter_lem :
      (rs : List Run) (ss : List Stretch)
      → ((r : Run) → digit shift r < length ss)
      → HasRoom shift 0 rs ss
      → length (layout ss) < 2 ^ 32
      → scatter shift rs (heads 0 ss) (layout ss) ≡ completed 0 rs ss
  unfolding scatter u32
  scatter_lem [] ss digits room small = completed_all 0 ss room
  scatter_lem (r ∷ rs) ss digits room small =
      let d = digit shift r in
      let at = byte_at (heads 0 ss) d in
      let placed = layout-place r rs d 0 0 ss (omega arith) (digits r) room in
      let next : (at + 1) % 2 ^ 32 ≡ at + 1 = omega (arith, placed.1) in
      let from_start : at ≡ at - 0 = omega arith in
      let target : set (layout ss) at r ≡ layout (place d r ss) =
        ap (λ i. set (layout ss) i r) from_start ∙ placed.0 in
      let size : length (layout (place d r ss)) ≡ length (layout ss) =
        sym (ap length target) ∙ length-set (layout ss) at r in
      rw next (
        ap₂ (scatter shift rs) (heads-place r rs d 0 0 ss (omega arith) (digits r) room) target
        ∙ scatter_lem rs (place d r ss) (λ q. omega (arith, digits q, length-place d r ss))
            (room-place r rs d 0 ss (omega arith) room) (omega arith)
        ∙ sym (completed-place d 0 r rs ss (omega arith)))
