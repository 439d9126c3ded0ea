-- ===== src/Rc4/Arrays.antt =====
-- The exchange of two entries of an array, and what it keeps.
use mathlib.Core.List.{Perm}
use mathlib.Core.List.Perm
use dirtybird_go_gpu_miner.Prelude.{
  ℕ, zero, suc, ◌<◌, ◌≡◌, ◌∙◌, List, [], ◌∷◌, arith, length, byte_at, set, get_or-set, length-set,
}

-- `a[i], a[j] = a[j], a[i]`: both are read before either is written.
unfoldable pub swap : List ℕ → ℕ → ℕ → List ℕ
swap a i j = set (set a i (byte_at a j)) j (byte_at a i)

pub length-swap : (a : List ℕ) (i j : ℕ) → length (swap a i j) ≡ length a
unfolding swap
length-swap a i j =
    length-set (set a i (byte_at a j)) j (byte_at a i) ∙ length-set a i (byte_at a j)

-- A write trades the old entry for the new one.
traded : (a : List ℕ) (i v : ℕ) → i < length a → Perm (byte_at a i ∷ set a i v) (v ∷ a)
traded [] i v h = absurd (omega arith)
traded (x ∷ a) zero v h = Perm.swap v x a
traded (x ∷ a) (suc i) v h =
    Perm.trans (Perm.swap x (byte_at a i) (set a i v))
      (Perm.trans (Perm.cons x (traded a i v (omega arith))) (Perm.swap v x a))

pub swap-perm : (a : List ℕ) (i j : ℕ) → i < length a → j < length a → Perm (swap a i j) a
unfolding swap
swap-perm a i j hi hj = Perm.cons_inv (Perm.trans second (traded a i (byte_at a j) hi))
  where
    unchanged : byte_at (set a i (byte_at a j)) j ≡ byte_at a j
    unchanged = ground (arith, get_or-set a i j (byte_at a j) 0)

    second : Perm (byte_at a j ∷ swap a i j) (byte_at a i ∷ set a i (byte_at a j))
    second = rw unchanged at (traded (set a i (byte_at a j)) j (byte_at a i) (rw length-set hj))
