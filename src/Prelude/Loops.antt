-- ===== src/Prelude/Loops.antt =====
-- `for i := lo; i < hi; i++` as a counted loop, with the invariant rule and the congruence rule
-- that its users need.
use Prim.Native.Nat.{ℕ, zero, suc, ◌+◌, ◌≤◌, ◌<◌}
use mathlib.Core.Path.{◌≡◌, refl, ◌∙◌, ap}
use native.Mathlib.Omega.{arith}

-- `count` rounds from index `i` on.
unfoldable pub for_range {ℓ} : {S : Type ℓ} → (ℕ → S → S) → ℕ → ℕ → S → S
for_range body zero i s = s
for_range body (suc count) i s = for_range body count (i + 1) (body i s)

-- Bodies that agree everywhere run alike.
pub for_range_cong {ℓ} :
    {S : Type ℓ} (f g : ℕ → S → S)
    → ((i : ℕ) (s : S) → f i s ≡ g i s)
    → (count i : ℕ) (s : S) → for_range f count i s ≡ for_range g count i s
unfolding for_range
for_range_cong f g e zero i s = refl
for_range_cong f g e (suc count) i s =
    for_range_cong f g e count (i + 1) (f i s) ∙ ap (for_range g count (i + 1)) (e i s)

-- What every round keeps, the loop keeps.
pub for_range_inv {ℓ κ} :
    {S : Type ℓ} (P : S → Type κ) (body : ℕ → S → S) (lo hi : ℕ)
    → ((i : ℕ) (s : S) → lo ≤ i → i < hi → P s → P (body i s))
    → (count i : ℕ) (s : S) → lo ≤ i
    → i + count ≤ hi
    → P s
    → P (for_range body count i s)
unfolding for_range
for_range_inv P body lo hi keep zero i s l h p = p
for_range_inv P body lo hi keep (suc count) i s l h p =
    for_range_inv P body lo hi keep count (i + 1) (body i s) (omega arith) (omega arith)
      (keep i s l (omega arith) p)
