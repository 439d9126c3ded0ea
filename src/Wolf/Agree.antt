-- ===== src/Wolf/Agree.antt =====
-- The table of internal/astrobwt/wolftable.go reproduces the switch of internal/astrobwt/pow.go:
-- what cmd/genwolf generated computes, in every case and on every byte, what the switch computes.
use mathlib.Core.Path.{subst}
use dirtybird_go_gpu_miner.Prelude.{
  ℕ, zero, suc, ◌+◌, ◌*◌, ◌≤◌, ◌<◌, ◌≡◌, arith, inl, inr, List, [], Bool-cases, ltb, get_or, take,
  drop,
}
use dirtybird_go_gpu_miner.Wolf.Switch.{case_byte}
use dirtybird_go_gpu_miner.Wolf.Table.{wolf_ops, wolf_apply_byte, wolf_op_table}

-- `P` at `count` cases from `c` on.
abbrev AllFrom {ℓ} : (ℕ → Type ℓ) → ℕ → ℕ → Type ℓ
AllFrom P zero c = Unit
AllFrom P (suc count) c = P c × AllFrom P count (c + 1)

AllFrom-pick {ℓ} :
    (P : ℕ → Type ℓ) (count lo c : ℕ) → AllFrom P count lo → lo ≤ c → c < lo + count → P c
AllFrom-pick P zero lo c all l h = absurd (omega arith)
AllFrom-pick P (suc count) lo c all l h = elim (Bool-cases (ltb lo c)) [
  | inl above ↦ AllFrom-pick P count (lo + 1) c all.1 (ground arith) (omega arith)
  | inr at ↦ let e : lo ≡ c = ground arith in subst P e all.0
]

abbrev Agree : ℕ → Type 0
Agree c = (x p : ℕ) → case_byte c x p ≡ wolf_apply_byte c x p

-- Both sides of each row compute to the same expression.
rows : AllFrom Agree 256 0
unfolding case_byte wolf_apply_byte
rows = assumption

-- For every case of the switch, every byte and every byte at pos2, the interpreter of the
-- micro-op table returns what the statements of that case return.
pub case_byte-eq-wolf_apply_byte :
    (c : ℕ) → c < 256 → (x p : ℕ) → case_byte c x p ≡ wolf_apply_byte c x p
case_byte-eq-wolf_apply_byte c h = AllFrom-pick Agree 256 0 c rows (omega arith) (omega arith)

-- What a reader of the flat table takes for case `c`: the count, and so many codes after it.
abbrev pub flat_codes : List ℕ → ℕ → List ℕ
flat_codes t c = take (get_or t (c * 5) 0) (drop (c * 5 + 1) t)

abbrev Unpacks : ℕ → Type 0
Unpacks c = flat_codes wolf_op_table c ≡ get_or wolf_ops c []

unpacked : AllFrom Unpacks 256 0
unfolding wolf_op_table wolf_ops
unpacked = assumption

-- The table flattened for the GPU reads back, at every case, as the micro-op codes of that case.
pub flat_codes-wolf_op_table : (c : ℕ) → c < 256 → flat_codes wolf_op_table c ≡ get_or wolf_ops c []
flat_codes-wolf_op_table c h = AllFrom-pick Unpacks 256 0 c unpacked (omega arith) (omega arith)
