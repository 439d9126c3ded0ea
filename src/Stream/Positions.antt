-- ===== src/Stream/Positions.antt =====
-- The window of a round: `pos1` and `pos2` are bytes in order, at most 32 apart.
use dirtybird_go_gpu_miner.Prelude.{
  ℕ, ◌+◌, ◌-◌, ◌/◌, ◌%◌, ◌^◌, ◌≤◌, ◌<◌, arith, ltb, Bool-cases, inl, inr,
}
use dirtybird_go_gpu_miner.Prelude.Bits.{bit_and-le}
use dirtybird_go_gpu_miner.Word.{add8, sub8}
use dirtybird_go_gpu_miner.Stream.Mix.{Window, ordered, narrowed, window}

abbrev InOrder : Window → Type 0
InOrder w = (w.pos1 ≤ w.pos2) × (w.pos2 ≤ 255)

ordered-InOrder : (a b : ℕ) → a < 256 → b < 256 → InOrder (ordered a b)
unfolding ordered
ordered-InOrder a b ha hb = elim (Bool-cases (ltb b a)) [
  | inl e ↦ rw e (ground arith, omega arith)
  | inr e ↦ rw e (ground arith, omega arith)
]

narrowed_bounds :
    (w : Window) → InOrder w → InOrder (narrowed w) × ((narrowed w).pos2 ≤ (narrowed w).pos1 + 32)
unfolding narrowed sub8 add8
narrowed_bounds w h = elim (Bool-cases (ltb 32 ((w.pos2 + 2 ^ 8 - w.pos1) % 2 ^ 8))) [
  | inl e ↦ rw e (
      let mask = bit_and-le 8 ((w.pos2 + 2 ^ 8 - w.pos1) % 2 ^ 8) 0x1f (omega arith) in
      ((ground (arith, mask), ground (arith, mask)), ground (arith, mask)))
  | inr e ↦ rw e (h, ground arith)
]

-- Whatever the switcher, `pos1 ≤ pos2 ≤ 255`, and the window spans at most 32 bytes.
pub window_bounds :
    (switcher : ℕ)
    → let w = window switcher in (w.pos1 ≤ w.pos2) × (w.pos2 ≤ 255) × (w.pos2 ≤ w.pos1 + 32)
unfolding window
window_bounds switcher =
    let o =
      ordered-InOrder (switcher / 2 ^ 8 % 256) (switcher / 2 ^ 16 % 256) (omega arith)
        (omega arith) in
    let n = narrowed_bounds _ o in (n.0.0, n.0.1, n.1)
