-- ===== src/Miner/Target.antt =====
-- internal/miner/difficulty.go: the target of a difficulty, and the test of a hash against it.
use dirtybird_go_gpu_miner.Prelude.{
  ℕ, zero, suc, ◌+◌, ◌-◌, ◌/◌, ◌%◌, ◌^◌, List, [], ◌∷◌, Bool, true, false, ltb, ◌==◌, if◌then◌else◌,
  byte_at, replicate,
}

-- `FillBytes` of a big.Int into `width` bytes, the highest first.
unfoldable pub fill_bytes : ℕ → ℕ → List ℕ
fill_bytes zero v = []
fill_bytes (suc width) v = v / 256 ^ width % 256 ∷ fill_bytes width v

-- `ComputeTarget`
unfoldable pub compute_target : ℕ → List ℕ
unfolding fill_bytes
compute_target diff =
    if diff == 0
    then replicate 32 0
    else if diff == 1
    then replicate 32 0xff
    else fill_bytes 32 (2 ^ 256 / diff)

-- The loop of `MeetsTarget` with `left` rounds to go; `i` is `32 - left`.
unfoldable pub meets_from : List ℕ → List ℕ → ℕ → ℕ → Bool
meets_from pow target zero i = true
meets_from pow target (suc left) i =
    let p = byte_at pow (31 - i) in
    let t = byte_at target i in
    let rest = meets_from pow target left (i + 1) in
    if ltb p t then true else if ltb t p then false else rest

-- `MeetsTarget`
unfoldable pub meets_target : List ℕ → List ℕ → Bool
unfolding meets_from
meets_target pow target = meets_from pow target 32 0
