-- ===== src/Primitives.antt =====
-- The hash functions that the code calls and does not implement: sha256-simd, salsa20, fnv1a,
-- xxhash and siphash are third-party packages. They are parameters of the model, with what their
-- documentation promises of the sizes of their results.
pub mod Sample
use dirtybird_go_gpu_miner.Prelude.{ℕ, ◌^◌, ◌<◌, ◌≡◌, List, length, IsBytes}

pub record Primitives : Type 0 where
  pub sha256 : List ℕ → List ℕ  -- sha256.Sum256
  pub salsa : List ℕ → List ℕ → List ℕ → List ℕ  -- salsa.XORKeyStream: in, counter, key
  pub fnv1a : List ℕ → ℕ  -- fnv1a.HashBytes64
  pub xxhash : List ℕ → ℕ  -- xxhash.Sum64
  pub siphash : ℕ → ℕ → List ℕ → ℕ  -- siphash.Hash: the two key halves and the text

pub record Documented (prim : Primitives) : Type 0 where
  pub sha256-size : (text : List ℕ) → length (prim.sha256 text) ≡ 32
  pub salsa-size : (text counter key : List ℕ) → length (prim.salsa text counter key) ≡ length text
  pub salsa-bytes : (text counter key : List ℕ) → IsBytes (prim.salsa text counter key)
  pub fnv1a-word : (text : List ℕ) → prim.fnv1a text < 2 ^ 64
  pub xxhash-word : (text : List ℕ) → prim.xxhash text < 2 ^ 64
  pub siphash-word : (k0 k1 : ℕ) (text : List ℕ) → prim.siphash k0 k1 text < 2 ^ 64
