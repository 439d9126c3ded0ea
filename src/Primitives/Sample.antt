-- ===== src/Primitives/Sample.antt =====
-- Toy functions with the documented sizes, at which the theorems are instantiated.
use dirtybird_go_gpu_miner.Prelude.{
  ℕ, suc, ◌+◌, ◌*◌, ◌%◌, ◌^◌, ◌<◌, ◌≡◌, refl, ap, List, [], ◌∷◌, arith, length, replicate, IsBytes,
}
use dirtybird_go_gpu_miner.Primitives.{Primitives, Documented}

abbrev checksum : List ℕ → ℕ
checksum [] = 7
checksum (x ∷ xs) = (checksum xs * 31 + x) % 2 ^ 64

abbrev toy_stream : ℕ → List ℕ → List ℕ
toy_stream seed [] = []
toy_stream seed (x ∷ xs) = (seed + x) % 256 ∷ toy_stream (seed * 5 % 256 + 1) xs

abbrev pub toy : Primitives
toy = record {
  sha256 = λ text. checksum text % 256 ∷ replicate 31 0;
  salsa = λ text counter key. toy_stream (checksum key % 256) text;
  fnv1a = checksum;
  xxhash = λ text. checksum (1 ∷ text);
  siphash = λ k0 k1 text. (k0 + k1 + checksum text) % 2 ^ 64;
}

checksum-lt : (text : List ℕ) → checksum text < 2 ^ 64
checksum-lt [] = omega arith
checksum-lt (x ∷ xs) = omega arith

length-toy_stream : (seed : ℕ) (text : List ℕ) → length (toy_stream seed text) ≡ length text
length-toy_stream seed [] = refl
length-toy_stream seed (x ∷ xs) = ap suc (length-toy_stream (seed * 5 % 256 + 1) xs)

toy_stream-IsBytes : (seed : ℕ) (text : List ℕ) → IsBytes (toy_stream seed text)
toy_stream-IsBytes seed [] = tt
toy_stream-IsBytes seed (x ∷ xs) = (omega arith, toy_stream-IsBytes (seed * 5 % 256 + 1) xs)

pub toy-Documented : Documented toy
toy-Documented = record {
  sha256-size = λ text. refl;
  salsa-size = λ text counter key. length-toy_stream (checksum key % 256) text;
  salsa-bytes = λ text counter key. toy_stream-IsBytes (checksum key % 256) text;
  fnv1a-word = checksum-lt;
  xxhash-word = λ text. checksum-lt (1 ∷ text);
  siphash-word = λ k0 k1 text. omega arith;
}
